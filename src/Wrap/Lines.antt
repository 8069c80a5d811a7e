-- ===== src/Wrap/Lines.antt =====
-- wrap.ts: `onLines`, which cuts a stream into lines however its chunks arrive. A text is its code points.
pub mod Framed
use mcp_authz.Base.{ℕ, List, [], ◌∷◌, ◌++◌, nat_eq, if◌then◌else◌}

abbrev pub Text : Type 0
Text = List ℕ

-- `line.replace(/\r$/, '')`
unfoldable pub without_return : Text → Text
without_return [] = []
without_return (c ∷ []) = if nat_eq c b'\r' then [] else c ∷ []
without_return (c ∷ d ∷ rest) = c ∷ without_return (d ∷ rest)

-- What is buffered, and the lines that were handed on.
pub record Reading : Type 0 where
  pub buffered : Text
  pub lines : List Text

-- The loop on `buffered.indexOf('\n')`, past `before`, which holds no end of line.
pub cut : Text → Text → Reading
cut before [] = record { buffered = before; lines = [] }
cut before (c ∷ rest) =
    let ended = cut [] rest in
    let longer = cut (before ++ c ∷ []) rest in
    if nat_eq c b'\n' then record ended { lines = without_return before ∷ ended.lines } else longer

-- What the handler of `data` does with a chunk.
pub on_data : Reading → Text → Reading
on_data r chunk =
    let next = cut [] (r.buffered ++ chunk) in record next { lines = r.lines ++ next.lines }

-- What the handler of `end` does.
pub on_end : Reading → List Text
on_end r = elim r.buffered [ [] ↦ r.lines | c ∷ rest ↦ r.lines ++ without_return (c ∷ rest) ∷ [] ]

-- The chunks of a stream that has not ended.
pub on_chunks : Reading → List Text → Reading
on_chunks r [] = r
on_chunks r (chunk ∷ chunks) = on_chunks (on_data r chunk) chunks

-- `onLines`, over the chunks of a stream that ends.
pub on_lines : List Text → List Text
on_lines chunks = on_end (on_chunks (record { buffered = []; lines = [] }) chunks)
