-- ===== src/WrapConfig/Jsonc.antt =====
-- wrap-config.ts: `parseJsonc`, JSON with comments and trailing commas, read from the left.
use mcp_authz.Base.{ℕ, Bool, ◌||◌, String, List, [], ◌∷◌, Result, nat_eq, or_else, if◌then◌else◌}
use mcp_authz.Base.Chars.{codes, text_of?}
use mcp_authz.Json.{Json}
use mcp_authz.Scopes.{is_space}

-- Where the loop stands: between values, after a slash that may open a comment, in a string, after a backslash in one,
-- in a comment to the end of the line, in one to its closing slash, and after a star in such a one.
pub data Mode : Type 0 where
  plain slash inside escaped line block star : Mode

-- The mode, and what has been written so far, the last character first.
pub record Scan : Type 0 where
  pub mode : Mode
  pub out : List ℕ

unfoldable pub skip_spaces : List ℕ → List ℕ
skip_spaces [] = []
skip_spaces (c ∷ cs) = let rest = skip_spaces cs in if is_space c then rest else c ∷ cs

abbrev less_comma : List ℕ → List ℕ → List ℕ
less_comma out [] = out
less_comma out (c ∷ cs) = if nat_eq c b',' then cs else out

-- `out.replace(/,\s*$/, '')`
unfoldable pub without_comma : List ℕ → List ℕ
without_comma out = less_comma out (skip_spaces out)

abbrev closes : ℕ → Bool
closes c = nat_eq c b']' || nat_eq c b'}'

abbrev in_plain : List ℕ → ℕ → Scan
in_plain out c =
    if nat_eq c b'"'
    then record { mode = inside; out = c ∷ out }
    else if nat_eq c b'/'
    then record { mode = slash; out = out }
    else if closes c
    then record { mode = plain; out = c ∷ without_comma out }
    else record { mode = plain; out = c ∷ out }

-- One character.
unfoldable pub step : Mode → List ℕ → ℕ → Scan
step Mode.plain out c = in_plain out c
step Mode.slash out c =
    if nat_eq c b'/'
    then record { mode = line; out = out }
    else if nat_eq c b'*'
    then record { mode = block; out = out }
    else in_plain (b'/' ∷ out) c
step Mode.inside out c =
    if nat_eq c b'\\'
    then record { mode = escaped; out = c ∷ out }
    else if nat_eq c b'"'
    then record { mode = plain; out = c ∷ out }
    else record { mode = inside; out = c ∷ out }
step Mode.escaped out c = record { mode = inside; out = c ∷ out }
step Mode.line out c =
    if nat_eq c b'\n'
    then record { mode = plain; out = c ∷ out }
    else record { mode = line; out = out }
step Mode.block out c =
    if nat_eq c b'*' then record { mode = star; out = out } else record { mode = block; out = out }
step Mode.star out c =
    if nat_eq c b'/'
    then record { mode = plain; out = out }
    else if nat_eq c b'*'
    then record { mode = star; out = out }
    else record { mode = block; out = out }

-- What the end of the text leaves to be written.
abbrev finish : Scan → List ℕ
finish s = elim s.mode [ Mode.slash ↦ b'/' ∷ s.out | Mode.line ↦ b'\n' ∷ s.out | _ ↦ s.out ]

unfoldable pub scan : Scan → List ℕ → Scan
scan s [] = s
scan s (c ∷ cs) = scan (step s.mode s.out c) cs

abbrev turned : List ℕ → List ℕ → List ℕ
turned done [] = done
turned done (c ∷ cs) = turned (c ∷ done) cs

-- The text that is left for `JSON.parse`.
unfoldable pub without_comments : String → String
without_comments text =
    or_else (text_of? (turned [] (finish (scan (record { mode = plain; out = [] }) (codes text)))))
      ""

-- `parseJsonc`; `parse` stands for `JSON.parse`.
pub parse_jsonc : (String → Result String Json) → String → Result String Json
parse_jsonc parse text = parse (without_comments text)
