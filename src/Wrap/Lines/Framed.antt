-- ===== src/Wrap/Lines/Framed.antt =====
-- Lines that are written are read back, wherever the stream is cut into chunks.
use mathlib.Core.List.{append-nil, append_assoc}
use mcp_authz.Base.{
  ℕ, true, false, ◌≡◌, refl, ap, ◌∙◌, ◌≢◌, List, [], ◌∷◌, ◌++◌, arith, nat_eq, In, In-append, inl,
  inr, Bool-cases, flat_map, All,
}
use mcp_authz.Wrap.Lines.{Text, without_return, Reading, cut, on_data, on_end, on_chunks, on_lines}

abbrev IsClean : Text → Type 0
IsClean text = ¬ In b'\n' text

nat_eq-eq-false : (c d : ℕ) → c ≢ d → nat_eq c d ≡ false
nat_eq-eq-false c d n = ground arith

nat_eq-eq-true : (c d : ℕ) → c ≡ d → nat_eq c d ≡ true
nat_eq-eq-true c d e = ground arith

cut-append : (a b xs : Text) → IsClean b → cut a (b ++ xs) ≡ cut (a ++ b) xs
unfolding cut
cut-append a [] xs clean = rw append-nil
cut-append a (c ∷ b) xs clean =
    rw (nat_eq-eq-false c b'\n' (λ e. clean (inl e)))
      (cut-append (a ++ c ∷ []) b xs (λ i. clean (inr i)) ∙ rw append_assoc)

-- Reading on.
abbrev then_cut : Reading → Text → Reading
then_cut r xs = record {
  buffered = (cut r.buffered xs).buffered;
  lines = r.lines ++ (cut r.buffered xs).lines;
}

cut_twice : (b xs ys : Text) → cut b (xs ++ ys) ≡ then_cut (cut b xs) ys
unfolding cut
cut_twice b [] ys = refl
cut_twice b (c ∷ xs) ys = elim (Bool-cases (nat_eq c b'\n')) [
  | inl e ↦
      rw e
        (ap (λ (r : Reading). record r { lines = without_return b ∷ r.lines }) (cut_twice [] xs ys))
  | inr e ↦ rw e (cut_twice (b ++ c ∷ []) xs ys)
]

cut-IsClean : (b xs : Text) → IsClean b → IsClean (cut b xs).buffered
unfolding cut
cut-IsClean b [] clean = clean
cut-IsClean b (c ∷ xs) clean = elim (Bool-cases (nat_eq c b'\n')) [
  | inl e ↦ rw e (cut-IsClean [] xs (λ i. i))
  | inr e ↦ rw e (
      cut-IsClean (b ++ c ∷ []) xs (λ i. elim (In-append b'\n' b (c ∷ []) i) [
        | inl j ↦ clean j
        | inr (inl same) ↦ cc (nat_eq-eq-true c b'\n' same)
        | inr (inr never) ↦ never
      ]))
]

on_chunks_lem :
    (r : Reading) (chunks : List Text)
    → IsClean r.buffered
    → on_chunks r chunks ≡ then_cut r (flat_map (λ c. c) chunks)
unfolding on_chunks on_data flat_map cut
on_chunks_lem r [] clean = rw append-nil
on_chunks_lem r (chunk ∷ chunks) clean =
    let read = cut-append [] r.buffered chunk clean in
    let all : List ℕ = flat_map (λ (c : Text). c) chunks in
    on_chunks_lem (on_data r chunk) chunks (rw read (cut-IsClean r.buffered chunk clean))
    ∙ rw (read, cut_twice r.buffered chunk all, append_assoc)

abbrev pub framed : List Text → Text
framed lines = flat_map (λ line. line ++ b'\n' ∷ []) lines

-- A line as `onLines` can hand it on: with no end of line in it, and no return at its end.
abbrev pub IsLine : Text → Type 0
IsLine line = IsClean line × (without_return line ≡ line)

cut-framed :
    (lines : List Text)
    → All IsLine lines
    → cut [] (framed lines) ≡ record { buffered = []; lines = lines }
unfolding flat_map cut
cut-framed [] all = refl
cut-framed (line ∷ lines) (whole, all) =
    let rest : List ℕ = framed lines in
    rw (append_assoc, cut-append [] line (b'\n' ∷ rest) whole.0, whole.1, cut-framed lines all)

-- Lines without an end of line in them and without a return at their end, each written with an end of line
-- behind it, are what the reader is given, in order, whatever the chunks are that the text arrives in.
pub on_lines-framed :
    (lines chunks : List Text)
    → All IsLine lines
    → flat_map (λ chunk. chunk) chunks ≡ framed lines
    → on_lines chunks ≡ lines
unfolding on_lines on_end
on_lines-framed lines chunks all e =
    rw (
      on_chunks_lem (record { buffered = []; lines = [] }) chunks (λ i. i),
      e,
      cut-framed lines all,
    )
