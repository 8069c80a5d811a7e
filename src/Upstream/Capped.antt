-- ===== src/Upstream/Capped.antt =====
-- A capped read is all of the body, or a refusal because there is too much of it.
use mcp_authz.Base.{
  if◌then◌else◌, ℕ, ◌+◌, ◌≤◌, ◌<◌, false, ◌≡◌, sym, ap, inl, inr, List, [], ◌∷◌, ◌++◌, arith, none,
  some, length, ltb, Bool-cases,
}
use mathlib.Core.List.{append-nil, append_assoc}
use mcp_authz.Upstream.{read_from, read_capped_body}

length-append : {A : Type 0} (xs ys : List A) → length (xs ++ ys) ≡ length xs + length ys
length-append [] ys = omega arith
length-append (x ∷ xs) ys = omega (arith, length-append xs ys)

-- All the bytes of a body.
pub whole : List (List ℕ) → List ℕ
whole [] = []
whole (chunk ∷ rest) = chunk ++ whole rest

read_from_fits :
    (total : ℕ) (joined : List ℕ) (limit : ℕ) (body : List (List ℕ))
    → total + length (whole body) ≤ limit
    → read_from total joined limit body ≡ some (joined ++ whole body)
unfolding read_from whole
read_from_fits total joined limit [] h = ap some (sym (append-nil joined))
read_from_fits total joined limit (chunk ∷ rest) h =
    let l = length-append chunk (whole rest) in
    let more =
      read_from_fits (total + length chunk) (joined ++ chunk) limit rest (omega (arith, l)) in
    let small : ltb limit (total + length chunk) ≡ false = ground (arith, l) in
    rw (small, more) (ap some (append_assoc joined chunk (whole rest)))

read_from_over :
    (total : ℕ) (joined : List ℕ) (limit : ℕ) (body : List (List ℕ))
    → total ≤ limit
    → limit < total + length (whole body)
    → read_from total joined limit body ≡ none
unfolding read_from whole
read_from_over total joined limit [] k h = absurd (omega arith)
read_from_over total joined limit (chunk ∷ rest) k h =
    let l = length-append chunk (whole rest) in
    elim (Bool-cases (ltb limit (total + length chunk))) [
      | inl over ↦ rw over
      | inr under ↦ rw under (
          read_from_over (total + length chunk) (joined ++ chunk) limit rest (ground arith)
            (omega (arith, l)))
    ]

pub read_capped_body_iff :
    (body : List (List ℕ)) (limit : ℕ)
    → (length (whole body) ≤ limit → read_capped_body body limit ≡ some (whole body))
      × (limit < length (whole body) → read_capped_body body limit ≡ none)
unfolding read_capped_body
read_capped_body_iff body limit = (
  λ h. read_from_fits 0 [] limit body (omega arith),
  λ h. read_from_over 0 [] limit body (omega arith) (omega arith),
)

-- A capped read hands over all the bytes of the body when they are no more than the limit, however the
-- stream cuts it into chunks, and nothing when they are more.
pub read_capped_body_lem :
    (body : List (List ℕ)) (limit : ℕ)
    → read_capped_body body limit
      ≡ (if ltb limit (length (whole body)) then none else some (whole body))
read_capped_body_lem body limit =
    let (fits, over) = read_capped_body_iff body limit in
    elim (Bool-cases (ltb limit (length (whole body)))) [
      | inl more ↦ rw more (over (ground arith))
      | inr under ↦ rw under (fits (ground arith))
    ]
