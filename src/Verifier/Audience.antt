-- ===== src/Verifier/Audience.antt =====
-- verifier.ts: the audience that a token is to be for.
use Prim.Native.Char.{Char, code}
use Prim.Native.String.append
use text.Mathlib.TextEquality.{Char-path}
use mcp_authz.Base.{
  has_char, nat_eq, nat_eq_sound, ◌⊎◌, ◌^^◌, false, String, ◌≡◌, refl, sym, ap, ◌∙◌, inl, inr,
  Bool-cases,
}
use mcp_authz.Verifier.{before_hash}

-- The text has no `#`, and is all of the address or what stands before a `#` of it.
abbrev pub IsUnfragmented : String → String → Type 0
IsUnfragmented address audience =
    (has_char b'#' audience ≡ false)
    × ((address ≡ audience)
        ⊎ ((fragment : String) × (address ≡ audience ^^ String.◌∷◌ "#" fragment)))

pub before_hash-IsUnfragmented : (address : String) → IsUnfragmented address (before_hash address)
unfolding before_hash has_char
before_hash-IsUnfragmented String.[] = (refl, inl refl)
before_hash-IsUnfragmented (String.◌∷◌ c s) = elim (Bool-cases (nat_eq (code c) b'#')) [
  | inl t ↦ rw t (
    refl,
    inr (
      s,
      ap (λ (d : Char). String.◌∷◌ d s) (Char-path c "#" (nat_eq_sound _ _ t))
          ∙ sym (append.nil (String.◌∷◌ "#" s)),
    ),
  )
  | inr f ↦
      let (clean, whole) = before_hash-IsUnfragmented s in
      rw f (
        rw f clean,
        elim whole [
          | inl e ↦ inl (ap (String.◌∷◌ c) e)
          | inr (fragment, e) ↦ inr (
            fragment,
            ap (String.◌∷◌ c) e ∙ sym (append.cons c (before_hash s) (String.◌∷◌ "#" fragment)),
          )
        ],
      )
]
