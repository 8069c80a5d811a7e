-- ===== src/Base/Prefixes.antt =====
-- What it means for `startsWith` and `lastIndexOf` to find something: the text is put together of what
-- they tell apart.
use Prim.Native.Char.{code}
use Prim.Native.Nat.{ℕ}
use Prim.Native.String.append
use Prim.Native.String.{String}
use mathlib.Core.Path.{◌≡◌, sym, ap, ap₂, subst, ◌∙◌}
use mathlib.Core.Logic.{◌↔◌, inl, inr}
use mathlib.Core.Bool.{true}
use mathlib.Core.Option.{none, some}
use native.Mathlib.Omega.{arith}
use text.Mathlib.TextEquality.{Char-path}
use mcp_authz.Base.Tests.{nat_eq, Bool-cases}
use mcp_authz.Base.Texts.{strip_prefix, ◌^^◌}

pub nat_eq_refl : (n : ℕ) → nat_eq n n ≡ true
nat_eq_refl n = ground arith

pub nat_eq_sound : (m n : ℕ) → nat_eq m n ≡ true → m ≡ n
nat_eq_sound m n h = ground arith

strip_prefix-append : (p t : String) → strip_prefix p (p ^^ t) ≡ some t
unfolding strip_prefix
strip_prefix-append String.[] t = ap some (append.nil t)
strip_prefix-append (String.◌∷◌ c p) t =
    subst (λ s. strip_prefix (String.◌∷◌ c p) s ≡ some t) (sym (append.cons c p t))
      (rw (nat_eq_refl (code c)) (strip_prefix-append p t))

strip_prefix_sound : (p s t : String) → strip_prefix p s ≡ some t → s ≡ p ^^ t
unfolding strip_prefix
strip_prefix_sound String.[] s t h = let e : s ≡ t = ground arith in e ∙ sym (append.nil t)
strip_prefix_sound (String.◌∷◌ c p) String.[] t h = cc
strip_prefix_sound (String.◌∷◌ c p) (String.◌∷◌ d s) t h =
    elim (Bool-cases (nat_eq (code c) (code d))) [
      | inl same ↦
          ap₂ String.◌∷◌ (sym (Char-path c d (nat_eq_sound _ _ same)))
            (strip_prefix_sound p s t (rw same at h))
          ∙ sym (append.cons c p t)
      | inr other ↦ cc (rw other at h)
    ]

-- A prefix is found exactly when the text is it followed by the rest.
pub strip_prefix_iff : (p s t : String) → (strip_prefix p s ≡ some t) ↔ (s ≡ p ^^ t)
strip_prefix_iff p s t = (
  strip_prefix_sound p s t,
  λ e. subst (λ x. strip_prefix p x ≡ some t) (sym e) (strip_prefix-append p t),
)

-- Whether a text starts with another.
abbrev pub Begins : String → String → Type 0
Begins p s = (rest : String) × (s ≡ p ^^ rest)

pub strip_prefix-eq-none : (p s : String) → strip_prefix p s ≡ none → ¬ Begins p s
strip_prefix-eq-none p s h (rest, e) = cc ((strip_prefix_iff p s rest).1 e)
