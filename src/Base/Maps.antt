-- ===== src/Base/Maps.antt =====
-- Writing to the entries of a `Map` or of a plain object.
use mathlib.Core.Path.{◌≡◌, refl, sym, ◌∙◌}
use mathlib.Core.Logic.{◌≢◌, inl, inr}
use mathlib.Core.Bool.{true, false}
use mathlib.Core.Option.{none, some}
use mathlib.Core.List.{List, [], ◌∷◌}
use Prim.Native.String.{String}
use text.Mathlib.Text.{◌==◌}
use text.Mathlib.TextEquality.{eq_iff}
use text.Mathlib.TextPositions.{eq_refl}
use mcp_authz.Base.Tests.{if◌then◌else◌, Bool-cases}
use mcp_authz.Base.Texts.{lookup}

pub differs : (s t : String) → s ≢ t → (s == t) ≡ false
differs s t n = elim (Bool-cases (s == t)) [ inl e ↦ absurd (n ((eq_iff s t).0 e)) | inr e ↦ e ]

pub unequal : (s t : String) → (s == t) ≡ false → s ≢ t
unequal s t f e = let k : false ≡ true = sym f ∙ (eq_iff s t).1 e in cc k

module _ {ℓ} {V : Type ℓ} where
  -- `map.set(key, value)`, and `{ ...object, [key]: value }`
  unfoldable pub put : List (String × V) → String → V → List (String × V)
  put [] key value = (key, value) ∷ []
  put ((k, v) ∷ rest) key value =
      let others = put rest key value in if k == key then (key, value) ∷ rest else (k, v) ∷ others

  -- `map.delete(key)`
  unfoldable pub remove : List (String × V) → String → List (String × V)
  remove [] key = []
  remove ((k, v) ∷ rest) key =
      let others = remove rest key in if k == key then others else (k, v) ∷ others

  pub lookup-put :
      (m : List (String × V)) (key : String) (value : V) → lookup (put m key value) key ≡ some value
  unfolding lookup put
  lookup-put [] key value = rw (eq_refl key)
  lookup-put ((k, v) ∷ rest) key value = elim (Bool-cases (k == key)) [
    | inl same ↦ rw (same, eq_refl key)
    | inr other ↦ rw (other, other) (lookup-put rest key value)
  ]

  pub lookup-put_other :
      (m : List (String × V)) (key : String) (value : V) (other : String)
      → other ≢ key
      → lookup (put m key value) other ≡ lookup m other
  unfolding lookup put
  lookup-put_other [] key value other n = rw (differs key other (λ e. n (sym e)))
  lookup-put_other ((k, v) ∷ rest) key value other n = elim (Bool-cases (k == key)) [
    | inl same ↦
        let d = differs key other (λ e. n (sym e)) in
        let c = differs k other (λ e. n (sym e ∙ (eq_iff k key).0 same)) in rw (same, d, c)
    | inr apart ↦ elim (Bool-cases (k == other)) [
      | inl e ↦ rw (apart, e)
      | inr e ↦ rw (apart, e) (lookup-put_other rest key value other n)
    ]
  ]

  pub lookup-remove : (m : List (String × V)) (key : String) → lookup (remove m key) key ≡ none
  unfolding lookup remove
  lookup-remove [] key = refl
  lookup-remove ((k, v) ∷ rest) key = elim (Bool-cases (k == key)) [
    | inl same ↦ rw same (lookup-remove rest key)
    | inr apart ↦ rw (apart, apart) (lookup-remove rest key)
  ]

  pub lookup-remove_other :
      (m : List (String × V)) (key other : String)
      → other ≢ key
      → lookup (remove m key) other ≡ lookup m other
  unfolding lookup remove
  lookup-remove_other [] key other n = refl
  lookup-remove_other ((k, v) ∷ rest) key other n = elim (Bool-cases (k == key)) [
    | inl same ↦
        let c = differs k other (λ e. n (sym e ∙ (eq_iff k key).0 same)) in
        rw (same, c) (lookup-remove_other rest key other n)
    | inr apart ↦ elim (Bool-cases (k == other)) [
      | inl e ↦ rw (apart, e)
      | inr e ↦ rw (apart, e) (lookup-remove_other rest key other n)
    ]
  ]
