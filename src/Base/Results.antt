-- ===== src/Base/Results.antt =====
-- Code that throws, or that answers with a refusal, returns a `Result`: its value, or what it stopped with.
use mathlib.Core.Path.{◌≡◌, refl}
use mathlib.Core.Logic.{◌↔◌}
use mathlib.Core.Bool.{Bool, true, false}

pub data Result {ε α} (E : Type ε) (A : Type α) : Type (ε ⊔ α) where
  err : (stopped : E) → Result E A
  ok : (value : A) → Result E A

module _ {ε α β} {E : Type ε} {A : Type α} {B : Type β} where
  infixl 5 ◌>>=◌
  -- `next(await step)`, which is not reached where the step stops.
  abbrev pub ◌>>=◌ : Result E A → (A → Result E B) → Result E B
  err stopped >>= next = err stopped
  ok value >>= next = next value

  pub >>=-eq-ok :
      (step : Result E A) (next : A → Result E B) {result : B}
      → (step >>= next) ≡ ok result
      → (value : A) × (step ≡ ok value) × (next value ≡ ok result)
  >>=-eq-ok (err stopped) next done = cc
  >>=-eq-ok (ok value) next done = (value, refl, done)

module _ {ε β} {E : Type ε} {B : Type β} where
  infixl 5 ◌>>◌
  -- A check, and then what comes after it.
  abbrev pub ◌>>◌ : Result E (Unit {0}) → Result E B → Result E B
  check >> rest = check >>= λ passed. rest

  pub >>_iff :
      (check : Result E (Unit {0})) (rest : Result E B) (result : B)
      → ((check >> rest) ≡ ok result) ↔ ((check ≡ ok tt) × (rest ≡ ok result))
  >>_iff (err stopped) rest result = (λ done. cc, λ parts. cc parts.0)
  >>_iff (ok tt) rest result = (λ done. (refl, done), λ parts. parts.1)

module _ {ε} {E : Type ε} where
  -- `if (bad) throw error`
  abbrev pub refuse_if : Bool → E → Result E (Unit {0})
  refuse_if false error = ok tt
  refuse_if true error = err error

  pub refuse_if_iff : (bad : Bool) (error : E) → (refuse_if bad error ≡ ok tt) ↔ (bad ≡ false)
  refuse_if_iff false error = (λ passed. refl, λ good. refl)
  refuse_if_iff true error = (λ passed. cc, λ good. cc)

  pub refuse_if-eq-ok {β} :
      {B : Type β} (bad : Bool) (error : E) (rest : Result E B) {result : B}
      → (refuse_if bad error >> rest) ≡ ok result
      → (bad ≡ false) × (rest ≡ ok result)
  refuse_if-eq-ok bad error rest {result} done =
      let (passed, last) = (>>_iff (refuse_if bad error) rest result).0 done in
      ((refuse_if_iff bad error).0 passed, last)
