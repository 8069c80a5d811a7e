-- ===== src/Policy/Matching/Domain.antt =====
-- policy.ts: `domainOf`, described by how the email is put together.
use Prim.Native.Char.{Char, code}
use Prim.Native.String.append
use text.Mathlib.TextEquality.{Char-path}
use mcp_authz.Base.{
  ℕ, Bool, true, false, not, ◌||◌, String, ◌≡◌, refl, sym, ap, subst, ◌∙◌, ◌≢◌, ◌↔◌, ◌⊎◌, inl, inr,
  arith, Option, none, some, nat_eq, nat_eq_refl, nat_eq_sound, has_char, Bool-cases, Option-cases,
  eq_iff, unequal, if◌then◌else◌, ◌==◌, ◌^^◌,
}
use mcp_authz.Policy.{Identity}
use mcp_authz.Policy.Matching.{after_last, is_blank, domain_of}

-- What follows is the text behind the last `c` of it.
abbrev Follows : Char → String → String → Type 0
Follows c s d = (before : String) × (s ≡ before ^^ String.◌∷◌ c d) × (has_char (code c) d ≡ false)

after_last-eq-none : (k : ℕ) (s : String) → after_last k s ≡ none → has_char k s ≡ false
unfolding after_last has_char
after_last-eq-none k String.[] h = refl
after_last-eq-none k (String.◌∷◌ x s) h = elim (Option-cases (after_last k s)) [
  | inr (d, e) ↦ cc (rw e at h)
  | inl e ↦ elim (Bool-cases (nat_eq (code x) k)) [
    | inl t ↦ cc (rw (e, t) at h)
    | inr f ↦ rw f (after_last-eq-none k s e)
  ]
]

has_char-eq-false : (k : ℕ) (s : String) → has_char k s ≡ false → after_last k s ≡ none
unfolding after_last has_char
has_char-eq-false k String.[] h = refl
has_char-eq-false k (String.◌∷◌ x s) h = elim (Bool-cases (nat_eq (code x) k)) [
  | inl t ↦ cc (rw t at h)
  | inr f ↦ rw (f, has_char-eq-false k s (rw f at h))
]

after_last_sound : (c : Char) (s d : String) → after_last (code c) s ≡ some d → Follows c s d
unfolding after_last
after_last_sound c String.[] d h = cc
after_last_sound c (String.◌∷◌ x s) d h = elim (Option-cases (after_last (code c) s)) [
  | inr (later, e) ↦
      let same : later ≡ d = ground (arith, rw e at h) in
      let (before, put, clean) = after_last_sound c s d (e ∙ ap some same) in
      (
        String.◌∷◌ x before,
        ap (String.◌∷◌ x) put ∙ sym (append.cons x before (String.◌∷◌ c d)),
        clean,
      )
  | inl e ↦ elim (Bool-cases (nat_eq (code x) (code c))) [
    | inr f ↦ cc (rw (e, f) at h)
    | inl t ↦
        let same : s ≡ d = ground (arith, rw (e, t) at h) in
        (
          "",
          subst (λ y. String.◌∷◌ x s ≡ String.◌∷◌ y d) (Char-path x c (nat_eq_sound _ _ t))
                (ap (String.◌∷◌ x) same)
              ∙ sym (append.nil (String.◌∷◌ c d)),
          subst (λ y. has_char (code c) y ≡ false) same (after_last-eq-none (code c) s e),
        )
  ]
]

after_last_complete :
    (c : Char) (before d : String)
    → has_char (code c) d ≡ false
    → after_last (code c) (before ^^ String.◌∷◌ c d) ≡ some d
unfolding after_last
after_last_complete c String.[] d clean =
    subst (λ s. after_last (code c) s ≡ some d) (sym (append.nil (String.◌∷◌ c d)))
      (rw (has_char-eq-false (code c) d clean, nat_eq_refl (code c)))
after_last_complete c (String.◌∷◌ x before) d clean =
    subst (λ s. after_last (code c) s ≡ some d) (sym (append.cons x before (String.◌∷◌ c d)))
      (rw (after_last_complete c before d clean))

-- The text is what follows the last `@` of the email.
abbrev pub FollowsAt : String → String → Type 0
FollowsAt email d = (user : String) × (email ≡ user ^^ String.◌∷◌ "@" d) × (has_char b'@' d ≡ false)

-- The domain of a caller with a verified email: the `hd` claim where there is one, and otherwise what
-- follows the last `@` of the email.
abbrev pub HasDomain : Identity → String → Type 0
HasDomain identity d =
    (email : String) × (identity.email_verified ≡ true)
    × (identity.email ≡ some email)
    × (email ≢ "")
    × (((identity.domain ≡ some d) × (d ≢ ""))
        ⊎ (((identity.domain ≡ none) ⊎ (identity.domain ≡ some "")) × FollowsAt email d))

abbrev settled : Bool → Option String → Option String → Option String
settled verified email domain =
    if not verified || is_blank email
    then none
    else if is_blank domain
    then elim email [ none ↦ none | some text ↦ after_last b'@' text ]
    else domain

abbrev IsSettled : Bool → Option String → Option String → String → Type 0
IsSettled verified email domain d =
    (text : String) × (verified ≡ true)
    × (email ≡ some text)
    × (text ≢ "")
    × (((domain ≡ some d) × (d ≢ "")) ⊎ (((domain ≡ none) ⊎ (domain ≡ some "")) × FollowsAt text d))

settled_sound :
    (verified : Bool) (email domain : Option String) (d : String)
    → settled verified email domain ≡ some d
    → IsSettled verified email domain d
settled_sound false email domain d h = cc
settled_sound true none domain d h = cc
settled_sound true (some text) domain d h = elim (Bool-cases (text == "")) [
  | inl t ↦ cc (rw t at h)
  | inr f ↦ (text, refl, refl, unequal text "" f, by_domain domain (rw f at h))
]
  where
    by_domain :
        (o : Option String)
        → (if is_blank o then after_last b'@' text else o) ≡ some d
        → ((o ≡ some d) × (d ≢ "")) ⊎ (((o ≡ none) ⊎ (o ≡ some "")) × FollowsAt text d)
    by_domain none k = inr (inl refl, after_last_sound "@" text d k)
    by_domain (some hd) k = elim (Bool-cases (hd == "")) [
      | inl t ↦ inr (inr (ap some ((eq_iff hd "").0 t)), after_last_sound "@" text d (rw t at k))
      | inr f ↦
          let same : hd ≡ d = ground (arith, rw f at k) in
          inl (ap some same, subst (λ x. x ≢ "") same (unequal hd "" f))
    ]

named : (s : String) → s ≢ "" → (s == "") ≡ false
named s n = elim (Bool-cases (s == "")) [ inl t ↦ absurd (n ((eq_iff s "").0 t)) | inr f ↦ f ]

settled_complete :
    (verified : Bool) (email domain : Option String) (d : String)
    → IsSettled verified email domain d
    → settled verified email domain ≡ some d
settled_complete verified email domain d (text, v, e, n, inl (hd, m)) =
    rw (v, e, named text n, hd, named d m)
settled_complete verified email domain d (text, v, e, n, inr (inl hd, (user, put, clean))) =
    rw (v, e, named text n, hd)
      (subst (λ s. after_last b'@' s ≡ some d) (sym put) (after_last_complete "@" user d clean))
settled_complete verified email domain d (text, v, e, n, inr (inr hd, (user, put, clean))) =
    rw (v, e, named text n, hd)
      (subst (λ s. after_last b'@' s ≡ some d) (sym put) (after_last_complete "@" user d clean))

pub domain_of_iff :
    (identity : Identity) (d : String) → (domain_of identity ≡ some d) ↔ HasDomain identity d
unfolding domain_of
domain_of_iff identity d = (
  settled_sound identity.email_verified identity.email identity.domain d,
  settled_complete identity.email_verified identity.email identity.domain d,
)
