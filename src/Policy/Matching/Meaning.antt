-- ===== src/Policy/Matching/Meaning.antt =====
-- What it means that a rule's `match` holds.
use mathlib.Core.Bool.{and-eq-true_iff}
use mcp_authz.Base.{
  Bool, true, false, ◌&&◌, String, ◌≡◌, refl, ap, ◌↔◌, ◌⊎◌, inl, inr, ◌≢◌, List, [], ◌∷◌, arith,
  Option, none, some, In, all, all-eq-true, any-eq-true, any_of_In, Bool-cases, Option-cases,
  eq_iff, eq_refl, ◌==◌, subst,
}
use mcp_authz.Json.{Json, undefined, str, arr, Fields, Items, items}
use mcp_authz.Policy.{Identity, Match}
use mcp_authz.Policy.Matching.{
  claim_at, claim_is, claim_holds, is_string, holds_if_set, domain_of, equals_fold, matches,
}
use mcp_authz.Policy.Matching.Domain.{HasDomain, domain_of_iff}

-- The value is the text, or an array that has it.
abbrev pub Carries : String → Json → Type 0
Carries expected actual =
    (actual ≡ str expected) ⊎ ((vs : Items) × (actual ≡ arr vs) × In (str expected) (items vs))

is_string_sound : (expected : String) (v : Json) → is_string expected v ≡ true → v ≡ str expected
is_string_sound expected (str s) h = ap str ((eq_iff s expected).0 h)
is_string_sound expected undefined h = cc
is_string_sound expected _ h = cc

is_string_complete : (expected : String) (v : Json) → v ≡ str expected → is_string expected v ≡ true
is_string_complete expected v e = rw e (eq_refl expected)

claim_is_sound : (expected : String) (v : Json) → claim_is expected v ≡ true → Carries expected v
unfolding claim_is
claim_is_sound expected (arr vs) h =
    let (v, i, t) = any-eq-true (is_string expected) (items vs) h in
    inr (vs, refl, subst (λ w. In w (items vs)) (is_string_sound expected v t) i)
claim_is_sound expected (str s) h = inl (is_string_sound expected (str s) h)
claim_is_sound expected _ h = cc

claim_is_complete : (expected : String) (v : Json) → Carries expected v → claim_is expected v ≡ true
unfolding claim_is
claim_is_complete expected v (inl e) = rw e (eq_refl expected)
claim_is_complete expected v (inr (vs, e, i)) =
    rw e (any_of_In (is_string expected) (str expected) (items vs) i (eq_refl expected))

module _ (lower : String → String) where
  -- Every condition that the match states holds. An email or a domain counts only if verified.
  pub record Meets (m : Match) (identity : Identity) : Type 0 where
    pub issuer : (s : String) → m.issuer ≡ some s → s ≡ identity.issuer
    pub sub : (s : String) → m.sub ≡ some s → s ≡ identity.sub
    pub email :
        (s : String)
        → m.email ≡ some s
        → (identity.email_verified ≡ true)
          × ((e : String) × (identity.email ≡ some e) × (lower s ≡ lower e))
    pub domain :
        (s : String) → m.domain ≡ some s → (d : String) × HasDomain identity d × (lower s ≡ lower d)
    pub claim :
        (path expected : String)
        → In (path, expected) m.claim
        → Carries expected (claim_at identity.claims path)

  equals_fold_iff :
      (a : String) (o : Option String)
      → (equals_fold lower a o ≡ true) ↔ ((b : String) × (o ≡ some b) × (lower a ≡ lower b))
  unfolding equals_fold
  equals_fold_iff a none = (λ h. cc, λ h. cc h.1)
  equals_fold_iff a (some b) = (
    λ h. (b, refl, (eq_iff (lower a) (lower b)).0 h),
    λ h. let e : b ≡ h.0 = ground (arith, h.1) in (eq_iff (lower a) (lower b)).1 (rw e h.2),
  )

  holds_if_set_sound :
      (o : Option String) (test : String → Bool)
      → holds_if_set o test ≡ true
      → (s : String) → o ≡ some s
      → test s ≡ true
  unfolding holds_if_set
  holds_if_set_sound none test h s e = cc
  holds_if_set_sound (some t) test h s e =
      let same : t ≡ s = ground arith in subst (λ x. test x ≡ true) same h

  holds_if_set_complete :
      (o : Option String) (test : String → Bool)
      → ((s : String) → o ≡ some s → test s ≡ true)
      → holds_if_set o test ≡ true
  unfolding holds_if_set
  holds_if_set_complete none test h = refl
  holds_if_set_complete (some t) test h = h t refl

  all_complete :
      (claims : Fields) (pairs : List (String × String))
      → ((path expected : String)
          → In (path, expected) pairs
          → Carries expected (claim_at claims path))
      → all (claim_holds claims) pairs ≡ true
  unfolding all claim_holds
  all_complete claims [] h = refl
  all_complete claims ((path, expected) ∷ pairs) h =
      rw (claim_is_complete expected _ (h path expected (inl refl)))
        (all_complete claims pairs (λ p x i. h p x (inr i)))

  module _ (m : Match) (identity : Identity) where
    conditions :
        matches lower m identity ≡ true
        → (holds_if_set m.issuer (λ s. s == identity.issuer) ≡ true)
          × (holds_if_set m.sub (λ s. s == identity.sub) ≡ true)
          × (holds_if_set m.email
                (λ s. identity.email_verified && equals_fold lower s identity.email)
              ≡ true)
          × (holds_if_set m.domain (λ s. equals_fold lower s (domain_of identity)) ≡ true)
          × (all (claim_holds identity.claims) m.claim ≡ true)
    unfolding matches
    conditions h = ground arith

    matches-Meets : matches lower m identity ≡ true → Meets m identity
    matches-Meets h =
        let (issuer, sub, email, domain, claim) = conditions h in
        record {
          issuer = λ s e. (eq_iff s _).0 (holds_if_set_sound m.issuer _ issuer s e);
          sub = λ s e. (eq_iff s _).0 (holds_if_set_sound m.sub _ sub s e);
          email = λ s e.
              let (verified, fold) =
                (and-eq-true_iff _ _).0 (holds_if_set_sound m.email _ email s e) in
              (verified, (equals_fold_iff s identity.email).0 fold);
          domain = λ s e.
              let (d, at, same) =
                (equals_fold_iff s (domain_of identity)).0
                  (holds_if_set_sound m.domain _ domain s e) in
              (d, (domain_of_iff identity d).0 at, same);
          claim = λ path expected i. claim_is_sound expected _ (claim_one path expected claim i);
        }
      where
        claim_one :
            (path expected : String)
            → all (claim_holds identity.claims) m.claim ≡ true
            → In (path, expected) m.claim
            → claim_is expected (claim_at identity.claims path) ≡ true
        claim_one path expected h i =
            unfold claim_holds in all-eq-true _ (path, expected) m.claim h i

    Meets-matches : Meets m identity → matches lower m identity ≡ true
    unfolding matches
    Meets-matches k =
        let issuer =
          holds_if_set_complete m.issuer (λ s. s == identity.issuer)
            (λ s e. (eq_iff s _).1 (k.issuer s e)) in
        let sub =
          holds_if_set_complete m.sub (λ s. s == identity.sub)
            (λ s e. (eq_iff s _).1 (k.sub s e)) in
        let email =
          holds_if_set_complete m.email
            (λ s. identity.email_verified && equals_fold lower s identity.email)
            (λ s e.
              (and-eq-true_iff _ _).1
                ((k.email s e).0, (equals_fold_iff s identity.email).1 (k.email s e).1)) in
        let domain =
          holds_if_set_complete m.domain (λ s. equals_fold lower s (domain_of identity))
            (λ s e.
              let (d, at, same) = k.domain s e in
              (equals_fold_iff s (domain_of identity)).1
                (d, (domain_of_iff identity d).1 at, same)) in
        rw (issuer, sub, email, domain, all_complete identity.claims m.claim k.claim)

    -- A match holds exactly when each condition that it states does: the issuer and the subject are the
    -- caller's, the email is verified and equal but for case, the domain is equal but for case to that of
    -- a caller with a verified email -- the `hd` claim, or what follows the last `@` of the email where
    -- there is none -- and each claim is the text named or an array that has it.
    pub matches_iff : (matches lower m identity ≡ true) ↔ Meets m identity
    matches_iff = (matches-Meets, Meets-matches)

-- A rule on an email or on a domain never matches a caller whose email the verifier did not prove.
pub unverified_no_match :
    (lower : String → String) (m : Match) (identity : Identity)
    → identity.email_verified ≡ false
    → (m.email ≢ none) ⊎ (m.domain ≢ none)
    → matches lower m identity ≡ false
unverified_no_match lower m identity unverified stated =
    elim (Bool-cases (matches lower m identity)) [
      | inr f ↦ f
      | inl t ↦ absurd (refuted ((matches_iff lower m identity).0 t) stated)
    ]
  where
    refuted : Meets lower m identity → (m.email ≢ none) ⊎ (m.domain ≢ none) → ⊥
    refuted k (inl e) = elim (Option-cases m.email) [
      | inl missing ↦ e missing
      | inr (s, found) ↦ cc ((k.email s found).0, unverified)
    ]
    refuted k (inr e) = elim (Option-cases m.domain) [
      | inl missing ↦ e missing
      | inr (s, found) ↦ let (d, at, _) = k.domain s found in cc (at.1, unverified)
    ]
