-- ===== src/Verifier/Mapped.antt =====
-- What the identity of an accepted token says.
use mcp_authz.Base.{
  Bool, true, false, not, ◌&&◌, ◌||◌, String, ◌≡◌, refl, sym, ap, subst, ◌∙◌, inl, inr, List,
  Option, none, some, Result, ok, err, >>=-eq-ok, >>_iff, refuse_if_iff, Bool-cases, is_some,
  or_else, ◌==◌, eq_iff, lookup,
}
use mcp_authz.Json.{Json, bool, str, of_entries, own, string?}
use mcp_authz.Verifier.Audience.{IsUnfragmented, before_hash-IsUnfragmented}
use mcp_authz.Policy.{Identity, Principal, Policy, has_empty}
use mcp_authz.Policy.Decide.{decide}
use mcp_authz.Policy.Decide.Total.{decide_total}
use mcp_authz.Policy.Validate.WellFormed.{IsWellFormed}
use mcp_authz.Verifier.{
  VerifierOptions, AuthInfo, TokenError, before_hash, verify_access_token, read_payload, vouched,
  check_email, email_of, full, email_in, or_undefined, is_true, verified_claim, email_proved,
  extra_of, identity_from_auth, subject_from, check_domain, check_allowed, is_false, email_claim,
}

-- A text that is full is itself, and not empty.
full-eq-some :
    (o : Option String) (s : String) → full o ≡ some s → (o ≡ some s) × ((s == "") ≡ false)
full-eq-some none s e = cc
full-eq-some (some t) s e = elim (Bool-cases (t == "")) [
  | inl blank ↦ cc (rw blank at e)
  | inr named ↦
      let same : t ≡ s = cc (rw named at e) in
      (ap some same, subst (λ (x : String). (x == "") ≡ false) same named)
]

full-kept : (s : String) → (s == "") ≡ false → full (some s) ≡ some s
full-kept s named = rw named

named-subject :
    (found : Option String) (sub : String) → subject_from found ≡ ok sub → found ≡ some sub
named-subject none sub e = cc
named-subject (some s) sub e = cc

email-full :
    (email : Option String) (s : String) → full email ≡ some s → email_in (str s) ≡ ok (some s)
email-full email s e = rw (full-eq-some email s e).1

vouched_lem :
    {A : Type 0} (o : Result String A) (payload : A) → vouched o ≡ ok payload → o ≡ ok payload
vouched_lem (ok p) payload e = cc
vouched_lem (err message) payload e = cc

full-not_empty : (o : Option String) → has_empty (full o) ≡ false
full-not_empty none = refl
full-not_empty (some s) = elim (Bool-cases (s == "")) [
  | inl blank ↦ rw blank
  | inr named ↦ rw (named, named)
]

eq_of_ok : {A : Type 0} {a b : A} → Path (Result TokenError A) (ok a) (ok b) → a ≡ b
eq_of_ok e = cc

is_true-bool : (b : Bool) → is_true (bool b) ≡ b
is_true-bool true = refl
is_true-bool false = refl

string?-or_undefined : (d : Option String) → string? (or_undefined d) ≡ d
unfolding string?
string?-or_undefined none = refl
string?-or_undefined (some s) = refl

module _ {Resource : Type 0} (lower : String → String) (o : VerifierOptions Resource) where
  -- What an identity says of the payload that it was made of.
  pub record IsIdentityOf (payload : List (String × Json)) (identity : Identity) : Type 0 where
    pub issuer : identity.issuer ≡ o.issuer
    pub sub : string? (own payload "sub") ≡ some identity.sub
    pub named : (identity.sub == "") ≡ false
    pub email : identity.email ≡ email_of o payload
    pub required : or_else o.require_email true ≡ true → is_some identity.email ≡ true
    pub verified : identity.email_verified ≡ is_some identity.email
    pub proved :
        or_else o.require_email_verified true ≡ true
        → is_some identity.email ≡ true
        → is_true (own payload (verified_claim o)) ≡ true
    pub domain : identity.domain ≡ string? (own payload "hd")
    pub allowed :
        (domain : String)
        → full o.allowed_domain ≡ some domain
        → (d : String) × (identity.domain ≡ some d) × (lower d ≡ lower domain)
    pub claims : identity.claims ≡ of_entries payload

  check_email-proved :
      (payload : List (String × Json)) (email : Option String)
      → check_email o payload email ≡ ok tt
      → (or_else o.require_email true ≡ true → is_some email ≡ true)
        × (email_proved o payload email ≡ is_some email)
        × (or_else o.require_email_verified true ≡ true
            → is_some email ≡ true
            → is_true (own payload (verified_claim o)) ≡ true)
  unfolding check_email
  check_email-proved payload none e =
      let free = (refuse_if_iff _ _).0 e in (λ r. cc, refl, λ r t. cc)
  check_email-proved payload (some email) e =
      let fine = (refuse_if_iff _ _).0 e in
      (
        λ r. refl,
        settled o.require_email_verified (is_true (own payload (verified_claim o))) fine,
        λ r t. holds (or_else o.require_email_verified true) _ fine r,
      )
    where
      settled :
          (asked : Option Bool) (b : Bool)
          → (or_else asked true && not b) ≡ false
          → (is_false asked || b) ≡ true
      settled none true h = refl
      settled none false h = cc
      settled (some true) true h = refl
      settled (some true) false h = cc
      settled (some false) b h = refl

      holds : (a b : Bool) → (a && not b) ≡ false → a ≡ true → b ≡ true
      holds a true h t = refl
      holds true false h t = cc
      holds false false h t = cc

  check_domain-allowed :
      (domain : Option String) (wanted : Option String)
      → check_allowed lower o domain wanted ≡ ok tt
      → (allowed : String) → wanted ≡ some allowed
      → (d : String) × (domain ≡ some d) × (lower d ≡ lower allowed)
  check_domain-allowed domain none e allowed w = cc
  check_domain-allowed none (some asked) e allowed w = cc
  check_domain-allowed (some d) (some asked) e allowed w =
      let fine = (refuse_if_iff _ _).0 e in
      let same : asked ≡ allowed = cc in (d, refl, (eq_iff _ _).0 (agree _ fine) ∙ ap lower same)
    where
      agree : (b : Bool) → not b ≡ false → b ≡ true
      agree true h = refl
      agree false h = cc

  email-again :
      (payload : List (String × Json)) (email : Option String)
      → full (string? (own payload (email_claim o))) ≡ email
      → email_in (or_undefined email) ≡ ok email
  email-again payload none e = refl
  email-again payload (some s) e = email-full (string? (own payload (email_claim o))) s e

  email_of-again :
      (payload : List (String × Json))
      → email_in (or_undefined (email_of o payload)) ≡ ok (email_of o payload)
  unfolding email_of
  email_of-again payload = email-again payload (full (string? (own payload (email_claim o)))) refl

  email_of-full : (payload : List (String × Json)) → has_empty (email_of o payload) ≡ false
  unfolding email_of
  email_of-full payload = full-not_empty (string? (own payload (email_claim o)))

  -- The identity of an accepted payload: what it is, and that it is mapped.
  identity_of : List (String × Json) → String → Identity
  identity_of payload sub = record {
    issuer = o.issuer;
    sub = sub;
    email = email_of o payload;
    email_verified = email_proved o payload (email_of o payload);
    domain = string? (own payload "hd");
    claims = of_entries payload;
  }

  identity_from_auth-extra :
      (auth : AuthInfo Resource) (payload : List (String × Json)) (sub : String)
      → auth.extra ≡ some (extra_of o payload sub (email_of o payload) (string? (own payload "hd")))
      → (o.issuer == "") ≡ false
      → (sub == "") ≡ false
      → identity_from_auth auth ≡ ok (identity_of payload sub)
  unfolding identity_from_auth extra_of identity_of own lookup string? email_of
  identity_from_auth-extra auth payload sub e issued named =
      let proved = is_true-bool (email_proved o payload (email_of o payload)) in
      let domain = string?-or_undefined (string? (own payload "hd")) in
      rw (e, issued, named, email_of-again payload, proved, domain)

  -- A payload that is read becomes the identity that it says.
  read_payload-maps :
      (token : String) (payload : List (String × Json)) (auth : AuthInfo Resource)
      → read_payload lower o token payload ≡ ok auth
      → (o.issuer == "") ≡ false
      → (identity : Identity) × (identity_from_auth auth ≡ ok identity)
        × IsIdentityOf payload identity
  unfolding read_payload check_domain identity_of
  read_payload-maps token payload auth e issued =
      let (expires, e1) = (>>_iff _ _ _).0 e in
      let (emails, e2) = (>>_iff _ _ _).0 e1 in
      let (sub, subject, e3) = >>=-eq-ok (subject_from (full (string? (own payload "sub")))) _ e2 in
      let (allowed, e4) = (>>_iff _ _ _).0 e3 in
      let (found, named) =
        full-eq-some (string? (own payload "sub")) sub (named-subject _ sub subject) in
      let (required, proved, claimed) = check_email-proved payload (email_of o payload) emails in
      let extra : some (extra_of o payload sub (email_of o payload) (string? (own payload "hd")))
          ≡ auth.extra =
        ap (λ (a : AuthInfo Resource). a.extra) (eq_of_ok e4) in
      (
        identity_of payload sub,
        identity_from_auth-extra auth payload sub (sym extra) issued named,
        record {
          issuer = refl;
          sub = found;
          named = named;
          email = refl;
          required = required;
          verified = proved;
          proved = claimed;
          domain = refl;
          allowed =
              check_domain-allowed (string? (own payload "hd")) (full o.allowed_domain) allowed;
          claims = refl;
        },
      )

  -- A token that the built-in verifier accepts, for an issuer with a name, is one whose payload `jwtVerify` vouches for
  -- under that issuer and the address of the resource as it stands before the fragment, and it is always mapped to an identity: of that issuer, with the subject, the email,
  -- the domain and the claims of the payload. An email is there unless it may be left out, counts as verified exactly
  -- when it is there, and is claimed to be verified unless that is not asked for; the domain is the allowed one but for
  -- case, where one is set. Every well-formed policy makes a principal of such an identity.
  pub verify_access_token-maps :
      (href : Resource → String)
      (jwt_verify : String → String → String → Result String (List (String × Json)))
      (token : String) (auth : AuthInfo Resource)
      → verify_access_token lower o href jwt_verify token ≡ ok auth
      → (o.issuer == "") ≡ false
      → (payload : List (String × Json)) × (identity : Identity) × (audience : String)
        × IsUnfragmented (href o.resource) audience
        × (jwt_verify token o.issuer audience ≡ ok payload)
        × (identity_from_auth auth ≡ ok identity)
        × IsIdentityOf payload identity
        × ((policy : Policy)
            → IsWellFormed policy
            → (p : Principal) × (decide lower policy identity ≡ ok p))
  unfolding verify_access_token
  verify_access_token-maps href jwt_verify token auth e issued =
      let (payload, vouches, e1) =
        >>=-eq-ok (vouched (jwt_verify token o.issuer (before_hash (href o.resource)))) _ e in
      let (identity, maps, is) = read_payload-maps token payload auth e1 issued in
      (
        payload,
        identity,
        before_hash (href o.resource),
        before_hash-IsUnfragmented (href o.resource),
        vouched_lem _ payload vouches,
        maps,
        is,
        λ policy wf.
            decide_total lower policy identity wf is.named
              (ap (λ (s : String). s == "") is.issuer ∙ issued)
              (ap has_empty is.email ∙ email_of-full payload),
      )
