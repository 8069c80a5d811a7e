-- ===== src/Verifier.antt =====
-- verifier.ts: `verifyAccessToken` of the built-in verifier, from the payload of a token whose signature, issuer and
-- audience `jwtVerify` has checked, the identity it is mapped to, and the choice of a verifier. `Resource` is a URL.
pub mod Audience
pub mod Mapped
pub mod Tests
use Prim.Native.String
use Prim.Native.Char.{code}
use mcp_authz.Base.{
  ℕ, Bool, true, false, not, ◌&&◌, ◌||◌, String, List, [], ◌∷◌, Option, none, some, Result, ok, err,
  ◌>>=◌, ◌>>◌, refuse_if, nat_eq, is_some, or_else, or_option, filter, if◌then◌else◌, ◌==◌, ◌^^◌,
}
use mcp_authz.Json.{
  Json, undefined, bool, num, str, arr, obj, raw, Items, nil, cons, Fields, end, field, of_entries,
  own, string?,
}
use mcp_authz.Policy.{Identity}

-- What `invalidToken` says, and what `verifierFor` throws.
pub data TokenError : Type 0 where
  rejected : (message : String) → TokenError
  no_expiry no_subject : TokenError
  no_email unproved_email : (claim : String) → TokenError
  wrong_domain : (domain : Option String) → (allowed : String) → TokenError
  no_identity invalid_email : TokenError

pub data ConfigError : Type 0 where
  two_verifiers no_keys : ConfigError

-- `VerifierOptions`
pub record VerifierOptions (Resource : Type 0) : Type 0 where
  pub issuer : String
  pub jwks_uri : String
  pub resource : Resource
  pub allowed_domain : Option String
  pub email_claim : Option String
  pub email_verified_claim : Option String
  pub require_email_verified : Option Bool
  pub require_email : Option Bool

-- `AuthInfo`
pub record AuthInfo (Resource : Type 0) : Type 0 where
  pub token : String
  pub client_id : String
  pub scopes : List String
  pub expires_at : Json
  pub resource : Resource
  pub extra : Option (List (String × Json))

abbrev strings : Items → List String
strings nil = []
strings (cons (str s) rest) = s ∷ strings rest
strings (cons value rest) = strings rest

-- `text.split(' ')`
pub split_words : String → List String
split_words String.[] = "" ∷ []
split_words (String.◌∷◌ c s) = elim (split_words s) [
  | [] ↦ []
  | w ∷ ws ↦ if nat_eq (code c) b' ' then "" ∷ w ∷ ws else String.◌∷◌ c w ∷ ws
]

-- `scopesOf`
pub scopes_in : Json → List String
scopes_in (arr values) = strings values
scopes_in (str scope) = filter (λ word. not (word == "")) (split_words scope)
scopes_in _ = []

-- `text.split('#')[0]`
pub before_hash : String → String
before_hash String.[] = ""
before_hash (String.◌∷◌ c s) =
    let rest = before_hash s in if nat_eq (code c) b'#' then "" else String.◌∷◌ c rest

-- A text that is not empty.
abbrev pub full : Option String → Option String
full none = none
full (some s) = if s == "" then none else some s

abbrev pub is_true : Json → Bool
is_true (bool true) = true
is_true _ = false

abbrev pub is_number : Json → Bool
is_number (num text) = true
is_number _ = false

abbrev pub or_undefined : Option String → Json
or_undefined none = undefined
or_undefined (some s) = str s

abbrev pub vouched {ℓ} : {A : Type ℓ} → Result String A → Result TokenError A
vouched (ok payload) = ok payload
vouched (err message) = err (rejected ("Token rejected: " ^^ message))

abbrev pub subject_from : Option String → Result TokenError String
subject_from none = err no_subject
subject_from (some sub) = ok sub

abbrev pub is_false : Option Bool → Bool
is_false none = false
is_false (some b) = not b

module _ {Resource : Type 0} (o : VerifierOptions Resource) where
  abbrev pub email_claim : String
  email_claim = or_else o.email_claim "email"

  abbrev pub verified_claim : String
  verified_claim = or_else o.email_verified_claim "email_verified"

  -- The email of a payload, where it carries one.
  pub email_of : List (String × Json) → Option String
  email_of payload = full (string? (own payload email_claim))

  pub check_email : List (String × Json) → Option String → Result TokenError (Unit {0})
  check_email payload none = refuse_if (or_else o.require_email true) (no_email email_claim)
  check_email payload (some email) =
      refuse_if
        (or_else o.require_email_verified true && not (is_true (own payload verified_claim)))
        (unproved_email email_claim)

  abbrev pub email_proved : List (String × Json) → Option String → Bool
  email_proved payload email =
      is_some email && (is_false o.require_email_verified || is_true (own payload verified_claim))

  pub extra_of :
      List (String × Json) → String → Option String → Option String → List (String × Json)
  extra_of payload sub email domain =
      ("issuer", str o.issuer)
      ∷ ("sub", str sub)
      ∷ ("email", or_undefined email)
      ∷ ("emailVerified", bool (email_proved payload email))
      ∷ ("domain", or_undefined domain)
      ∷ ("claims", obj (of_entries payload))
      ∷ []

module _ {Resource : Type 0} (lower : String → String) (o : VerifierOptions Resource) where
  abbrev pub is_domain : Option String → String → Bool
  is_domain none allowed = false
  is_domain (some domain) allowed = lower domain == lower allowed

  abbrev pub check_allowed : Option String → Option String → Result TokenError (Unit {0})
  check_allowed domain none = ok tt
  check_allowed domain (some allowed) =
      refuse_if (not (is_domain domain allowed)) (wrong_domain domain allowed)

  -- `options.allowedDomain`, which asks for nothing where it is empty.
  pub check_domain : Option String → Result TokenError (Unit {0})
  check_domain domain = check_allowed domain (full o.allowed_domain)

  -- What is made of a payload once its signature, issuer and audience are right.
  pub read_payload : String → List (String × Json) → Result TokenError (AuthInfo Resource)
  read_payload token payload = do
    refuse_if (not (is_number (own payload "exp"))) no_expiry
    check_email o payload (email_of o payload)
    sub ← subject_from (full (string? (own payload "sub")))
    check_domain (string? (own payload "hd"))
    ok (record {
      token = token;
      client_id =
          or_else (or_option (string? (own payload "client_id")) (string? (own payload "azp"))) sub;
      scopes = scopes_in (own payload "scope");
      expires_at = own payload "exp";
      resource = o.resource;
      extra = some (extra_of o payload sub (email_of o payload) (string? (own payload "hd")));
    })

  -- `verifyAccessToken`; `jwt_verify` is given the issuer and the address of the resource without its fragment, and
  -- answers with the payload or the message of what it throws. `href` is the URL's.
  pub verify_access_token :
      (Resource → String)
      → (String → String → String → Result String (List (String × Json)))
      → String
      → Result TokenError (AuthInfo Resource)
  verify_access_token href jwt_verify token =
      vouched (jwt_verify token o.issuer (before_hash (href o.resource))) >>= λ payload.
      read_payload token payload

abbrev claims_in : Json → Fields
claims_in (obj fields) = fields
claims_in (raw text) = field "rawJSON" (str text) end
claims_in _ = end

abbrev pub named_text : TokenError → Option String → Result TokenError String
named_text error none = err error
named_text error (some text) = ok text

-- `email`, which may be left out, but not be anything but a text that is not empty.
abbrev pub email_in : Json → Result TokenError (Option String)
email_in undefined = ok none
email_in (str email) = if email == "" then err invalid_email else ok (some email)
email_in _ = err invalid_email

-- `identityFromAuth`
pub identity_from_auth : {Resource : Type 0} → AuthInfo Resource → Result TokenError Identity
identity_from_auth auth = do
  let extra = or_else auth.extra []
  issuer ← named_text no_identity (full (string? (own extra "issuer")))
  sub ← named_text no_identity (full (string? (own extra "sub")))
  email ← email_in (own extra "email")
  ok (record {
    issuer = issuer;
    sub = sub;
    email = email;
    email_verified = is_true (own extra "emailVerified");
    domain = string? (own extra "domain");
    claims = claims_in (own extra "claims");
  })

-- The built-in options as far as they are given.
pub record PartialOptions (Resource : Type 0) : Type 0 where
  pub issuer : Option String
  pub jwks_uri : Option String
  pub resource : Option Resource
  pub allowed_domain : Option String
  pub email_claim : Option String
  pub email_verified_claim : Option String
  pub require_email_verified : Option Bool
  pub require_email : Option Bool

abbrev no_options : {Resource : Type 0} → PartialOptions Resource
no_options = record {
  issuer = none;
  jwks_uri = none;
  resource = none;
  allowed_domain = none;
  email_claim = none;
  email_verified_claim = none;
  require_email_verified = none;
  require_email = none;
}

module _ {Resource : Type 0} (issuer : String) (jwks_uri : Json)
    (resource_server_url : Resource) where
  abbrev built_in :
      PartialOptions Resource
      → Option String
      → Result ConfigError (Option (VerifierOptions Resource))
  built_in given none = err no_keys
  built_in given (some uri) = ok (
      some (record {
        issuer = or_else given.issuer issuer;
        jwks_uri = uri;
        resource = or_else given.resource resource_server_url;
        allowed_domain = given.allowed_domain;
        email_claim = given.email_claim;
        email_verified_claim = given.email_verified_claim;
        require_email_verified = given.require_email_verified;
        require_email = given.require_email;
      }))

  -- `verifierFor`: the options of the built-in verifier, or none where the host brings its own.
  pub verifier_for :
      Bool
      → Option (PartialOptions Resource)
      → Result ConfigError (Option (VerifierOptions Resource))
  verifier_for custom verifier =
      if custom
      then if is_some verifier then err two_verifiers else ok none
      else built_in (or_else verifier no_options)
          (full (or_option (or_else verifier no_options).jwks_uri (string? jwks_uri)))
