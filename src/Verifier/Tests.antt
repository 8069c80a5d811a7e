-- ===== src/Verifier/Tests.antt =====
-- A token of one person, and what is refused.
use mcp_authz.Base.{
  Bool, true, false, String, ◌≡◌, refl, List, [], ◌∷◌, Option, none, some, Result, ok, err,
  if◌then◌else◌, ◌==◌, ◌&&◌,
}
use mcp_authz.Json.{Json, bool, num, str, of_entries}
use mcp_authz.Policy.{Identity, Principal, Policy}
use mcp_authz.Policy.Decide.{decide}
use mcp_authz.Policy.Validate.WellFormed.{IsWellFormed}
use mcp_authz.Policy.Tests.{same_case}
use mcp_authz.Verifier.{
  VerifierOptions, AuthInfo, extra_of, verify_access_token, identity_from_auth, unproved_email,
  wrong_domain, verifier_for, no_keys,
}
use mcp_authz.Verifier.Audience.{IsUnfragmented}
use mcp_authz.Verifier.Mapped.{IsIdentityOf, verify_access_token-maps}

abbrev options : VerifierOptions String
options = record {
  issuer = "https://as";
  jwks_uri = "https://as/keys";
  resource = "https://mcp.acme.com/mcp#top";
  allowed_domain = some "acme.com";
  email_claim = none;
  email_verified_claim = none;
  require_email_verified = none;
  require_email = none;
}

abbrev payload : List (String × Json)
payload =
    ("exp", num "1790000000")
    ∷ ("sub", str "u1")
    ∷ ("email", str "ann@acme.com")
    ∷ ("email_verified", bool true)
    ∷ ("hd", str "acme.com")
    ∷ ("scope", str "mcp  search")
    ∷ []

abbrev same_address : String → String
same_address href = href

abbrev jwt_verify : String → String → String → Result String (List (String × Json))
jwt_verify token issuer resource =
    if token == "t" && resource == "https://mcp.acme.com/mcp"
    then ok payload
    else err "bad signature"

abbrev auth : AuthInfo String
auth = record {
  token = "t";
  client_id = "u1";
  scopes = "mcp" ∷ "search" ∷ [];
  expires_at = num "1790000000";
  resource = "https://mcp.acme.com/mcp#top";
  extra = some (extra_of options payload "u1" (some "ann@acme.com") (some "acme.com"));
}

accepted : verify_access_token same_case options same_address jwt_verify "t" ≡ ok auth
unfolding verify_access_token mcp_authz.Verifier.before_hash mcp_authz.Verifier.read_payload
    mcp_authz.Json.own mcp_authz.Verifier.check_email mcp_authz.Verifier.email_of
    mcp_authz.Json.string? mcp_authz.Verifier.check_domain mcp_authz.Verifier.scopes_in
    mcp_authz.Base.filter mcp_authz.Verifier.split_words
accepted = refl

other_domain :
    verify_access_token same_case
      (record options { allowed_domain = some "corp.com" })
      same_address
      jwt_verify
      "t"
    ≡ err (wrong_domain (some "acme.com") "corp.com")
unfolding verify_access_token mcp_authz.Verifier.before_hash mcp_authz.Verifier.read_payload
    mcp_authz.Json.own mcp_authz.Verifier.check_email mcp_authz.Verifier.email_of
    mcp_authz.Json.string? mcp_authz.Verifier.check_domain
other_domain = refl

other_claim :
    verify_access_token same_case
      (record options { email_verified_claim = some "proved" })
      same_address
      jwt_verify
      "t"
    ≡ err (unproved_email "email")
unfolding verify_access_token mcp_authz.Verifier.before_hash mcp_authz.Verifier.read_payload
    mcp_authz.Json.own mcp_authz.Verifier.check_email mcp_authz.Verifier.email_of
    mcp_authz.Json.string?
other_claim = refl

verify_access_token-maps_example :
    (payload : List (String × Json)) × (identity : Identity) × (audience : String) × IsUnfragmented
      "https://mcp.acme.com/mcp#top" audience
    × (jwt_verify "t" "https://as" audience ≡ ok payload)
    × (identity_from_auth auth ≡ ok identity)
    × IsIdentityOf same_case options payload identity
    × ((policy : Policy)
        → IsWellFormed policy
        → (p : Principal) × (decide same_case policy identity ≡ ok p))
verify_access_token-maps_example =
    verify_access_token-maps same_case options same_address jwt_verify "t" auth accepted refl
