-- ===== src/Policy/Tests.antt =====
-- The decision over a small policy: who gets in, who is shut out, and what the boot check says.
use mcp_authz.Base.{
  true, false, Bool, String, ◌≡◌, refl, sym, ap, ◌↔◌, ◌⊎◌, inl, inr, ◌≢◌, List, [], ◌∷◌, Option,
  none, some, Result, ok, err, In, get_elem?,
}
use mcp_authz.Json.{end}
use mcp_authz.Policy.{Identity, Principal, Match, Rule, Policy, can, has_empty}
use mcp_authz.Policy.Matching.{matches}
use mcp_authz.Policy.Matching.Meaning.{Meets, matches_iff}
use mcp_authz.Policy.Validate.Tests.{spec, team, rules, define_policy-team}
use mcp_authz.Policy.Validate.WellFormed.{define_policy-IsWellFormed}
use mcp_authz.Policy.Decide.{Explanation, decide, explain}
use mcp_authz.Policy.Decide.Grants.{IsAllowed, decide-can_iff}
use mcp_authz.Policy.Decide.Order.{HasRulesOf, decide_order}
use mcp_authz.Policy.Decide.Total.{decide_total, explain_sound}
use mcp_authz.Policy.Reconcile.{reconcile}
use mcp_authz.Policy.Reconcile.Reach.{IsGranted, reconcile-error_iff, reconcile-warning_iff}

-- A conversion that leaves a text as it is.
abbrev pub same_case : String → String
same_case s = s

abbrev pub caller : String → Bool → Identity
caller sub verified = record {
  issuer = "https://idp.acme.com";
  sub = sub;
  email = some "ann@acme.com";
  email_verified = verified;
  domain = none;
  claims = end;
}

abbrev pub by_email : Match
by_email = record {
  issuer = none;
  sub = none;
  email = some "ann@acme.com";
  domain = none;
  claim = [];
}

abbrev by_domain : Match
by_domain = record {
  issuer = some "https://idp.acme.com";
  sub = none;
  email = none;
  domain = some "acme.com";
  claim = [];
}

matches-by_domain : matches same_case by_domain (caller "ann" true) ≡ true
unfolding matches mcp_authz.Policy.Matching.holds_if_set mcp_authz.Policy.Matching.equals_fold
    mcp_authz.Base.all mcp_authz.Policy.Matching.domain_of
matches-by_domain = refl

matches-by_domain_unverified : matches same_case by_domain (caller "ann" false) ≡ false
unfolding matches mcp_authz.Policy.Matching.holds_if_set mcp_authz.Policy.Matching.equals_fold
    mcp_authz.Base.all mcp_authz.Policy.Matching.domain_of
matches-by_domain_unverified = refl

matches_iff_example :
    (matches same_case by_domain (caller "ann" true) ≡ true)
    ↔ Meets same_case by_domain (caller "ann" true)
matches_iff_example = matches_iff same_case by_domain (caller "ann" true)

-- Ann reads as herself and does everything as one of the domain.
abbrev pub ann : Principal
ann = record {
  issuer = "https://idp.acme.com";
  sub = "ann";
  email = some "ann@acme.com";
  domain = none;
  roles = "reader" ∷ "admin" ∷ [];
  permissions = "read" ∷ "*" ∷ [];
}

pub decide-ann : decide same_case team (caller "ann" true) ≡ ok ann
unfolding decide mcp_authz.Policy.Matching.holds_if_set mcp_authz.Policy.Matching.equals_fold
    mcp_authz.Base.all mcp_authz.Policy.Matching.domain_of
decide-ann = refl

decide-can_iff_example :
    (can ann "write" ≡ true) ↔ IsAllowed same_case team (caller "ann" true) "write"
decide-can_iff_example = decide-can_iff same_case team (caller "ann" true) ann decide-ann "write"

abbrev mallory : Principal
mallory = record {
  issuer = "https://idp.acme.com";
  sub = "mallory";
  email = some "ann@acme.com";
  domain = none;
  roles = [];
  permissions = [];
}

decide-mallory : decide same_case team (caller "mallory" true) ≡ ok mallory
unfolding decide mcp_authz.Policy.Matching.holds_if_set mcp_authz.Policy.Matching.equals_fold
    mcp_authz.Base.all mcp_authz.Policy.Matching.domain_of
decide-mallory = refl

abbrev shut_out : Rule
shut_out = record {
  index = 2;
  match = record { issuer = none; sub = some "mallory"; email = none; domain = none; claim = [] };
  deny = true;
  roles = [];
}

shut_out-matches : matches same_case shut_out.match (caller "mallory" true) ≡ true
unfolding matches mcp_authz.Policy.Matching.holds_if_set mcp_authz.Base.all
shut_out-matches = refl

decide_total_example : (p : Principal) × (decide same_case team (caller "ann" true) ≡ ok p)
decide_total_example =
    decide_total same_case team (caller "ann" true)
      (define_policy-IsWellFormed spec team define_policy-team) refl refl refl

abbrev account : Explanation
account = record { principal = mallory; matched = rules; denied_by = some shut_out }

explain-mallory : explain same_case team (caller "mallory" true) ≡ ok account
unfolding explain decide mcp_authz.Policy.Matching.holds_if_set
    mcp_authz.Policy.Matching.equals_fold mcp_authz.Base.all mcp_authz.Policy.Matching.domain_of
explain-mallory = refl

explain_sound_example :
    (decide same_case team (caller "mallory" true) ≡ ok mallory)
    × ((rule : Rule)
        → In rule rules
          ↔ (In rule team.rules × (matches same_case rule.match (caller "mallory" true) ≡ true)))
    × ((rule : Rule) → In rule rules → get_elem? team.rules rule.index ≡ some rule)
    × ((rule : Rule) → some shut_out ≡ some rule → In rule rules × (rule.deny ≡ true))
    × (some shut_out ≡ none → (rule : Rule) → In rule rules → rule.deny ≢ true)
explain_sound_example =
    explain_sound same_case team (caller "mallory" true)
      (define_policy-IsWellFormed spec team define_policy-team) account explain-mallory

-- The same rules the other way round.
abbrev turned : Policy
turned = record {
  roles = ("reader", "read" ∷ []) ∷ ("admin", "*" ∷ []) ∷ [];
  rules =
      record { index = 0; match = by_email; deny = false; roles = "admin" ∷ [] }
      ∷ record { index = 1; match = by_email; deny = false; roles = "reader" ∷ [] }
      ∷ [];
  permissions = "read" ∷ [];
}

abbrev straight : Policy
straight = record {
  roles = ("reader", "read" ∷ []) ∷ ("admin", "*" ∷ []) ∷ [];
  rules =
      record { index = 0; match = by_email; deny = false; roles = "reader" ∷ [] }
      ∷ record { index = 1; match = by_email; deny = false; roles = "admin" ∷ [] }
      ∷ [];
  permissions = "read" ∷ [];
}

abbrev turned_ann : Principal
turned_ann = record {
  issuer = "https://idp.acme.com";
  sub = "ann";
  email = some "ann@acme.com";
  domain = none;
  roles = "admin" ∷ "reader" ∷ [];
  permissions = "*" ∷ "read" ∷ [];
}

decide-straight : decide same_case straight (caller "ann" true) ≡ ok ann
unfolding decide mcp_authz.Policy.Matching.holds_if_set mcp_authz.Policy.Matching.equals_fold
    mcp_authz.Base.all
decide-straight = refl

decide-turned : decide same_case turned (caller "ann" true) ≡ ok turned_ann
unfolding decide mcp_authz.Policy.Matching.holds_if_set mcp_authz.Policy.Matching.equals_fold
    mcp_authz.Base.all
decide-turned = refl

straight-HasRulesOf : HasRulesOf straight turned
straight-HasRulesOf rule (inl e) =
    (_, inr (inl refl), (ap (λ r. r.match) e, ap (λ r. r.deny) e, ap (λ r. r.roles) e))
straight-HasRulesOf rule (inr (inl e)) =
    (_, inl refl, (ap (λ r. r.match) e, ap (λ r. r.deny) e, ap (λ r. r.roles) e))
straight-HasRulesOf rule (inr (inr f)) = absurd f

turned-HasRulesOf : HasRulesOf turned straight
turned-HasRulesOf rule (inl e) =
    (_, inr (inl refl), (ap (λ r. r.match) e, ap (λ r. r.deny) e, ap (λ r. r.roles) e))
turned-HasRulesOf rule (inr (inl e)) =
    (_, inl refl, (ap (λ r. r.match) e, ap (λ r. r.deny) e, ap (λ r. r.roles) e))
turned-HasRulesOf rule (inr (inr f)) = absurd f

decide_order_example : can ann "write" ≡ can turned_ann "write"
decide_order_example =
    decide_order same_case (caller "ann" true) straight turned refl straight-HasRulesOf
      turned-HasRulesOf ann turned_ann decide-straight decide-turned "write"

reconcile-error_iff_example : ((reconcile team.roles (("wipe", "delete") ∷ [])).error ≡ none) ↔ (
    (entry : String × String)
    → In entry (("wipe", "delete") ∷ [])
    → IsGranted team.roles "*" ⊎ IsGranted team.roles entry.1)
reconcile-error_iff_example = reconcile-error_iff team.roles (("wipe", "delete") ∷ [])

reconcile-warning_iff_example :
    ((reconcile team.roles (("wipe", "delete") ∷ [])).warning ≡ none) ↔ (
      (p : String)
      → IsGranted team.roles p
      → p ≢ "*"
      → (label : String) × In {A = String × String} (label, p) (("wipe", "delete") ∷ []))
reconcile-warning_iff_example = reconcile-warning_iff team.roles (("wipe", "delete") ∷ [])
