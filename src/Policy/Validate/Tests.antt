-- ===== src/Policy/Validate/Tests.antt =====
-- A policy as it is written, and what becomes of it.
use mcp_authz.Base.{
  true, false, String, ◌≡◌, refl, List, [], ◌∷◌, Option, none, some, Result, ok, err,
}
use mcp_authz.Json.{Json, str, bool, arr, obj, nil, cons, end, field}
use mcp_authz.Policy.{Match, Rule, Policy, PolicyError, undefined_role}
use mcp_authz.Policy.Validate.{define_policy}
use mcp_authz.Policy.Validate.WellFormed.{IsWellFormed, define_policy-IsWellFormed}

abbrev one : String → Json
one s = arr (cons (str s) nil)

-- Readers read, admins do everything, and one subject is shut out.
abbrev pub spec : Json
spec = obj (
    field "roles" (obj (field "reader" (one "read") (field "admin" (one "*") end))) (
      field "rules"
        (arr (
          cons
            (obj (
              field "match" (obj (field "email" (str "ann@acme.com") end))
                (field "role" (one "reader") end)))
            (cons
              (obj (
                field "match" (obj (field "domain" (str "acme.com") end))
                  (field "role" (str "admin") end)))
              (cons
                (obj (
                  field "match" (obj (field "sub" (str "mallory") end))
                    (field "deny" (bool true) end)))
                nil))))
        end))

abbrev nobody : Match
nobody = record { issuer = none; sub = none; email = none; domain = none; claim = [] }

abbrev pub rules : List Rule
rules =
    record {
      index = 0;
      match = record {
        issuer = none;
        sub = none;
        email = some "ann@acme.com";
        domain = none;
        claim = [];
      };
      deny = false;
      roles = "reader" ∷ [];
    }
    ∷ record {
      index = 1;
      match = record {
        issuer = none;
        sub = none;
        email = none;
        domain = some "acme.com";
        claim = [];
      };
      deny = false;
      roles = "admin" ∷ [];
    }
    ∷ record {
      index = 2;
      match = record {
        issuer = none;
        sub = some "mallory";
        email = none;
        domain = none;
        claim = [];
      };
      deny = true;
      roles = [];
    }
    ∷ []

abbrev pub team : Policy
team = record {
  roles = ("reader", "read" ∷ []) ∷ ("admin", "*" ∷ []) ∷ [];
  rules = rules;
  permissions = "read" ∷ [];
}

pub define_policy-team : define_policy spec ≡ ok team
unfolding define_policy mcp_authz.Json.record? mcp_authz.Policy.Validate.only_keys
    mcp_authz.Base.contains mcp_authz.Json.own mcp_authz.Policy.Validate.array?
    mcp_authz.Policy.Validate.catalogue_of mcp_authz.Policy.Validate.validate_roles
    mcp_authz.Policy.Validate.validate_role mcp_authz.Policy.Validate.string_list
    mcp_authz.Policy.Validate.collect_strings mcp_authz.Base.insert
    mcp_authz.Policy.Validate.all_listed mcp_authz.Policy.Validate.validate_rules
    mcp_authz.Policy.Validate.validate_rule mcp_authz.Policy.Validate.deny_flag
    mcp_authz.Policy.Validate.is_undefined mcp_authz.Policy.Validate.role_names
    mcp_authz.Base.filter mcp_authz.Base.flat_map mcp_authz.Base.dedup mcp_authz.Base.dedup_from
    mcp_authz.Base.lookup mcp_authz.Json.string? mcp_authz.Policy.Validate.all_defined
    mcp_authz.Policy.Validate.claim_entries mcp_authz.Policy.Validate.claim_field
    mcp_authz.Policy.Validate.every_name mcp_authz.Policy.Validate.match_field
    mcp_authz.Policy.Validate.validate_match mcp_authz.Policy.Validate.vocabulary
define_policy-team = refl

define_policy-IsWellFormed_example : IsWellFormed team
define_policy-IsWellFormed_example = define_policy-IsWellFormed spec team define_policy-team
