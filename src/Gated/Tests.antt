-- ===== src/Gated/Tests.antt =====
-- Two tools of somebody else, one of which the caller may use.
use mcp_authz.Base.{true, false, String, ◌≡◌, refl, List, [], ◌∷◌, Option, none, some, ok, ◌↔◌, In}
use mcp_authz.Policy.{Principal}
use mcp_authz.Ladder.{tool}
use mcp_authz.Gated.{Registration, Registered, GateOptions, gated_all}
use mcp_authz.Gated.Enabled.{AllGated, gated_all_iff}

abbrev reader : Principal
reader = record {
  issuer = "https://idp.acme.com";
  sub = "rob";
  email = none;
  domain = none;
  roles = "reader" ∷ [];
  permissions = "read" ∷ [];
}

abbrev prices : List (String × String)
prices = ("search", "read") ∷ ("wipe", "delete") ∷ []

abbrev options : GateOptions
options = record { on_audit = false; on_approval = true; approval = some (("wipe", true) ∷ []) }

abbrev builder : List Registration
builder =
    record { kind = tool; name = "search"; has_handler = true; can_disable = true }
    ∷ record { kind = tool; name = "wipe"; has_handler = true; can_disable = true }
    ∷ []

abbrev held : List Registered
held =
    record { label = "search"; permission = "read"; guarded = false; enabled = true }
    ∷ record { label = "wipe"; permission = "delete"; guarded = true; enabled = false }
    ∷ []

built : gated_all reader prices options builder ≡ ok held
unfolding gated_all mcp_authz.Gated.gated mcp_authz.Gated.registered_at mcp_authz.Base.lookup
    mcp_authz.Ladder.capability_label mcp_authz.Gated.asks mcp_authz.Base.contains
    mcp_authz.Policy.can
built = refl

gated_all_iff_example :
    (gated_all reader prices options builder ≡ ok held)
    ↔ AllGated reader prices options builder held
gated_all_iff_example = gated_all_iff reader prices options builder held
