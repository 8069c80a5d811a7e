-- ===== src/Gated.antt =====
-- gate.ts: the capabilities of a server that somebody else builds, gated as they are registered. A
-- predicate for approval counts as one that asks; what guards a handler is in Guard.
pub mod Tests
pub mod Enabled
use mcp_authz.Base.{
  Bool, true, false, not, ◌&&◌, ◌||◌, String, List, [], ◌∷◌, Option, none, some, Result, ok, err,
  ◌>>=◌, ◌>>◌, refuse_if, contains, lookup,
}
use mcp_authz.Json.Access.{object_members}
use mcp_authz.Policy.{Principal, can}
use mcp_authz.Ladder.{Kind, capability_label}

pub data GateError : Type 0 where
  undeclared no_approver cannot_disable : (label : String) → GateError

-- A call of `registerTool`, `registerPrompt` or `registerResource`: whether its last argument is a
-- handler, and whether the SDK's handle can be disabled.
pub record Registration : Type 0 where
  pub kind : Kind
  pub name : String
  pub has_handler : Bool
  pub can_disable : Bool

-- What the server then holds of it.
pub record Registered : Type 0 where
  pub label : String
  pub permission : String
  pub guarded : Bool
  pub enabled : Bool

pub record GateOptions : Type 0 where
  pub on_audit : Bool
  pub on_approval : Bool
  pub approval : Option (List (String × Bool))

-- `options.approval?.[label]`: a member that every object inherits asks as well.
abbrev asks_at : List (String × Bool) → String → Option Bool → Bool
asks_at approval label none = contains object_members label
asks_at approval label (some b) = b

pub asks : Option (List (String × Bool)) → String → Bool
asks none label = false
asks (some approval) label = asks_at approval label (lookup approval label)

module _ (principal : Principal) (permissions : List (String × String))
    (options : GateOptions) where
  pub registered_at : Registration → String → Option String → Result GateError Registered
  registered_at r label none = err (undeclared label)
  registered_at r label (some permission) = do
    refuse_if (asks options.approval label && not options.on_approval) (no_approver label)
    refuse_if (not (can principal permission) && not r.can_disable) (cannot_disable label)
    ok (record {
      label = label;
      permission = permission;
      guarded = (options.on_audit || asks options.approval label) && r.has_handler;
      enabled = can principal permission;
    })

  -- `gated`
  pub gated : Registration → Result GateError Registered
  gated r =
      registered_at r (capability_label r.kind r.name)
        (lookup permissions (capability_label r.kind r.name))

  -- A builder that registers one capability after the other.
  pub gated_all : List Registration → Result GateError (List Registered)
  gated_all [] = ok []
  gated_all (r ∷ rest) = do first ← gated r; others ← gated_all rest; ok (first ∷ others)
