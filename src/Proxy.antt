-- ===== src/Proxy.antt =====
-- proxy.ts: what a message through the proxy reaches, and what lets it pass. The record's `refuse` and
-- `checkArguments` of screen.ts are arguments here.
pub mod Tests
pub mod Priced
pub mod Passed
pub mod Serve
pub mod Setup
pub mod Answers
use mcp_authz.Base.{
  ℕ, Bool, true, false, not, ◌&&◌, ◌||◌, String, List, [], ◌∷◌, ◌++◌, Option, none, some, Result,
  ok, err, ◌>>=◌, ◌>>◌, refuse_if, filter, find, is_empty, map, contains, lookup, has_char, or_else,
  or_option, flat_map, if◌then◌else◌, ◌==◌, ◌^^◌,
}
use mcp_authz.Json.{Json, undefined, str, arr, Items, items, record?, own}
use mcp_authz.Policy.{Principal, can}
use mcp_authz.Routing.{Route, request_id, text_in}
use mcp_authz.Ladder.{Entry, Reply, protocol_error, policy_denied, permission_for_flat_map}
use mcp_authz.Ladder.Gate.{
  Decision, DecisionEvent, Refused, unless_empty, emit_decision, principal_label, not_permitted,
}
use mcp_authz.Catalogue.{is_invocation_method}

-- An entry of the `ProxyResourceIndex`.
pub record Resource : Type 0 where
  pub label : String
  pub permission : String
  pub pattern : String
  pub matches : String → Bool

abbrev pub entry_of : Resource → Entry
entry_of r = record { label = r.label; permission = r.permission; matches = r.matches }

-- Whether a resource answers on a URI: one with a brace names a template.
pub answers_on : String → Resource → Bool
answers_on uri r = if has_char b'{' uri then r.pattern == uri else r.matches uri

-- `coveringResources`
pub covering_resources : List Resource → String → List Resource
covering_resources resources uri = filter (answers_on uri) resources

-- `PASS_THROUGH`
abbrev pub pass_through : List String
pass_through =
    "server/discover" ∷ "ping" ∷ "tools/list" ∷ "prompts/list" ∷ "resources/list"
    ∷ "resources/templates/list" ∷ "notifications/cancelled" ∷ "notifications/progress" ∷ []

-- What `reach` answers with: the requests that a message comes to, why it is malformed, or nothing for a
-- method that is not forwarded.
pub data Reached : Type 0 where
  targets : List Route → Reached
  malformed : String → Reached
  unforwarded : Reached

abbrev own_in : Option (List (String × Json)) → String → Json
own_in none key = undefined
own_in (some fs) key = own fs key

-- `value?.[key]`, where no inherited member has the key.
pub at_key : Json → String → Json
at_key value key = own_in (record? value) key

abbrev toward : Route → String → String → Route
toward route method name = record { body = route.body; method = method; name = some name }

abbrev is_named : Option String → Bool
is_named none = false
is_named (some name) = not (name == "")

abbrev uri_target : Route → Option String → Reached
uri_target route none =
    Reached.malformed "a completion/complete whose ref names no prompt or resource"
uri_target route (some uri) = Reached.targets (toward route "resources/read" uri ∷ [])

abbrev prompt_target : Route → Json → Option String → Reached
prompt_target route ref (some name) = Reached.targets (toward route "prompts/get" name ∷ [])
prompt_target route ref none =
    Reached.malformed "a completion/complete whose ref names no prompt or resource"

-- The capability that a completion's `ref` names.
pub completes : Route → Json → Reached
completes route ref = elim (text_in (at_key ref "type")) [
  | none ↦ Reached.malformed "a completion/complete whose ref names no prompt or resource"
  | some type ↦
      if type == "ref/prompt"
      then prompt_target route ref (text_in (at_key ref "name"))
      else if type == "ref/resource"
      then uri_target route (text_in (at_key ref "uri"))
      else Reached.malformed "a completion/complete whose ref names no prompt or resource"
]

-- The texts of a list of texts.
pub all_texts : Items → Option (List String)
all_texts Items.nil = some []
all_texts (Items.cons v vs) = elim (text_in v) [
  | none ↦ none
  | some s ↦ elim (all_texts vs) [ none ↦ none | some ss ↦ some (s ∷ ss) ]
]

abbrev not_uris : Reached
not_uris =
    Reached.malformed "a subscriptions/listen whose resourceSubscriptions is not a list of URIs"

abbrev subscribed : Route → Option (List String) → Reached
subscribed route none = not_uris
subscribed route (some uris) = Reached.targets (map (toward route "resources/read") uris)

-- The resources that a subscription names.
pub listens : Route → Json → Reached
listens route undefined = Reached.targets []
listens route (arr vs) = subscribed route (all_texts vs)
listens route _ = not_uris

-- `reach`
pub reach : Route → Reached
reach route =
    if is_invocation_method route.method
    then (if is_named route.name
        then Reached.targets (route ∷ [])
        else Reached.malformed ("a " ^^ route.method ^^ " that names no capability"))
    else if route.method == "completion/complete"
    then completes route (at_key (at_key route.body "params") "ref")
    else if route.method == "subscriptions/listen"
    then listens route
        (at_key (at_key (at_key route.body "params") "notifications") "resourceSubscriptions")
    else Reached.unforwarded

abbrev unpriced : Option String → String
unpriced name =
    "the capability '" ^^ or_else name "undefined" ^^ "' is not priced in the permission map"

module _ (principal : Principal) (permissions : List (String × String))
    (resources : List Resource) where
  -- A resource is held to every registration that covers its URI.
  abbrev lacking : List Resource → Option Resource → Result String (List String)
  lacking covering (some entry) = err ("the permission '" ^^ entry.permission ^^ "'")
  lacking covering none = ok (map (λ (r : Resource). r.label) covering)

  pub price_resource : String → Result String (List String)
  price_resource uri = do
    refuse_if (is_empty (covering_resources resources uri)) (unpriced (some uri))
    lacking (covering_resources resources uri)
        (find (λ entry. not (can principal entry.permission)) (covering_resources resources uri))

  abbrev labels_of : Route → String → List String
  labels_of target name =
      if target.method == "tools/call"
      then name ∷ ("tool:" ^^ name) ∷ []
      else ("prompt:" ^^ name) ∷ []

  pub price_named : Route → Option String → Result String (List String)
  price_named target none = err (unpriced target.name)
  price_named target (some permission) = do
    refuse_if (not (can principal permission)) ("the permission '" ^^ permission ^^ "'")
    ok (labels_of target (or_else target.name "undefined"))

  -- One turn of the loop over the targets: why it is refused, or the labels to hold to the record.
  pub price_target : Route → Result String (List String)
  price_target target =
      if target.method == "resources/read"
      then price_resource (or_else target.name "undefined")
      else price_named target
          (permission_for_flat_map permissions target (map entry_of resources) (can principal))

  pub price_targets : List Route → Result String (List String)
  price_targets [] = ok []
  price_targets (target ∷ rest) = do
    labels ← price_target target
    more ← price_targets rest
    ok (labels ++ more)

  module _ (definitions : List (String × Json)) (changed : List String → Option String)
      (check_arguments : String → Json → Json → Option String) (on_decision : Bool)
      (emitter : Option String) (at : String) where
    -- `refuse` of `authorizeMessage`
    pub refuse : String → Refused
    refuse because = record {
      reply = policy_denied (not_permitted (principal_label principal) because);
      events =
          emit_decision on_decision (some principal) Decision.deny (some "policy_denied") emitter
            at;
    }

    abbrev lifted : Result String (List String) → Result Refused (List String)
    lifted (ok labels) = ok labels
    lifted (err because) = err (refuse because)

    abbrev kept_by_record : Option String → Result Refused (Unit {0})
    kept_by_record none = ok tt
    kept_by_record (some because) = err (refuse because)

    abbrev wrong_by : String → Option Json → Json → Option String
    wrong_by tool none arguments = none
    wrong_by tool (some definition) arguments = check_arguments tool definition arguments

    abbrev answered : Route → Option String → Result Refused (Unit {0})
    answered route none = ok tt
    answered route (some wrong) = err (record {
      reply = protocol_error 400 32602 ("Invalid params: " ^^ wrong) none (request_id route.body);
      events = [];
    })

    -- What is wrong with the arguments of a tool, which are part of what was approved.
    pub wrong_arguments : Route → Option String
    wrong_arguments route =
        if route.method == "tools/call"
        then wrong_by (or_else route.name "undefined")
            (or_option (lookup definitions (or_else route.name "undefined"))
              (lookup definitions ("tool:" ^^ or_else route.name "undefined")))
            (at_key (at_key route.body "params") "arguments")
        else none

    pub price_reached : Route → Reached → Result Refused (Unit {0})
    price_reached route Reached.unforwarded = err (record {
      reply =
          protocol_error 400 32601
            ("Method not found: this proxy does not forward " ^^ route.method ^^ ".") none
            (request_id route.body);
      events = [];
    })
    price_reached route (Reached.malformed because) = err (refuse because)
    price_reached route (Reached.targets reached) = do
      labels ← lifted (price_targets reached)
      kept_by_record (unless_empty (changed labels))
      answered route (unless_empty (wrong_arguments route))

    -- `authorizeMessage`
    pub authorize_message : Route → Result Refused (Unit {0})
    authorize_message route =
        if contains pass_through route.method then ok tt else price_reached route (reach route)
