-- ===== src/Proxy/Answers.antt =====
-- proxy.ts: the answers that are rewritten on their way back, and `instructions` of upstream-record.ts.
-- What the record finds of an item does not depend on its state, so the state that a listing leaves is
-- that of Record.Runs.
pub mod Tests
pub mod Private
use mcp_authz.Base.{
  ℕ, zero, suc, Bool, true, false, not, ◌&&◌, ◌||◌, String, List, [], ◌∷◌, Option, none, some,
  Result, ok, err, ◌>>=◌, is_some, lookup, put, remove, decimal, if◌then◌else◌, ◌==◌,
}
use mcp_authz.Json.{
  Json, undefined, null, bool, num, str, arr, obj, raw, Items, nil, cons, entries, of_entries,
  record?, own,
}
use mcp_authz.Policy.{Principal}
use mcp_authz.Catalogue.{Thrown, ListingMethod, filter_listing_result, retain_listed}
use mcp_authz.Record.{Definitions, instructions_label, start}
use mcp_authz.Record

-- The entries that spreading a list gives: each item under its position.
indexed : ℕ → Items → List (String × Json)
indexed i nil = []
indexed i (cons v vs) = (decimal i, v) ∷ indexed (suc i) vs

-- `typeof value === 'object' && value !== null`, as the entries that `...value` gives.
pub spread? : Json → Option (List (String × Json))
spread? (arr vs) = some (indexed 0 vs)
spread? value = record? value

-- A message without a result passes if it is an error or a notification.
pub passes_bare : List (String × Json) → Bool
passes_bare message = is_some (lookup message "error") || is_some (lookup message "method")

-- What both transforms do with a message: the rewrite is of its result, where it has one.
abbrev pub rewritten :
    List (String × Json)
    → (List (String × Json) → Result Thrown (List (String × Json)))
    → Option (List (String × Json))
    → Result Thrown (Option Json)
rewritten message rewrite none = ok none
rewritten message rewrite (some result) = do
  after ← rewrite result
  ok (some (obj (of_entries (put message "result" (obj (of_entries after))))))

abbrev pub with_result :
    List (String × Json)
    → (List (String × Json) → Result Thrown (List (String × Json)))
    → Option Json
    → Result Thrown (Option Json)
with_result message rewrite none =
    ok (if passes_bare message then some (obj (of_entries message)) else none)
with_result message rewrite (some result) = rewritten message rewrite (spread? result)

abbrev pub of_message :
    (List (String × Json) → Result Thrown (List (String × Json)))
    → Option (List (String × Json))
    → Result Thrown (Option Json)
of_message rewrite none = ok none
of_message rewrite (some message) = with_result message rewrite (lookup message "result")

-- `===` between a value read from an answer and a recorded one: no two of them are the same object.
unfoldable pub same_value : Json → Json → Bool
same_value undefined undefined = true
same_value null null = true
same_value (bool true) (bool b) = b
same_value (bool false) (bool b) = not b
same_value (num s) (num t) = s == t
same_value (str s) (str t) = s == t
same_value _ _ = false

abbrev field_at : Option (List (String × Json)) → String → Json
field_at none key = undefined
field_at (some fs) key = own fs key

abbrev recorded_instructions : Option Json → Json
recorded_instructions none = undefined
recorded_instructions (some definition) = field_at (record? definition) "instructions"

-- `instructions`: the live ones where they are those of the record, and otherwise none.
pub instructions : Definitions → Json → Json
instructions definitions live =
    if same_value live (recorded_instructions (lookup definitions instructions_label))
    then live
    else undefined

abbrev with_instructions : List (String × Json) → Json → List (String × Json)
with_instructions rest undefined = rest
with_instructions rest kept = put rest "instructions" kept

-- `holdInstructions`
pub hold_instructions : Definitions → Json → Result Thrown (Option Json)
hold_instructions definitions payload =
    of_message
      (λ result. ok (
        with_instructions (remove result "instructions")
          (instructions definitions (own result "instructions"))))
      (record? payload)

module _ (to_text : Json → String) (changed_fields : Json → Json → List String)
    (definitions : Definitions) (principal : Principal) (permissions : List (String × String)) where
  -- Whether the record finds an item as it was approved.
  pub is_unchanged : String → Json → Bool
  is_unchanged label item = (Record.matches changed_fields definitions label item 0 start).0

  pub filter_result : ListingMethod → List (String × Json) → Result Thrown (List (String × Json))
  filter_result method result = do
    kept ← retain_listed to_text method result is_unchanged
    shown ← filter_listing_result to_text method kept principal permissions
    ok (put shown "cacheScope" (str "private"))

  -- `filterMessage`
  pub filter_message : ListingMethod → Json → Result Thrown (Option Json)
  filter_message method payload = of_message (filter_result method) (record? payload)
