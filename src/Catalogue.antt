-- ===== src/Catalogue.antt =====
-- catalogue.ts: what a caller sees of a listing. `to_text` stands for the language's conversion `String`.
pub mod Tests
pub mod Shown
use mcp_authz.Base.{
  Bool, true, false, ◌||◌, String, List, [], ◌∷◌, Option, none, some, Result, ok, err, ◌>>=◌,
  lookup, put, if◌then◌else◌, ◌==◌,
}
use mcp_authz.Json.{Json, undefined, null, str, arr, obj, raw, items, of_items, record?, own}
use mcp_authz.Policy.{Principal, can}
use mcp_authz.Ladder.{Kind, capability_label}

-- Reading a member of `null` or of `undefined` throws.
pub data Thrown : Type 0 where
  type_error : Thrown

-- `Array.prototype.filter` with a test that may throw.
unfoldable pub retained : (Json → Result Thrown Bool) → List Json → Result Thrown (List Json)
retained keep [] = ok []
retained keep (item ∷ rest) = do
  stays ← keep item
  others ← retained keep rest
  ok (if stays then item ∷ others else others)

abbrev own_in : Option (List (String × Json)) → String → Json
own_in none key = undefined
own_in (some fs) key = own fs key

-- `item.name`
unfoldable pub name_of : Json → Result Thrown Json
name_of null = err type_error
name_of undefined = err type_error
name_of item = ok (own_in (record? item) "name")

-- The key that the label of a name is: a tool's is the name itself, which is no key unless it is a text;
-- the others stand in a template.
unfoldable pub label_of : (Json → String) → Kind → Json → Option String
label_of to_text Kind.tool (str name) = some (capability_label Kind.tool name)
label_of to_text Kind.tool _ = none
label_of to_text Kind.prompt name = some (capability_label Kind.prompt (to_text name))
label_of to_text Kind.resource name = some (capability_label Kind.resource (to_text name))

abbrev permitted : Principal → Option String → Bool
permitted principal none = false
permitted principal (some permission) = can principal permission

abbrev priced : List (String × String) → Option String → Option String
priced permissions none = none
priced permissions (some label) = lookup permissions label

-- The test of `filterByPermission`.
unfoldable pub is_shown :
    (Json → String) → Kind → Principal → List (String × String) → Json → Result Thrown Bool
is_shown to_text kind principal permissions item = do
  name ← name_of item
  ok (permitted principal (priced permissions (label_of to_text kind name)))

-- `filterByPermission`, and with the four kinds of listing its four callers.
unfoldable pub filter_by_permission :
    (Json → String)
    → Kind
    → Principal
    → List (String × String)
    → List Json
    → Result Thrown (List Json)
filter_by_permission to_text kind principal permissions listed =
    retained (is_shown to_text kind principal permissions) listed

pub data ListingMethod : Type 0 where
  tools_list prompts_list resources_list resource_templates_list : ListingMethod

-- `LISTING_FIELDS`
abbrev pub listing_field : ListingMethod → String
listing_field ListingMethod.tools_list = "tools"
listing_field ListingMethod.prompts_list = "prompts"
listing_field ListingMethod.resources_list = "resources"
listing_field ListingMethod.resource_templates_list = "resourceTemplates"

-- `LISTING_KINDS`, at the field of the method.
abbrev pub listing_kind : ListingMethod → Kind
listing_kind ListingMethod.tools_list = Kind.tool
listing_kind ListingMethod.prompts_list = Kind.prompt
listing_kind ListingMethod.resources_list = Kind.resource
listing_kind ListingMethod.resource_templates_list = Kind.resource

-- `isListingMethod`, with the method that it is.
pub listing_method? : String → Option ListingMethod
listing_method? method =
    if method == "tools/list"
    then some ListingMethod.tools_list
    else if method == "prompts/list"
    then some ListingMethod.prompts_list
    else if method == "resources/list"
    then some ListingMethod.resources_list
    else if method == "resources/templates/list"
    then some ListingMethod.resource_templates_list
    else none

-- `isInvocationMethod`
unfoldable pub is_invocation_method : String → Bool
is_invocation_method method =
    method == "tools/call" || method == "prompts/get" || method == "resources/read"

-- A result whose listing is filtered; one that lists nothing readable is left as it is.
abbrev pub relisted :
    List (String × Json)
    → String
    → (List Json → Result Thrown (List Json))
    → Json
    → Result Thrown (List (String × Json))
relisted result field shorten (arr vs) = do
  shown ← shorten (items vs)
  ok (put result field (arr (of_items shown)))
relisted result field shorten _ = ok result

-- `filterListingResult`
unfoldable pub filter_listing_result :
    (Json → String)
    → ListingMethod
    → List (String × Json)
    → Principal
    → List (String × String)
    → Result Thrown (List (String × Json))
filter_listing_result to_text method result principal permissions =
    relisted result (listing_field method)
      (filter_by_permission to_text (listing_kind method) principal permissions)
      (own result (listing_field method))

-- The test of `retainListed`: every name is converted.
unfoldable pub keeps : (Json → String) → Kind → (String → Json → Bool) → Json → Result Thrown Bool
keeps to_text kind keep item = do
  name ← name_of item
  ok (keep (capability_label kind (to_text name)) item)

-- `retainListed`
unfoldable pub retain_listed :
    (Json → String)
    → ListingMethod
    → List (String × Json)
    → (String → Json → Bool)
    → Result Thrown (List (String × Json))
retain_listed to_text method result keep =
    relisted result (listing_field method) (retained (keeps to_text (listing_kind method) keep))
      (own result (listing_field method))
