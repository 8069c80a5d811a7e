-- ===== src/OpenApi.antt =====
-- openapi.ts: the operations of an OpenAPI document and their prices. Routes has the order in which they are tried.
-- A document is the entries of its object.
pub mod Tests
pub mod Routes
pub mod Serve
pub mod Filtered
pub mod Origin
pub mod Booted
use mcp_authz.Base.{
  ℕ, ◌+◌, Bool, true, false, not, ◌&&◌, ◌||◌, String, List, [], ◌∷◌, ◌++◌, Option, none, some,
  Result, ok, err, ◌>>=◌, ◌>>◌, nat_eq, ltb, is_empty, filter, any, contains, lookup, put, keys,
  map, is_some, if◌then◌else◌, ◌==◌, ◌^^◌, and_then,
}
use mcp_authz.Base.Chars.{codes}
use mcp_authz.Json.{Json, string?, obj, of_entries, own}
use mcp_authz.Json.Access.{is_object, object_members}
use mcp_authz.Definitions.{sorted_names}
use mcp_authz.Screen.{members}
use mcp_authz.Policy.{Principal, can}
use mcp_authz.Policy.Reconcile.{reconcile}
use mcp_authz.Wrap.{units}

-- `OpenApiDocument`
abbrev pub Document : Type 0
Document = List (String × Json)

-- `METHODS`
abbrev pub methods : List String
methods = "get" ∷ "put" ∷ "post" ∷ "delete" ∷ "options" ∷ "head" ∷ "patch" ∷ "trace" ∷ []

-- `OpenApiOperation`
pub record Operation : Type 0 where
  pub operation_id : String
  pub method : String
  pub path : String

pub data SpecError : Type 0 where
  unnamed : (method path : String) → SpecError
  reused : (id first method path : String) → SpecError
  unpriced undescribed : (id : String) → SpecError
  unreachable : (report : String) → SpecError

-- `seen` and `operations`
pub record Recorded : Type 0 where
  pub seen : List (String × String)
  pub operations : List Operation

-- `toUpperCase`, of the methods of a document.
abbrev pub upper : String → String
upper method =
    if method == "get"
    then "GET"
    else if method == "put"
    then "PUT"
    else if method == "post"
    then "POST"
    else if method == "delete"
    then "DELETE"
    else if method == "options"
    then "OPTIONS"
    else if method == "head"
    then "HEAD"
    else if method == "patch"
    then "PATCH"
    else "TRACE"

-- `operation.operationId`, where it is a text.
abbrev pub text_id : Json → Option String
text_id operation = string? (own (members operation) "operationId")

-- `operation.operationId`, where it is a text that names something.
pub operation_id : Json → Option String
operation_id operation = and_then (text_id operation) (λ id. if id == "" then none else some id)

abbrev pub recorded_as :
    Recorded → String → String → String → Option String → Result SpecError Recorded
recorded_as r path method id (some first) = err (reused id first method path)
recorded_as r path method id none = ok (record {
  seen = put r.seen id (upper method ^^ " " ^^ path);
  operations = r.operations ++ record { operation_id = id; method = method; path = path } ∷ [];
})

abbrev pub recorded_by : Recorded → String → String → Option String → Result SpecError Recorded
recorded_by r path method none = err (unnamed method path)
recorded_by r path method (some id) = recorded_as r path method id (lookup r.seen id)

-- What one method of a path item adds.
pub record_method : Recorded → String → List (String × Json) → String → Result SpecError Recorded
record_method r path item method =
    if is_object (own item method)
    then recorded_by r path method (operation_id (own item method))
    else ok r

pub record_methods :
    Recorded → String → List (String × Json) → List String → Result SpecError Recorded
record_methods r path item [] = ok r
record_methods r path item (method ∷ more) =
    record_method r path item method >>= λ next. record_methods next path item more

pub record_paths : Recorded → List (String × Json) → Result SpecError Recorded
record_paths r [] = ok r
record_paths r ((path, item) ∷ more) =
    record_methods r path (members item) methods >>= λ next. record_paths next more

-- `spec.paths ?? {}`
abbrev pub paths_of : Document → List (String × Json)
paths_of spec = members (own spec "paths")

-- `recordOperations`
pub record_operations : Document → Result SpecError Recorded
record_operations spec = record_paths (record { seen = []; operations = [] }) (paths_of spec)

-- What a name is priced at: a permission, what every object inherits under that name, or nothing at all.
pub data Price : Type 0 where
  permission : String → Price
  inherited absent : Price

abbrev price_from : String → Option String → Option Price
price_from id (some p) = some (permission p)
price_from id none = if contains object_members id then some inherited else none

-- `permissions[id]`
pub price_of : List (String × String) → String → Option Price
price_of permissions id = price_from id (lookup permissions id)

-- `principal.can(price)`
pub can_pay : Principal → Price → Bool
can_pay p (permission name) = can p name
can_pay p inherited = contains p.permissions "*"
can_pay p absent = contains p.permissions "*"

abbrev pub may_pay : Principal → Option Price → Bool
may_pay p none = false
may_pay p (some price) = can_pay p price

abbrev pub may_call_id : Principal → List (String × String) → Option String → Bool
may_call_id p permissions none = false
may_call_id p permissions (some id) = may_pay p (price_of permissions id)

-- `filterSpec`: whether this caller may call the operation.
pub may_call : Principal → List (String × String) → Json → Bool
may_call p permissions operation = may_call_id p permissions (text_id operation)

-- Of a path item, what describes it and the operations of this caller.
pub is_kept : Principal → List (String × String) → String × Json → Bool
is_kept p permissions (key, value) =
    if contains methods key then may_call p permissions value else true

abbrev is_operation : String × Json → Bool
is_operation (key, value) = contains methods key

pub filter_item : Principal → List (String × String) → List (String × Json) → List (String × Json)
filter_item p permissions item = filter (is_kept p permissions) item

pub filter_paths : Principal → List (String × String) → List (String × Json) → List (String × Json)
filter_paths p permissions [] = []
filter_paths p permissions ((path, item) ∷ more) =
    let rest = filter_paths p permissions more in
    let kept = filter_item p permissions (members item) in
    if any is_operation kept then (path, obj (of_entries kept)) ∷ rest else rest

-- `filterSpec`
pub filter_spec : Document → Principal → List (String × String) → Document
filter_spec spec p permissions =
    put spec "paths" (obj (of_entries (filter_paths p permissions (paths_of spec))))

abbrev pub priced_or_not : String → Option Price → Result SpecError Price
priced_or_not id none = err (unpriced id)
priced_or_not id (some price) = ok price

-- `priced`, with the check at boot that every operation has a price.
pub price_all : List (String × String) → List String → Result SpecError (List (String × Price))
price_all permissions [] = ok []
price_all permissions (id ∷ ids) = priced_or_not id (price_of permissions id) >>= λ price.
    price_all permissions ids >>= λ rest. ok ((id, price) ∷ rest)

-- The check that every price has an operation.
pub all_described : List (String × Price) → List String → Result SpecError (Unit {0})
all_described priced [] = ok tt
all_described priced (id ∷ ids) =
    let rest = all_described priced ids in
    if is_some (lookup priced id) then rest else err (undescribed id)

-- What a price is as a text.
abbrev pub price_text : String → Price → String
price_text id (permission p) = p
price_text id inherited = "function " ^^ id ^^ "() { [native code] }"
price_text id absent = "undefined"

abbrev priced_text : String × Price → String × String
priced_text (id, price) = (id, price_text id price)

abbrev reported : Option String → Result SpecError (Unit {0})
reported none = ok tt
reported (some report) = err (unreachable report)

-- The reconciliation with the roles of a policy, where there is one.
abbrev pub reconciled :
    Option (List (String × List String)) → List (String × Price) → Result SpecError (Unit {0})
reconciled none priced = ok tt
reconciled (some roles) priced = reported (reconcile roles (map priced_text priced)).error

-- The checks at boot, and what comes of them.
pub boot :
    Document
    → List (String × String)
    → Option (List (String × List String))
    → Result SpecError (List Operation × List (String × Price))
boot spec permissions roles = record_operations spec >>= λ recorded.
    price_all permissions (sorted_names (keys recorded.seen)) >>= λ priced.
    all_described priced (keys permissions)
    >> (reconciled roles priced >> ok (recorded.operations, priced))
