-- ===== src/OpenApi/Booted.antt =====
-- What the checks at boot make sure of.
use mcp_authz.Base.{
  true, String, ◌≡◌, sym, ap, subst, ◌∙◌, ◌↔◌, inl, inr, List, [], ◌∷◌, Option, none, some, ok,
  >>=-eq-ok, >>_iff, In, Bool-cases, if-cases, and_then-eq-some, keys, lookup, eq_iff, ◌==◌,
}
use mcp_authz.Json.{Json}
use mcp_authz.Policy.{Principal}
use mcp_authz.Definitions.{sorted_names}
use mcp_authz.Definitions.Changed.{sorted_names_lem}
use mcp_authz.OpenApi.{
  Document, Operation, Recorded, Price, paths_of, operation_id, record_operations, price_of,
  text_id, may_pay, may_call, may_call_id, can_pay, filter_spec, priced_or_not, price_all,
  all_described, reconciled, boot,
}
use mcp_authz.OpenApi.Origin.{IsSound, record_paths-IsSound}
use mcp_authz.OpenApi.Filtered.{Describes, filter_spec-Describes_iff}

priced_or_not_lem :
    (id : String) (found : Option Price) (price : Price)
    → priced_or_not id found ≡ ok price
    → found ≡ some price
priced_or_not_lem id none price e = cc
priced_or_not_lem id (some q) price e = cc

-- Every operation that is priced has the price that the map of permissions gives its name.
price_all-lookup :
    (permissions : List (String × String)) (ids : List String) (priced : List (String × Price))
    (id : String)
    → price_all permissions ids ≡ ok priced
    → In id ids
    → (price : Price) × (price_of permissions id ≡ some price) × (lookup priced id ≡ some price)
unfolding price_all lookup
price_all-lookup permissions [] priced id e i = absurd i
price_all-lookup permissions (j ∷ ids) priced id e i =
    let (price, has, after) = >>=-eq-ok (priced_or_not j (price_of permissions j)) _ e in
    let (rest, later, same) = >>=-eq-ok (price_all permissions ids) _ after in
    let p = priced_or_not_lem j (price_of permissions j) price has in
    let list : ((j, price) ∷ rest) ≡ priced = cc in
    elim (Bool-cases (j == id)) [
      | inl here ↦
          let is : j ≡ id = (eq_iff j id).0 here in
          (
            price,
            subst (λ (x : String). price_of permissions x ≡ some price) is p,
            rw (← list, here),
          )
      | inr apart ↦ elim i [
        | inl is ↦ cc (sym apart ∙ (eq_iff j id).1 is)
        | inr k ↦
            let (q, given, found) = price_all-lookup permissions ids rest id later k in
            (q, given, rw (← list, apart) found)
      ]
    ]

-- What `createOpenApiFetch` has once its checks at boot have passed.
boot-records :
    (spec : Document) (permissions : List (String × String))
    (roles : Option (List (String × List String))) (operations : List Operation)
    (priced : List (String × Price))
    → boot spec permissions roles ≡ ok (operations, priced)
    → (recorded : Recorded) × (record_operations spec ≡ ok recorded)
      × (recorded.operations ≡ operations)
      × (price_all permissions (sorted_names (keys recorded.seen)) ≡ ok priced)
unfolding boot
boot-records spec permissions roles operations priced e =
    let (recorded, records, after) = >>=-eq-ok (record_operations spec) _ e in
    let (prices, all, onward) =
      >>=-eq-ok (price_all permissions (sorted_names (keys recorded.seen))) _ after in
    let (described, last) = (>>_iff (all_described prices (keys permissions)) _ _).0 onward in
    let (reached, same) = (>>_iff (reconciled roles prices) _ _).0 last in
    let these : (recorded.operations, prices) ≡ (operations, priced) = cc in
    (
      recorded,
      records,
      ap (λ (x : List Operation × List (String × Price)). x.0) these,
      all ∙ ap (λ (x : List Operation × List (String × Price)). ok x.1) these,
    )

text_id_lem :
    (operation : Json) (id : String)
    → operation_id operation ≡ some id
    → text_id operation ≡ some id
unfolding operation_id
text_id_lem operation id e =
    let (named, text, after) = and_then-eq-some (text_id operation) _ e in
    elim (if-cases (named == "") none (some named) after) [
      | inl (blank, never) ↦ cc never
      | inr (full, same) ↦ text ∙ same
    ]

may_call_lem :
    (p : Principal) (permissions : List (String × String)) (operation : Json) (id : String)
    (price : Price)
    → operation_id operation ≡ some id
    → price_of permissions id ≡ some price
    → may_call p permissions operation ≡ can_pay p price
unfolding may_call
may_call_lem p permissions operation id price named priced =
    ap (may_call_id p permissions) (text_id_lem operation id named) ∙ ap (may_pay p) priced

-- Once the checks at boot have passed, every operation that requests are matched by stands in the document under its
-- path, method and name and has a price, and for every caller the document that is served describes it exactly when
-- the caller can pay the price that a call of it is held to.
pub boot-agrees :
    (spec : Document) (permissions : List (String × String))
    (roles : Option (List (String × List String))) (operations : List Operation)
    (priced : List (String × Price))
    → boot spec permissions roles ≡ ok (operations, priced)
    → (o : Operation) → In o operations
    → (p : Principal)
    → (operation : Json) × (price : Price) × Describes (paths_of spec) o.path o.method operation
      × (operation_id operation ≡ some o.operation_id)
      × (lookup priced o.operation_id ≡ some price)
      × (Describes (paths_of (filter_spec spec p permissions)) o.path o.method operation
          ↔ (can_pay p price ≡ true))
unfolding record_operations
boot-agrees spec permissions roles operations priced e o i p =
    let (recorded, records, all, prices) =
      boot-records spec permissions roles operations priced e in
    let sound : IsSound (paths_of spec) recorded =
      record_paths-IsSound (paths_of spec) (paths_of spec) _ recorded (λ o never. absurd never)
        (λ entry k. k) records in
    let ((operation, at, defined, named), known) = sound o (subst (In o) (sym all) i) in
    let (price, given, found) =
      price_all-lookup permissions (sorted_names (keys recorded.seen)) priced o.operation_id prices
        ((sorted_names_lem (keys recorded.seen) o.operation_id).1 known) in
    let shown = filter_spec-Describes_iff spec p permissions o.path o.method operation defined in
    let pays = may_call_lem p permissions operation o.operation_id price named given in
    (
      operation,
      price,
      at,
      named,
      found,
      (λ d. sym pays ∙ (shown.0 d).1, λ h. shown.1 (at, pays ∙ h)),
    )
