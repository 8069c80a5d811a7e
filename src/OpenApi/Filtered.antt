-- ===== src/OpenApi/Filtered.antt =====
-- What is left of a document for one caller.
use mcp_authz.Base.{
  true, String, ◌≡◌, refl, sym, ap, subst, ◌∙◌, ◌↔◌, inl, inr, List, [], ◌∷◌, In, In-filter,
  Bool-cases, contains, any, any_of_In, lookup-put,
}
use mcp_authz.Json.{Json, obj, entries, of_entries, own}
use mcp_authz.Screen.{members}
use mcp_authz.Policy.{Principal}
use mcp_authz.OpenApi.{
  Document, methods, paths_of, may_call, is_kept, is_operation, filter_item, filter_paths,
  filter_spec,
}

entries-of_entries : (fs : List (String × Json)) → entries (of_entries fs) ≡ fs
entries-of_entries [] = refl
entries-of_entries ((k, v) ∷ fs) = ap (λ rest. (k, v) ∷ rest) (entries-of_entries fs)

-- The paths have an item with this operation.
abbrev pub Describes : List (String × Json) → String → String → Json → Type 0
Describes paths path method operation =
    (item : Json) × In (path, item) paths × In (method, operation) (members item)

module _ (p : Principal) (permissions : List (String × String)) where
  module _ (method : String) (operation : Json) (defined : contains methods method ≡ true) where
    filter_item_iff :
        (item : List (String × Json))
        → In (method, operation) (filter_item p permissions item)
          ↔ (In (method, operation) item × (may_call p permissions operation ≡ true))
    unfolding filter_item is_kept
    filter_item_iff item =
        let kept = In-filter (is_kept p permissions) (method, operation) item in rw defined at kept

    filter_paths_iff :
        (paths : List (String × Json)) (path : String)
        → Describes (filter_paths p permissions paths) path method operation
          ↔ (Describes paths path method operation × (may_call p permissions operation ≡ true))
    unfolding filter_paths
    filter_paths_iff [] path = (λ h. absurd h.1, λ h. absurd h.0.1)
    filter_paths_iff ((q, value) ∷ more) path =
        let kept = filter_item p permissions (members value) in
        let later = filter_paths_iff more path in
        let here = filter_item_iff (members value) in
        let same : entries (of_entries kept) ≡ kept = entries-of_entries kept in
        (
          elim (Bool-cases (any is_operation kept)) [
            | inl some ↦ rw some (λ (item, i, j). elim i [
              | inl e ↦
                  let k : In (method, operation) kept =
                    subst (In (method, operation))
                      (ap (λ (x : String × Json). members x.1) (sym e) ∙ same) j in
                  let (at, may) = here.0 k in ((value, inl (cc e), at), may)
              | inr k ↦ let ((w, at, of), may) = later.0 (item, k, j) in ((w, inr at, of), may)
            ])
            | inr nothing ↦
                rw nothing (λ h. let ((w, at, of), may) = later.0 h in ((w, inr at, of), may))
          ],
          λ ((item, i, j), may). elim i [
            | inl e ↦
                let k : In (method, operation) kept = here.1 (
                  subst (In (method, operation)) (ap (λ (x : String × Json). members x.1) (sym e))
                      j,
                  may,
                ) in
                let some = any_of_In is_operation (method, operation) kept k defined in
                rw some
                  (obj (of_entries kept), inl (cc e), subst (In (method, operation)) (sym same) k)
            | inr k ↦
                let (w, at, of) = later.1 ((item, k, j), may) in
                elim (Bool-cases (any is_operation kept)) [
                  | inl some ↦ rw some (w, inr at, of)
                  | inr nothing ↦ rw nothing (w, at, of)
                ]
          ],
        )

paths_of-filter_spec :
    (spec : Document) (p : Principal) (permissions : List (String × String))
    → paths_of (filter_spec spec p permissions) ≡ filter_paths p permissions (paths_of spec)
unfolding filter_spec own
paths_of-filter_spec spec p permissions =
    rw (lookup-put spec "paths" (obj (of_entries (filter_paths p permissions (paths_of spec)))))
      (entries-of_entries _)

-- The document that is served describes exactly those operations of the whole one that the caller may call.
pub filter_spec-Describes_iff :
    (spec : Document) (p : Principal) (permissions : List (String × String)) (path method : String)
    (operation : Json)
    → contains methods method ≡ true
    → Describes (paths_of (filter_spec spec p permissions)) path method operation ↔ (
        Describes (paths_of spec) path method operation × (may_call p permissions operation ≡ true))
filter_spec-Describes_iff spec p permissions path method operation defined =
    let filtered = filter_paths_iff p permissions method operation defined (paths_of spec) path in
    rw (paths_of-filter_spec spec p permissions) filtered
