-- ===== src/OpenApi/Origin.antt =====
-- That what is recorded of a document's operations stands in it.
use mcp_authz.Base.{
  true, String, ◌≡◌, refl, sym, subst, ◌∙◌, inl, inr, List, [], ◌∷◌, ◌++◌, Option, none, some, ok,
  >>=-eq-ok, In, In-append, Bool-cases, Option-cases, if-cases, contains, contains_iff, ◌^^◌, put,
  keys, lookup, lookup_sound, eq_iff, ◌==◌,
}
use mcp_authz.Json.{Json, own}
use mcp_authz.Json.Access.{is_object}
use mcp_authz.Screen.{members}
use mcp_authz.OpenApi.{
  Operation, Recorded, upper, methods, operation_id, recorded_as, recorded_by, record_method,
  record_methods, record_paths,
}
use mcp_authz.OpenApi.Filtered.{Describes}

keys-put_old :
    (m : List (String × String)) (key value k : String)
    → In k (keys m)
    → In k (keys (put m key value))
unfolding put
keys-put_old [] key value k i = absurd i
keys-put_old ((j, w) ∷ m) key value k i = elim (Bool-cases (j == key)) [
  | inl same ↦ rw same (elim i [ inl e ↦ inl (sym ((eq_iff j key).0 same) ∙ e) | inr h ↦ inr h ])
  | inr other ↦ rw other (elim i [ inl e ↦ inl e | inr h ↦ inr (keys-put_old m key value k h) ])
]

keys-put_new : (m : List (String × String)) (key value : String) → In key (keys (put m key value))
unfolding put
keys-put_new [] key value = inl refl
keys-put_new ((j, w) ∷ m) key value = elim (Bool-cases (j == key)) [
  | inl same ↦ rw same (inl refl)
  | inr other ↦ rw other (inr (keys-put_new m key value))
]

own-In :
    (fields : List (String × Json)) (key : String)
    → is_object (own fields key) ≡ true
    → In (key, own fields key) fields
unfolding own
own-In fields key h = elim (Option-cases (lookup fields key)) [
  | inl missing ↦ cc (rw missing at h)
  | inr (value, e) ↦ rw e (lookup_sound fields key value e)
]

module _ (paths : List (String × Json)) where
  -- The operation stands in the document under its path and method, with its id.
  abbrev pub HasOrigin : Operation → Type 0
  HasOrigin o =
      (operation : Json) × Describes paths o.path o.method operation
      × (contains methods o.method ≡ true)
      × (operation_id operation ≡ some o.operation_id)

  abbrev pub IsSound : Recorded → Type 0
  IsSound r = (o : Operation) → In o r.operations → HasOrigin o × In o.operation_id (keys r.seen)

  module _ (r : Recorded) (path method : String) (sound : IsSound r) where
    recorded_as-IsSound :
        (id : String) (reused : Option String) (next : Recorded)
        → HasOrigin (record { operation_id = id; method = method; path = path })
        → recorded_as r path method id reused ≡ ok next
        → IsSound next
    recorded_as-IsSound id (some first) next origin e = cc
    recorded_as-IsSound id none next origin e =
        let o' : Operation = record { operation_id = id; method = method; path = path } in
        let place = upper method ^^ " " ^^ path in
        let after : Recorded = record {
          seen = put r.seen id place;
          operations = r.operations ++ o' ∷ [];
        } in
        let same : after ≡ next = cc in
        subst IsSound same (λ o i. elim (In-append o r.operations _ i) [
          | inl j ↦
              let (from, k) = sound o j in (from, keys-put_old r.seen id place o.operation_id k)
          | inr (inl here) ↦ (
            subst HasOrigin here origin,
            subst (λ (x : Operation). In x.operation_id (keys (put r.seen id place))) here
                (keys-put_new r.seen id place),
          )
          | inr (inr never) ↦ absurd never
        ])

    recorded_by-IsSound :
        (operation : Json) (found : Option String) (next : Recorded)
        → Describes paths path method operation
        → contains methods method ≡ true
        → operation_id operation ≡ found
        → recorded_by r path method found ≡ ok next
        → IsSound next
    recorded_by-IsSound operation none next at defined named e = cc
    recorded_by-IsSound operation (some id) next at defined named e =
        recorded_as-IsSound id (lookup r.seen id) next (operation, at, defined, named) e

    record_method-IsSound :
        (item : Json) (next : Recorded)
        → In (path, item) paths
        → contains methods method ≡ true
        → record_method r path (members item) method ≡ ok next
        → IsSound next
    unfolding record_method
    record_method-IsSound item next at defined e =
        elim (if-cases (is_object (own (members item) method)) _ _ e) [
          | inl (is, recorded) ↦
              let here = own-In (members item) method is in
              recorded_by-IsSound (own (members item) method)
                (operation_id (own (members item) method)) next (item, at, here) defined refl
                recorded
          | inr (other, kept) ↦ let same : r ≡ next = cc in subst IsSound same sound
        ]

  record_methods-IsSound :
      (names : List String) (r : Recorded) (path : String) (item : Json) (next : Recorded)
      → IsSound r
      → In (path, item) paths
      → ((name : String) → In name names → contains methods name ≡ true)
      → record_methods r path (members item) names ≡ ok next
      → IsSound next
  unfolding record_methods
  record_methods-IsSound [] r path item next sound at defined e =
      let same : r ≡ next = cc in subst IsSound same sound
  record_methods-IsSound (name ∷ names) r path item next sound at defined e =
      let (middle, first, rest) = >>=-eq-ok (record_method r path (members item) name) _ e in
      record_methods-IsSound names middle path item next
        (record_method-IsSound r path name sound item middle at (defined name (inl refl)) first) at
        (λ other i. defined other (inr i)) rest

  pub record_paths-IsSound :
      (left : List (String × Json)) (r next : Recorded)
      → IsSound r
      → ((entry : String × Json) → In entry left → In entry paths)
      → record_paths r left ≡ ok next
      → IsSound next
  unfolding record_paths
  record_paths-IsSound [] r next sound within e =
      let same : r ≡ next = cc in subst IsSound same sound
  record_paths-IsSound ((path, item) ∷ left) r next sound within e =
      let (middle, first, rest) = >>=-eq-ok (record_methods r path (members item) methods) _ e in
      record_paths-IsSound left middle next
        (record_methods-IsSound methods r path item middle sound (within (path, item) (inl refl))
          (λ name i. (contains_iff methods name).1 i) first)
        (λ entry i. within entry (inr i)) rest
