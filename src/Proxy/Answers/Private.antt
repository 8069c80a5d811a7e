-- ===== src/Proxy/Answers/Private.antt =====
-- What the answer to a listing shows a caller.
use mcp_authz.Base.{
  true, String, ◌≡◌, subst, ◌∙◌, ◌≢◌, ◌↔◌, List, arith, Option, some, Result, ok, >>=-eq-ok, In,
  lookup, put, lookup-put, lookup-put_other,
}
use mcp_authz.Json.{Json, str, arr, obj, Fields, entries, of_entries, of_items, own, record?}
use mcp_authz.Policy.{Principal}
use mcp_authz.Ladder.{capability_label}
use mcp_authz.Catalogue.{
  Thrown, ListingMethod, listing_field, listing_kind, name_of, filter_listing_result, retain_listed,
}
use mcp_authz.Catalogue.Shown.{IsShown, filter_listing_result-shows, retain_listed-keeps}
use mcp_authz.Record.{Definitions}
use mcp_authz.Proxy.Answers.{is_unchanged, filter_result, filter_message, with_result, spread?}

own-put :
    (fs : List (String × Json)) (key : String) (value : Json) → own (put fs key value) key ≡ value
unfolding own
own-put fs key value = rw (lookup-put fs key value)

own-put_other :
    (fs : List (String × Json)) (key : String) (value : Json) (other : String)
    → other ≢ key
    → own (put fs key value) other ≡ own fs other
unfolding own
own-put_other fs key value other n = rw (lookup-put_other fs key value other n)

module _ (to_text : Json → String) (changed_fields : Json → Json → List String)
    (definitions : Definitions) (principal : Principal) (permissions : List (String × String))
    (method : ListingMethod) where
  -- The item is as it was approved, under the label of its name.
  abbrev pub IsApproved : Json → Type 0
  IsApproved item =
      (name : Json) × (name_of item ≡ ok name)
      × (is_unchanged to_text changed_fields definitions principal permissions
            (capability_label (listing_kind method) (to_text name)) item
          ≡ true)

  field-not-cache : (m : ListingMethod) → listing_field m ≢ "cacheScope"
  field-not-cache ListingMethod.tools_list e = cc
  field-not-cache ListingMethod.prompts_list e = cc
  field-not-cache ListingMethod.resources_list e = cc
  field-not-cache ListingMethod.resource_templates_list e = cc

  ok-injective :
      (a b : List (String × Json))
      → ◌≡◌ {A = Result Thrown (List (String × Json))} (ok a) (ok b)
      → a ≡ b
  ok-injective a b h = ground arith

  -- What is shown of a result, and that it is private.
  abbrev pub Shows : List (String × Json) → List Json → Type 0
  Shows out listed =
      (own out "cacheScope" ≡ str "private")
      × ((shown : List Json) × (own out (listing_field method) ≡ arr (of_items shown))
          × ((item : Json)
              → In item shown ↔ (
                  In item listed
                  × IsApproved item
                  × IsShown to_text (listing_kind method) principal permissions item)))

  filter_result-Shows :
      (result out : List (String × Json)) (listed : List Json)
      → own result (listing_field method) ≡ arr (of_items listed)
      → filter_result to_text changed_fields definitions principal permissions method result
        ≡ ok out
      → Shows out listed
  unfolding filter_result
  filter_result-Shows result out listed at h =
      let unchanged = is_unchanged to_text changed_fields definitions principal permissions in
      let (kept, e, rest) = >>=-eq-ok (retain_listed to_text method result unchanged) _ h in
      let (mid, f, last) =
        >>=-eq-ok (filter_listing_result to_text method kept principal permissions) _ rest in
      let (stayed, there, stays, _) =
        retain_listed-keeps to_text method result listed unchanged kept at e in
      let (shown, here, shows, _) =
        filter_listing_result-shows to_text method kept stayed principal permissions mid there f in
      let same = ok-injective (put mid "cacheScope" (str "private")) out last in
      subst (λ x. Shows x listed) same
        (
          own-put mid "cacheScope" (str "private"),
          (
            shown,
            own-put_other mid "cacheScope" (str "private") (listing_field method)
                  (field-not-cache method)
                ∙ here,
            λ item. (
              λ i. let (j, k) = (shows item).0 i in let (l, m) = (stays item).0 j in (l, m, k),
              λ q. (shows item).1 ((stays item).1 (q.0, q.1), q.2),
            ),
          ),
        )

  -- A caller who asks for a listing gets the message with its result rewritten: exactly the items are in it
  -- that are as they were approved and whose permission the caller holds, and no shared cache may keep it.
  pub filter_message-Shows :
      (message result : Fields) (answer : Option Json) (listed : List Json)
      → lookup (entries message) "result" ≡ some (obj result)
      → own (entries result) (listing_field method) ≡ arr (of_items listed)
      → filter_message to_text changed_fields definitions principal permissions method (obj message)
        ≡ ok answer
      → (out : List (String × Json)) × (answer
          ≡ some (obj (of_entries (put (entries message) "result" (obj (of_entries out))))))
        × Shows out listed
  unfolding filter_message spread? record?
  filter_message-Shows message result answer listed there at h =
      let k : with_result (entries message)
            (filter_result to_text changed_fields definitions principal permissions method)
            (some (obj result))
          ≡ ok answer =
        rw there at h in
      let (out, e, last) =
        >>=-eq-ok
          (filter_result to_text changed_fields definitions principal permissions method
            (entries result))
          _ k in
      (out, answered out answer last, filter_result-Shows (entries result) out listed at e)
    where
      answered :
          (out : List (String × Json)) (a : Option Json)
          → ◌≡◌ {A = Result Thrown (Option Json)}
              (ok (some (obj (of_entries (put (entries message) "result" (obj (of_entries out)))))))
              (ok a)
          → a ≡ some (obj (of_entries (put (entries message) "result" (obj (of_entries out)))))
      answered out a e = ground arith
