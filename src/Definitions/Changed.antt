-- ===== src/Definitions/Changed.antt =====
-- Which fields count as changed.
use mcp_authz.Base.{
  Bool, true, false, not, String, ◌≡◌, refl, sym, ap, subst, ◌≢◌, ◌↔◌, ◌⊎◌, inl, inr, List, [], ◌∷◌,
  ◌++◌, arith, Option, none, some, In, In-filter, In-append, In-append_left, In-append_right,
  In-dedup, filter, contains, contains_iff, keys, map, eq_iff, if◌then◌else◌,
}
use mcp_authz.Json.{Json, own}
use mcp_authz.Definitions.{
  unrecorded, before, place, sort_entries, canonical, stringify, same_option, same_json,
  is_recorded, field_names, sorted_names, changed_fields,
}

In-place :
    {V : Type 0} (key : String) (value : V) (rest : List (String × V)) (a : String)
    → In a (keys (place key value rest)) ↔ ((key ≡ a) ⊎ In a (keys rest))
unfolding place
In-place key value [] a = (λ i. i, λ i. i)
In-place key value ((k, v) ∷ rest) a = branch (before k key) (In-place key value rest a)
  where
    branch :
        (b : Bool)
        → (In a (keys (place key value rest)) ↔ ((key ≡ a) ⊎ In a (keys rest)))
        → In a (keys (if b then (k, v) ∷ place key value rest else (key, value) ∷ (k, v) ∷ rest))
          ↔ ((key ≡ a) ⊎ In a (k ∷ keys rest))
    branch false placed = (λ i. i, λ i. i)
    branch true placed = (
      λ i. elim i [
        | inl e ↦ inr (inl e)
        | inr j ↦ elim (placed.0 j) [ inl e ↦ inl e | inr k ↦ inr (inr k) ]
      ],
      λ i. elim i [
        | inl e ↦ inr (placed.1 (inl e))
        | inr j ↦ elim j [ inl e ↦ inl e | inr k ↦ inr (placed.1 (inr k)) ]
      ],
    )

In-sort_entries :
    {V : Type 0} (xs : List (String × V)) (a : String)
    → In a (keys (sort_entries xs)) ↔ In a (keys xs)
unfolding sort_entries
In-sort_entries [] a = (λ i. i, λ i. i)
In-sort_entries ((k, v) ∷ xs) a =
    let placed = In-place k v (sort_entries xs) a in
    let rest = In-sort_entries xs a in
    (
      λ i. elim (placed.0 i) [ inl e ↦ inl e | inr j ↦ inr (rest.0 j) ],
      λ i. elim i [ inl e ↦ placed.1 (inl e) | inr j ↦ placed.1 (inr (rest.1 j)) ],
    )

keys-named : (xs : List String) → keys (map (λ name. (name, tt {0})) xs) ≡ xs
keys-named [] = refl
keys-named (x ∷ xs) = ap (λ l. x ∷ l) (keys-named xs)

same_option_iff : (a b : Option String) → (same_option a b ≡ true) ↔ (a ≡ b)
same_option_iff none none = (λ h. refl, λ h. refl)
same_option_iff none (some t) = (λ h. cc, λ h. cc)
same_option_iff (some s) none = (λ h. cc, λ h. cc)
same_option_iff (some s) (some t) =
    (λ h. ap some ((eq_iff s t).0 h), λ h. (eq_iff s t).1 (ground arith))

same_json_iff :
    (a b : Json) → (same_json a b ≡ true) ↔ (stringify (canonical a) ≡ stringify (canonical b))
unfolding same_json
same_json_iff a b = same_option_iff _ _

not-true_iff : (b : Bool) → (not b ≡ true) ↔ (¬ (b ≡ true))
not-true_iff true = (λ h. cc, λ n. absurd (n refl))
not-true_iff false = (λ h e. cc, λ n. refl)

In-field_names :
    (recorded live : List (String × Json)) (name : String)
    → In name (field_names recorded live)
      ↔ ((In name (keys recorded) ⊎ In name (keys live)) × (¬ In name unrecorded))
unfolding field_names
In-field_names recorded live name =
    let both = keys recorded ++ keys live in
    let kept = In-filter is_recorded name both in
    let once = In-dedup (filter is_recorded both) name in
    let test = not-true_iff (contains unrecorded name) in
    (
      λ i.
          let k = kept.0 (once.0 i) in
          (
            In-append name (keys recorded) (keys live) k.0,
            λ j. test.0 k.1 ((contains_iff unrecorded name).1 j),
          ),
      λ h. once.1 (
          kept.1 (
            elim h.0 [
              | inl l ↦ In-append_left name (keys recorded) (keys live) l
              | inr r ↦ In-append_right name (keys recorded) (keys live) r
            ],
            test.1 (λ t. h.1 ((contains_iff unrecorded name).0 t)),
          )),
    )

pub sorted_names_lem : (xs : List String) (a : String) → In a (sorted_names xs) ↔ In a xs
unfolding sorted_names
sorted_names_lem xs a =
    let sorted = In-sort_entries (map (λ name. (name, tt {0})) xs) a in
    let e = keys-named xs in
    (λ i. subst (In a) e (sorted.0 i), λ i. sorted.1 (subst (In a) (sym e) i))

-- A field counts as changed exactly when it stands on either side, is not one of those that are not
-- recorded, and its two values differ once the keys of every object in them are sorted.
pub In-changed_fields :
    (recorded live : List (String × Json)) (name : String)
    → In name (changed_fields recorded live) ↔ (
        (In name (keys recorded) ⊎ In name (keys live))
        × (¬ In name unrecorded)
        × (stringify (canonical (own recorded name)) ≢ stringify (canonical (own live name))))
unfolding changed_fields
In-changed_fields recorded live name =
    let differs : String → Bool = λ f. not (same_json (own recorded f) (own live f)) in
    let names = field_names recorded live in
    let kept = In-filter differs name (sorted_names names) in
    let listed = In-field_names recorded live name in
    let sorted = sorted_names_lem names name in
    let test = not-true_iff (same_json (own recorded name) (own live name)) in
    let same = same_json_iff (own recorded name) (own live name) in
    (
      λ i.
          let (k, t) = kept.0 i in
          let (side, other) = listed.0 (sorted.0 k) in (side, other, λ e. test.0 t (same.1 e)),
      λ (side, other, n). kept.1 (sorted.1 (listed.1 (side, other)), test.1 (λ t. n (same.0 t))),
    )
