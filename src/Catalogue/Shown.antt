-- ===== src/Catalogue/Shown.antt =====
-- What a filtered listing shows.
use mcp_authz.Base.{
  Bool, true, false, String, ◌≡◌, refl, sym, ap, subst, ◌∙◌, ◌↔◌, ◌≢◌, inl, inr, List, [], ◌∷◌,
  arith, Option, none, some, Result, ok, >>=-eq-ok, In, lookup, put, lookup-put, lookup-put_other,
  if◌then◌else◌,
}
use mcp_authz.Json.{Json, arr, items, of_items, own}
use mcp_authz.Policy.{Principal, can}
use mcp_authz.Ladder.{Kind, capability_label}
use mcp_authz.Catalogue.{
  Thrown, retained, name_of, label_of, is_shown, filter_by_permission, ListingMethod, listing_field,
  listing_kind, permitted, priced, relisted, filter_listing_result, keeps, retain_listed,
}

retained_iff :
    (keep : Json → Result Thrown Bool) (xs ys : List Json) (item : Json)
    → retained keep xs ≡ ok ys
    → In item ys ↔ (In item xs × (keep item ≡ ok true))
unfolding retained
retained_iff keep [] ys item h =
    let same : [] ≡ ys = ground arith in
    subst (λ l. In item l ↔ (In item [] × (keep item ≡ ok true))) same (λ i. absurd i, λ k. k.0)
retained_iff keep (x ∷ xs) ys item h =
    let (stays, e, rest) = >>=-eq-ok (keep x) _ h in
    let (others, f, last) = >>=-eq-ok (retained keep xs) _ rest in
    let same : (if stays then x ∷ others else others) ≡ ys = ground arith in
    subst (λ l. In item l ↔ (In item (x ∷ xs) × (keep item ≡ ok true))) same
      (joined stays others e (retained_iff keep xs others item f))
  where
    joined :
        (stays : Bool) (others : List Json)
        → keep x ≡ ok stays
        → In item others ↔ (In item xs × (keep item ≡ ok true))
        → In item (if stays then x ∷ others else others)
          ↔ (In item (x ∷ xs) × (keep item ≡ ok true))
    joined true others e hyp = (
      λ i. elim i [
        | inl same ↦ (inl same, ap keep (sym same) ∙ e)
        | inr j ↦ let (k, l) = hyp.0 j in (inr k, l)
      ],
      λ k. elim k.0 [ inl same ↦ inl same | inr j ↦ inr (hyp.1 (j, k.1)) ],
    )
    joined false others e hyp = (
      λ i. let (k, l) = hyp.0 i in (inr k, l),
      λ k. elim k.0 [
        | inl same ↦ absurd (differ (sym e ∙ ap keep same ∙ k.1))
        | inr j ↦ hyp.1 (j, k.1)
      ],
    )
      where
        differ : ◌≡◌ {A = Result Thrown Bool} (ok false) (ok true) → ⊥
        differ h = cc

items-of_items : (xs : List Json) → items (of_items xs) ≡ xs
items-of_items [] = refl
items-of_items (x ∷ xs) = ap (λ l. x ∷ l) (items-of_items xs)

-- The name of the item has a label, the label a permission, and the principal holds it.
abbrev pub IsShown : (Json → String) → Kind → Principal → List (String × String) → Json → Type 0
IsShown to_text kind principal permissions item =
    (name : Json) × (label permission : String) × (name_of item ≡ ok name)
    × (label_of to_text kind name ≡ some label)
    × (lookup permissions label ≡ some permission)
    × (can principal permission ≡ true)

relisted-arr :
    (result out : List (String × Json)) (field : String)
    (shorten : List Json → Result Thrown (List Json)) (listed : List Json)
    → own result field ≡ arr (of_items listed)
    → relisted result field shorten (own result field) ≡ ok out
    → (shown : List Json) × (shorten listed ≡ ok shown)
      × (own out field ≡ arr (of_items shown))
      × ((other : String) → other ≢ field → own out other ≡ own result other)
unfolding own
relisted-arr result out field shorten listed at h =
    let k : relisted result field shorten (arr (of_items listed)) ≡ ok out = rw at at h in
    let (shown, e, last) = >>=-eq-ok (shorten (items (of_items listed))) _ k in
    let same : put result field (arr (of_items shown)) ≡ out = ground arith in
    (
      shown,
      ap shorten (sym (items-of_items listed)) ∙ e,
      rw (← same, lookup-put result field (arr (of_items shown))),
      λ other n. rw (← same, lookup-put_other result field (arr (of_items shown)) other n),
    )

is_shown_iff :
    (to_text : Json → String) (kind : Kind) (principal : Principal)
    (permissions : List (String × String)) (item : Json)
    → (is_shown to_text kind principal permissions item ≡ ok true)
      ↔ IsShown to_text kind principal permissions item
unfolding is_shown
is_shown_iff to_text kind principal permissions item = (
  λ h.
      let (name, named, last) = >>=-eq-ok (name_of item) _ h in
      let (label, labelled, p) = holds (label_of to_text kind name) (ground arith) in
      (name, label, p.0, named, labelled, p.1, p.2),
  λ k.
      let (name, label, permission, named, labelled, priced_at, held) = k in
      rw (named, labelled, priced_at, held),
)
  where
    held_at :
        (o : Option String)
        → permitted principal o ≡ true
        → (permission : String) × (o ≡ some permission) × (can principal permission ≡ true)
    held_at none h = cc
    held_at (some permission) h = (permission, refl, h)

    holds :
        (label : Option String)
        → permitted principal (priced permissions label) ≡ true
        → (s : String) × (label ≡ some s)
          × ((permission : String) × (lookup permissions s ≡ some permission)
              × (can principal permission ≡ true))
    holds none h = cc
    holds (some s) h = (s, refl, held_at (lookup permissions s) h)

module _ (to_text : Json → String) (method : ListingMethod) (result : List (String × Json))
    (listed : List Json) where
  -- A caller sees of a listing exactly the items whose name has a label, whose label has a permission,
  -- and whose permission the caller holds; nothing else of the result changes.
  pub filter_listing_result-shows :
      (principal : Principal) (permissions : List (String × String)) (out : List (String × Json))
      → own result (listing_field method) ≡ arr (of_items listed)
      → filter_listing_result to_text method result principal permissions ≡ ok out
      → (shown : List Json) × (own out (listing_field method) ≡ arr (of_items shown))
        × ((item : Json)
            → In item shown
              ↔ (In item listed × IsShown to_text (listing_kind method) principal permissions item))
        × ((other : String) → other ≢ listing_field method → own out other ≡ own result other)
  unfolding filter_listing_result filter_by_permission
  filter_listing_result-shows principal permissions out at h =
      let (shown, e, here, elsewhere) =
        relisted-arr result out (listing_field method)
          (filter_by_permission to_text (listing_kind method) principal permissions) listed at h in
      (
        shown,
        here,
        λ item.
            let k =
              retained_iff (is_shown to_text (listing_kind method) principal permissions) listed
                shown item e in
            let s = is_shown_iff to_text (listing_kind method) principal permissions item in
            (λ i. let (a, b) = k.0 i in (a, s.0 b), λ p. k.1 (p.0, s.1 p.1)),
        elsewhere,
      )

  -- The items that are kept are those that the test keeps under the label of their name.
  pub retain_listed-keeps :
      (keep : String → Json → Bool) (out : List (String × Json))
      → own result (listing_field method) ≡ arr (of_items listed)
      → retain_listed to_text method result keep ≡ ok out
      → (shown : List Json) × (own out (listing_field method) ≡ arr (of_items shown))
        × ((item : Json)
            → In item shown ↔ (
                In item listed
                × ((name : Json) × (name_of item ≡ ok name)
                    × (keep (capability_label (listing_kind method) (to_text name)) item ≡ true))))
        × ((other : String) → other ≢ listing_field method → own out other ≡ own result other)
  unfolding retain_listed keeps
  retain_listed-keeps keep out at h =
      let (shown, e, here, elsewhere) =
        relisted-arr result out (listing_field method)
          (retained (keeps to_text (listing_kind method) keep)) listed at h in
      (
        shown,
        here,
        λ item.
            let k = retained_iff (keeps to_text (listing_kind method) keep) listed shown item e in
            (
              λ i.
                  let (a, b) = k.0 i in
                  let (name, named, last) = >>=-eq-ok (name_of item) _ b in
                  (a, (name, named, ground arith)),
              λ p. let (name, named, kept) = p.1 in k.1 (p.0, rw (named, kept)),
            ),
        elsewhere,
      )
