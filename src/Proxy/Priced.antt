-- ===== src/Proxy/Priced.antt =====
-- proxy.ts: what the requests that a message reaches are priced at, and the labels that they are held to.
use mcp_authz.Base.{
  Bool, true, false, not, String, ◌≡◌, refl, subst, ap₂, ◌∙◌, ◌≢◌, ◌↔◌, ◌⊎◌, inl, inr, List, [],
  ◌∷◌, arith, Option, none, some, ok, >>=-eq-ok, refuse_if-eq-ok, In, find, find-eq-none,
  find-eq-some, filter, filter_sound, filter_complete, has_char, ap, ◌++◌, ◌^^◌, if◌then◌else◌,
  is_empty, map, Bool-cases, or_else, eq_iff, unequal, ◌==◌,
}
use mcp_authz.Policy.{Principal, can}
use mcp_authz.Routing.{Route}
use mcp_authz.Ladder.{permission_for_flat_map}
use mcp_authz.Ladder.Gate.{unless_empty}
use mcp_authz.Proxy.{
  Resource, entry_of, labels_of, answers_on, covering_resources, price_resource, price_named,
  price_target, price_targets, lacking,
}

pub not-eq-false : (b : Bool) → not b ≡ false → b ≡ true
not-eq-false true h = refl
not-eq-false false h = cc

-- Nothing is said against it: an empty complaint is none.
abbrev pub IsSilent : Option String → Type 0
IsSilent complaint = (complaint ≡ none) ⊎ (complaint ≡ some "")

pub unless_empty-IsSilent : (o : Option String) → (unless_empty o ≡ none) ↔ IsSilent o
unless_empty-IsSilent none = (λ h. inl refl, λ h. refl)
unless_empty-IsSilent (some s) = elim (Bool-cases (s == "")) [
  | inl t ↦ (λ h. inr (ap some ((eq_iff s "").0 t)), λ h. rw t)
  | inr f ↦ (
    λ h. cc (rw f at h),
    λ h. elim h [
      | inl e ↦ cc
      | inr e ↦ let same : s ≡ "" = ground arith in absurd (unequal s "" f same)
    ],
  )
]

-- A registration covers a URI that it answers on, and one that still has a template's braces only under
-- the same pattern.
abbrev pub covers : String → Resource → Bool
covers uri r = if has_char b'{' uri then r.pattern == uri else r.matches uri

abbrev pub name_of : Route → String
name_of target = or_else target.name "undefined"

-- The labels that a request is held to: those of every registration that covers a resource, and both
-- spellings of a tool.
abbrev pub labels_by : List Resource → Route → List String
labels_by resources target =
    if target.method == "resources/read"
    then map (λ (r : Resource). r.label) (filter (covers (name_of target)) resources)
    else if target.method == "tools/call"
    then name_of target ∷ ("tool:" ^^ name_of target) ∷ []
    else ("prompt:" ^^ name_of target) ∷ []

abbrev pub labels_over : List Resource → List Route → List String
labels_over resources [] = []
labels_over resources (target ∷ rest) = labels_by resources target ++ labels_over resources rest

module _ (principal : Principal) (permissions : List (String × String))
    (resources : List Resource) where
  -- Some registration covers the URI, and the principal holds the permission of every one that does.
  abbrev pub MayRead : String → Type 0
  MayRead uri =
      ((entry : Resource) × In entry resources × (covers uri entry ≡ true))
      × ((entry : Resource)
          → In entry resources
          → covers uri entry ≡ true
          → can principal entry.permission ≡ true)

  -- The request has a price, and the principal holds it.
  abbrev pub MayCall : Route → Type 0
  MayCall target =
      (permission : String) × (permission_for_flat_map permissions target (map entry_of resources)
          (can principal)
        ≡ some permission)
      × (can principal permission ≡ true)

  abbrev pub May : Route → Type 0
  May target =
      (target.method ≡ "resources/read" → MayRead (name_of target))
      × (target.method ≢ "resources/read" → MayCall target)

  price_resource_sound :
      (uri : String) (labels : List String)
      → price_resource principal permissions resources uri ≡ ok labels
      → MayRead uri × (map (λ (r : Resource). r.label) (filter (covers uri) resources) ≡ labels)
  unfolding price_resource covering_resources answers_on
  price_resource_sound uri labels h =
      let (covered, rest) = refuse_if-eq-ok _ _ _ h in
      let (settled, same) = held (find lacks covering) refl rest in
      (
        (one covering refl covered, λ entry i t. settled entry (filter_complete _ entry _ i t)),
        same,
      )
    where
      covering : List Resource
      covering = filter (covers uri) resources

      lacks : Resource → Bool
      lacks entry = not (can principal entry.permission)

      one :
          (xs : List Resource)
          → xs ≡ covering
          → is_empty xs ≡ false
          → (entry : Resource) × In entry resources × (covers uri entry ≡ true)
      one [] e h = cc
      one (x ∷ xs) e h =
          let (i, t) = filter_sound (covers uri) x resources (subst (λ l. In x l) e (inl refl)) in
          (x, i, t)

      held :
          (missing : Option Resource)
          → find lacks covering ≡ missing
          → lacking principal permissions resources covering missing ≡ ok labels
          → ((entry : Resource) → In entry covering → can principal entry.permission ≡ true)
            × (map (λ (r : Resource). r.label) covering ≡ labels)
      held (some other) e rest = cc
      held none e rest =
          (λ entry i. not-eq-false _ (find-eq-none lacks covering entry e i), ground arith)

  price_resource_complete :
      (uri : String)
      → MayRead uri
      → price_resource principal permissions resources uri
        ≡ ok (map (λ (r : Resource). r.label) (filter (covers uri) resources))
  unfolding price_resource covering_resources answers_on
  price_resource_complete uri k =
      let (entry, i, t) = k.0 in
      rw (inhabited entry covering (filter_complete (covers uri) entry resources i t))
        (held (find lacks covering) refl)
    where
      covering : List Resource
      covering = filter (covers uri) resources

      lacks : Resource → Bool
      lacks entry = not (can principal entry.permission)

      inhabited : (x : Resource) (xs : List Resource) → In x xs → is_empty xs ≡ false
      inhabited x [] i = absurd i
      inhabited x (y ∷ xs) i = refl

      held :
          (missing : Option Resource)
          → find lacks covering ≡ missing
          → lacking principal permissions resources covering missing
            ≡ ok (map (λ (r : Resource). r.label) covering)
      held none e = refl
      held (some other) e =
          let (i, t) = find-eq-some lacks covering other e in
          let (j, c) = filter_sound (covers uri) other resources i in cc (k.1 other j c, t)

  price_named-eq-ok :
      (target : Route) (price : Option String) (labels : List String)
      → price_named principal permissions resources target price ≡ ok labels
      → ((permission : String) × (price ≡ some permission) × (can principal permission ≡ true))
        × (labels_of principal permissions resources target (name_of target) ≡ labels)
  unfolding price_named
  price_named-eq-ok target none labels h = cc
  price_named-eq-ok target (some permission) labels h =
      let (held, last) = refuse_if-eq-ok _ _ _ h in
      ((permission, refl, not-eq-false _ held), ground arith)

  -- A request is priced exactly when the principal may make it, and then at its labels.
  pub price_target_iff :
      (target : Route) (labels : List String)
      → (price_target principal permissions resources target ≡ ok labels)
        ↔ (May target × (labels_by resources target ≡ labels))
  unfolding price_target price_named
  price_target_iff target labels = elim (Bool-cases (target.method == "resources/read")) [
    | inl reads ↦ (
      λ h.
          let (may, same) = price_resource_sound _ labels (rw reads at h) in
          (
            (λ e. may, λ n. absurd (n ((eq_iff target.method "resources/read").0 reads))),
            rw reads same,
          ),
      λ h.
          let (may, same) = h in
          rw reads (
            price_resource_complete _ (may.0 ((eq_iff target.method "resources/read").0 reads))
            ∙ ap ok (rw reads at same)),
    )
    | inr calls ↦ (
      λ h.
          let (may, same) = price_named-eq-ok target _ labels (rw calls at h) in
          ((λ e. absurd (unequal target.method "resources/read" calls e), λ n. may), rw calls same),
      λ h.
          let (may, same) = h in
          let (permission, priced, held) = may.1 (unequal target.method "resources/read" calls) in
          rw (calls, priced, held) (ap ok (rw calls at same)),
    )
  ]

  pub price_targets_sound :
      (reached : List Route) (labels : List String)
      → price_targets principal permissions resources reached ≡ ok labels
      → ((target : Route) → In target reached → May target)
        × (labels_over resources reached ≡ labels)
  unfolding price_targets
  price_targets_sound [] labels h = (λ target i. absurd i, ground arith)
  price_targets_sound (t ∷ ts) labels h =
      let (first, e, rest) = >>=-eq-ok (price_target principal permissions resources t) _ h in
      let (later, f, last) = >>=-eq-ok (price_targets principal permissions resources ts) _ rest in
      let (may, one) = (price_target_iff t first).0 e in
      let (others, more) = price_targets_sound ts later f in
      let same : first ++ later ≡ labels = ground (arith, last) in
      (
        λ target i. elim i [ inl here ↦ subst (λ x. May x) here may | inr j ↦ others target j ],
        ap₂ ◌++◌ one more ∙ same,
      )

  pub price_targets_complete :
      (reached : List Route)
      → ((target : Route) → In target reached → May target)
      → price_targets principal permissions resources reached ≡ ok (labels_over resources reached)
  unfolding price_targets
  price_targets_complete [] k = refl
  price_targets_complete (t ∷ ts) k = rw (
    (price_target_iff t (labels_by resources t)).1 (k t (inl refl), refl),
    price_targets_complete ts (λ target i. k target (inr i)),
  )
