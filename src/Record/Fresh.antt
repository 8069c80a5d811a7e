-- ===== src/Record/Fresh.antt =====
-- What has been seen of a capability that a call may use.
use mcp_authz.Base.{
  ℕ, ◌+◌, ◌<◌, Bool, true, false, String, ◌≡◌, refl, sym, ap, subst, ◌∙◌, inl, inr, List, [], ◌∷◌,
  arith, Option, none, some, In, lookup, put, remove, lookup-put, lookup-put_other, unequal,
  lookup-remove, lookup-remove_other, Bool-cases, Option-cases, eq_iff, ◌==◌, if◌then◌else◌,
}
use mcp_authz.Json.{Json}
use mcp_authz.Record.{
  Definitions, State, start, fresh_ms, is_fresh, instructions_label, matches, relisted,
  first_complaint, settled, complaint, first_of, is_within,
}

-- A listing has shown the item under the label at the time.
pub record Sighting : Type 0 where
  pub label : String
  pub item : Json
  pub at : ℕ

module _ (changed_fields : Json → Json → List String) (definitions : Definitions) where
  -- The label was seen at the time, and nothing of it differed from what was approved.
  abbrev pub Unchanged : List Sighting → String → ℕ → Type 0
  Unchanged seen label t =
      (item recorded : Json) × In (record { label = label; item = item; at = t }) seen
      × (lookup definitions label ≡ some recorded)
      × (changed_fields recorded item ≡ [])

  -- A label is taken as checked only if it was seen unchanged, and not while a change is known.
  pub record IsSound (seen : List Sighting) (st : State) : Type 0 where
    pub checked :
        (label : String) (t : ℕ) → lookup st.checked_at label ≡ some t → Unchanged seen label t
    pub apart :
        (label : String) (fields : List String)
        → lookup st.changed label ≡ some fields
        → lookup st.checked_at label ≡ none

  pub start-IsSound : IsSound [] start
  unfolding lookup
  start-IsSound = record { checked = λ label t e. cc; apart = λ label fields e. refl }

  settled-IsSound :
      (seen : List Sighting) (label : String) (now : ℕ) (st : State) (fields : List String)
      → (fields ≡ [] → Unchanged seen label now)
      → IsSound seen st
      → IsSound seen (settled changed_fields definitions label now st fields).1
  settled-IsSound seen label now st [] fact k = record {
    checked = λ other t e. elim (Bool-cases (other == label)) [
      | inl same ↦
          let l = (eq_iff other label).0 same in
          let m : some now ≡ some t =
            sym (lookup-put st.checked_at label now)
            ∙ ap (lookup (put st.checked_at label now)) (sym l)
            ∙ e in
          let n : now ≡ t = ground arith in rw (l, ← n) (fact refl)
      | inr apart ↦
          k.checked other t
            (sym (lookup-put_other st.checked_at label now other (unequal other label apart)) ∙ e)
    ];
    apart = λ other fields e. elim (Bool-cases (other == label)) [
      | inl same ↦ absurd (
          let l = (eq_iff other label).0 same in
          let m : none ≡ some fields =
            sym (lookup-remove st.changed label)
            ∙ ap (lookup (remove st.changed label)) (sym l)
            ∙ e in
          cc m)
      | inr apart ↦
          lookup-put_other st.checked_at label now other (unequal other label apart)
          ∙ k.apart other fields
              (sym (lookup-remove_other st.changed label other (unequal other label apart)) ∙ e)
    ];
  }
  settled-IsSound seen label now st (f ∷ fs) fact k = record {
    checked = λ other t e. elim (Bool-cases (other == label)) [
      | inl same ↦ absurd (
          let l = (eq_iff other label).0 same in
          let m : none ≡ some t =
            sym (lookup-remove st.checked_at label)
            ∙ ap (lookup (remove st.checked_at label)) (sym l)
            ∙ e in
          cc m)
      | inr apart ↦
          k.checked other t
            (sym (lookup-remove_other st.checked_at label other (unequal other label apart)) ∙ e)
    ];
    apart = λ other fields e. elim (Bool-cases (other == label)) [
      | inl same ↦ rw ((eq_iff other label).0 same) (lookup-remove st.checked_at label)
      | inr apart ↦
          lookup-remove_other st.checked_at label other (unequal other label apart)
          ∙ k.apart other fields (
              sym (lookup-put_other st.changed label (f ∷ fs) other (unequal other label apart))
              ∙ e)
    ];
  }

  pub matches-IsSound :
      (seen : List Sighting) (label : String) (item : Json) (now : ℕ) (st : State)
      → In (record { label = label; item = item; at = now }) seen
      → IsSound seen st
      → IsSound seen (matches changed_fields definitions label item now st).1
  unfolding matches
  matches-IsSound seen label item now st here k = elim (Option-cases (lookup definitions label)) [
    | inl unpriced ↦ rw unpriced k
    | inr (recorded, found) ↦ rw found (
        settled-IsSound seen label now st (changed_fields recorded item)
          (λ e. (item, recorded, here, found, e)) k)
  ]

  pub relisted-IsSound :
      (seen : List Sighting) (listing : List (String × Json)) (now : ℕ) (st : State)
      → ((label : String) (item : Json)
          → In (label, item) listing
          → In (record { label = label; item = item; at = now }) seen)
      → IsSound seen st
      → IsSound seen (relisted changed_fields definitions listing now st)
  unfolding relisted
  relisted-IsSound seen [] now st shown k = k
  relisted-IsSound seen ((label, item) ∷ rest) now st shown k =
      relisted-IsSound seen rest now _ (λ l i j. shown l i (inr j))
        (step (label == instructions_label))
    where
      step :
          (b : Bool)
          → IsSound seen
              (if b then st else (matches changed_fields definitions label item now st).1)
      step true = k
      step false = matches-IsSound seen label item now st (shown label item (inl refl)) k

  -- No complaint about a label means that it is fresh and that no change of it is known.
  pub first_complaint-eq-none :
      (st : State) (now : ℕ) (labels : List String)
      → first_complaint changed_fields definitions st now labels ≡ none
      → (label : String) → In label labels
      → is_fresh st now label ≡ true
  unfolding first_complaint
  first_complaint-eq-none st now [] e label i = absurd i
  first_complaint-eq-none st now (l ∷ rest) e label i =
      let (quiet, later) =
        first_of-eq-none (complaint changed_fields definitions st now l (lookup st.changed l)) _
          e in
      elim i [
        | inl same ↦
            subst (λ x. is_fresh st now x ≡ true) same (quiet_fresh l (lookup st.changed l) quiet)
        | inr j ↦ first_complaint-eq-none st now rest later label j
      ]
    where
      quiet_fresh :
          (l : String) (fields : Option (List String))
          → complaint changed_fields definitions st now l fields ≡ none
          → is_fresh st now l ≡ true
      quiet_fresh l (some fields) h = cc
      quiet_fresh l none h = elim (Bool-cases (is_fresh st now l)) [
        | inl t ↦ t
        | inr f ↦ ground arith
      ]

      first_of-eq-none :
          (a b : Option String)
          → first_of changed_fields definitions a b ≡ none
          → (a ≡ none) × (b ≡ none)
      first_of-eq-none none b h = (refl, h)
      first_of-eq-none (some s) b h = cc

  pub is_fresh-eq-true :
      (st : State) (now : ℕ) (label : String)
      → is_fresh st now label ≡ true
      → (t : ℕ) × (lookup st.checked_at label ≡ some t) × (now < t + fresh_ms)
  unfolding is_fresh
  is_fresh-eq-true st now label h = within (lookup st.checked_at label) h
    where
      within :
          (checked : Option ℕ)
          → is_within now checked ≡ true
          → (t : ℕ) × (checked ≡ some t) × (now < t + fresh_ms)
      within none e = cc
      within (some t) e = (t, refl, ground arith)
