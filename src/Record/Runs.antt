-- ===== src/Record/Runs.antt =====
-- Every state that the calls lead to, and what a call that is not refused may rely on.
use mcp_authz.Base.{
  ℕ, ◌+◌, ◌<◌, Bool, true, false, String, ◌≡◌, refl, inl, inr, List, [], ◌∷◌, ◌++◌, arith, none,
  some, Result, ok, err, In, In-append_left, In-append_right, map_of_In, filter_complete, any,
  lookup, if◌then◌else◌, map,
}
use mcp_authz.Json.{Json}
use mcp_authz.Record.{
  Definitions, State, start, fresh_ms, is_fresh, matches, relisted, first_complaint, recorded_of,
  refuse, is_unchecked, refused_after,
}
use mcp_authz.Record.Fresh.{
  Sighting, IsSound, start-IsSound, matches-IsSound, relisted-IsSound, first_complaint-eq-none,
  is_fresh-eq-true,
}

-- What a listing shows.
abbrev pub sightings : ℕ → Result String (List (String × Json)) → List Sighting
sightings at (err reason) = []
sightings at (ok catalogue) =
    map (λ (e : String × Json). record { label = e.0; item = e.1; at = at }) catalogue

module _ (changed_fields : Json → Json → List String) (definitions : Definitions) where
  -- What the calls so far have been: a listing filtered, or a refusal asked for, with what they have shown.
  pub data Runs : List Sighting → State → Type 0 where
    begin : Runs [] start
    listed :
        (seen : List Sighting) (st : State) (label : String) (item : Json) (now : ℕ)
        → Runs seen st
        → Runs
            (record { label = label; item = item; at = now } ∷ seen)
            (matches changed_fields definitions label item now st).1
    asked :
        (seen : List Sighting) (st : State) (labels : List String) (from at now : ℕ)
        (listing : Result String (List (String × Json)))
        → Runs seen st
        → Runs
            (sightings at listing ++ seen)
            (refuse changed_fields definitions labels from at now listing st).1

  wider :
      (seen more : List Sighting) (st : State)
      → ((s : Sighting) → In s seen → In s more)
      → IsSound changed_fields definitions seen st
      → IsSound changed_fields definitions more st
  wider seen more st inside k = record {
    checked = λ label t e.
        let (item, recorded, i, found, same) = k.checked label t e in
        (item, recorded, inside _ i, found, same);
    apart = k.apart;
  }

  refuse-IsSound :
      (seen : List Sighting) (st : State) (labels : List String) (from at now : ℕ)
      (listing : Result String (List (String × Json)))
      → IsSound changed_fields definitions seen st
      → IsSound changed_fields definitions
          (sightings at listing ++ seen)
          (refuse changed_fields definitions labels from at now listing st).1
  unfolding refuse
  refuse-IsSound seen st labels from at now listing k =
      checked
        (any (is_unchecked changed_fields definitions st from)
          (recorded_of changed_fields definitions labels))
        listing
    where
      checked :
          (b : Bool) (l : Result String (List (String × Json)))
          → IsSound changed_fields definitions
              (sightings at l ++ seen)
              (if b
                then refused_after changed_fields definitions
                    (recorded_of changed_fields definitions labels)
                    at
                    now
                    st
                    l
                else (
                  first_complaint changed_fields definitions st now
                      (recorded_of changed_fields definitions labels),
                  st,
                )).1
      checked false l = wider seen _ st (λ s i. In-append_right s (sightings at l) seen i) k
      checked true (err reason) = k
      checked true (ok catalogue) =
          relisted-IsSound changed_fields definitions _ catalogue at st
            (λ label item i.
              In-append_left (record { label = label; item = item; at = at })
                (sightings at (ok catalogue)) seen
                (map_of_In (λ (e : String × Json). record { label = e.0; item = e.1; at = at })
                  (label, item) catalogue i))
            (wider seen _ st (λ s i. In-append_right s (sightings at (ok catalogue)) seen i) k)

  Runs-IsSound :
      (seen : List Sighting) (st : State)
      → Runs seen st
      → IsSound changed_fields definitions seen st
  Runs-IsSound _ _ begin = start-IsSound changed_fields definitions
  Runs-IsSound _ _ (listed seen st label item now r) =
      matches-IsSound changed_fields definitions _ label item now st (inl refl)
        (wider seen _ st (λ s i. inr i) (Runs-IsSound seen st r))
  Runs-IsSound _ _ (asked seen st labels from at now listing r) =
      refuse-IsSound seen st labels from at now listing (Runs-IsSound seen st r)

  In-recorded_of :
      (label : String) (labels : List String) (recorded : Json)
      → In label labels
      → lookup definitions label ≡ some recorded
      → In label (recorded_of changed_fields definitions labels)
  unfolding recorded_of
  In-recorded_of label labels recorded i found = filter_complete _ label labels i (rw found)

  passed-fresh :
      (st : State) (labels : List String) (from at now : ℕ)
      (listing : Result String (List (String × Json)))
      → (refuse changed_fields definitions labels from at now listing st).0 ≡ none
      → (label : String) → In label (recorded_of changed_fields definitions labels)
      → is_fresh (refuse changed_fields definitions labels from at now listing st).1 now label
        ≡ true
  unfolding refuse
  passed-fresh st labels from at now listing h label i =
      checked
        (any (is_unchecked changed_fields definitions st from)
          (recorded_of changed_fields definitions labels))
        listing h
    where
      checked :
          (b : Bool) (l : Result String (List (String × Json)))
          → (if b
              then refused_after changed_fields definitions
                  (recorded_of changed_fields definitions labels)
                  at
                  now
                  st
                  l
              else (
                first_complaint changed_fields definitions st now
                    (recorded_of changed_fields definitions labels),
                st,
              )).0
            ≡ none
          → is_fresh
              (if b
                then refused_after changed_fields definitions
                    (recorded_of changed_fields definitions labels)
                    at
                    now
                    st
                    l
                else (
                  first_complaint changed_fields definitions st now
                      (recorded_of changed_fields definitions labels),
                  st,
                )).1
              now
              label
            ≡ true
      checked false l e = first_complaint-eq-none changed_fields definitions st now _ e label i
      checked true (err reason) e = cc
      checked true (ok catalogue) e =
          first_complaint-eq-none changed_fields definitions
            (relisted changed_fields definitions catalogue at st) now _ e label i

  -- A call that the record does not refuse, in any state that earlier calls lead to, may rely on this: each
  -- of its labels that has an approved definition has been listed less than a minute ago, and nothing of it
  -- differed from what was approved.
  pub refuse-passes :
      (seen : List Sighting) (st : State) (labels : List String) (from at now : ℕ)
      (listing : Result String (List (String × Json)))
      → Runs seen st
      → (refuse changed_fields definitions labels from at now listing st).0 ≡ none
      → (label : String) (recorded : Json) → In label labels
      → lookup definitions label ≡ some recorded
      → (item : Json) × (t : ℕ) × In
          (record { label = label; item = item; at = t })
          (sightings at listing ++ seen)
        × (changed_fields recorded item ≡ [])
        × (now < t + fresh_ms)
  refuse-passes seen st labels from at now listing r passed label recorded i found =
      let j = In-recorded_of label labels recorded i found in
      let (t, checked, soon) =
        is_fresh-eq-true changed_fields definitions _ now label
          (passed-fresh st labels from at now listing passed label j) in
      let k = refuse-IsSound seen st labels from at now listing (Runs-IsSound seen st r) in
      let (item, held, shown, known, same) = k.checked label t checked in
      let m : held ≡ recorded = ground arith in (item, t, shown, rw (← m) same, soon)
