-- ===== src/Record.antt =====
-- upstream-record.ts: the upstream's catalogue held to the definitions that were approved, as
-- `holdToRecord` does it. A time is a number of milliseconds. `changed_fields recorded item`
-- stands for `changedFields(recorded, definitionOf(item))`, and what `list` answers with is an argument.
pub mod Tests
pub mod Fresh
pub mod Runs
use mcp_authz.Base.{
  ℕ, ◌-◌, Bool, true, false, not, ◌&&◌, String, List, [], ◌∷◌, Option, none, some, Result, ok, err,
  any, filter, lookup, put, remove, is_some, is_empty, ltb, if◌then◌else◌, ◌==◌, ◌^^◌,
}
use mcp_authz.Json.{Json}

-- The approved definitions, by label.
abbrev pub Definitions : Type 0
Definitions = List (String × Json)

-- `checkedAt` and `changed`
pub record State : Type 0 where
  pub checked_at : List (String × ℕ)
  pub changed : List (String × List String)

abbrev pub start : State
start = record { checked_at = []; changed = [] }

-- `FRESH_MS`
abbrev pub fresh_ms : ℕ
fresh_ms = 60000

-- `fresh`
abbrev pub is_within : ℕ → Option ℕ → Bool
is_within now none = false
is_within now (some t) = ltb (now - t) fresh_ms

pub is_fresh : State → ℕ → String → Bool
is_fresh st now label = is_within now (lookup st.checked_at label)

abbrev pub instructions_label : String
instructions_label = "server:instructions"

-- `array.join(', ')`
pub joined : List String → String
joined [] = ""
joined (s ∷ []) = s
joined (s ∷ t ∷ rest) = s ^^ ", " ^^ joined (t ∷ rest)

module _ (changed_fields : Json → Json → List String) (definitions : Definitions) where
  abbrev pub settled : String → ℕ → State → List String → Bool × State
  settled label now st [] =
      (true, record { checked_at = put st.checked_at label now; changed = remove st.changed label })
  settled label now st (field ∷ fields) = (
    false,
    record {
      checked_at = remove st.checked_at label;
      changed = put st.changed label (field ∷ fields);
    },
  )

  abbrev held_to : String → Json → ℕ → State → Option Json → Bool × State
  held_to label item now st none = (true, st)
  held_to label item now st (some recorded) = settled label now st (changed_fields recorded item)

  -- `matches`
  unfoldable pub matches : String → Json → ℕ → State → Bool × State
  matches label item now st = held_to label item now st (lookup definitions label)

  -- What `relist` does with a listing.
  pub relisted : List (String × Json) → ℕ → State → State
  relisted [] now st = st
  relisted ((label, item) ∷ rest) now st =
      relisted rest now (if label == instructions_label then st else (matches label item now st).1)

  abbrev pub complaint : State → ℕ → String → Option (List String) → Option String
  complaint st now label (some fields) =
      some ("'" ^^ label ^^ "', whose " ^^ joined fields ^^ " changed since it was recorded")
  complaint st now label none =
      if is_fresh st now label
      then none
      else some ("'" ^^ label ^^ "', which the upstream no longer lists")

  abbrev pub first_of : Option String → Option String → Option String
  first_of none later = later
  first_of (some because) later = some because

  -- The loop that ends `refuse`.
  pub first_complaint : State → ℕ → List String → Option String
  first_complaint st now [] = none
  first_complaint st now (label ∷ rest) =
      first_of (complaint st now label (lookup st.changed label)) (first_complaint st now rest)

  pub is_unchecked : State → ℕ → String → Bool
  is_unchecked st now label = not (is_some (lookup st.changed label)) && not (is_fresh st now label)

  pub recorded_of : List String → List String
  recorded_of labels = filter (λ label. is_some (lookup definitions label)) labels

  abbrev pub refused_after :
      List String → ℕ → ℕ → State → Result String (List (String × Json)) → Option String × State
  refused_after labels listed now st (err reason) =
      (some ("the upstream's catalogue could not be read to check it (" ^^ reason ^^ ")"), st)
  refused_after labels listed now st (ok catalogue) =
      let next = relisted catalogue listed st in (first_complaint next now labels, next)

  -- `refuse`: asked at one time, listed at another where it is needed, and answered at a third.
  pub refuse :
      List String
      → (asked listed now : ℕ) → Result String (List (String × Json))
      → State
      → Option String × State
  refuse labels asked listed now listing st =
      let recorded = recorded_of labels in
      if any (is_unchecked st asked) recorded
      then refused_after recorded listed now st listing
      else (first_complaint st now recorded, st)
