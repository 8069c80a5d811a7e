-- ===== src/Screen/Held.antt =====
-- When a call is let through, and when its answer passes as it is.
use mcp_authz.Base.{
  true, false, String, ◌≡◌, refl, ◌≢◌, ◌↔◌, ◌⊎◌, inl, inr, List, [], ◌∷◌, Option, none, some, any,
  or_else, arith, Bool-cases,
}
use mcp_authz.Base.Chars.{codes}
use mcp_authz.Json.{Json, undefined, bool, own}
use mcp_authz.Json.Access.{is_object}
use mcp_authz.StrictJson.{holds_inexact_number}
use mcp_authz.Definitions.{stringify}
use mcp_authz.Screen.{
  Checked, threw, later, issues, problem_of, problem, refuse, check_arguments, or_empty, truthy,
  mismatch, output_problem, is_undefined, is_true, suspicious, invisible, is_addressed, pass,
  members, flagged, screen_result,
}

problem_of-eq-none : (c : Checked) → (problem_of c ≡ none) ↔ (c ≡ issues [])
problem_of-eq-none (threw m) = (λ h. cc, λ h. cc)
problem_of-eq-none later = (λ h. cc, λ h. cc)
problem_of-eq-none (issues []) = (λ h. refl, λ h. refl)
problem_of-eq-none (issues (m ∷ ms)) = (λ h. cc, λ h. cc)

refuse-eq-none :
    (validate : Json → Json → Checked) (tool : String) (o : Option String)
    → (refuse validate tool o ≡ none) ↔ (o ≡ none)
refuse-eq-none validate tool none = (λ h. refl, λ h. refl)
refuse-eq-none validate tool (some why) = (λ h. ground arith, λ h. cc)

is_undefined_iff :
    (validate : Json → Json → Checked) (v : Json)
    → (is_undefined validate v ≡ true) ↔ (v ≡ undefined)
is_undefined_iff validate undefined = (λ h. refl, λ h. refl)
is_undefined_iff validate v = (λ h. cc, λ h. cc)

is_true_iff :
    (validate : Json → Json → Checked) (v : Json) → (is_true validate v ≡ true) ↔ (v ≡ bool true)
is_true_iff validate (bool true) = (λ h. refl, λ h. refl)
is_true_iff validate v = (λ h. cc, λ h. cc)

-- A call is let through exactly when no number of its arguments would be rounded, and the recorded
-- inputSchema, where it is an object, was checked at once with no issue; arguments that are left out are
-- checked as an empty object.
pub check_arguments_iff :
    (validate : Json → Json → Checked) (tool : String) (definition : List (String × Json))
    (args : Json)
    → (check_arguments validate tool definition args ≡ none) ↔ (
        (holds_inexact_number args ≡ false)
        × (is_object (own definition "inputSchema") ≡ true
            → validate (own definition "inputSchema") (or_empty args) ≡ issues []))
unfolding check_arguments problem
check_arguments_iff validate tool definition args = elim (Bool-cases (holds_inexact_number args)) [
  | inl t ↦ (λ h. cc (rw t at h), λ h. cc (h.0))
  | inr f ↦ rw f (elim (Bool-cases (is_object (own definition "inputSchema"))) [
    | inl o ↦
        let found = validate (own definition "inputSchema") (or_empty args) in
        let none_found = problem_of-eq-none found in
        let kept = refuse-eq-none validate tool (problem_of found) in
        rw o (λ h. (refl, λ e. none_found.0 (kept.0 h)), λ h. kept.1 (none_found.1 (h.1 refl)))
    | inr o ↦ rw o (λ h. (refl, λ e. cc), λ h. refl)
  ])
]

flagged-eq-pass :
    (validate : Json → Json → Checked) (tool : String) (reasons : List String)
    → (flagged validate tool reasons ≡ pass) ↔ (reasons ≡ [])
flagged-eq-pass validate tool [] = (λ h. refl, λ h. refl)
flagged-eq-pass validate tool (r ∷ rs) = (λ h. cc, λ h. cc)

suspicious-eq-nil :
    (v : Json)
    → let text = codes (or_else (stringify v) "undefined") in
      (suspicious v ≡ []) ↔ ((any invisible text ≡ false) × (is_addressed text ≡ false))
unfolding suspicious
suspicious-eq-nil v =
    let text = codes (or_else (stringify v) "undefined") in
    elim (Bool-cases (any invisible text)) [
      | inl t ↦ rw t (λ h. cc, λ h. cc (h.0))
      | inr f ↦ elim (Bool-cases (is_addressed text)) [
        | inl t ↦ rw (f, t) (λ h. cc, λ h. cc (h.1))
        | inr u ↦ rw (f, u) (λ h. (refl, refl), λ h. refl)
      ]
    ]

-- A structured output that has nothing against it: the definition has no outputSchema, or the answer
-- reports an error, or the output is there, no number of it would be rounded, and the check finds nothing.
abbrev pub Fits : (Json → Json → Checked) → List (String × Json) → List (String × Json) → Type 0
Fits validate definition result =
    (own definition "outputSchema" ≡ undefined)
    ⊎ (own result "isError" ≡ bool true)
    ⊎ ((own result "structuredContent" ≢ undefined)
        × (holds_inexact_number (own result "structuredContent") ≡ false)
        × (is_object (own definition "outputSchema") ≡ true
            → truthy (
                problem_of
                  (validate (own definition "outputSchema") (own result "structuredContent")))
              ≡ false))

output_problem-eq-none :
    (validate : Json → Json → Checked) (schema content : Json)
    → (truthy (output_problem validate schema content) ≡ false) ↔ (
        (content ≢ undefined)
        × (holds_inexact_number content ≡ false)
        × (is_object schema ≡ true → truthy (problem_of (validate schema content)) ≡ false))
unfolding output_problem problem
output_problem-eq-none validate schema content = elim (Bool-cases (is_undefined validate content)) [
  | inl t ↦ rw t (λ h. cc, λ h. absurd (h.0 ((is_undefined_iff validate content).0 t)))
  | inr f ↦
      let there : content ≢ undefined = λ e. cc ((is_undefined_iff validate content).1 e) in
      rw f (elim (Bool-cases (holds_inexact_number content)) [
        | inl t ↦ rw t (λ h. cc, λ h. cc h.1)
        | inr u ↦ rw u (elim (Bool-cases (is_object schema)) [
          | inl o ↦ rw o (λ h. (there, refl, λ e. h), λ h. h.2 refl)
          | inr o ↦ rw o (λ h. (there, refl, λ e. cc), λ h. refl)
        ])
      ])
]

mismatch-Fits :
    (validate : Json → Json → Checked) (definition result : List (String × Json))
    → (truthy (mismatch validate definition result) ≡ false) ↔ Fits validate definition result
unfolding mismatch
mismatch-Fits validate definition result =
    let schema = own definition "outputSchema" in
    let absent = is_undefined_iff validate schema in
    let failed = is_true_iff validate (own result "isError") in
    let output = output_problem-eq-none validate schema (own result "structuredContent") in
    elim (Bool-cases (is_undefined validate schema)) [
      | inl t ↦ rw t (λ h. inl (absent.0 t), λ h. refl)
      | inr f ↦ rw f (elim (Bool-cases (is_true validate (own result "isError"))) [
        | inl t ↦ rw t (λ h. inr (inl (failed.0 t)), λ h. refl)
        | inr u ↦ rw u (
          λ h. inr (inr (output.0 h)),
          λ h. elim h [
            | inl e ↦ cc (absent.1 e)
            | inr j ↦ elim j [ inl e ↦ cc (failed.1 e) | inr k ↦ output.1 k ]
          ],
        )
      ])
    ]

-- An answer passes unchanged exactly when its structured output has nothing against it and its JSON text
-- holds neither an invisible character nor text addressed to the model.
pub screen_result-eq-pass :
    (validate : Json → Json → Checked) (tool : String) (definition : List (String × Json))
    (result : Json)
    → let text = codes (or_else (stringify result) "undefined") in
      (screen_result validate tool definition result ≡ pass) ↔ (
        Fits validate definition (members result)
        × (any invisible text ≡ false)
        × (is_addressed text ≡ false))
unfolding screen_result
screen_result-eq-pass validate tool definition result =
    let fits = mismatch-Fits validate definition (members result) in
    let quiet = suspicious-eq-nil result in
    let shown = flagged-eq-pass validate tool (suspicious result) in
    elim (Bool-cases (truthy (mismatch validate definition (members result)))) [
      | inl t ↦ (λ h. cc (rw t at h), λ h. cc (fits.1 h.0))
      | inr f ↦ rw f (
        λ h. let (q, r) = quiet.0 (shown.0 h) in (fits.0 f, q, r),
        λ h. shown.1 (quiet.1 (h.1, h.2)),
      )
    ]
