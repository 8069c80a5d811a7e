-- ===== src/Ladder/Gate/Admits.antt =====
-- What a request that the gate lets through has shown, and that it needs no more.
use mcp_authz.Base.{
  Bool, true, false, not, ◌&&◌, ◌||◌, String, ◌≡◌, refl, sym, ap, subst, ◌∙◌, ◌↔◌, ◌≢◌, ◌⊎◌, inl,
  inr, List, [], ◌∷◌, arith, Option, none, some, Result, ok, err, >>=-eq-ok, refuse_if_iff, >>_iff,
  eq_iff, In, filter, is_empty, contains, contains_iff, Bool-cases, filter_sound, filter_complete,
  eq-nil, ◌==◌,
}
use mcp_authz.Policy.{Principal, can}
use mcp_authz.Ladder.{Reply, Preflight, Reader, preflight_scoped_request}
use mcp_authz.Ladder.Gate.{
  Options, Refused, classified, is_classified, kept_from, require_headers, route_permission,
  require_permission, scopes_asked, require_scopes, run_scoped_gate,
}

is_empty-filter :
    (p : String → Bool) (xs : List String)
    → is_empty (filter p xs) ≡ true
    → (x : String) → In x xs
    → p x ≡ false
is_empty-filter p xs h x i = elim (Bool-cases (p x)) [
  | inr f ↦ f
  | inl t ↦ absurd (nothing (filter p xs) h (filter_complete p x xs i t))
]
  where
    nothing : (ys : List String) → is_empty ys ≡ true → In x ys → ⊥
    nothing [] e j = j
    nothing (y ∷ ys) e j = cc

filter-is_empty :
    (p : String → Bool) (xs : List String)
    → ((x : String) → In x xs → p x ≡ false)
    → is_empty (filter p xs) ≡ true
filter-is_empty p xs h =
    rw (eq-nil (filter p xs) (λ x i. let (j, t) = filter_sound p x xs i in cc (h x j)))

and-not_iff : (a b : Bool) → ((a && not b) ≡ false) ↔ (a ≡ true → b ≡ true)
and-not_iff true true = (λ h e. refl, λ h. refl)
and-not_iff true false = (λ h. cc, λ h. cc (h refl))
and-not_iff false b = (λ h e. cc, λ h. refl)

-- Where scopes are to be chosen, the headers vouch for the route.
abbrev pub HeadersAgree : Bool → Option Preflight → Type 0
HeadersAgree scoped none = Unit
HeadersAgree scoped (some p) = scoped ≡ true → p.headers_validated ≡ true

-- The caller, where there is one, may do what the route asks for.
abbrev pub Permitted : Option Principal → Option String → Type 0
Permitted none permission = Unit
Permitted (some p) none = Unit
Permitted (some p) (some permission) = permission ≢ "" → can p permission ≡ true

module _ (o : Options) where
  pub require_headers_iff :
      (preflight : Option Preflight)
      → (require_headers o.scoped preflight ≡ ok tt) ↔ HeadersAgree o.scoped preflight
  unfolding require_headers
  require_headers_iff none = (λ h. tt, λ h. refl)
  require_headers_iff (some p) = (
    λ h. (and-not_iff _ _).0 ((refuse_if_iff _ _).0 h),
    λ h. (refuse_if_iff _ _).1 ((and-not_iff _ _).1 h),
  )

  require_permission_iff :
      (principal : Option Principal) (permission : Option String)
      → (require_permission o principal permission ≡ ok tt) ↔ Permitted principal permission
  unfolding require_permission
  require_permission_iff none permission = (λ h. tt, λ h. refl)
  require_permission_iff (some p) none = (λ h. tt, λ h. refl)
  require_permission_iff (some p) (some asked) = (
    λ h n. (and-not_iff _ _).0 ((refuse_if_iff _ _).0 h) (named n),
    λ h. (refuse_if_iff _ _).1 ((and-not_iff _ _).1 (λ e. h (unnamed e))),
  )
    where
      named : asked ≢ "" → not (asked == "") ≡ true
      named n = elim (Bool-cases (asked == "")) [
        | inl t ↦ absurd (n ((eq_iff asked "").0 t))
        | inr f ↦ rw f
      ]

      unnamed : not (asked == "") ≡ true → asked ≢ ""
      unnamed h e = let k : true ≡ false = sym h ∙ ap not ((eq_iff asked "").1 e) in cc k

  require_scopes_iff :
      (scopes : List String)
      → (require_scopes o scopes ≡ ok tt)
        ↔ ((scope : String) → In scope scopes → In scope o.token_scopes)
  unfolding require_scopes
  require_scopes_iff scopes = (
    λ h scope i.
        (contains_iff o.token_scopes scope).0
          (holds _ (is_empty-filter missing scopes (empty _ ((refuse_if_iff _ _).0 h)) scope i)),
    λ h. (refuse_if_iff _ _).1 (
        ap not (
          filter-is_empty missing scopes
            (λ scope i. ap not ((contains_iff o.token_scopes scope).1 (h scope i))))),
  )
    where
      missing : String → Bool
      missing scope = not (contains o.token_scopes scope)

      holds : (b : Bool) → not b ≡ false → b ≡ true
      holds true h = refl
      holds false h = cc

      empty : (b : Bool) → not b ≡ false → b ≡ true
      empty = holds

-- What classification makes of a request: it is not asked for, it has succeeded, or it has failed where a
-- failure is let pass.
pub data IsSettled (reader : Reader) (o : Options) : Option Preflight → Type 0 where
  unasked : is_classified o ≡ false → IsSettled reader o none
  found :
      (p : Preflight)
      → is_classified o ≡ true
      → preflight_scoped_request reader o.request o.max_request_bytes ≡ ok p
      → IsSettled reader o (some p)
  let_pass :
      (reply : Reply)
      → is_classified o ≡ true
      → preflight_scoped_request reader o.request o.max_request_bytes ≡ err reply
      → o.scoped ≡ false
      → o.strict_classification ≡ false
      → IsSettled reader o none

or-false_split : (a b : Bool) → (a || b) ≡ false → (a ≡ false) × (b ≡ false)
or-false_split true b h = cc
or-false_split false b h = (refl, h)

kept_from-cases :
    (fatal : Bool) (r : Result Reply Preflight) (preflight : Option Preflight)
    → kept_from fatal r ≡ ok preflight
    → ((p : Preflight) × (r ≡ ok p) × (some p ≡ preflight))
      ⊎ ((reply : Reply) × (r ≡ err reply) × (fatal ≡ false) × (none ≡ preflight))
kept_from-cases fatal (ok p) preflight h = inl (p, refl, ground arith)
kept_from-cases true (err reply) preflight h = cc
kept_from-cases false (err reply) preflight h = inr (reply, refl, refl, ground arith)

module _ (reader : Reader) (o : Options) where
  classified-IsSettled :
      (preflight : Option Preflight)
      → classified reader o ≡ ok preflight
      → IsSettled reader o preflight
  unfolding classified
  classified-IsSettled preflight h = elim (Bool-cases (is_classified o)) [
    | inr idle ↦
        let k : ◌≡◌ {A = Result Refused (Option Preflight)} (ok none) (ok preflight) =
          rw idle at h in
        let same : none ≡ preflight = ground arith in
        subst (λ x. IsSettled reader o x) same (unasked idle)
    | inl busy ↦ elim (kept_from-cases _ _ preflight (rw busy at h)) [
      | inl (p, e, same) ↦ subst (λ x. IsSettled reader o x) same (found p busy e)
      | inr (reply, e, calm, same) ↦
          let (a, b) = or-false_split _ _ calm in
          subst (λ x. IsSettled reader o x) same (let_pass reply busy e a b)
    ]
  ]

  pub IsSettled-classified :
      (preflight : Option Preflight)
      → IsSettled reader o preflight
      → classified reader o ≡ ok preflight
  unfolding classified
  IsSettled-classified _ (unasked idle) = rw idle
  IsSettled-classified _ (found p busy e) = rw (busy, e)
  IsSettled-classified _ (let_pass reply busy e a b) = rw (busy, e, a, b)

  -- What lets a request through.
  pub record Admits (preflight : Option Preflight) : Type 0 where
    pub settled : IsSettled reader o preflight
    pub headers : HeadersAgree o.scoped preflight
    pub permitted : Permitted o.principal (route_permission o.resolve_permission preflight)
    pub scopes : (scope : String) → In scope (scopes_asked o preflight) → In scope o.token_scopes

  -- The gate lets a request through, with what it has read of it, exactly when the request could be read
  -- as far as the gate insists on it, the headers vouch for the route where scopes are chosen, the
  -- principal holds the permission of the route, and the token has every scope that is asked for.
  pub run_scoped_gate_iff :
      (preflight : Option Preflight) → (run_scoped_gate reader o ≡ ok preflight) ↔ Admits preflight
  unfolding run_scoped_gate
  run_scoped_gate_iff preflight = (
    λ h.
        let (q, settled, rest) = >>=-eq-ok (classified reader o) _ h in
        let (headers, rest) = (>>_iff _ _ _).0 rest in
        let (permitted, rest) = (>>_iff _ _ _).0 rest in
        let (scopes, last) = (>>_iff _ _ _).0 rest in
        let same : q ≡ preflight = ground arith in
        subst (λ x. Admits x) same
          (record {
            settled = classified-IsSettled q settled;
            headers = (require_headers_iff o q).0 headers;
            permitted = (require_permission_iff o _ _).0 permitted;
            scopes = (require_scopes_iff o _).0 scopes;
          }),
    λ k. rw (
      IsSettled-classified preflight k.settled,
      (require_headers_iff o preflight).1 k.headers,
      (require_permission_iff o _ _).1 k.permitted,
      (require_scopes_iff o _).1 k.scopes,
    ),
  )

  -- Where scopes are chosen or the caller of the gate is strict, a POST that is let through is always one
  -- that could be read, and its route is held to the permission and the scopes.
  pub run_scoped_gate-strict :
      (preflight : Option Preflight)
      → is_classified o ≡ true
      → (o.scoped ≡ true) ⊎ (o.strict_classification ≡ true)
      → run_scoped_gate reader o ≡ ok preflight
      → (p : Preflight) × (preflight ≡ some p)
        × (preflight_scoped_request reader o.request o.max_request_bytes ≡ ok p)
        × Permitted o.principal (o.resolve_permission p.route)
        × ((scope : String) → In scope (scopes_asked o (some p)) → In scope o.token_scopes)
  run_scoped_gate-strict preflight busy strict h =
      present preflight ((run_scoped_gate_iff preflight).0 h)
    where
      insisting : o.scoped ≡ false → o.strict_classification ≡ false → ⊥
      insisting a b = elim strict [ inl s ↦ cc | inr s ↦ cc ]

      read :
          (q : Option Preflight)
          → IsSettled reader o q
          → (p : Preflight) × (q ≡ some p)
            × (preflight_scoped_request reader o.request o.max_request_bytes ≡ ok p)
      read _ (unasked idle) = cc
      read _ (found p _ e) = (p, refl, e)
      read _ (let_pass reply _ e a b) = absurd (insisting a b)

      present :
          (q : Option Preflight)
          → Admits q
          → (p : Preflight) × (q ≡ some p)
            × (preflight_scoped_request reader o.request o.max_request_bytes ≡ ok p)
            × Permitted o.principal (o.resolve_permission p.route)
            × ((scope : String) → In scope (scopes_asked o (some p)) → In scope o.token_scopes)
      present q k =
          let (p, same, e) = read q k.settled in
          (
            p,
            same,
            e,
            (let m : Permitted o.principal (route_permission o.resolve_permission (some p)) =
                  subst (λ x. Permitted o.principal (route_permission o.resolve_permission x)) same
                    k.permitted in
                unfold route_permission in m),
            subst (λ x. (scope : String) → In scope (scopes_asked o x) → In scope o.token_scopes)
                same k.scopes,
          )
