-- ===== src/Handler/Authorized.antt =====
-- Whom a policy or the host lets in.
use mcp_authz.Base.{
  false, ◌≡◌, refl, ap, ◌∙◌, ◌↔◌, Option, none, some, Result, ok, err, >>=-eq-ok, >>_iff,
  refuse_if_iff, is_empty,
}
use mcp_authz.Policy.{Identity, Principal, PolicyError}
use mcp_authz.Policy.Decide.{decide}
use mcp_authz.Proxy.Serve.{IdentityFailure, access_denied, identity_error}
use mcp_authz.Handler.{
  Site, Authorizer, by_policy, by_host, nobody, Stopped, or_failed, holding, of_policy,
  authorized_by, checked,
}

module _ {Context : Type 0} (x : Site Context) where
  -- A caller by whom a policy or the host stands, and who holds something; or nobody was asked.
  abbrev pub IsAuthorized : Authorizer → Identity → Option Principal → Type 0
  IsAuthorized (by_policy policy) identity none = ⊥
  IsAuthorized (by_policy policy) identity (some p) =
      (decide x.lower policy identity ≡ ok p) × (is_empty p.permissions ≡ false)
  IsAuthorized (by_host decision) identity none = ⊥
  IsAuthorized (by_host decision) identity (some p) =
      (decision identity ≡ ok (some p)) × (is_empty p.permissions ≡ false)
  IsAuthorized nobody identity none = Unit
  IsAuthorized nobody identity (some p) = ⊥

  pub or_failed_lem {ℓ} :
      {A : Type ℓ} (o : Result IdentityFailure A) (a : A) → or_failed x o ≡ ok a → o ≡ ok a
  or_failed_lem (ok b) a e = cc
  or_failed_lem (err (access_denied message)) a e = cc
  or_failed_lem (err identity_error) a e = cc

  holding_iff :
      (p q : Principal) → (holding x p ≡ ok (some q)) ↔ ((p ≡ q) × (is_empty p.permissions ≡ false))
  holding_iff p q = (
    λ e. let (full, same) = (>>_iff _ _ _).0 e in (cc, (refuse_if_iff _ _).0 full),
    λ (same, full). (>>_iff _ _ _).1 ((refuse_if_iff _ _).1 full, cc),
  )

  holding-some : (p : Principal) (q : Option Principal) → holding x p ≡ ok q → q ≡ some p
  holding-some p q e =
      let same : Path (Result Stopped (Option Principal)) (ok (some p)) (ok q) =
        ((>>_iff _ _ q).0 e).1 in
      cc

  of_policy_lem :
      (o : Result PolicyError Principal) (p : Principal) → of_policy x o ≡ ok p → o ≡ ok p
  of_policy_lem (ok q) p e = cc
  of_policy_lem (err failed) p e = cc

  checked-none : (o : Option Principal) → checked x o ≡ ok none → ⊥
  checked-none none e = cc
  checked-none (some p) e = let never = holding-some p none e in cc

  checked-some :
      (o : Option Principal) (q : Principal)
      → checked x o ≡ ok (some q)
      → (o ≡ some q) × (is_empty q.permissions ≡ false)
  checked-some none q e = cc
  checked-some (some p) q e =
      let (same, full) = (holding_iff p q).0 e in (ap some same, rw (← same) full)

  pub IsAuthorized-iff :
      (a : Authorizer) (identity : Identity) (q : Option Principal)
      → (authorized_by x a identity ≡ ok q) ↔ IsAuthorized a identity q
  IsAuthorized-iff (by_policy policy) identity none = (
    λ e.
        let (p, decided, held) = >>=-eq-ok (of_policy x (decide x.lower policy identity)) _ e in
        let never = holding-some p none held in cc,
    λ never. absurd never,
  )
  IsAuthorized-iff (by_policy policy) identity (some q) = (
    λ e.
        let (p, decided, held) = >>=-eq-ok (of_policy x (decide x.lower policy identity)) _ e in
        let (same, full) = (holding_iff p q).0 held in
        (of_policy_lem _ q (decided ∙ ap ok same), rw (← same) full),
    λ (decided, full). rw decided ((holding_iff q q).1 (refl, full)),
  )
  IsAuthorized-iff (by_host decision) identity none = (
    λ e.
        let (o, decided, held) = >>=-eq-ok (or_failed x (decision identity)) _ e in
        absurd (checked-none o held),
    λ never. absurd never,
  )
  IsAuthorized-iff (by_host decision) identity (some q) = (
    λ e.
        let (o, decided, held) = >>=-eq-ok (or_failed x (decision identity)) _ e in
        let (same, full) = checked-some o q held in
        (or_failed_lem _ _ (decided ∙ ap ok same), full),
    λ (decided, full). rw decided ((holding_iff q q).1 (refl, full)),
  )
  IsAuthorized-iff nobody identity none = (λ e. tt, λ h. refl)
  IsAuthorized-iff nobody identity (some q) = (λ e. cc, λ never. absurd never)
