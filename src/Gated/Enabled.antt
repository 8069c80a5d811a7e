-- ===== src/Gated/Enabled.antt =====
-- gate.ts: what a gated server takes of a builder, and what of it a caller can reach.
use mcp_authz.Base.{
  Bool, true, false, not, ◌&&◌, ◌||◌, String, ◌≡◌, refl, sym, ap, subst, ◌∙◌, ◌↔◌, ◌⊎◌, inl, inr,
  List, [], ◌∷◌, arith, Option, none, some, Result, ok, >>=-eq-ok, refuse_if-eq-ok, lookup, In,
  contains_iff, Bool-eq, ◌^^◌,
}
use mcp_authz.Json.Access.{object_members}
use mcp_authz.Policy.{Principal, can}
use mcp_authz.Ladder.{Kind, capability_label}
use mcp_authz.Gated.{
  GateError, Registration, Registered, GateOptions, asks, asks_at, registered_at, gated, gated_all,
}

-- The label of a capability: a tool's is its name.
abbrev pub label_as : Kind → String → String
label_as Kind.tool name = name
label_as Kind.prompt name = "prompt:" ^^ name
label_as Kind.resource name = "resource:" ^^ name

capability_label-label_as :
    (kind : Kind) (name : String) → capability_label kind name ≡ label_as kind name
unfolding capability_label
capability_label-label_as Kind.tool name = refl
capability_label-label_as Kind.prompt name = refl
capability_label-label_as Kind.resource name = refl

-- A person is to be asked: the options say so of the label, or are silent on one that every object has.
abbrev pub Asks : Option (List (String × Bool)) → String → Type 0
Asks approval label =
    (entries : List (String × Bool)) × (approval ≡ some entries)
    × ((lookup entries label ≡ some true)
        ⊎ ((lookup entries label ≡ none) × In label object_members))

asks-Asks :
    (approval : Option (List (String × Bool))) (label : String)
    → (asks approval label ≡ true) ↔ Asks approval label
unfolding asks
asks-Asks none label = (λ h. cc, λ h. cc (h.1))
asks-Asks (some entries) label = (
  λ h. (entries, refl, found (lookup entries label) h),
  λ h.
      let same : entries ≡ h.0 = ground (arith, h.1) in
      said (lookup entries label) (
        subst
          (λ es.
            (lookup es label ≡ some true) ⊎ ((lookup es label ≡ none) × In label object_members))
          (sym same) h.2),
)
  where
    found :
        (o : Option Bool)
        → asks_at entries label o ≡ true
        → (o ≡ some true) ⊎ ((o ≡ none) × In label object_members)
    found none h = inr (refl, (contains_iff object_members label).0 h)
    found (some b) h = inl (ap some h)

    said :
        (o : Option Bool)
        → (o ≡ some true) ⊎ ((o ≡ none) × In label object_members)
        → asks_at entries label o ≡ true
    said none (inl e) = cc
    said none (inr e) = (contains_iff object_members label).1 e.1
    said (some b) (inl e) = cc
    said (some b) (inr e) = cc (e.0)

and-not-eq-false : (a b : Bool) → (a && not b) ≡ false → a ≡ true → b ≡ true
and-not-eq-false true true h e = refl
and-not-eq-false true false h e = cc
and-not-eq-false false b h e = cc

and-not_lem : (a b : Bool) → (a ≡ true → b ≡ true) → (a && not b) ≡ false
and-not_lem true true h = refl
and-not_lem true false h = cc (h refl)
and-not_lem false b h = refl

module _ (principal : Principal) (permissions : List (String × String))
    (options : GateOptions) where
  -- A registration that the gate takes: it has a declared permission, there is someone to ask where it asks
  -- for approval, and it can be disabled for a caller without the permission.
  abbrev pub IsTaken : Registration → Type 0
  IsTaken r =
      (permission : String) × (lookup permissions (label_as r.kind r.name) ≡ some permission)
      × (Asks options.approval (label_as r.kind r.name) → options.on_approval ≡ true)
      × (can principal permission ≡ false → r.can_disable ≡ true)

  -- The capability stands under its label with the permission declared for it, is enabled exactly for a caller
  -- who holds that, and a handler of it is guarded exactly where there is an audit or a person is to be asked.
  abbrev pub IsGated : Registration → Registered → Type 0
  IsGated r g =
      (g.label ≡ label_as r.kind r.name)
      × (lookup permissions g.label ≡ some g.permission)
      × ((g.enabled ≡ true) ↔ (can principal g.permission ≡ true))
      × ((g.guarded ≡ true)
          ↔ ((r.has_handler ≡ true) × ((options.on_audit ≡ true) ⊎ Asks options.approval g.label)))

  guarded_iff : (a b h : Bool) → (((a || b) && h) ≡ true) ↔ ((h ≡ true) × ((a ≡ true) ⊎ (b ≡ true)))
  guarded_iff true b true = (λ e. (refl, inl refl), λ e. refl)
  guarded_iff true b false = (λ e. cc, λ e. cc (e.0))
  guarded_iff false true true = (λ e. (refl, inr refl), λ e. refl)
  guarded_iff false true false = (λ e. cc, λ e. cc (e.0))
  guarded_iff false false h = (λ e. cc, λ e. elim e.1 [ inl t ↦ cc | inr t ↦ cc ])

  guarded-Asks :
      (label : String) (h : Bool)
      → (((options.on_audit || asks options.approval label) && h) ≡ true)
        ↔ ((h ≡ true) × ((options.on_audit ≡ true) ⊎ Asks options.approval label))
  guarded-Asks label h =
      let k = guarded_iff options.on_audit (asks options.approval label) h in
      let m = asks-Asks options.approval label in
      (
        λ e. let (has, why) = k.0 e in (has, elim why [ inl t ↦ inl t | inr t ↦ inr (m.0 t) ]),
        λ e. k.1 (e.0, elim e.1 [ inl t ↦ inl t | inr t ↦ inr (m.1 t) ]),
      )

  ok-injective : (a b : Registered) → ◌≡◌ {A = Result GateError Registered} (ok a) (ok b) → a ≡ b
  ok-injective a b h = ground arith

  all-injective :
      (a b : List Registered) → ◌≡◌ {A = Result GateError (List Registered)} (ok a) (ok b) → a ≡ b
  all-injective a b h = ground arith

  gated_sound :
      (r : Registration) (g : Registered)
      → gated principal permissions options r ≡ ok g
      → IsTaken r × IsGated r g
  unfolding gated
  gated_sound r g h = priced (lookup permissions (label_as r.kind r.name)) refl (
      subst (λ l. registered_at principal permissions options r l (lookup permissions l) ≡ ok g)
        (capability_label-label_as r.kind r.name) h)
    where
      priced :
          (price : Option String)
          → lookup permissions (label_as r.kind r.name) ≡ price
          → registered_at principal permissions options r (label_as r.kind r.name) price ≡ ok g
          → IsTaken r × IsGated r g
      priced none e k = unfold registered_at in cc k
      priced (some permission) e k =
          unfold registered_at in
          let (approver, rest) = refuse_if-eq-ok _ _ _ k in
          let (a, last) = refuse_if-eq-ok _ _ _ rest in
          (
            (
              permission,
              e,
              λ asked.
                  and-not-eq-false _ _ approver
                    ((asks-Asks options.approval (label_as r.kind r.name)).1 asked),
              λ lacks. and-not-eq-false _ _ a (ap not lacks),
            ),
            subst (λ x. IsGated r x) (ok-injective _ g last)
                (refl, e, (λ t. t, λ t. t), guarded-Asks (label_as r.kind r.name) r.has_handler),
          )

  gated_complete :
      (r : Registration)
      → IsTaken r
      → (g : Registered) × (gated principal permissions options r ≡ ok g)
  unfolding gated registered_at
  gated_complete r (permission, e, approver, disabled) = (
    record {
      label = label_as r.kind r.name;
      permission = permission;
      guarded =
          (options.on_audit || asks options.approval (label_as r.kind r.name)) && r.has_handler;
      enabled = can principal permission;
    },
    rw
        (
          capability_label-label_as r.kind r.name,
          e,
          and-not_lem (asks options.approval (label_as r.kind r.name)) options.on_approval
              (λ t. approver ((asks-Asks options.approval (label_as r.kind r.name)).0 t)),
          and-not_lem (not (can principal permission)) r.can_disable (λ t. disabled (lacking _ t)),
        )
        refl,
  )
    where
      lacking : (b : Bool) → not b ≡ true → b ≡ false
      lacking true h = cc
      lacking false h = refl

  same_registered :
      (g h : Registered)
      → g.label ≡ h.label
      → g.permission ≡ h.permission
      → g.guarded ≡ h.guarded
      → g.enabled ≡ h.enabled
      → g ≡ h
  same_registered g h a b c d =
      λ i. record { label = a i; permission = b i; guarded = c i; enabled = d i }

  IsGated-only : (r : Registration) (g h : Registered) → IsGated r g → IsGated r h → g ≡ h
  IsGated-only r g h k m =
      let label : g.label ≡ h.label = k.0 ∙ sym m.0 in
      let found : some g.permission ≡ some h.permission =
        sym k.1 ∙ ap (lookup permissions) label ∙ m.1 in
      let permission : g.permission ≡ h.permission = ground (arith, found) in
      same_registered g h label permission
        (Bool-eq g.guarded h.guarded (λ t. m.3.1 (reworded label (k.3.0 t)))
          (λ t. k.3.1 (reworded (sym label) (m.3.0 t))))
        (Bool-eq g.enabled h.enabled
          (λ t. m.2.1 (subst (λ x. can principal x ≡ true) permission (k.2.0 t)))
          (λ t. k.2.1 (subst (λ x. can principal x ≡ true) (sym permission) (m.2.0 t))))
    where
      reworded :
          {l l' : String}
          → l ≡ l'
          → (r.has_handler ≡ true) × ((options.on_audit ≡ true) ⊎ Asks options.approval l)
          → (r.has_handler ≡ true) × ((options.on_audit ≡ true) ⊎ Asks options.approval l')
      reworded same asked =
          subst
            (λ x. (r.has_handler ≡ true) × ((options.on_audit ≡ true) ⊎ Asks options.approval x))
            same asked

  gated_iff :
      (r : Registration) (g : Registered)
      → (gated principal permissions options r ≡ ok g) ↔ (IsTaken r × IsGated r g)
  gated_iff r g = (
    gated_sound r g,
    λ h.
        let (taken, stands) = h in
        let (other, e) = gated_complete r taken in
        e ∙ ap ok (IsGated-only r other g (gated_sound r other e).1 stands),
  )

  -- Everything that a builder registers through the gate is taken and gated, in the order of registration.
  abbrev pub AllGated : List Registration → List Registered → Type 0
  AllGated [] [] = Unit
  AllGated (r ∷ rs) (g ∷ gs) = (IsTaken r × IsGated r g) × AllGated rs gs
  AllGated _ _ = ⊥

  gated_all_sound :
      (rs : List Registration) (gs : List Registered)
      → gated_all principal permissions options rs ≡ ok gs
      → AllGated rs gs
  unfolding gated_all
  gated_all_sound [] [] h = tt
  gated_all_sound [] (g ∷ gs) h = cc
  gated_all_sound (r ∷ rs) gs h =
      let (g, e, rest) = >>=-eq-ok (gated principal permissions options r) _ h in
      let (others, f, last) = >>=-eq-ok (gated_all principal permissions options rs) _ rest in
      subst (λ l. AllGated (r ∷ rs) l) (all-injective (g ∷ others) gs last)
        (gated_sound r g e, gated_all_sound rs others f)

  gated_all_complete :
      (rs : List Registration) (gs : List Registered)
      → AllGated rs gs
      → gated_all principal permissions options rs ≡ ok gs
  unfolding gated_all
  gated_all_complete [] [] k = refl
  gated_all_complete [] (g ∷ gs) k = absurd k
  gated_all_complete (r ∷ rs) [] k = absurd k
  gated_all_complete (r ∷ rs) (g ∷ gs) (one, others) =
      rw ((gated_iff r g).1 one, gated_all_complete rs gs others)

  -- A builder gets through the gate, and leaves these capabilities on the server, exactly when each of its
  -- registrations has a declared permission, someone to ask where it asks for approval, and a way to be
  -- disabled for a caller without the permission, and each capability stands, in order, under its label
  -- with that permission, enabled exactly for a caller who holds it, and guarded exactly where it has a
  -- handler and there is an audit or a person to ask.
  pub gated_all_iff :
      (rs : List Registration) (gs : List Registered)
      → (gated_all principal permissions options rs ≡ ok gs) ↔ AllGated rs gs
  gated_all_iff rs gs = (gated_all_sound rs gs, gated_all_complete rs gs)
