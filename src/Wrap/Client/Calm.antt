-- ===== src/Wrap/Client/Calm.antt =====
-- What a line of the client's can bring about: which calls the server is given, and what stays as it was.
use mcp_authz.Base.{
  true, false, not, ◌&&◌, ◌||◌, String, ◌≡◌, refl, sym, ap, subst, ◌∙◌, List, [], ◌∷◌, ◌++◌, Option,
  none, some, arith, inl, inr, In, In-append, All, Bool-cases, Option-cases, contains, is_some,
  ◌==◌,
}
use mcp_authz.Json.{Json, record?, own}
use mcp_authz.StrictJson.{has_duplicate_key, holds_inexact_number}
use mcp_authz.Scopes.{trim}
use mcp_authz.Screen.{truthy}
use mcp_authz.Wrap.{Options, Outside, Held, State, Act, forwarded, visible, is_undefined}
use mcp_authz.Wrap.Client.{
  error_reply, is_method, called_name, request_list, wrong_arguments, forward, is_cleared,
  release_one, release_all, release, noted, hold, call_tool, pass_on, read, parsed, client_line,
}

module _ (outside : Outside) (options : Options) where
  -- A line that `wrap` has read as the server will: one object that repeats no key.
  abbrev pub IsRead : String → List (String × Json) → Type 0
  IsRead line message =
      ((value : Json) × (outside.parse_checked line ≡ some value) × (record? value ≡ some message))
      × (has_duplicate_key line ≡ false)

  -- A tool that may be called: it is listed and has not changed, it has been checked where there is a record, and
  -- the arguments fit its definition.
  abbrev pub MayCall : State → List (String × Json) → String → Type 0
  MayCall s message name =
      (visible options s name ≡ true)
      × (is_some options.pinned ≡ true → contains s.verified name ≡ true)
      × (truthy (wrong_arguments outside options name message) ≡ false)

  abbrev pub Permits : State → String → List (String × Json) → Type 0
  Permits s line message =
      IsRead line message
      × (is_method message "tools/call" ≡ true
          → (name : String) × (called_name message ≡ some name) × MayCall s message name)

  -- A call that is held, as it was read.
  abbrev pub IsCall : Held → Type 0
  IsCall call =
      IsRead call.line call.message
      × (is_method call.message "tools/call" ≡ true)
      × (called_name call.message ≡ some call.name)

  -- What was found of the tools stays, and the server is given what it may be given.
  pub record Calm (s : State) (r : State × List Act) : Type 0 where
    pub same_changed : r.0.changed ≡ s.changed
    pub same_verified : r.0.verified ≡ s.verified
    pub permitted :
        (line : String) (message : List (String × Json))
        → In (forwarded line message) r.1
        → Permits s line message

  visible_same :
      (s t : State) (name : String)
      → t.changed ≡ s.changed
      → visible options t name ≡ visible options s name
  unfolding visible
  visible_same s t name e = rw e

  pub Permits_same :
      (s t : State) (line : String) (message : List (String × Json))
      → t.changed ≡ s.changed
      → t.verified ≡ s.verified
      → Permits t line message
      → Permits s line message
  Permits_same s t line message c v h = (
    h.0,
    λ m.
        let (name, named, may) = h.1 m in
        (
          name,
          named,
          (
            sym (visible_same s t name c) ∙ may.0,
            λ p. ap (λ (names : List String). contains names name) (sym v) ∙ may.1 p,
            may.2,
          ),
        ),
  )

  only_one :
      (P : String → List (String × Json) → Type 0) (line l : String)
      (message m : List (String × Json))
      → P line message
      → In (forwarded l m) (forwarded line message ∷ [])
      → P l m
  only_one P line l message m h (inl e) =
      let at_line : line ≡ l = cc in
      let at_message : message ≡ m = cc in
      subst (λ x. P x m) at_line (subst (λ x. P line x) at_message h)
  only_one P line l message m h (inr never) = absurd never

  reply-Calm :
      (s : State) (id : Json) (code text : String) → Calm s (s, error_reply id code text ∷ [])
  unfolding error_reply
  reply-Calm s id code text = record {
    same_changed = refl;
    same_verified = refl;
    permitted = λ line message i. elim i [ inl e ↦ cc | inr never ↦ absurd never ];
  }

  forward-Calm :
      (s : State) (line : String) (message : List (String × Json)) (name : String)
      → IsRead line message
      → called_name message ≡ some name
      → visible options s name ≡ true
      → (is_some options.pinned ≡ true → contains s.verified name ≡ true)
      → Calm s (forward outside options s line message name)
  unfolding forward
  forward-Calm s line message name read_so named seen checked =
      elim (Bool-cases (truthy (wrong_arguments outside options name message))) [
        | inl wrong ↦ rw wrong (reply-Calm s _ _ _)
        | inr right ↦ rw right (record {
          same_changed = refl;
          same_verified = refl;
          permitted = λ l m.
              only_one (Permits s) line l message m
                (read_so, λ called. (name, named, (seen, checked, right)));
        })
      ]

  release_one-Calm :
      (s : State) (failure : Option String) (call : Held)
      → IsCall call
      → Calm s (release_one outside options s failure call)
  unfolding release_one is_cleared
  release_one-Calm s failure call h =
      elim (Bool-cases (is_cleared outside options s failure call.name)) [
        | inl clear ↦
            let seen : visible options s call.name ≡ true = ground arith in
            let checked : contains s.verified call.name ≡ true = ground arith in
            rw clear (forward-Calm s call.line call.message call.name h.0 h.2 seen (λ p. checked))
        | inr kept ↦ rw kept (reply-Calm s _ _ _)
      ]

  -- One step after another.
  then-Calm :
      (s : State) (r q : State × List Act) → Calm s r → Calm r.0 q → Calm s (q.0, r.1 ++ q.1)
  then-Calm s r q first second = record {
    same_changed = second.same_changed ∙ first.same_changed;
    same_verified = second.same_verified ∙ first.same_verified;
    permitted = λ line message i. elim (In-append (forwarded line message) r.1 q.1 i) [
      | inl j ↦ first.permitted line message j
      | inr j ↦
          Permits_same s r.0 line message first.same_changed first.same_verified
            (second.permitted line message j)
    ];
  }

  release_all-Calm :
      (s : State) (failure : Option String) (calls : List Held)
      → All IsCall calls
      → Calm s (release_all outside options s failure calls)
  unfolding release_all
  release_all-Calm s failure [] h = record {
    same_changed = refl;
    same_verified = refl;
    permitted = λ l m i. absurd i;
  }
  release_all-Calm s failure (call ∷ calls) (h, all) =
      let one = release_one outside options s failure call in
      then-Calm s one (release_all outside options one.0 failure calls)
        (release_one-Calm s failure call h) (release_all-Calm one.0 failure calls all)

  -- A state that differs in neither the changes nor what has been checked.
  moved-Calm :
      (s t : State) (r : State × List Act)
      → t.changed ≡ s.changed
      → t.verified ≡ s.verified
      → Calm t r
      → Calm s r
  moved-Calm s t r c v calm =
      then-Calm s (t, []) r
        (record { same_changed = c; same_verified = v; permitted = λ l m i. absurd i }) calm

  pub release-Calm :
      (s : State) (failure : Option String)
      → All IsCall s.held
      → Calm s (release outside options s failure)
  unfolding release
  release-Calm s failure all =
      moved-Calm s (record s { verifying = none; held = [] }) _ refl refl
        (release_all-Calm _ failure s.held all)

  pub request_list-Calm : (s : State) (meta cursor : Json) → Calm s (request_list s meta cursor)
  unfolding request_list
  request_list-Calm s meta cursor = record {
    same_changed = refl;
    same_verified = refl;
    permitted = λ line message i. elim i [ inl e ↦ cc | inr never ↦ absurd never ];
  }

  hold-Calm :
      (s : State) (line : String) (message : List (String × Json)) (name : String)
      → Calm s (hold outside options s line message name)
  unfolding hold
  hold-Calm s line message name = elim (Bool-cases (is_some s.verifying)) [
    | inl asked ↦
        rw asked
          (record { same_changed = refl; same_verified = refl; permitted = λ l m i. absurd i })
    | inr idle ↦ rw idle (moved-Calm s _ _ refl refl (request_list-Calm _ _ _))
  ]

  call_tool-Calm :
      (s : State) (line : String) (message : List (String × Json)) (name : String)
      → IsRead line message
      → called_name message ≡ some name
      → Calm s (call_tool outside options s line message name)
  unfolding call_tool
  call_tool-Calm s line message name read_so named = elim (Bool-cases (visible options s name)) [
    | inr hidden ↦ rw hidden (reply-Calm s _ _ _)
    | inl seen ↦
        rw seen (elim (Bool-cases (is_some options.pinned && not (contains s.verified name))) [
          | inl unchecked ↦ rw unchecked (hold-Calm s line message name)
          | inr checked ↦
              rw checked
                (forward-Calm s line message name read_so named seen (λ pinned. ground arith))
        ])
  ]

  pass_on-Calm :
      (s : State) (line : String) (message : List (String × Json))
      → IsRead line message
      → Calm s (pass_on outside options s line message)
  unfolding pass_on
  pass_on-Calm s line message read_so = elim (Bool-cases (is_method message "tools/call")) [
    | inr other ↦ rw other (record {
      same_changed = refl;
      same_verified = refl;
      permitted = λ l m. only_one (Permits s) line l message m (read_so, λ called. cc);
    })
    | inl call ↦ rw call (elim (Option-cases (called_name message)) [
      | inl unnamed ↦ rw unnamed (reply-Calm s _ _ _)
      | inr (name, named) ↦ rw named (call_tool-Calm s line message name read_so named)
    ])
  ]

  read-Calm :
      (s : State) (line : String) (message : List (String × Json)) (value : Json)
      → outside.parse_checked line ≡ some value
      → record? value ≡ some message
      → Calm s (read outside options s line message)
  unfolding noted
  read-Calm s line message value parsed_so object = elim (Bool-cases (has_duplicate_key line)) [
    | inl repeated ↦ rw repeated (reply-Calm s _ _ _)
    | inr once ↦
        rw once
          (elim (Bool-cases (
            not (is_undefined (own message "method")) && holds_inexact_number (own message "id"))) [
              | inl inexact ↦ rw inexact (reply-Calm s _ _ _)
              | inr exact ↦ rw exact (
                  moved-Calm s (noted outside options s message) _ refl refl
                    (pass_on-Calm _ line message ((value, parsed_so, object), once)))
            ])
  ]

  -- Whatever a client writes, the server is given no call that it may not be given.
  pub client_line-Calm : (s : State) (line : String) → Calm s (client_line outside options s line)
  unfolding client_line
  client_line-Calm s line = elim (Bool-cases (s.stopping || trim line == "")) [
    | inl quiet ↦
        rw quiet
          (record { same_changed = refl; same_verified = refl; permitted = λ l m i. absurd i })
    | inr heard ↦ rw heard (elim (Option-cases (outside.parse_checked line)) [
      | inl unread ↦ rw unread (reply-Calm s _ _ _)
      | inr (value, parsed_so) ↦ rw parsed_so (elim (Option-cases (record? value)) [
        | inl batch ↦ rw (batch, parsed) (reply-Calm s _ _ _)
        | inr (message, object) ↦
            rw (object, parsed) (read-Calm s line message value parsed_so object)
      ])
    ])
  ]
