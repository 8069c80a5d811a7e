-- ===== src/Wrap/Client/Waiting.antt =====
-- The calls that are held stay calls as they were read.
use mcp_authz.Base.{
  true, not, ◌&&◌, ◌||◌, String, ◌≡◌, refl, sym, subst, ◌∙◌, List, [], ◌∷◌, Option, some, inl, inr,
  All, All-append, Bool-cases, Option-cases, contains, is_some, ◌==◌,
}
use mcp_authz.Json.{Json, record?, own}
use mcp_authz.StrictJson.{has_duplicate_key, holds_inexact_number}
use mcp_authz.Scopes.{trim}
use mcp_authz.Screen.{truthy}
use mcp_authz.Wrap.{Options, Outside, Held, State, visible, is_undefined}
use mcp_authz.Wrap.Client.{
  is_method, called_name, request_list, wrong_arguments, forward, is_cleared, release_one,
  release_all, release, noted, hold, call_tool, pass_on, read, parsed, client_line,
}
use mcp_authz.Wrap.Client.Calm.{IsRead, IsCall}

module _ (outside : Outside) (options : Options) where
  abbrev pub Waits : State → Type 0
  Waits s = All (IsCall outside options) s.held

  pub held-request_list :
      (s : State) (meta cursor : Json) → (request_list s meta cursor).0.held ≡ s.held
  unfolding request_list
  held-request_list s meta cursor = refl

  held-forward :
      (s : State) (line : String) (message : List (String × Json)) (name : String)
      → (forward outside options s line message name).0.held ≡ s.held
  unfolding forward
  held-forward s line message name =
      elim (Bool-cases (truthy (wrong_arguments outside options name message))) [
        | inl wrong ↦ rw wrong
        | inr right ↦ rw right
      ]

  held-release_one :
      (s : State) (failure : Option String) (call : Held)
      → (release_one outside options s failure call).0.held ≡ s.held
  unfolding release_one
  held-release_one s failure call =
      elim (Bool-cases (is_cleared outside options s failure call.name)) [
        | inl clear ↦ rw clear (held-forward s call.line call.message call.name)
        | inr kept ↦ rw kept
      ]

  held-release_all :
      (s : State) (failure : Option String) (calls : List Held)
      → (release_all outside options s failure calls).0.held ≡ s.held
  unfolding release_all
  held-release_all s failure [] = refl
  held-release_all s failure (call ∷ calls) =
      held-release_all (release_one outside options s failure call).0 failure calls
      ∙ held-release_one s failure call

  -- Nothing waits after a release.
  pub held-release :
      (s : State) (failure : Option String) → (release outside options s failure).0.held ≡ []
  unfolding release
  held-release s failure = held-release_all _ failure s.held

  hold-Waits :
      (s : State) (line : String) (message : List (String × Json)) (name : String)
      → IsRead outside options line message
      → is_method message "tools/call" ≡ true
      → called_name message ≡ some name
      → Waits s
      → Waits (hold outside options s line message name).0
  unfolding hold request_list
  hold-Waits s line message name read_so call named all =
      let more = All-append (IsCall outside options) s.held _ all ((read_so, call, named), tt) in
      elim (Bool-cases (is_some s.verifying)) [
        | inl asked ↦ rw asked more
        | inr idle ↦ rw idle more
      ]

  call_tool-Waits :
      (s : State) (line : String) (message : List (String × Json)) (name : String)
      → IsRead outside options line message
      → is_method message "tools/call" ≡ true
      → called_name message ≡ some name
      → Waits s
      → Waits (call_tool outside options s line message name).0
  unfolding call_tool
  call_tool-Waits s line message name read_so call named all =
      elim (Bool-cases (visible options s name)) [
        | inr hidden ↦ rw hidden all
        | inl seen ↦
            rw seen (elim (Bool-cases (is_some options.pinned && not (contains s.verified name))) [
              | inl unchecked ↦ rw unchecked (hold-Waits s line message name read_so call named all)
              | inr checked ↦ rw checked (
                  subst (λ h. All (IsCall outside options) h)
                    (sym (held-forward s line message name)) all)
            ])
      ]

  pass_on-Waits :
      (s : State) (line : String) (message : List (String × Json))
      → IsRead outside options line message
      → Waits s
      → Waits (pass_on outside options s line message).0
  unfolding pass_on
  pass_on-Waits s line message read_so all = elim (Bool-cases (is_method message "tools/call")) [
    | inr other ↦ rw other all
    | inl call ↦ rw call (elim (Option-cases (called_name message)) [
      | inl unnamed ↦ rw unnamed all
      | inr (name, named) ↦ rw named (call_tool-Waits s line message name read_so call named all)
    ])
  ]

  read-Waits :
      (s : State) (line : String) (message : List (String × Json)) (value : Json)
      → outside.parse_checked line ≡ some value
      → record? value ≡ some message
      → Waits s
      → Waits (read outside options s line message).0
  unfolding noted
  read-Waits s line message value parsed_so object all =
      elim (Bool-cases (has_duplicate_key line)) [
        | inl repeated ↦ rw repeated all
        | inr once ↦
            rw once
              (elim (Bool-cases (
                not (is_undefined (own message "method"))
                && holds_inexact_number (own message "id"))) [
                  | inl inexact ↦ rw inexact all
                  | inr exact ↦ rw exact (
                      pass_on-Waits (noted outside options s message) line message
                        ((value, parsed_so, object), once) all)
                ])
      ]

  pub client_line-Waits :
      (s : State) (line : String) → Waits s → Waits (client_line outside options s line).0
  unfolding client_line
  client_line-Waits s line all = elim (Bool-cases (s.stopping || trim line == "")) [
    | inl quiet ↦ rw quiet all
    | inr heard ↦ rw heard (elim (Option-cases (outside.parse_checked line)) [
      | inl unread ↦ rw unread all
      | inr (value, parsed_so) ↦ rw parsed_so (elim (Option-cases (record? value)) [
        | inl batch ↦ rw (batch, parsed) all
        | inr (message, object) ↦
            rw (object, parsed) (read-Waits s line message value parsed_so object all)
      ])
    ])
  ]
