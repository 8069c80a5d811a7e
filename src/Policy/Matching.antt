-- ===== src/Policy/Matching.antt =====
-- policy.ts: whether a rule's `match` holds of an identity. `lower` stands for `toLowerCase`, whose
-- table of letters is the platform's.
pub mod Meaning
pub mod Domain
use Prim.Native.Char.{Char, code}
use Prim.Native.String
use mcp_authz.Base.{
  ℕ, Bool, true, false, not, ◌&&◌, ◌||◌, String, List, [], ◌∷◌, Option, none, some, nat_eq,
  or_option, if◌then◌else◌, contains, all, any, ◌==◌,
}
use mcp_authz.Json.{Json, undefined, str, arr, obj, Fields, entries, items}
use mcp_authz.Json.Access.{is_object, member, has_member}
use mcp_authz.Policy.{Identity, Match}

-- `text.split(c)`
push : Char → List String → List String
push c [] = (String.◌∷◌ c "") ∷ []
push c (part ∷ parts) = String.◌∷◌ c part ∷ parts

pub split_on : ℕ → String → List String
unfolding push
split_on k String.[] = "" ∷ []
split_on k (String.◌∷◌ c s) =
    let rest = split_on k s in if nat_eq (code c) k then "" ∷ rest else push c rest

-- What follows the last `c`, if there is one: `text.slice(text.lastIndexOf(c) + 1)`.
pub after_last : ℕ → String → Option String
after_last k String.[] = none
after_last k (String.◌∷◌ c s) =
    or_option (after_last k s) (if nat_eq (code c) k then some s else none)

-- The loop of `claimAt` over the parts of a dotted path.
walk : Json → List String → Json
unfolding member
walk value [] = value
walk value (key ∷ path) =
    let rest = walk (member value key) path in if is_object value then rest else undefined

pub claim_at : Fields → String → Json
unfolding walk split_on has_member member
claim_at claims path =
    if has_member (entries claims) path
    then member (obj claims) path
    else walk (obj claims) (split_on b'.' path)

abbrev pub is_string : String → Json → Bool
is_string expected (str s) = s == expected
is_string expected _ = false

-- A scalar claim must equal the value; an array claim must contain it.
pub claim_is : String → Json → Bool
unfolding any
claim_is expected (arr vs) = any (is_string expected) (items vs)
claim_is expected actual = is_string expected actual

pub claim_holds : Fields → String × String → Bool
unfolding claim_at claim_is
claim_holds claims (path, expected) = claim_is expected (claim_at claims path)

-- `field === undefined || test(field)`
unfoldable pub holds_if_set : Option String → (String → Bool) → Bool
holds_if_set none test = true
holds_if_set (some s) test = test s

-- `!text` of an optional string
abbrev pub is_blank : Option String → Bool
is_blank none = true
is_blank (some s) = s == ""

-- The `hd` claim when there is one, otherwise whatever follows the last `@` of the email.
unfoldable pub domain_of : Identity → Option String
unfolding after_last
domain_of identity =
    if not identity.email_verified || is_blank identity.email
    then none
    else if is_blank identity.domain
    then elim identity.email [ none ↦ none | some email ↦ after_last b'@' email ]
    else identity.domain

module _ (lower : String → String) where
  unfoldable pub equals_fold : String → Option String → Bool
  equals_fold a none = false
  equals_fold a (some b) = lower a == lower b

  unfoldable pub matches : Match → Identity → Bool
  matches m identity =
      holds_if_set m.issuer (λ s. s == identity.issuer)
      && holds_if_set m.sub (λ s. s == identity.sub)
      && holds_if_set m.email (λ s. identity.email_verified && equals_fold s identity.email)
      && holds_if_set m.domain (λ s. equals_fold s (domain_of identity))
      && all (claim_holds identity.claims) m.claim
