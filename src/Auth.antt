-- ===== src/Auth.antt =====
-- API keys, roles and the ownership of sessions: pkg/gateway/auth.go. SHA-256 with its hex text is
-- an argument. A header is a text of bytes, or of runes where it is valid UTF-8; the words that it
-- is compared with are in ASCII. Comparisons in constant time are equality here.
pub mod Access
pub mod Ownership
pub mod Printing
pub mod Reloading
mod Tests
use agent_env.Base.{
  ℕ, zero, suc, ◌+◌, ◌-◌, ◌*◌, ◌%◌, ◌≤◌, ◌<◌, ◌≡◌, ◌≢◌, refl, sym, ap, ap₂, subst, ◌∙◌, Bool, true,
  false, not, ◌&&◌, ◌||◌, if◌then◌else◌, Option, none, some, List, [], ◌∷◌, ◌++◌, map, ◌==◌, get_or,
  select, inl, inr, ◌⊎◌, ◌↔◌, length, arith, Bool-cases, Option-cases, In, All, All-In, eqb, ltb,
  leb, is_some,
}
use agent_env.Base.Text.{Text, Text_eq, codes, is_empty, trim_space}
use agent_env.Base.Table.{Table, insert}

pub data Role : Type 0 where
  admin user : Role

abbrev pub is_admin : Role → Bool
is_admin admin = true
is_admin user = false

-- The parts of a request that carry a token: two headers, and a parameter of the query.
pub record Request : Type 0 where
  pub authorization : Text
  pub upgrade : Text
  pub query_token : Text

-- `strings.EqualFold` with a word of lower letters in ASCII: besides the capitals, the long s folds
-- to s and the Kelvin sign to k.
unfoldable pub fold_rune : ℕ → ℕ
fold_rune c =
    if leb 65 c && leb c 90
    then c + 32
    else if eqb c 0x17f
    then 0x73
    else if eqb c 0x212a
    then 0x6b
    else c

unfoldable pub equal_fold : Text → Text → Bool
unfolding fold_rune
equal_fold s word = map fold_rune s == word

-- The rest of a text after a prefix that it has but for case.
unfoldable pub after_prefix : Text → Text → Option Text
unfolding fold_rune
after_prefix [] s = some s
after_prefix (p ∷ ps) [] = none
after_prefix (p ∷ ps) (c ∷ cs) =
    let rest = after_prefix ps cs in if eqb (fold_rune c) p then rest else none

unfoldable pub extract_bearer_token : Request → Text
unfolding after_prefix equal_fold
extract_bearer_token r =
    let of_query = if not (equal_fold r.upgrade (codes "websocket")) then [] else r.query_token in
    elim (after_prefix (codes "bearer ") r.authorization) [ some token ↦ token | none ↦ of_query ]

-- The keys in the order in which the range over the map takes them.
unfoldable pub match_api_key : Table Text Role → Text → Option Role
match_api_key [] token = none
match_api_key ((key, role) ∷ keys) token =
    let rest = match_api_key keys token in if key == token then some role else rest

-- The context of a request: what requireAuth has put there.
pub record Context : Type 0 where
  pub role : Option Role
  pub key_hash : Option Text

abbrev pub background : Context
background = record { role = none; key_hash = none }

-- An answer with an error's status, or the next handler with its context.
pub data Outcome : Type 0 where
  answered : ℕ → Text → Outcome
  served : Context → Outcome

unfoldable pub with_role : (Text → Text) → Role → Text → Role → Outcome
with_role hash min_role token role =
    if is_admin min_role && not (is_admin role)
    then answered 403 (codes "admin access required")
    else served (record { role = some role; key_hash = some (hash token) })

unfoldable pub require_auth : (Text → Text) → Table Text Role → Role → Request → Outcome
unfolding extract_bearer_token match_api_key with_role
require_auth hash keys min_role r =
    let token = extract_bearer_token r in
    let known : Outcome = elim (match_api_key keys token) [
      | none ↦ answered 401 (codes "invalid API key")
      | some role ↦ with_role hash min_role token role
    ] in
    if is_empty token then answered 401 (codes "missing or invalid Authorization header") else known

pub data AccessError : Type 0 where
  no_owner other_owner : AccessError

unfoldable pub check_session_ownership : Context → Text → Option AccessError
check_session_ownership ctx owner = elim (ctx.key_hash) [
  | none ↦ none
  | some caller ↦
      let administers : Bool = elim (ctx.role) [ none ↦ false | some role ↦ is_admin role ] in
      if is_empty owner
      then some no_owner
      else if administers
      then none
      else if not (caller == owner)
      then some other_owner
      else none
]

-- `strings.Split` by one rune: a text without it is one part.
unfoldable pub split_at : ℕ → Text → Text × List Text
split_at sep [] = ([], [])
split_at sep (c ∷ cs) =
    let (first, rest) = split_at sep cs in
    if eqb c sep then ([], first ∷ rest) else (c ∷ first, rest)

unfoldable pub split : ℕ → Text → List Text
unfolding split_at
split sep s = (split_at sep s).0 ∷ (split_at sep s).1

-- `strings.SplitN(s, sep, 2)`, if it has two parts.
unfoldable pub cut : ℕ → Text → Option (Text × Text)
cut sep [] = none
cut sep (c ∷ cs) =
    let rest = cut sep cs in
    if eqb c sep then some ([], cs) else elim rest [ none ↦ none | some (a, b) ↦ some (c ∷ a, b) ]

unfoldable pub role_of : Text → Role
role_of s = if s == codes "admin" then admin else user

-- `key:role`; a key without a role is skipped, one with an unknown role is a user's.
unfoldable pub parse_entry : Text → Option (Text × Role)
unfolding cut role_of
parse_entry entry = elim (cut 58 entry) [
  | none ↦ none
  | some (a, b) ↦
      let key = trim_space a in if is_empty key then none else some (key, role_of (trim_space b))
]

unfoldable pub add_entry : Option (Text × Role) → Table Text Role → Table Text Role
add_entry none keys = keys
add_entry (some (key, role)) keys = insert key role keys

unfoldable pub parse_entries : List Text → Table Text Role → Table Text Role
unfolding parse_entry add_entry
parse_entries [] keys = keys
parse_entries (raw ∷ rest) keys =
    let entry = trim_space raw in
    parse_entries rest (if is_empty entry then keys else add_entry (parse_entry entry) keys)

unfoldable pub parse_api_keys : Text → Table Text Role
unfolding split parse_entries
parse_api_keys raw = if is_empty raw then [] else parse_entries (split 44 raw) []

unfoldable pub is_comment : Text → Bool
is_comment [] = false
is_comment (c ∷ cs) = eqb c 35

unfoldable pub parse_lines : List Text → Table Text Role → Table Text Role
unfolding parse_entry add_entry is_comment
parse_lines [] keys = keys
parse_lines (raw ∷ rest) keys =
    let line = trim_space raw in
    parse_lines rest
      (if is_empty line || is_comment line then keys else add_entry (parse_entry line) keys)

-- ParseAPIKeysFile, of what ReadFile answers.
unfoldable pub parse_api_keys_file : Option Text → Option (Table Text Role)
unfolding split parse_lines
parse_api_keys_file none = none
parse_api_keys_file (some contents) = some (parse_lines (split 10 contents) [])

-- The keys in use, and the time of the file that they were read from.
pub record KeyState : Type 0 where
  pub keys : Table Text Role
  pub last_mod : ℕ

-- What a tick of the watcher finds: the time of the file, and its contents, where each can be read.
pub record KeyFile : Type 0 where
  pub mod_time : Option ℕ
  pub contents : Option Text

unfoldable pub take_keys : ℕ → Option (Table Text Role) → KeyState → KeyState
take_keys time none s = s
take_keys time (some []) s = s
take_keys time (some (k ∷ ks)) s = record { keys = k ∷ ks; last_mod = time }

-- One tick of StartKeyFileWatcher's loop.
unfoldable pub reload_keys : KeyFile → KeyState → KeyState
unfolding take_keys parse_api_keys_file
reload_keys f s = elim (f.mod_time) [
  | none ↦ s
  | some time ↦
      if not (ltb s.last_mod time) then s else take_keys time (parse_api_keys_file f.contents) s
]
