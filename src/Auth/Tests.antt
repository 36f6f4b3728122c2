-- ===== src/Auth/Tests.antt =====
-- Two keys, and requests with them.
use agent_env.Base.{◌≡◌, refl, none, some, List, [], ◌∷◌, ◌++◌, ◌⊎◌, ◌↔◌, arith}
use agent_env.Base.Text.{Text, Text_eq, codes, is_space, text_eq}
use agent_env.Base.Table.{Table, lookup, IsMap}
use agent_env.Auth.{
  Role, admin, user, Request, extract_bearer_token, Context, served, require_auth,
  check_session_ownership, KeyState, KeyFile, parse_api_keys,
}
use agent_env.Auth.Access.{IsGuarded, require_auth-IsGuarded}
use agent_env.Auth.Ownership.{IsHashOfKeys, owner_of, check_session_ownership_lem}
use agent_env.Auth.Reloading.{IsCurrent, reload_all, reload_all-IsCurrent}
use agent_env.Auth.Printing.{AllKeys, print_api_keys, parse_api_keys-print_api_keys}

abbrev keys : Table Text Role
keys = (codes "k1", admin) ∷ (codes "k2", user) ∷ []

abbrev with_key : Text → Request
with_key key = record { authorization = codes "bearer " ++ key; upgrade = []; query_token = [] }

abbrev hash : Text → Text
hash t = 104 ∷ t

hash-IsHashOfKeys : IsHashOfKeys hash
hash-IsHashOfKeys = record { filled = λ t. refl; apart = λ s t e. ground (arith, e) }

require_auth-IsGuarded_example :
    IsGuarded hash keys admin
      (with_key (codes "k2"))
      (require_auth hash keys admin (with_key (codes "k2")))
require_auth-IsGuarded_example = require_auth-IsGuarded hash keys admin (with_key (codes "k2"))

abbrev context : Role → Text → Context
context role key = record { role = some role; key_hash = some (hash key) }

served_user :
    require_auth hash keys user (with_key (codes "k2")) ≡ served (context user (codes "k2"))
unfolding require_auth text_eq
served_user = refl

served_admin :
    require_auth hash keys user (with_key (codes "k1")) ≡ served (context admin (codes "k1"))
unfolding require_auth text_eq
served_admin = refl

check_session_ownership_lem_example :
    (check_session_ownership (context admin (codes "k1")) (owner_of (context user (codes "k2")))
      ≡ none)
    ↔ ((some admin ≡ some admin)
        ⊎ (extract_bearer_token (with_key (codes "k2"))
            ≡ extract_bearer_token (with_key (codes "k1"))))
check_session_ownership_lem_example =
    check_session_ownership_lem hash keys keys user user (with_key (codes "k2"))
      (with_key (codes "k1")) (context user (codes "k2")) (context admin (codes "k1"))
      hash-IsHashOfKeys served_user served_admin

abbrev start : KeyState
start = record { keys = keys; last_mod = 0 }

abbrev files : List KeyFile
files =
    record { mod_time = some 5; contents = some [] }
    ∷ record { mod_time = some 7; contents = some (codes "k3:admin") }
    ∷ []

reload_all-IsCurrent_example : IsCurrent start files (reload_all files start)
reload_all-IsCurrent_example = reload_all-IsCurrent files start

keys-IsMap : IsMap keys
unfolding lookup text_eq
keys-IsMap = (refl, (refl, tt))

keys-AllKeys : AllKeys keys
unfolding is_space
keys-AllKeys = (
  record {
    filled = refl;
    first = refl;
    last = refl;
    no_comma = (refl, (refl, tt));
    no_colon = (refl, (refl, tt));
  },
  (
    record {
      filled = refl;
      first = refl;
      last = refl;
      no_comma = (refl, (refl, tt));
      no_colon = (refl, (refl, tt));
    },
    tt,
  ),
)

parse_api_keys-print_api_keys_example : parse_api_keys (print_api_keys keys) ≡ keys
parse_api_keys-print_api_keys_example = parse_api_keys-print_api_keys keys keys-IsMap keys-AllKeys
