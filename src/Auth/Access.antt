-- ===== src/Auth/Access.antt =====
-- Which requests requireAuth lets through.
use agent_env.Base.{
  ◌∙◌, subst, sym, Option-cases, ◌≡◌, refl, sym, subst, ◌∙◌, true, false, none, some, [], ◌∷◌, inl,
  inr, ◌⊎◌, arith, Bool-cases, Option-cases,
}
use agent_env.Base.Text.{Text, Text_eq, codes, is_empty}
use agent_env.Base.Table.{Table, lookup}
use agent_env.Auth.{
  Role, admin, user, Request, extract_bearer_token, match_api_key, Outcome, answered, served,
  with_role, require_auth,
}

pub match_api_key_lem :
    (keys : Table Text Role) (token : Text) → match_api_key keys token ≡ lookup token keys
unfolding match_api_key lookup
match_api_key_lem [] token = refl
match_api_key_lem ((key, role) ∷ keys) token = ground (arith, match_api_key_lem keys token)

-- The request has a token, which is a registered key with a role that is enough.
pub record IsServed (hash : Text → Text) (keys : Table Text Role) (min_role : Role) (r : Request)
    (out : Outcome) : Type 0 where
  pub role : Role
  pub has_token : is_empty (extract_bearer_token r) ≡ false
  pub registered : lookup (extract_bearer_token r) keys ≡ some role
  pub enough : min_role ≡ admin → role ≡ admin
  pub context :
      out ≡ served (record { role = some role; key_hash = some (hash (extract_bearer_token r)) })

abbrev pub IsGuarded : (Text → Text) → Table Text Role → Role → Request → Outcome → Type 0
IsGuarded hash keys min_role r out =
    IsServed hash keys min_role r out
    ⊎ (((m : Text) × (out ≡ answered 401 m)
          × ((is_empty (extract_bearer_token r) ≡ true)
              ⊎ (lookup (extract_bearer_token r) keys ≡ none)))
        ⊎ ((m : Text) × (out ≡ answered 403 m)
            × (min_role ≡ admin)
            × (lookup (extract_bearer_token r) keys ≡ some user)))

known :
    (hash : Text → Text) (keys : Table Text Role) (min_role : Role) (r : Request) (role : Role)
    → is_empty (extract_bearer_token r) ≡ false
    → lookup (extract_bearer_token r) keys ≡ some role
    → IsGuarded hash keys min_role r (with_role hash min_role (extract_bearer_token r) role)
unfolding with_role
known hash keys admin r user f e = inr (inr (_, refl, refl, e))
known hash keys admin r admin f e =
    inl (record { role = admin; has_token = f; registered = e; enough = λ x. refl; context = refl })
known hash keys user r role f e =
    inl (record { role = role; has_token = f; registered = e; enough = λ x. cc; context = refl })

module _ (hash : Text → Text) (keys : Table Text Role) (min_role : Role) (r : Request)
    (f : is_empty (extract_bearer_token r) ≡ false) where
  unknown_out :
      lookup (extract_bearer_token r) keys ≡ none
      → require_auth hash keys min_role r ≡ answered 401 (codes "invalid API key")
  unfolding require_auth
  unknown_out e = rw f (rw (match_api_key_lem keys (extract_bearer_token r) ∙ e) refl)

  known_out :
      (role : Role)
      → lookup (extract_bearer_token r) keys ≡ some role
      → require_auth hash keys min_role r ≡ with_role hash min_role (extract_bearer_token r) role
  unfolding require_auth
  known_out role e = rw f (rw (match_api_key_lem keys (extract_bearer_token r) ∙ e) refl)

-- A request reaches the handler exactly if it carries a registered key whose role is enough, and
-- then with that role and the hash of that key. Without a token or with an unknown one it is
-- answered with 401, and with a user's key where an admin's is needed, with 403.
pub require_auth-IsGuarded :
    (hash : Text → Text) (keys : Table Text Role) (min_role : Role) (r : Request)
    → IsGuarded hash keys min_role r (require_auth hash keys min_role r)
unfolding require_auth
require_auth-IsGuarded hash keys min_role r =
    elim (Bool-cases (is_empty (extract_bearer_token r))) [
      | inl t ↦ inr (inl (codes "missing or invalid Authorization header", rw t refl, inl t))
      | inr f ↦ elim (Option-cases (lookup (extract_bearer_token r) keys)) [
        | inl e ↦ inr (inl (codes "invalid API key", unknown_out hash keys min_role r f e, inr e))
        | inr (role, e) ↦
            subst (IsGuarded hash keys min_role r) (sym (known_out hash keys min_role r f role e))
              (known hash keys min_role r role f e)
      ]
    ]
