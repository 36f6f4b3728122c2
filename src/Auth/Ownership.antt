-- ===== src/Auth/Ownership.antt =====
-- Who may use a session that a request has created.
use agent_env.Base.{
  subst, sym, ap, Bool-cases, ◌==◌, ◌≡◌, refl, sym, ap, subst, ◌∙◌, false, none, some, [], ◌==◌,
  get_or, inl, inr, ◌⊎◌, ◌↔◌, Bool-cases,
}
use agent_env.Base.Text.{Text, Text_eq, is_empty}
use agent_env.Base.Table.{Table}
use agent_env.Auth.{
  Role, admin, user, Request, extract_bearer_token, Context, Outcome, answered, served,
  require_auth, check_session_ownership,
}
use agent_env.Auth.Access.{require_auth-IsGuarded}

-- The hash of the key that a context carries, which becomes the owner of a session.
abbrev pub owner_of : Context → Text
owner_of ctx = get_or ctx.key_hash []

-- A hash that is never empty and tells the keys apart.
pub record IsHashOfKeys (hash : Text → Text) : Type 0 where
  pub filled : (t : Text) → is_empty (hash t) ≡ false
  pub apart : (s t : Text) → hash s ≡ hash t → s ≡ t

context_of : Outcome → Context → Context
context_of (served ctx) d = ctx
context_of (answered status m) d = d

served_context :
    (hash : Text → Text) (keys : Table Text Role) (min_role : Role) (r : Request) (ctx : Context)
    → require_auth hash keys min_role r ≡ served ctx
    → (role : Role) × (ctx
        ≡ record { role = some role; key_hash = some (hash (extract_bearer_token r)) })
unfolding context_of
served_context hash keys min_role r ctx e = elim (require_auth-IsGuarded hash keys min_role r) [
  | inl s ↦ (s.role, ap (λ o. context_of o ctx) (sym e ∙ s.context))
  | inr (inl (m, f, g)) ↦ absurd (cc (e, f))
  | inr (inr (m, f, g, k)) ↦ absurd (cc (e, f))
]

abbrev of_role : (Text → Text) → Role → Text → Context
of_role hash role token = record { role = some role; key_hash = some (hash token) }

compared :
    (hash : Text → Text) (role : Role) (s t : Text)
    → IsHashOfKeys hash
    → (check_session_ownership (of_role hash role t) (hash s) ≡ none)
      ↔ ((some role ≡ some admin) ⊎ (s ≡ t))
unfolding check_session_ownership
compared hash admin s t h = rw (h.filled s) ((λ e. inl refl), (λ e. refl))
compared hash user s t h = rw (h.filled s) (
  (λ e. elim (Bool-cases (hash t == hash s)) [
    | inl q ↦ inr (sym (h.apart t s ((Text_eq.equals_iff (hash t) (hash s)).0 q)))
    | inr f ↦ absurd (cc (rw f at e))
  ]),
  (λ p. elim p [
    | inl x ↦ absurd (cc x)
    | inr e ↦ rw ((Text_eq.equals_iff (hash t) (hash s)).1 (ap hash (sym e))) refl
  ]),
)

-- Of the requests that are let through, whatever the keys and the roles that they needed, exactly
-- an admin's and those with the key that created a session may use it; the hash tells keys apart.
pub check_session_ownership_lem :
    (hash : Text → Text) (keys keys' : Table Text Role) (min_role min_role' : Role) (r r' : Request)
    (ctx ctx' : Context)
    → IsHashOfKeys hash
    → require_auth hash keys min_role r ≡ served ctx
    → require_auth hash keys' min_role' r' ≡ served ctx'
    → (check_session_ownership ctx' (owner_of ctx) ≡ none)
      ↔ ((ctx'.role ≡ some admin) ⊎ (extract_bearer_token r ≡ extract_bearer_token r'))
check_session_ownership_lem hash keys keys' min_role min_role' r r' ctx ctx' h e e' =
    let (role, c) = served_context hash keys min_role r ctx e in
    let (role', c') = served_context hash keys' min_role' r' ctx' e' in
    let s = extract_bearer_token r in
    let t = extract_bearer_token r' in
    subst
      (λ z. (check_session_ownership z (owner_of ctx) ≡ none) ↔ ((z.role ≡ some admin) ⊎ (s ≡ t)))
      (sym c')
      (subst
        (λ y.
          (check_session_ownership (of_role hash role' t) (owner_of y) ≡ none)
          ↔ ((some role' ≡ some admin) ⊎ (s ≡ t)))
        (sym c) (compared hash role' s t h))
