-- ===== src/Auth/Reloading.antt =====
-- The keys over the ticks of the watcher.
use agent_env.Base.{
  some, sym, ap, ◌∙◌, ℕ, ◌≤◌, ◌<◌, ◌≡◌, refl, sym, ap, subst, ◌∙◌, not, if◌then◌else◌, Option, none,
  some, List, [], ◌∷◌, inl, inr, ◌⊎◌, length, arith, Bool-cases, In, ltb, ltb→lt,
}
use agent_env.Base.Text.{Text}
use agent_env.Base.Table.{Table}
use agent_env.Auth.{Role, KeyState, KeyFile, take_keys, reload_keys, parse_api_keys_file}

unfoldable pub reload_all : List KeyFile → KeyState → KeyState
unfolding reload_keys
reload_all [] s = s
reload_all (f ∷ fs) s = reload_all fs (reload_keys f s)

-- The keys are the ones from the start, or those that some file held; some are left; and the time of
-- the file that was read last does not go back.
pub record IsCurrent (start : KeyState) (files : List KeyFile) (s : KeyState) : Type 0 where
  pub origin :
      (s ≡ start)
      ⊎ ((f : KeyFile) × In f files
          × (parse_api_keys_file f.contents ≡ some s.keys)
          × (f.mod_time ≡ some s.last_mod))
  pub some_left : 0 < length start.keys → 0 < length s.keys
  pub newer : start.last_mod ≤ s.last_mod

abbrev IsTick : KeyFile → KeyState → KeyState → Type 0
IsTick f s t =
    (t ≡ s)
    ⊎ ((parse_api_keys_file f.contents ≡ some t.keys)
        × (0 < length t.keys)
        × (f.mod_time ≡ some t.last_mod)
        × (s.last_mod < t.last_mod))

taken :
    (f : KeyFile) (time : ℕ) (parsed : Option (Table Text Role)) (s : KeyState)
    → parse_api_keys_file f.contents ≡ parsed
    → f.mod_time ≡ some time
    → s.last_mod < time
    → IsTick f s (take_keys time parsed s)
unfolding take_keys
taken f time none s e m h = inl refl
taken f time (some []) s e m h = inl refl
taken f time (some (k ∷ ks)) s e m h = inr (e, omega arith, m, h)

timed :
    (f : KeyFile) (s : KeyState) (time : Option ℕ)
    → f.mod_time ≡ time
    → IsTick f s (elim time as (λ x. KeyState) [
      | none ↦ s
      | some t ↦
          if not (ltb s.last_mod t) then s else take_keys t (parse_api_keys_file f.contents) s
    ])
timed f s none e = inl refl
timed f s (some t) e = elim (Bool-cases (ltb s.last_mod t)) [
  | inl l ↦ rw l (taken f t (parse_api_keys_file f.contents) s refl e (ltb→lt s.last_mod t l))
  | inr g ↦ rw g (inl refl)
]

tick : (f : KeyFile) (s : KeyState) → IsTick f s (reload_keys f s)
unfolding reload_keys
tick f s = timed f s f.mod_time refl

-- The state before a tick, as it stands among more files.
later :
    (f : KeyFile) (fs : List KeyFile) (start s t : KeyState)
    → IsTick f start s
    → IsCurrent s fs t
    → IsCurrent start (f ∷ fs) t
later f fs start s t (inl e) c = record {
  origin = elim (c.origin) [ inl k ↦ inl (k ∙ e) | inr (g, i, p, m) ↦ inr (g, inr i, p, m) ];
  some_left = λ h. c.some_left (subst (λ x. 0 < length x.keys) (sym e) h);
  newer = omega (arith, c.newer, ap (λ x. x.last_mod) e);
}
later f fs start s t (inr (p, l, m, h)) c = record {
  origin = elim (c.origin) [
    | inl k ↦
        inr (f, inl refl, p ∙ ap (λ x. some x.keys) (sym k), m ∙ ap (λ x. some x.last_mod) (sym k))
    | inr (g, i, q, n) ↦ inr (g, inr i, q, n)
  ];
  some_left = λ x. c.some_left l;
  newer = omega (arith, c.newer, h);
}

-- Through any ticks of the watcher, whatever can be read, the keys in use are the first ones or all
-- those of some file that was read, there are some if there were some at first, and the time of the
-- last file does not go back.
pub reload_all-IsCurrent :
    (files : List KeyFile) (s : KeyState) → IsCurrent s files (reload_all files s)
unfolding reload_all
reload_all-IsCurrent [] s = record { origin = inl refl; some_left = λ h. h; newer = omega arith }
reload_all-IsCurrent (f ∷ fs) s =
    later f fs s (reload_keys f s) (reload_all fs (reload_keys f s)) (tick f s)
      (reload_all-IsCurrent fs (reload_keys f s))
