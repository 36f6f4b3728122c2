-- ===== src/Auth/Printing.antt =====
-- Keys as ParseAPIKeys reads them, written out.
use agent_env.Base.{
  Bool-cases, inl, inr, ==_sym, ◌==◌, sym, subst, map, ◌≡◌, true, false, List, [], ◌∷◌, none, some,
  Option, eqb_iff, ℕ, zero, suc, ◌+◌, ◌-◌, ◌*◌, ◌%◌, ◌≤◌, ◌<◌, ◌≡◌, ◌≢◌, refl, sym, ap, ap₂, subst,
  ◌∙◌, Bool, true, false, not, ◌&&◌, ◌||◌, if◌then◌else◌, Option, none, some, List, [], ◌∷◌, ◌++◌,
  map, ◌==◌, get_or, select, inl, inr, ◌⊎◌, ◌↔◌, length, arith, Bool-cases, Option-cases, In, All,
  All-In, eqb, ltb, leb, is_some, ==_refl,
}
use agent_env.Base.Text.{Text, Text_eq, codes, is_empty, is_space, drop_space, trim_space}
use agent_env.Base.Table.{Table, lookup, insert, IsMap}
use agent_env.Naming.Edges.{All-append, Starts, Ends, Ends-append}
use agent_env.Auth.{
  Role, admin, user, split_at, split, cut, role_of, parse_entry, add_entry, parse_entries,
  parse_api_keys,
}
use mathlib.Core.List.{reverse, reverse_aux, reverse-reverse, append_assoc, append-nil}

abbrev IsInk : ℕ → Type 0
IsInk c = is_space c ≡ false

-- A key that the list can carry: without commas and colons, not empty and without spaces at its ends.
pub record IsKey (key : Text) : Type 0 where
  pub filled : is_empty key ≡ false
  pub first : Starts IsInk key
  pub last : Ends IsInk key
  pub no_comma : All (λ c. eqb c 44 ≡ false) key
  pub no_colon : All (λ c. eqb c 58 ≡ false) key

abbrev pub role_name : Role → Text
role_name admin = codes "admin"
role_name user = codes "user"

abbrev pub print_entry : Text × Role → Text
print_entry (key, role) = key ++ 58 ∷ role_name role

-- The entries with commas between them.
unfoldable pub print_api_keys : Table Text Role → Text
print_api_keys [] = []
print_api_keys (e ∷ []) = print_entry e
print_api_keys (e ∷ f ∷ es) = print_entry e ++ 44 ∷ print_api_keys (f ∷ es)

drop_nothing : (s : Text) → Starts IsInk s → drop_space s ≡ s
unfolding drop_space
drop_nothing [] h = refl
drop_nothing (c ∷ cs) h = rw h refl

Starts-reverse_aux :
    (c : ℕ) (cs ys : Text) → Ends IsInk (c ∷ cs) → Starts IsInk (reverse_aux (c ∷ cs) ys)
Starts-reverse_aux c [] ys h = h
Starts-reverse_aux c (d ∷ ds) ys h = Starts-reverse_aux d ds (c ∷ ys) h

Starts-reverse : (s : Text) → Ends IsInk s → Starts IsInk (reverse s)
Starts-reverse [] h = tt
Starts-reverse (c ∷ cs) h = Starts-reverse_aux c cs [] h

-- Nothing is trimmed where both ends are ink.
trim_nothing : (s : Text) → Starts IsInk s → Ends IsInk s → trim_space s ≡ s
unfolding trim_space
trim_nothing s h k =
    ap (λ t. reverse (drop_space (reverse t))) (drop_nothing s h)
    ∙ ap reverse (drop_nothing (reverse s) (Starts-reverse s k))
    ∙ reverse-reverse s

split_at_first :
    (sep : ℕ) (a b : Text)
    → All (λ c. eqb c sep ≡ false) a
    → split_at sep (a ++ sep ∷ b) ≡ (a, (split_at sep b).0 ∷ (split_at sep b).1)
unfolding split_at
split_at_first sep [] b h = rw ((eqb_iff sep sep).1 refl) refl
split_at_first sep (c ∷ cs) b h = rw h.0 (ap (λ p. (c ∷ p.0, p.1)) (split_at_first sep cs b h.1))

split_at_last : (sep : ℕ) (a : Text) → All (λ c. eqb c sep ≡ false) a → split_at sep a ≡ (a, [])
unfolding split_at
split_at_last sep [] h = refl
split_at_last sep (c ∷ cs) h = rw h.0 (ap (λ p. (c ∷ p.0, p.1)) (split_at_last sep cs h.1))

cut_at_first :
    (sep : ℕ) (a b : Text) → All (λ c. eqb c sep ≡ false) a → cut sep (a ++ sep ∷ b) ≡ some (a, b)
unfolding cut
cut_at_first sep [] b h = rw ((eqb_iff sep sep).1 refl) refl
cut_at_first sep (c ∷ cs) b h = rw h.0 (rw (cut_at_first sep cs b h.1) refl)

name-role : (role : Role) → role_of (trim_space (role_name role)) ≡ role
unfolding role_of trim_space agent_env.Base.Text.text_eq
name-role admin = refl
name-role user = refl

name-Ends : (key : Text) (role : Role) → Ends IsInk (print_entry (key, role))
unfolding is_space
name-Ends key admin = Ends-append IsInk key (codes "admin") 58 refl
name-Ends key user = Ends-append IsInk key (codes "user") 58 refl

name_no_comma : (role : Role) → All (λ c. eqb c 44 ≡ false) (58 ∷ role_name role)
name_no_comma admin = (refl, (refl, (refl, (refl, (refl, (refl, tt))))))
name_no_comma user = (refl, (refl, (refl, (refl, (refl, tt)))))

parse_entry-print :
    (key : Text) (role : Role)
    → IsKey key
    → parse_entry (print_entry (key, role)) ≡ some (key, role)
unfolding parse_entry
parse_entry-print key role h =
    rw (cut_at_first 58 key (role_name role) h.no_colon, parse_entry)
      (rw (trim_nothing key h.first h.last) (rw (h.filled, name-role role) refl))

entry-Starts :
    (key tail : Text) → is_empty key ≡ false → Starts IsInk key → Starts IsInk (key ++ tail)
entry-Starts [] tail f h = absurd (cc f)
entry-Starts (c ∷ cs) tail f h = h

entry_filled : (key tail : Text) → is_empty key ≡ false → is_empty (key ++ tail) ≡ false
entry_filled [] tail f = absurd (cc f)
entry_filled (c ∷ cs) tail f = refl

parse_entries-print :
    (key : Text) (role : Role) (rest : List Text) (keys : Table Text Role)
    → IsKey key
    → parse_entries (print_entry (key, role) ∷ rest) keys
      ≡ parse_entries rest (insert key role keys)
unfolding parse_entries add_entry
parse_entries-print key role rest keys h =
    rw
      (trim_nothing (print_entry (key, role))
        (entry-Starts key (58 ∷ role_name role) h.filled h.first) (name-Ends key role))
      (rw (entry_filled key (58 ∷ role_name role) h.filled, parse_entry-print key role h) refl)

abbrev pub AllKeys : Table Text Role → Type 0
AllKeys [] = Unit {0}
AllKeys ((key, role) ∷ keys) = IsKey key × AllKeys keys

insert-append :
    (key : Text) (role : Role) (keys : Table Text Role)
    → lookup key keys ≡ none
    → insert key role keys ≡ keys ++ (key, role) ∷ []
unfolding insert lookup
insert-append key role [] h = refl
insert-append key role ((k, r) ∷ keys) h = elim (Bool-cases (k == key)) [
  | inl t ↦ absurd (cc (rw t at h))
  | inr f ↦ rw f (ap (λ t. (k, r) ∷ t) (insert-append key role keys (rw f at h)))
]

other_key :
    (k key : Text) (role : Role) (keys rest : Table Text Role)
    → lookup k (keys ++ (key, role) ∷ rest) ≡ none
    → (key == k) ≡ false
unfolding lookup
other_key k key role [] rest h = elim (Bool-cases (key == k)) [
  | inl t ↦ absurd (cc (rw t at h))
  | inr f ↦ f
]
other_key k key role ((j, r) ∷ keys) rest h = elim (Bool-cases (j == k)) [
  | inl t ↦ absurd (cc (rw t at h))
  | inr f ↦ other_key k key role keys rest (rw f at h)
]

new_key :
    (keys : Table Text Role) (key : Text) (role : Role) (rest : Table Text Role)
    → IsMap (keys ++ (key, role) ∷ rest)
    → lookup key keys ≡ none
unfolding lookup
new_key [] key role rest m = refl
new_key ((k, r) ∷ keys) key role rest m =
    rw (==_sym k key ∙ other_key k key role keys rest m.0) (new_key keys key role rest m.1)

parse_entries_print :
    (printed keys : Table Text Role)
    → AllKeys printed
    → IsMap (keys ++ printed)
    → parse_entries (map print_entry printed) keys ≡ keys ++ printed
unfolding parse_entries
parse_entries_print [] keys h m = sym (append-nil keys)
parse_entries_print ((key, role) ∷ rest) keys h m =
    let e = append_assoc keys ((key, role) ∷ []) rest in
    parse_entries-print key role (map print_entry rest) keys h.0
    ∙ ap (parse_entries (map print_entry rest))
        (insert-append key role keys (new_key keys key role rest m))
    ∙ parse_entries_print rest (keys ++ (key, role) ∷ []) h.1 (subst IsMap (sym e) m)
    ∙ e

entry_no_comma :
    (key : Text) (role : Role) → IsKey key → All (λ c. eqb c 44 ≡ false) (print_entry (key, role))
entry_no_comma key role h =
    All-append (λ c. eqb c 44 ≡ false) key (58 ∷ role_name role) h.no_comma (name_no_comma role)

split_print :
    (e : Text × Role) (es : Table Text Role)
    → AllKeys (e ∷ es)
    → split 44 (print_api_keys (e ∷ es)) ≡ map print_entry (e ∷ es)
unfolding split print_api_keys
split_print (key, role) [] h =
    ap (λ p. p.0 ∷ p.1) (split_at_last 44 (print_entry (key, role)) (entry_no_comma key role h.0))
split_print (key, role) (f ∷ es) h =
    ap (λ p. p.0 ∷ p.1)
      (split_at_first 44 (print_entry (key, role)) (print_api_keys (f ∷ es))
        (entry_no_comma key role h.0))
    ∙ ap (λ t. print_entry (key, role) ∷ t) (split_print f es h.1)

print_filled :
    (e : Text × Role) (es : Table Text Role)
    → AllKeys (e ∷ es)
    → is_empty (print_api_keys (e ∷ es)) ≡ false
unfolding print_api_keys
print_filled (key, role) [] h = entry_filled key (58 ∷ role_name role) h.0.filled
print_filled (key, role) (f ∷ es) h =
    entry_filled (print_entry (key, role)) (44 ∷ print_api_keys (f ∷ es))
      (entry_filled key (58 ∷ role_name role) h.0.filled)

-- Keys that are written out as `key:role`, with commas between them, are read back as they are, in
-- their order; the keys are distinct, not empty, without commas and colons and without spaces at
-- their ends.
pub parse_api_keys-print_api_keys :
    (keys : Table Text Role)
    → IsMap keys
    → AllKeys keys
    → parse_api_keys (print_api_keys keys) ≡ keys
unfolding parse_api_keys print_api_keys
parse_api_keys-print_api_keys [] m h = refl
parse_api_keys-print_api_keys (e ∷ es) m h =
    rw (print_filled e es h)
      (ap (λ t. parse_entries t []) (split_print e es h) ∙ parse_entries_print (e ∷ es) [] h m)
