-- ===== src/Naming/Suffixes.antt =====
-- The names of a pool's other objects, and of sessions.
use agent_env.Naming.{
  trim_dash, cut_slug, is_label_rune, managed_pool_image_slug, session_name, or_sandbox,
  dns_label_with_suffix,
}
use agent_env.Naming.Edges.{Ends, IsNotDash, All-append, All-take, Ends-append, nonempty-trim_dash}
use agent_env.Naming.Labels.{
  IsLabelRune, IsDnsLabel, IsPart, IsHash, joined-IsDnsLabel, cut_slug-IsPart,
  managed_pool_image_slug-IsPart, Starts-append, trimmed-IsPart,
}
use agent_env.Base.{
  zero, suc, length-append, length-take, ℕ, ◌-◌, arith, All, ◌<◌, length, refl, Bool-cases, take,
  ◌+◌, ◌≤◌, inl, ◌∷◌, ◌++◌, leb, inr, ◌≡◌, [], subst, leb→le, false, sym, ltb,
}
use mathlib.Core.List.{append_assoc}
use agent_env.Base.Text.{Text, codes, is_empty}

-- An ending of a name.
pub record IsSuffix (most : ℕ) (suffix : Text) : Type 0 where
  pub suffix_not_empty : 0 < length suffix
  pub suffix_short : length suffix ≤ most
  pub suffix_runes : All IsLabelRune suffix
  pub suffix_ends : Ends IsNotDash suffix

-- Whatever the image, a session's name is a DNS-1123 label; its suffix has at most 61 letters,
-- digits and dashes, and no dash at its end.
pub session_name-IsDnsLabel :
    (image suffix : Text) → IsSuffix 61 suffix → IsDnsLabel (session_name image suffix)
unfolding session_name
session_name-IsDnsLabel image suffix h =
    let (m, p) = managed_pool_image_slug-IsPart image in
    let most = 63 - 1 - length suffix in
    joined-IsDnsLabel most (cut_slug most (managed_pool_image_slug image)) suffix
      (cut_slug-IsPart most m (managed_pool_image_slug image) (omega arith) p) h.suffix_runes
      h.suffix_not_empty h.suffix_ends (omega arith)

sandbox-IsPart : IsPart 7 (codes "sandbox")
unfolding is_label_rune
sandbox-IsPart = record {
  part_not_empty = omega arith;
  part_short = omega arith;
  part_runes = (refl, (refl, (refl, (refl, (refl, (refl, (refl, tt)))))));
  part_starts = refl;
}

base-IsPart :
    (base : Text) → All IsLabelRune base → (most : ℕ) × IsPart most (or_sandbox (trim_dash base))
unfolding or_sandbox
base-IsPart base a = elim (Bool-cases (is_empty (trim_dash base))) [
  | inl t ↦ rw t (7, sandbox-IsPart)
  | inr f ↦ rw f (length base, trimmed-IsPart (length base) base a (omega arith) f)
]

-- Of a part a prefix is left that is not empty.
cut-IsPart :
    (most m : ℕ) (s : Text)
    → 0 < most
    → IsPart m s
    → IsPart most (or_sandbox (trim_dash (take most s)))
unfolding or_sandbox
cut-IsPart most m [] l p = absurd (omega (arith, p.part_not_empty))
cut-IsPart zero m (c ∷ cs) l p = absurd (omega arith)
cut-IsPart (suc most) m (c ∷ cs) l p =
    let s = c ∷ take most cs in
    let left = nonempty-trim_dash c (take most cs) p.part_starts in
    let f = not_empty (trim_dash s) left in
    rw f (
      trimmed-IsPart (suc most) s (All-take IsLabelRune (suc most) (c ∷ cs) p.part_runes)
        (omega (arith, length-take most cs)) f)
  where
    not_empty : (t : Text) → 0 < length t → is_empty t ≡ false
    not_empty [] k = absurd (omega arith)
    not_empty (x ∷ xs) k = refl

short-IsDnsLabel :
    (m : ℕ) (s suffix : Text)
    → IsPart m s
    → IsSuffix 51 suffix
    → length (s ++ suffix) ≤ 63
    → IsDnsLabel (s ++ suffix)
short-IsDnsLabel m s [] p h l = absurd (omega (arith, h.suffix_not_empty))
short-IsDnsLabel m s (t ∷ ts) p h l = record {
  not_empty = omega (arith, length-append s (t ∷ ts), p.part_not_empty);
  short = l;
  runes = All-append IsLabelRune s (t ∷ ts) p.part_runes h.suffix_runes;
  starts = Starts-append s (t ∷ ts) p.part_not_empty p.part_starts;
  ends = Ends-append IsNotDash s ts t h.suffix_ends;
}

Ends-tail :
    (hash suffix : Text)
    → 0 < length suffix
    → Ends IsNotDash suffix
    → Ends IsNotDash (hash ++ suffix)
Ends-tail hash [] l e = absurd (omega arith)
Ends-tail hash (t ∷ ts) l e = Ends-append IsNotDash hash ts t e

hashed-IsDnsLabel :
    (most m : ℕ) (s hash suffix : Text)
    → 0 < most
    → most + 1 + length hash + length suffix ≤ 63
    → IsPart m s
    → IsSuffix 51 suffix
    → All IsLabelRune hash
    → IsDnsLabel (or_sandbox (trim_dash (take most s)) ++ codes "-" ++ hash ++ suffix)
hashed-IsDnsLabel most m s hash suffix l k p h a =
    let base = or_sandbox (trim_dash (take most s)) in
    subst IsDnsLabel (sym (append_assoc (base ++ codes "-") hash suffix)) (
      joined-IsDnsLabel most base (hash ++ suffix) (cut-IsPart most m s l p)
        (All-append IsLabelRune hash suffix a h.suffix_runes)
        (omega (arith, length-append hash suffix, h.suffix_not_empty))
        (Ends-tail hash suffix h.suffix_not_empty h.suffix_ends)
        (omega (arith, length-append hash suffix)))

-- Of any base of letters, digits and dashes, also one of dashes alone or one that is too long,
-- dnsLabelWithSuffix makes a DNS-1123 label; the suffix has at most 51 such runes and no dash at its
-- end, and the hash 10.
pub dns_label_with_suffix-IsDnsLabel :
    (hash_ten : Text → Text) (base suffix : Text)
    → IsHash 10 hash_ten
    → All IsLabelRune base
    → IsSuffix 51 suffix
    → IsDnsLabel (dns_label_with_suffix hash_ten base suffix)
unfolding dns_label_with_suffix
dns_label_with_suffix-IsDnsLabel hash_ten base suffix h a k =
    let named = or_sandbox (trim_dash base) in
    let hash = hash_ten named in
    let most = 63 - length suffix - length hash - 1 in
    let (m, p) = base-IsPart base a in
    elim (Bool-cases (leb (length (named ++ suffix)) 63)) [
      | inl t ↦ rw t (short-IsDnsLabel m named suffix p k (leb→le _ _ t))
      | inr f ↦
          let roomy : ltb most 1 ≡ false = ground (arith, h.hash_length named, k.suffix_short) in
          rw (f, roomy)
            (hashed-IsDnsLabel most m named hash suffix
              (omega (arith, h.hash_length named, k.suffix_short))
              (omega (arith, h.hash_length named, k.suffix_short)) p k (h.hash_runes named))
    ]
