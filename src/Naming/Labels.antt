-- ===== src/Naming/Labels.antt =====
-- Names as Kubernetes asks for them.
use agent_env.Naming.{
  has_rune, before, after_last, trim_dash, cut_slug, clean_label, is_label_rune,
  managed_pool_image_slug,
}
use agent_env.Naming.Edges.{
  Starts, Ends, IsNotDash, All-trim_dash, All-append, All-take, Ends-append, Starts-trim_dash,
  length-trim_dash, nonempty-trim_dash, clean_label-All,
}
use agent_env.Base.{
  zero, suc, length-append, length-take, ℕ, ◌<◌, All, arith, ◌≡◌, length, refl, Bool-cases, ◌∷◌,
  true, ◌≤◌, ◌++◌, ◌+◌, inl, suc, [], false, inr, ltb, take, subst, if◌then◌else◌, sym,
}
use mathlib.Core.List.{append_assoc}
use agent_env.Base.Text.{Text, codes, is_empty, trim_space, to_lower}

abbrev pub IsLabelRune : ℕ → Type 0
IsLabelRune c = is_label_rune c ≡ true

-- A DNS-1123 label: 1 to 63 runes, letters in lower case, digits and dashes, with no dash at an end.
pub record IsDnsLabel (name : Text) : Type 0 where
  pub not_empty : 0 < length name
  pub short : length name ≤ 63
  pub runes : All IsLabelRune name
  pub starts : Starts IsNotDash name
  pub ends : Ends IsNotDash name

-- A part of a label that is not empty.
pub record IsPart (most : ℕ) (s : Text) : Type 0 where
  pub part_not_empty : 0 < length s
  pub part_short : length s ≤ most
  pub part_runes : All IsLabelRune s
  pub part_starts : Starts IsNotDash s

dash-runes : All IsLabelRune (codes "-")
unfolding is_label_rune
dash-runes = (refl, tt)

pub Starts-append :
    (xs ys : Text) → 0 < length xs → Starts IsNotDash xs → Starts IsNotDash (xs ++ ys)
Starts-append [] ys h k = absurd (omega arith)
Starts-append (x ∷ xs) ys h k = k

joined :
    (most : ℕ) (s tail : Text)
    → IsPart most s
    → All IsLabelRune tail
    → 0 < length tail
    → Ends IsNotDash tail
    → most + 1 + length tail ≤ 63
    → IsDnsLabel (s ++ (45 ∷ tail))
joined most s [] p a l e h = absurd (omega arith)
joined most s (t ∷ ts) p a l e h = record {
  not_empty = omega (arith, length-append s (45 ∷ t ∷ ts), p.part_not_empty);
  short = omega (arith, length-append s (45 ∷ t ∷ ts), p.part_short);
  runes = All-append IsLabelRune s (45 ∷ t ∷ ts) p.part_runes (dash-runes.0, a);
  starts = Starts-append s (45 ∷ t ∷ ts) p.part_not_empty p.part_starts;
  ends = Ends-append IsNotDash s (t ∷ ts) 45 e;
}

-- A part, a dash and what ends well is a label.
pub joined-IsDnsLabel :
    (most : ℕ) (s tail : Text)
    → IsPart most s
    → All IsLabelRune tail
    → 0 < length tail
    → Ends IsNotDash tail
    → most + 1 + length tail ≤ 63
    → IsDnsLabel (s ++ codes "-" ++ tail)
joined-IsDnsLabel most s tail p a l e h =
    subst IsDnsLabel (sym (append_assoc s (codes "-") tail)) (joined most s tail p a l e h)

-- What is trimmed of dashes is empty or a part.
pub trimmed-IsPart :
    (most : ℕ) (s : Text)
    → All IsLabelRune s
    → length s ≤ most
    → is_empty (trim_dash s) ≡ false
    → IsPart most (trim_dash s)
trimmed-IsPart most s a l e = record {
  part_not_empty = nonempty (trim_dash s) e;
  part_short = omega (arith, length-trim_dash s);
  part_runes = All-trim_dash IsLabelRune s a;
  part_starts = Starts-trim_dash s;
}
  where
    nonempty : (t : Text) → is_empty t ≡ false → 0 < length t
    nonempty [] h = absurd (ground arith)
    nonempty (c ∷ cs) h = omega arith

-- An ending without a dash at its end, or none.
image-IsPart : IsPart 5 (codes "image")
unfolding is_label_rune
image-IsPart = record {
  part_not_empty = omega arith;
  part_short = omega arith;
  part_runes = (refl, (refl, (refl, (refl, (refl, tt)))));
  part_starts = refl;
}

or_image-IsPart :
    (s : Text)
    → All IsLabelRune s
    → (most : ℕ) × IsPart most (if is_empty (trim_dash s) then codes "image" else trim_dash s)
or_image-IsPart s a = elim (Bool-cases (is_empty (trim_dash s))) [
  | inl t ↦ rw t (5, image-IsPart)
  | inr f ↦ rw f (length s, trimmed-IsPart (length s) s a (omega arith) f)
]

abbrev digested : Text → Text
digested image =
    let trimmed = trim_space image in
    if has_rune 64 trimmed then before 64 trimmed ++ codes "-digest" else trimmed

abbrev cleaned : Text → Text
cleaned image = clean_label false (to_lower (after_last 47 (digested image)))

-- Every image has a slug, which is a part of a label but for its length.
pub managed_pool_image_slug-IsPart :
    (image : Text) → (most : ℕ) × IsPart most (managed_pool_image_slug image)
unfolding managed_pool_image_slug
managed_pool_image_slug-IsPart image = elim (Bool-cases (is_empty (trim_space image))) [
  | inl t ↦ rw t (5, image-IsPart)
  | inr f ↦ rw f (
      or_image-IsPart (cleaned image)
        (clean_label-All false (to_lower (after_last 47 (digested image)))))
]

-- A slug that is cut is a part of the length asked for.
pub cut_slug-IsPart :
    (most m : ℕ) (slug : Text) → 0 < most → IsPart m slug → IsPart most (cut_slug most slug)
unfolding cut_slug
cut_slug-IsPart most m [] l p = absurd (omega (arith, p.part_not_empty))
cut_slug-IsPart zero m (c ∷ cs) l p = absurd (omega arith)
cut_slug-IsPart (suc most) m (c ∷ cs) l p = elim (Bool-cases (ltb (suc most) (length (c ∷ cs)))) [
  | inl t ↦ rw t (record {
    part_not_empty = nonempty-trim_dash c (take most cs) p.part_starts;
    part_short = omega (arith, length-trim_dash (c ∷ take most cs), length-take most cs);
    part_runes =
        All-trim_dash IsLabelRune (c ∷ take most cs)
          (All-take IsLabelRune (suc most) (c ∷ cs) p.part_runes);
    part_starts = Starts-trim_dash (c ∷ take most cs);
  })
  | inr f ↦ rw f (record {
    part_not_empty = p.part_not_empty;
    part_short = ground arith;
    part_runes = p.part_runes;
    part_starts = p.part_starts;
  })
]

-- The hash that stands at the end of a name: letters, digits and no dash.
pub record IsHash (size : ℕ) (hash : Text → Text) : Type 0 where
  pub hash_length : (t : Text) → length (hash t) ≡ size
  pub hash_runes : (t : Text) → All IsLabelRune (hash t)
  pub hash_ends : (t : Text) → Ends IsNotDash (hash t)
