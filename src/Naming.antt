-- ===== src/Naming.antt =====
-- The names that the gateway gives to its objects: pkg/gateway/managed_pool.go, and
-- dnsLabelWithSuffix in pkg/gateway/sandbox_template_builder.go. SHA-256 with its hex text and the
-- JSON text of private containers are arguments. Go cuts a name by bytes: all that is cut here is
-- in ASCII, where a rune is a byte, a cleaned image name, the name of a pool or that of a session.
pub mod Edges
pub mod Labels
pub mod Suffixes
pub mod Images
mod Tests
use agent_env.Base.{
  ℕ, zero, suc, ◌+◌, ◌-◌, ◌*◌, ◌%◌, ◌≤◌, ◌<◌, ◌≡◌, ◌≢◌, refl, sym, ap, ap₂, subst, ◌∙◌, Bool, true,
  false, not, ◌&&◌, ◌||◌, if◌then◌else◌, Option, none, some, List, [], ◌∷◌, ◌++◌, map, ◌==◌, get_or,
  select, inl, inr, ◌⊎◌, ◌↔◌, length, arith, Bool-cases, Option-cases, In, All, All-In, eqb, ltb,
  leb, is_some, take,
}
use agent_env.Base.Text.{Text, codes, is_empty, trim_space, to_lower}
use agent_env.Base.Sets.{contains}
use agent_env.Pool.Snapshot.{normalize_profile}
use mathlib.Core.List.{reverse}

unfoldable pub drop_dash : Text → Text
drop_dash [] = []
drop_dash (c ∷ cs) = if eqb c 45 then drop_dash cs else c ∷ cs

-- `strings.Trim(s, "-")`.
unfoldable pub trim_dash : Text → Text
unfolding drop_dash
trim_dash s = reverse (drop_dash (reverse (drop_dash s)))

unfoldable pub is_label_rune : ℕ → Bool
is_label_rune c = (leb 97 c && leb c 122) || (leb 48 c && leb c 57) || eqb c 45

-- dnsLabelCleaner: each run of other runes becomes one dash. The flag says whether such a run is on.
unfoldable pub clean_label : Bool → Text → Text
unfolding is_label_rune
clean_label run [] = []
clean_label run (c ∷ cs) =
    let kept = clean_label false cs in
    let rest = clean_label true cs in
    if is_label_rune c then c ∷ kept else if run then rest else 45 ∷ rest

unfoldable pub has_rune : ℕ → Text → Bool
has_rune c [] = false
has_rune c (x ∷ xs) = eqb x c || has_rune c xs

unfoldable pub before : ℕ → Text → Text
before c [] = []
before c (x ∷ xs) = let rest = before c xs in if eqb x c then [] else x ∷ rest

-- What comes after the last `c`, or the whole text.
unfoldable pub after_last : ℕ → Text → Text
unfolding has_rune
after_last c [] = []
after_last c (x ∷ xs) =
    let rest = after_last c xs in if has_rune c xs then rest else if eqb x c then xs else x ∷ xs

unfoldable pub managed_pool_image_slug : Text → Text
unfolding trim_dash clean_label has_rune before after_last
managed_pool_image_slug image =
    let trimmed = trim_space image in
    let named = if has_rune 64 trimmed then before 64 trimmed ++ codes "-digest" else trimmed in
    let slug = trim_dash (clean_label false (to_lower (after_last 47 named))) in
    if is_empty trimmed then codes "image" else if is_empty slug then codes "image" else slug

-- `strings.TrimPrefix(s, prefix)`, if it has the prefix.
unfoldable pub cut_prefix : Text → Text → Option Text
cut_prefix [] s = some s
cut_prefix (p ∷ ps) [] = none
cut_prefix (p ∷ ps) (c ∷ cs) = let rest = cut_prefix ps cs in if eqb p c then rest else none

unfoldable pub trim_prefix : Text → Text → Text
unfolding cut_prefix
trim_prefix prefix s = get_or (cut_prefix prefix s) s

unfoldable pub normalize_image : Text → Text
unfolding trim_prefix has_rune
normalize_image image =
    let short = trim_prefix (codes "docker.io/") (trim_prefix (codes "docker.io/library/") image) in
    if not (has_rune 58 short) && not (has_rune 64 short) then short ++ codes ":latest" else short

-- What json.Marshal makes of the private containers: nothing if there are none, an error, or a text.
pub data Marshalled : Type 0 where
  no_containers not_marshalled : Marshalled
  marshalled : Text → Marshalled

unfoldable pub containers_identity : Marshalled → Option Text
containers_identity no_containers = some []
containers_identity not_marshalled = none
containers_identity (marshalled raw) = some (codes "/privateContainers=" ++ raw)

unfoldable pub cut_slug : ℕ → Text → Text
unfolding trim_dash
cut_slug most slug = if ltb most (length slug) then trim_dash (take most slug) else slug

-- The image by which a pool is named and found.
unfoldable pub named_image : Text → Text
unfolding normalize_image
named_image image =
    let trimmed = trim_space image in if is_empty trimmed then trimmed else normalize_image trimmed

unfoldable pub slug_with_hash : Text → Text → Text
unfolding managed_pool_image_slug cut_slug
slug_with_hash image hash =
    let slug = cut_slug (63 - 1 - length hash) (managed_pool_image_slug image) in
    (if is_empty slug then codes "image" else slug) ++ codes "-" ++ hash

-- The rest of managedPoolName. `hash_six` is the hex text of the first six bytes of the SHA-256.
unfoldable pub name_for_image :
    (Text → Text) → Text → Text → Marshalled → Option Bool → Text → Option Text
unfolding containers_identity slug_with_hash
name_for_image hash_six namespace profile specs allow_internet image =
    let cut_off = if get_or allow_internet true then [] else codes "/noInternet" in
    elim (containers_identity specs) [
      | none ↦ none
      | some tail ↦ some (
          slug_with_hash image (
            hash_six (
              trim_space namespace
              ++ codes "/"
              ++ normalize_profile profile
              ++ codes "/"
              ++ image
              ++ tail
              ++ cut_off)))
    ]

unfoldable pub managed_pool_name :
    (Text → Text) → Text → Text → Text → Marshalled → Option Bool → Option Text
unfolding named_image name_for_image
managed_pool_name hash_six image namespace profile specs allow_internet =
    name_for_image hash_six namespace profile specs allow_internet (named_image image)

-- A suffix has 8 runes; Go would panic at one of more than 62.
unfoldable pub session_name : Text → Text → Text
unfolding managed_pool_image_slug cut_slug
session_name image suffix =
    cut_slug (63 - 1 - length suffix) (managed_pool_image_slug image) ++ codes "-" ++ suffix

unfoldable pub or_sandbox : Text → Text
or_sandbox base = if is_empty base then codes "sandbox" else base

-- dnsLabelWithSuffix. `hash_ten` is the first ten digits of the SHA-256 in hex.
unfoldable pub dns_label_with_suffix : (Text → Text) → Text → Text → Text
unfolding trim_dash or_sandbox
dns_label_with_suffix hash_ten base suffix =
    let named = or_sandbox (trim_dash base) in
    let hash = hash_ten named in
    let most = 63 - length suffix - length hash - 1 in
    if leb (length (named ++ suffix)) 63
    then named ++ suffix
    else if ltb most 1
    then trim_dash (hash ++ suffix)
    else or_sandbox (trim_dash (take most named)) ++ codes "-" ++ hash ++ suffix

unfoldable pub sandbox_template_name : (Text → Text) → Text → Text
unfolding dns_label_with_suffix
sandbox_template_name hash_ten pool_name =
    dns_label_with_suffix hash_ten pool_name (codes "-template")
