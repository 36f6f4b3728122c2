-- ===== src/Naming/Images.antt =====
-- The two names of an image on Docker Hub.
use agent_env.Base.{
  get_or, sym, ◌∙◌, ap, not, ◌&&◌, ◌≡◌, refl, sym, ap, ◌∙◌, Bool, false, not, ◌&&◌, if◌then◌else◌,
  Option, none, some, [], ◌∷◌, ◌++◌, get_or, arith,
}
use agent_env.Naming.{
  cut_prefix, trim_prefix, normalize_image, named_image, managed_pool_name, name_for_image,
  Marshalled, has_rune,
}
use agent_env.Base.Text.{Text, codes, is_empty, trim_space}

cut_prefix-append : (p s : Text) → cut_prefix p (p ++ s) ≡ some s
unfolding cut_prefix
cut_prefix-append [] s = refl
cut_prefix-append (c ∷ cs) s = ground (arith, cut_prefix-append cs s)

-- What does not start with a text starts with no longer one.
longer_prefix : (p q s : Text) → cut_prefix p s ≡ none → cut_prefix (p ++ q) s ≡ none
unfolding cut_prefix
longer_prefix [] q s h = cc
longer_prefix (c ∷ cs) q [] h = refl
longer_prefix (c ∷ cs) q (x ∷ xs) h = ground (arith, longer_prefix cs q xs)

cut : (p s : Text) → trim_prefix p (p ++ s) ≡ s
unfolding trim_prefix
cut p s = ap (λ o. get_or o (p ++ s)) (cut_prefix-append p s)

kept : (p s : Text) → cut_prefix p s ≡ none → trim_prefix p s ≡ s
unfolding trim_prefix
kept p s h = ap (λ o. get_or o s) h

abbrev tagged : Text → Text
tagged short =
    if not (has_rune 58 short) && not (has_rune 64 short) then short ++ codes ":latest" else short

normal :
    (image : Text)
    → cut_prefix (codes "docker.io/") image ≡ none
    → normalize_image (codes "docker.io/library/" ++ image) ≡ normalize_image image
unfolding normalize_image
normal image h =
    ap (λ t. tagged (trim_prefix (codes "docker.io/") t))
      (cut (codes "docker.io/library/") image
        ∙ sym (
            kept (codes "docker.io/library/") image
              (longer_prefix (codes "docker.io/") (codes "library/") image h)))

abbrev named : Text → Text
named trimmed = if is_empty trimmed then trimmed else normalize_image trimmed

named_image_library :
    (image : Text)
    → is_empty image ≡ false
    → trim_space image ≡ image
    → trim_space (codes "docker.io/library/" ++ image) ≡ codes "docker.io/library/" ++ image
    → cut_prefix (codes "docker.io/") image ≡ none
    → named_image (codes "docker.io/library/" ++ image) ≡ named_image image
unfolding named_image
named_image_library image e s t h =
    ap named t
    ∙ normal image h
    ∙ sym (ap named s ∙ ap (λ b. if b then image else normalize_image image) e)

-- An image's short name and its full name on Docker Hub name one managed pool, in every namespace
-- and profile and with all private containers and either choice of the network; both names are
-- without spaces at their ends, and the short one does not start with the registry.
pub managed_pool_name_library :
    (hash_six : Text → Text) (image namespace profile : Text) (specs : Marshalled)
    (allow_internet : Option Bool)
    → is_empty image ≡ false
    → trim_space image ≡ image
    → trim_space (codes "docker.io/library/" ++ image) ≡ codes "docker.io/library/" ++ image
    → cut_prefix (codes "docker.io/") image ≡ none
    → managed_pool_name hash_six
        (codes "docker.io/library/" ++ image)
        namespace
        profile
        specs
        allow_internet
      ≡ managed_pool_name hash_six image namespace profile specs allow_internet
unfolding managed_pool_name
managed_pool_name_library hash_six image namespace profile specs allow_internet e s t h =
    ap (name_for_image hash_six namespace profile specs allow_internet)
      (named_image_library image e s t h)
