-- ===== src/Naming/Tests.antt =====
-- A hash of twelve zeros and one of ten, and some images and names.
use agent_env.Base.{◌≡◌, refl, true, none, some, [], ◌++◌, arith, All}
use agent_env.Naming.{managed_pool_name, marshalled, is_label_rune, cut_prefix}
use agent_env.Naming.Labels.{IsHash}
use agent_env.Naming.Suffixes.{IsSuffix}
use agent_env.Naming.Images.{managed_pool_name_library}
use agent_env.Base.Text.{Text, codes, trim_space, to_lower}

abbrev twelve : Text → Text
twelve t = codes "000000000000"

abbrev ten : Text → Text
ten t = codes "0000000000"

ten-IsHash : IsHash 10 ten
unfolding is_label_rune
ten-IsHash = record {
  hash_length = λ t. refl;
  hash_runes =
      λ t. (refl, (refl, (refl, (refl, (refl, (refl, (refl, (refl, (refl, (refl, tt))))))))));
  hash_ends = λ t. refl;
}

abbrev image : Text
image = codes "python:3.12"

eight-IsSuffix : IsSuffix 61 (codes "0a1b2c3d")
unfolding is_label_rune
eight-IsSuffix = record {
  suffix_not_empty = omega arith;
  suffix_short = omega arith;
  suffix_runes = (refl, (refl, (refl, (refl, (refl, (refl, (refl, (refl, tt))))))));
  suffix_ends = refl;
}

template-IsSuffix : IsSuffix 51 (codes "-template")
unfolding is_label_rune
template-IsSuffix = record {
  suffix_not_empty = omega arith;
  suffix_short = omega arith;
  suffix_runes = (refl, (refl, (refl, (refl, (refl, (refl, (refl, (refl, (refl, tt)))))))));
  suffix_ends = refl;
}

pool-runes : All (λ c. is_label_rune c ≡ true) (codes "py-0")
unfolding is_label_rune
pool-runes = (refl, (refl, (refl, (refl, tt))))

image_trimmed : trim_space image ≡ image
unfolding trim_space
image_trimmed = refl

library_trimmed :
    trim_space (codes "docker.io/library/" ++ image) ≡ codes "docker.io/library/" ++ image
unfolding trim_space
library_trimmed = refl

short_name : cut_prefix (codes "docker.io/") image ≡ none
unfolding cut_prefix
short_name = refl

managed_pool_name_library_example :
    managed_pool_name twelve
      (codes "docker.io/library/" ++ image)
      (codes "arl")
      (codes "code")
      (marshalled (codes "[]"))
      none
    ≡ managed_pool_name twelve image (codes "arl") (codes "code") (marshalled (codes "[]")) none
managed_pool_name_library_example =
    managed_pool_name_library twelve image (codes "arl") (codes "code") (marshalled (codes "[]"))
      none refl image_trimmed library_trimmed short_name

library_named :
    managed_pool_name twelve
      (codes "docker.io/library/python:3.12")
      (codes "arl")
      []
      (marshalled (codes "[]"))
      none
    ≡ some (codes "python-3-12-000000000000")
unfolding managed_pool_name trim_space to_lower
library_named = refl
