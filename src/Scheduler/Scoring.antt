-- ===== src/Scheduler/Scoring.antt =====
-- Node scores: pkg/scheduler/scoring.go and framework_scoring.go. A map used as a set of images is a
-- list without repetition. Sums and products wrap as an int64 does.
pub mod Bounds
use agent_env.Base.{
  ℕ, zero, suc, ◌+◌, ◌-◌, ◌*◌, ◌%◌, ◌≤◌, ◌<◌, ◌≡◌, ◌≢◌, refl, sym, ap, ap₂, subst, ◌∙◌, Bool, true,
  false, not, ◌&&◌, ◌||◌, if◌then◌else◌, Option, none, some, List, [], ◌∷◌, ◌++◌, map, ◌==◌, get_or,
  select, inl, inr, ◌⊎◌, ◌↔◌, length, arith, Bool-cases, Option-cases, In, All, All-In, eqb, ltb,
  leb, is_some,
}
use agent_env.Base.Int.{ℤ, ℤ_eq, pos, ltb_ℤ, ◌/ℤ◌, add_int64, sub_int64, mul_int64}
use agent_env.Base.Text.{Text, Text_eq, codes, is_empty, trim_space}
use agent_env.Base.Sets.{contains, add_to_set}
use agent_env.Base.Table.{Table, lookup_or}

abbrev pub max_node_score : ℤ
max_node_score = pos 100

pub record ScoreOptions : Type 0 where
  pub executor_image_weight : ℤ
  pub other_images_weight : ℤ
  pub image_locality_weight : ℤ
  pub cold_start_weight : ℤ
  pub node_load_weight : ℤ

-- The fields of a pod and of a node that the scores read.
pub record Pod : Type 0 where
  pub annotations : Table Text Text
  pub init_container_images : List Text
  pub container_images : List Text

pub record Node : Type 0 where
  -- the names of each image of the node's status
  pub images : List (List Text)

abbrev pub executor_image_annotation : Text
executor_image_annotation = codes "arl.infra.io/executor-image"

unfoldable pub add_names : List Text → List Text → List Text
unfolding add_to_set
add_names [] set = set
add_names (n ∷ ns) set =
    let name = trim_space n in add_names ns (if is_empty name then set else add_to_set name set)

unfoldable pub add_images : List (List Text) → List Text → List Text
unfolding add_names
add_images [] set = set
add_images (names ∷ rest) set = add_images rest (add_names names set)

-- nodeImageSet.
unfoldable pub node_image_set : Node → List Text
unfolding add_images
node_image_set node = add_images node.images []

unfoldable pub first_image : List Text → Text
first_image [] = []
first_image (i ∷ is) =
    let image = trim_space i in let rest = first_image is in if is_empty image then rest else image

-- executorImageForPod.
unfoldable pub executor_image_for_pod : Pod → Text
unfolding first_image
executor_image_for_pod pod =
    let image = trim_space (lookup_or [] executor_image_annotation pod.annotations) in
    if is_empty image then first_image pod.container_images else image

unfoldable pub add_except : Text → List Text → List Text → List Text
unfolding add_to_set
add_except excluded [] set = set
add_except excluded (i ∷ is) set =
    let image = trim_space i in
    add_except excluded is
      (if is_empty image || image == excluded then set else add_to_set image set)

-- podImagesExcept.
unfoldable pub pod_images_except : Pod → Text → List Text
unfolding add_except
pod_images_except pod excluded =
    add_except excluded pod.container_images (add_except excluded pod.init_container_images [])

unfoldable pub non_negative : ℤ → ℤ
non_negative a = if ltb_ℤ a (pos 0) then pos 0 else a

-- normalizedScoreWeights.
unfoldable pub normalized_score_weights : ScoreOptions → ℤ × ℤ
unfolding non_negative add_int64 mul_int64 ◌/ℤ◌
normalized_score_weights o =
    let executor = non_negative o.executor_image_weight in
    let other = non_negative o.other_images_weight in
    let total = add_int64 executor other in
    if o.executor_image_weight == pos 0 && o.other_images_weight == pos 0
    then (pos 80, pos 20)
    else if not (ltb_ℤ max_node_score total)
    then (executor, other)
    else (mul_int64 executor max_node_score /ℤ total, mul_int64 other max_node_score /ℤ total)

unfoldable pub hits : List Text → List Text → ℕ
unfolding contains
hits cached [] = 0
hits cached (i ∷ is) = let rest = hits cached is in if contains i cached then suc rest else rest

-- The clamp of a score into 0..100; the source's detour by float64 changes no result.
unfoldable pub clamp_score : ℤ → ℤ
clamp_score s =
    if ltb_ℤ max_node_score s then max_node_score else if ltb_ℤ s (pos 0) then pos 0 else s

unfoldable pub other_images_score : List Text → List Text → ℤ → ℤ
unfolding hits mul_int64 ◌/ℤ◌
other_images_score cached others weight =
    if ltb 0 (length others) && ltb_ℤ (pos 0) weight
    then mul_int64 weight (pos (hits cached others)) /ℤ pos (length others)
    else pos 0

-- ScorePodOnNode; `none` is a nil pod or node.
unfoldable pub score_pod_on_node : Option Pod → Option Node → ScoreOptions → ℤ
unfolding normalized_score_weights node_image_set executor_image_for_pod pod_images_except
    other_images_score clamp_score contains add_int64
score_pod_on_node none _ o = pos 0
score_pod_on_node (some _) none o = pos 0
score_pod_on_node (some pod) (some node) o =
    let weights = normalized_score_weights o in
    let cached = node_image_set node in
    let executor = executor_image_for_pod pod in
    let base = if not (is_empty executor) && contains executor cached then weights.0 else pos 0 in
    if eqb (length cached) 0
    then pos 0
    else clamp_score
        (add_int64 base (other_images_score cached (pod_images_except pod executor) weights.1))

-- composedWeights: image, spread and load.
unfoldable pub composed_weights : ScoreOptions → Bool → ℤ × ℤ × ℤ
unfolding non_negative
composed_weights o any_cached =
    if o.image_locality_weight == pos 0
      && o.cold_start_weight == pos 0
      && o.node_load_weight == pos 0
    then (if any_cached then (pos 70, pos 10, pos 20) else (pos 0, pos 40, pos 60))
    else (
      non_negative o.image_locality_weight,
      non_negative o.cold_start_weight,
      non_negative o.node_load_weight,
    )

-- freeResourceScore.
unfoldable pub free_resource_score : ℤ → ℤ → ℤ
unfolding sub_int64 mul_int64 ◌/ℤ◌ clamp_score
free_resource_score used capacity =
    let free = sub_int64 capacity used in
    if not (ltb_ℤ (pos 0) capacity)
    then pos 50
    else if not (ltb_ℤ (pos 0) free)
    then pos 0
    else if not (ltb_ℤ free capacity)
    then max_node_score
    else clamp_score (mul_int64 free max_node_score /ℤ capacity)

-- inverseRangeScore.
unfoldable pub inverse_range_score : ℤ → ℤ → ℤ → ℤ
unfolding sub_int64 mul_int64 ◌/ℤ◌ clamp_score
inverse_range_score value low high =
    if not (ltb_ℤ low high)
    then pos 50
    else if not (ltb_ℤ low value)
    then max_node_score
    else if not (ltb_ℤ value high)
    then pos 0
    else clamp_score (mul_int64 (sub_int64 high value) max_node_score /ℤ sub_int64 high low)

-- What the scheduler framework says of a node's allocatable and requested resources.
pub record NodeResources : Type 0 where
  pub milli_cpu : ℤ
  pub memory : ℤ
  pub pods : ℤ

-- nodeLoadBalanceScore; `none` where the framework has no figures.
unfoldable pub node_load_balance_score : Option NodeResources → Option NodeResources → ℤ
unfolding free_resource_score clamp_score add_int64 mul_int64 ◌/ℤ◌
node_load_balance_score none requested = pos 50
node_load_balance_score (some a) none = pos 50
node_load_balance_score (some a) (some r) =
    let cpu = mul_int64 (free_resource_score r.milli_cpu a.milli_cpu) (pos 40) in
    let memory = mul_int64 (free_resource_score r.memory a.memory) (pos 40) in
    let pods = mul_int64 (free_resource_score r.pods a.pods) (pos 20) in
    clamp_score (add_int64 (add_int64 cpu memory) pods /ℤ pos 100)

-- The sum at the end of composedNodeScore, for the three scores of a node.
unfoldable pub compose : ℤ × ℤ × ℤ → ℤ → ℤ → ℤ → ℤ
unfolding clamp_score add_int64 mul_int64 ◌/ℤ◌
compose (image_weight, spread_weight, load_weight) image spread load =
    let total = add_int64 (add_int64 image_weight spread_weight) load_weight in
    let images = mul_int64 image image_weight in
    let spreads = mul_int64 spread spread_weight in
    let loads = mul_int64 load load_weight in
    if not (ltb_ℤ (pos 0) total)
    then pos 0
    else clamp_score (add_int64 (add_int64 images spreads) loads /ℤ total)
