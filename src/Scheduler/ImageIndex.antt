-- ===== src/Scheduler/ImageIndex.antt =====
-- The node cache of ImageScheduler: pkg/scheduler/image_scheduler.go. What the client's Get answers
-- is an argument of reconcile.
pub mod Mirror
pub mod Runs
use agent_env.Base.{
  ℕ, zero, suc, ◌+◌, ◌-◌, ◌*◌, ◌%◌, ◌≤◌, ◌<◌, ◌≡◌, ◌≢◌, refl, sym, ap, ap₂, subst, ◌∙◌, Bool, true,
  false, not, ◌&&◌, ◌||◌, if◌then◌else◌, Option, none, some, List, [], ◌∷◌, ◌++◌, map, ◌==◌, get_or,
  select, inl, inr, ◌⊎◌, ◌↔◌, length, arith, Bool-cases, Option-cases, In, All, All-In, eqb, ltb,
  leb, is_some,
}
use agent_env.Base.Text.{Text, Text_eq, codes, is_empty, text_lt}
use agent_env.Base.Table.{Table, lookup, insert, delete, lookup_or}
use agent_env.Base.Sets.{contains, add_to_set, delete_from_set}
use agent_env.Base.Sort.{sort}
use agent_env.Scheduler.Rendezvous.{compute_top_k}

-- The fields of a corev1.Node that the cache reads; a condition is its type and its status.
pub record NodeObject : Type 0 where
  pub name : Text
  pub unschedulable : Bool
  pub conditions : List (Text × Text)
  pub image_lists : List (List Text)

-- The fields of ImageScheduler behind its mutex.
pub record ImageScheduler : Type 0 where
  pub nodes : List Text
  pub node_images : Table Text (List Text)
  pub image_nodes : Table Text (List Text)

abbrev pub new_image_scheduler : ImageScheduler
new_image_scheduler = record { nodes = []; node_images = []; image_nodes = [] }

unfoldable pub is_ready : List (Text × Text) → Bool
is_ready [] = false
is_ready ((type, status) ∷ rest) =
    let later = is_ready rest in if type == codes "Ready" then status == codes "True" else later

unfoldable pub is_schedulable : NodeObject → Bool
unfolding is_ready
is_schedulable node = if node.unschedulable then false else is_ready node.conditions

unfoldable pub add_image_names : List Text → List Text → List Text
unfolding add_to_set
add_image_names [] set = set
add_image_names (n ∷ ns) set = add_image_names ns (if is_empty n then set else add_to_set n set)

unfoldable pub add_image_lists : List (List Text) → List Text → List Text
unfolding add_image_names
add_image_lists [] set = set
add_image_lists (names ∷ rest) set = add_image_lists rest (add_image_names names set)

unfoldable pub node_image_names : NodeObject → List Text
unfolding add_image_lists
node_image_names node = add_image_lists node.image_lists []

-- The body of the loop of removeNodeImagesLocked, and the loop over the node's images.
unfoldable pub forget_image : Text → Text → Table Text (List Text) → Table Text (List Text)
unfolding delete_from_set insert delete lookup
forget_image node image t =
    let nodes = delete_from_set node (lookup_or [] image t) in
    if eqb (length nodes) 0 then delete image t else insert image nodes t

unfoldable pub forget_images : Text → List Text → Table Text (List Text) → Table Text (List Text)
unfolding forget_image
forget_images node [] t = t
forget_images node (image ∷ rest) t = forget_images node rest (forget_image node image t)

unfoldable pub remove_node_images_locked : Text → ImageScheduler → ImageScheduler
unfolding forget_images lookup delete
remove_node_images_locked node s = record {
  nodes = s.nodes;
  node_images = delete node s.node_images;
  image_nodes = forget_images node (lookup_or [] node s.node_images) s.image_nodes;
}

-- The body of the loop of updateNodeImagesLocked, and the loop over the new images.
unfoldable pub note_image : Text → Text → Table Text (List Text) → Table Text (List Text)
unfolding add_to_set insert lookup
note_image node image t = insert image (add_to_set node (lookup_or [] image t)) t

unfoldable pub note_images : Text → List Text → Table Text (List Text) → Table Text (List Text)
unfolding note_image
note_images node [] t = t
note_images node (image ∷ rest) t = note_images node rest (note_image node image t)

unfoldable pub update_node_images_locked : Text → List Text → ImageScheduler → ImageScheduler
unfolding remove_node_images_locked note_images insert
update_node_images_locked node images s =
    let t = remove_node_images_locked node s in
    record {
      nodes = t.nodes;
      node_images = insert node images t.node_images;
      image_nodes = note_images node images t.image_nodes;
    }

unfoldable pub upsert_node : NodeObject → ImageScheduler → ImageScheduler
unfolding update_node_images_locked node_image_names contains
upsert_node node s =
    let known = if contains node.name s.nodes then s.nodes else s.nodes ++ node.name ∷ [] in
    update_node_images_locked node.name (node_image_names node)
      (record { nodes = known; node_images = s.node_images; image_nodes = s.image_nodes })

-- `append(nodes[:i], nodes[i+1:]...)` at the first node of the name.
unfoldable pub cut_first : Text → List Text → List Text
cut_first a [] = []
cut_first a (x ∷ xs) = let rest = cut_first a xs in if x == a then xs else x ∷ rest

unfoldable pub remove_node : Text → ImageScheduler → ImageScheduler
unfolding cut_first remove_node_images_locked
remove_node name s = remove_node_images_locked name (record {
  nodes = cut_first name s.nodes;
  node_images = s.node_images;
  image_nodes = s.image_nodes;
})

-- What the client's Get answers: the node, not found, or another error.
pub data Fetched : Type 0 where
  fetched : NodeObject → Fetched
  not_found : Fetched
  get_failed : Fetched

-- The next state, and whether an error comes back. Get answers a node of the name it was asked.
unfoldable pub reconcile : Text → Fetched → ImageScheduler → ImageScheduler × Bool
unfolding is_schedulable upsert_node remove_node
reconcile name (fetched node) s =
    (if is_schedulable node then upsert_node node s else remove_node name s, false)
reconcile name not_found s = (remove_node name s, false)
reconcile name get_failed s = (s, true)

unfoldable pub sorted_set_values : List Text → List Text
sorted_set_values values = sort text_lt values

unfoldable pub cached_nodes_for_image : Text → ImageScheduler → List Text
unfolding sorted_set_values lookup
cached_nodes_for_image image s = sorted_set_values (lookup_or [] image s.image_nodes)

unfoldable pub nodes_for_image_locked : Text → ImageScheduler → List Text
unfolding sorted_set_values lookup
nodes_for_image_locked image s =
    let cached = sorted_set_values (lookup_or [] image s.image_nodes) in
    if ltb 0 (length cached) then cached else s.nodes

unfoldable pub select_nodes : (Text → Text → ℕ) → Text → ℕ → ImageScheduler → List Text
unfolding nodes_for_image_locked compute_top_k
select_nodes weigh image k s = compute_top_k weigh image (nodes_for_image_locked image s) k
