-- ===== src/Scheduler/ImageIndex/Runs.antt =====
-- A run of reconcile events of ImageScheduler, against the last thing that each node reported.
use agent_env.Base.{
  ◌≡◌, refl, sym, ap, ◌∙◌, true, if◌then◌else◌, List, [], ◌∷◌, ◌==◌, inl, inr, ◌↔◌, arith,
  Bool-cases, In, All,
}
use agent_env.Base.Text.{Text, Text_eq, text_lt}
use agent_env.Base.Table.{lookup, delete, lookup_or, lookup-insert, lookup-delete}
use agent_env.Base.Sets.{contains, contains_iff}
use agent_env.Base.Sort.{In-sort, In-of_sort}
use agent_env.Scheduler.ImageIndex.{
  reconcile, Fetched, fetched, not_found, get_failed, new_image_scheduler, cached_nodes_for_image,
  is_schedulable, node_image_names, ImageScheduler, upsert_node, remove_node,
  update_node_images_locked, remove_node_images_locked, sorted_set_values,
}
use agent_env.Scheduler.ImageIndex.Mirror.{IsMirror, reconcile-IsMirror}

unfoldable pub reconcile_all : List (Text × Fetched) → ImageScheduler → ImageScheduler
unfolding reconcile
reconcile_all [] s = s
reconcile_all ((name, f) ∷ events) s = reconcile_all events ((reconcile name f s).0)

-- What a node is known to hold after an answer about it.
abbrev pub reported : Fetched → List Text → List Text
reported (fetched node) known = if is_schedulable node then node_image_names node else []
reported not_found known = []
reported get_failed known = known

-- What a node is known to hold after a run of events.
abbrev pub last_reported : Text → List (Text × Fetched) → List Text → List Text
last_reported n [] known = known
last_reported n ((name, f) ∷ events) known =
    last_reported n events (if name == n then reported f known else known)

-- Get answers a node of the name that it was asked for.
abbrev pub IsNamed : Text × Fetched → Type 0
IsNamed (name, fetched node) = node.name ≡ name
IsNamed (name, not_found) = Unit {0}
IsNamed (name, get_failed) = Unit {0}

lookup-reconcile :
    (n name : Text) (f : Fetched) (s : ImageScheduler)
    → IsNamed (name, f)
    → lookup_or [] n (reconcile name f s).0.node_images ≡ (
        if name == n
        then reported f (lookup_or [] n s.node_images)
        else lookup_or [] n s.node_images)
unfolding reconcile upsert_node remove_node update_node_images_locked remove_node_images_locked
lookup-reconcile n name (fetched node) s h = elim (Bool-cases (is_schedulable node)) [
  | inl t ↦
      rw
        (
          t,
          lookup-insert node.name n (node_image_names node) (delete node.name s.node_images),
          lookup-delete node.name n s.node_images,
          h,
        )
        (ground (arith, t))
  | inr e ↦ rw (e, lookup-delete name n s.node_images) (ground (arith, e))
]
lookup-reconcile n name not_found s h = rw (lookup-delete name n s.node_images) (ground arith)
lookup-reconcile n name get_failed s h = ground arith

lookup-reconcile_all :
    (n : Text) (events : List (Text × Fetched)) (s : ImageScheduler)
    → All IsNamed events
    → lookup_or [] n (reconcile_all events s).node_images
      ≡ last_reported n events (lookup_or [] n s.node_images)
unfolding reconcile_all
lookup-reconcile_all n [] s h = refl
lookup-reconcile_all n ((name, f) ∷ events) s h =
    lookup-reconcile_all n events ((reconcile name f s).0) h.1
    ∙ ap (last_reported n events) (lookup-reconcile n name f s h.0)

reconcile_all-IsMirror :
    (events : List (Text × Fetched)) (s : ImageScheduler)
    → IsMirror s
    → IsMirror (reconcile_all events s)
unfolding reconcile_all
reconcile_all-IsMirror [] s h = h
reconcile_all-IsMirror ((name, f) ∷ events) s h =
    reconcile_all-IsMirror events ((reconcile name f s).0) (reconcile-IsMirror name f s h)

new-IsMirror : IsMirror new_image_scheduler
unfolding lookup contains
new-IsMirror n i = refl

In-cached :
    (n image : Text) (s : ImageScheduler)
    → In n (cached_nodes_for_image image s) ↔ (contains n (lookup_or [] image s.image_nodes) ≡ true)
unfolding cached_nodes_for_image sorted_set_values
In-cached n image s =
    let set = lookup_or [] image s.image_nodes in
    (
      λ i. (contains_iff n set).1 (In-of_sort text_lt n set i),
      λ c. In-sort text_lt n set ((contains_iff n set).0 c),
    )

-- After any run of events from an empty cache, where Get answers nodes of the names it was asked
-- for, CachedNodesForImage lists exactly the nodes whose last answer was a schedulable node that
-- reports the image.
pub cached_nodes_for_image_iff :
    (n image : Text) (events : List (Text × Fetched))
    → All IsNamed events
    → In n (cached_nodes_for_image image (reconcile_all events new_image_scheduler))
      ↔ (contains image (last_reported n events []) ≡ true)
unfolding lookup
cached_nodes_for_image_iff n image events h =
    let s = reconcile_all events new_image_scheduler in
    let mirror = reconcile_all-IsMirror events new_image_scheduler new-IsMirror n image in
    let last = lookup-reconcile_all n events new_image_scheduler h in
    let e = mirror ∙ ap (contains image) last in
    (λ i. sym e ∙ (In-cached n image s).0 i, λ c. (In-cached n image s).1 (e ∙ c))
