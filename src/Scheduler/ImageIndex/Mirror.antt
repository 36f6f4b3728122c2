-- ===== src/Scheduler/ImageIndex/Mirror.antt =====
-- The two maps of ImageScheduler against each other, through every event.
use agent_env.Base.{
  ◌≡◌, refl, Bool, false, not, ◌&&◌, ◌||◌, List, [], ◌∷◌, ◌==◌, inl, inr, length, arith, Bool-cases,
  eqb,
}
use agent_env.Base.Text.{Text, Text_eq}
use agent_env.Base.Table.{Table, lookup_or, lookup-insert, lookup-delete}
use agent_env.Base.Sets.{
  contains, add_to_set, delete_from_set, contains-add_to_set, contains-delete_from_set,
}
use agent_env.Scheduler.ImageIndex.{
  ImageScheduler, NodeObject, Fetched, forget_image, forget_images, note_image, note_images,
  remove_node_images_locked, update_node_images_locked, upsert_node, remove_node, reconcile,
  fetched, not_found, get_failed, is_schedulable, node_image_names,
}

-- Whether the table says that a node has an image.
abbrev has : Text → Text → Table Text (List Text) → Bool
has node image t = contains node (lookup_or [] image t)

-- A node stands under an image exactly where the image stands under the node.
abbrev pub IsMirror : ImageScheduler → Type 0
IsMirror s =
    (node image : Text)
    → contains node (lookup_or [] image s.image_nodes)
      ≡ contains image (lookup_or [] node s.node_images)

has-empty : (node : Text) (nodes : List Text) → length nodes ≡ 0 → contains node nodes ≡ false
unfolding contains
has-empty node [] h = refl
has-empty node (x ∷ xs) h = ground arith

has-forget_image :
    (n m i j : Text) (t : Table Text (List Text))
    → has m j (forget_image n i t) ≡ (not (n == m && i == j) && has m j t)
unfolding contains forget_image
has-forget_image n m i j t =
    elim (Bool-cases (eqb (length (delete_from_set n (lookup_or [] i t))) 0)) [
      | inl e ↦
          rw (e, lookup-delete i j t)
            (ground (
              arith,
              e,
              Text_eq.equals_iff i j,
              has-empty m (delete_from_set n (lookup_or [] i t)),
              contains-delete_from_set n m (lookup_or [] i t),
            ))
      | inr e ↦
          rw (e, lookup-insert i j (delete_from_set n (lookup_or [] i t)) t)
            (ground
              (arith, Text_eq.equals_iff i j, contains-delete_from_set n m (lookup_or [] i t)))
    ]

has-note_image :
    (n m i j : Text) (t : Table Text (List Text))
    → has m j (note_image n i t) ≡ ((n == m && i == j) || has m j t)
unfolding contains note_image
has-note_image n m i j t = ground (
  arith,
  lookup-insert i j (add_to_set n (lookup_or [] i t)) t,
  contains-add_to_set n m (lookup_or [] i t),
  Text_eq.equals_iff i j,
)

has-forget_images :
    (n m j : Text) (images : List Text) (t : Table Text (List Text))
    → has m j (forget_images n images t) ≡ (not (n == m && contains j images) && has m j t)
unfolding forget_images contains
has-forget_images n m j [] t = ground arith
has-forget_images n m j (i ∷ is) t =
    ground (arith, has-forget_images n m j is (forget_image n i t), has-forget_image n m i j t)

has-note_images :
    (n m j : Text) (images : List Text) (t : Table Text (List Text))
    → has m j (note_images n images t) ≡ ((n == m && contains j images) || has m j t)
unfolding note_images contains
has-note_images n m j [] t = ground arith
has-note_images n m j (i ∷ is) t =
    ground (arith, has-note_images n m j is (note_image n i t), has-note_image n m i j t)

remove_node_images_locked-IsMirror :
    (n : Text) (s : ImageScheduler) → IsMirror s → IsMirror (remove_node_images_locked n s)
unfolding remove_node_images_locked contains
remove_node_images_locked-IsMirror n s h m j = ground (
  arith,
  h m j,
  has-forget_images n m j (lookup_or [] n s.node_images) s.image_nodes,
  lookup-delete n m s.node_images,
  Text_eq.equals_iff n m,
)

update_node_images_locked-IsMirror :
    (n : Text) (images : List Text) (s : ImageScheduler)
    → IsMirror s
    → IsMirror (update_node_images_locked n images s)
unfolding update_node_images_locked
update_node_images_locked-IsMirror n images s h m j =
    let t = remove_node_images_locked n s in
    ground (
      arith,
      remove_node_images_locked-IsMirror n s h m j,
      has-note_images n m j images t.image_nodes,
      lookup-insert n m images t.node_images,
      Text_eq.equals_iff n m,
      remove_node_images_locked-IsMirror n s h n j,
      lookup-delete n n s.node_images,
    )

upsert_node-IsMirror :
    (node : NodeObject) (s : ImageScheduler) → IsMirror s → IsMirror (upsert_node node s)
unfolding upsert_node
upsert_node-IsMirror node s h =
    update_node_images_locked-IsMirror node.name (node_image_names node) s h

remove_node-IsMirror : (n : Text) (s : ImageScheduler) → IsMirror s → IsMirror (remove_node n s)
unfolding remove_node
remove_node-IsMirror n s h = remove_node_images_locked-IsMirror n s h

-- After any event the two maps still mirror each other: a node stands under an image exactly where
-- the image stands under the node.
pub reconcile-IsMirror :
    (name : Text) (f : Fetched) (s : ImageScheduler)
    → IsMirror s
    → IsMirror ((reconcile name f s).0)
unfolding reconcile
reconcile-IsMirror name (fetched node) s h = elim (Bool-cases (is_schedulable node)) [
  | inl t ↦ rw t (upsert_node-IsMirror node s h)
  | inr e ↦ rw e (remove_node-IsMirror name s h)
]
reconcile-IsMirror name not_found s h = remove_node-IsMirror name s h
reconcile-IsMirror name get_failed s h = h
