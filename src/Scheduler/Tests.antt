-- ===== src/Scheduler/Tests.antt =====
-- The scheduler's theorems at concrete nodes.
use agent_env.Base.{ℕ, ◌≡◌, refl, true, false, not, List, [], ◌∷◌, select, ◌↔◌, length, arith, In}
use agent_env.Base.Text.{Text, codes, text_eq}
use agent_env.Base.Sort.{sort}
use agent_env.Base.Sets.{contains, contains_iff}
use agent_env.Scheduler.Rendezvous.{compute_top_k}
use agent_env.Scheduler.Rendezvous.Stability.{compute_top_k-Permᴰ, compute_top_k_stable}
use agent_env.Scheduler.ImageIndex.{
  NodeObject, Fetched, fetched, not_found, get_failed, new_image_scheduler, cached_nodes_for_image,
}
use agent_env.Scheduler.ImageIndex.Runs.{reconcile_all, last_reported, cached_nodes_for_image_iff}
use mathlib.Core.List.{Permᴰ}

-- A weight that ranks nodes by the lengths of their names.
abbrev weigh : Text → Text → ℕ
weigh image node = length node

abbrev nodes : List Text
nodes = codes "n1" ∷ codes "node2" ∷ codes "nd3" ∷ []

abbrev shuffled : List Text
shuffled = codes "node2" ∷ codes "n1" ∷ codes "nd3" ∷ []

compute_top_k-Permᴰ_example :
    compute_top_k weigh (codes "py") nodes 2 ≡ compute_top_k weigh (codes "py") shuffled 2
compute_top_k-Permᴰ_example = compute_top_k-Permᴰ weigh (codes "py") 2 (Permᴰ.swap refl refl)

not_listed : contains (codes "n1") (compute_top_k weigh (codes "py") nodes 2) ≡ false
unfolding compute_top_k contains text_eq sort
not_listed = refl

not_chosen : ¬ In (codes "n1") (compute_top_k weigh (codes "py") nodes 2)
not_chosen i = absurd (
    ground (
      arith,
      not_listed,
      (contains_iff (codes "n1") (compute_top_k weigh (codes "py") nodes 2)).1 i,
    ))

compute_top_k_stable_example :
    compute_top_k weigh (codes "py") (select (λ n. not (text_eq n (codes "n1"))) nodes) 2
    ≡ compute_top_k weigh (codes "py") nodes 2
compute_top_k_stable_example =
    compute_top_k_stable weigh (codes "py") nodes 2 (codes "n1") not_chosen

abbrev node_of : Text → List Text → NodeObject
node_of name images = record {
  name = name;
  unschedulable = false;
  conditions = (codes "Ready", codes "True") ∷ [];
  image_lists = images ∷ [];
}

abbrev events : List (Text × Fetched)
events =
    (codes "n1", fetched (node_of (codes "n1") (codes "py" ∷ [])))
    ∷ (codes "n2", get_failed)
    ∷ (codes "n1", fetched (node_of (codes "n1") (codes "go" ∷ codes "py" ∷ [])))
    ∷ (codes "n2", not_found)
    ∷ []

cached_nodes_for_image_iff_example :
    In (codes "n1") (cached_nodes_for_image (codes "py") (reconcile_all events new_image_scheduler))
    ↔ (contains (codes "py") (last_reported (codes "n1") events []) ≡ true)
cached_nodes_for_image_iff_example =
    cached_nodes_for_image_iff (codes "n1") (codes "py") events (refl, (tt, (refl, (tt, tt))))
