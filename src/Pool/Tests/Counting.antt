-- ===== src/Pool/Tests/Counting.antt =====
-- The pool index and the admission queue, at concrete claims and requests.
use agent_env.Base.{
  ◌+◌, ◌≤◌, ◌<◌, ◌≡◌, refl, true, some, List, [], ◌∷◌, inl, length, arith, is_some,
}
use agent_env.Pool.Tests.{claim_of, going, key_of, warm_pool}
use agent_env.Base.Int.{ℤ, pos, pos_part}
use agent_env.Base.Text.{codes, text_eq, trim_space}
use agent_env.Base.Table.{Table, lookup, insert, entries_with}
use agent_env.Kube.{Key_eq, key_eq_iff, Key, Claim}
use agent_env.Pool.Index.{
  upsert_pool, PoolIndex, new_pool_index, count_of, named_pool_key, upsert_claim,
}
use agent_env.Pool.Index.Counts.{IsExact}
use agent_env.Pool.Index.Exact.{new_pool_index-IsExact}
use agent_env.Pool.Index.Events.{
  Event, claim_upserted, claim_deleted, pool_upserted, handle, handle_all,
}
use agent_env.Pool.Index.Events.Runs.{AreInTime, handle_all-IsExact}
use agent_env.Pool.Index.Deletion.{deletion_undercounts}
use agent_env.Pool.Listing.{refresh_pool_index, count_claims, add_claim, live_pool}
use agent_env.Pool.Listing.Refresh.{AreFresh, refresh_pool_index-IsExact}
use agent_env.Pool.Queue.{increment_admission_queue}
use agent_env.Pool.Queue.Depth.{Serves, idle, enters, queue_depth, entry_for, waiters_for}

abbrev first_claim : Claim
first_claim = claim_of (codes "c1") (codes "a")

abbrev second_claim : Claim
second_claim = claim_of (codes "c2") (codes "a")

abbrev events : List Event
events =
    pool_upserted (warm_pool (codes "a") 2 2)
    ∷ claim_upserted first_claim
    ∷ claim_upserted second_claim
    ∷ claim_deleted first_claim
    ∷ []

-- An index with two claims of one pool.
abbrev two_claims : PoolIndex
two_claims = record {
  synced = true;
  pools = [];
  templates = [];
  claims =
      (key_of (codes "c1"), key_of (codes "a")) ∷ (key_of (codes "c2"), key_of (codes "a")) ∷ [];
  claim_counts = (key_of (codes "a"), pos 2) ∷ [];
}

two_claims-IsExact : IsExact two_claims
unfolding count_of lookup entries_with text_eq
two_claims-IsExact = record {
  is_map = (refl, (refl, tt));
  exact = λ q. ground (arith, key_eq_iff (key_of (codes "a")) q);
}

events-AreInTime : AreInTime events new_pool_index
unfolding handle lookup upsert_claim trim_space upsert_pool new_pool_index insert text_eq
events-AreInTime =
    (tt, (λ e. absurd (ground (arith, e)), (λ e. absurd (ground (arith, e)), (inl refl, tt))))

few : length new_pool_index.claims + length events < 2147483648
unfolding new_pool_index
few = omega arith

handle_all-IsExact_example : IsExact (handle_all events new_pool_index)
handle_all-IsExact_example =
    handle_all-IsExact events new_pool_index new_pool_index-IsExact few events-AreInTime

known : is_some (lookup (key_of (codes "c1")) two_claims.claims) ≡ true
unfolding lookup text_eq
known = refl

found : lookup (key_of (codes "c1")) two_claims.claims ≡ some (key_of (codes "a"))
unfolding lookup text_eq
found = refl

named : named_pool_key (going first_claim) ≡ some (key_of (codes "a"))
unfolding named_pool_key trim_space
named = refl

two_there : 2 ≤ entries_with (key_of (codes "a")) two_claims.claims
unfolding entries_with text_eq
two_there = omega arith

deletion_undercounts_example :
    let after =
      handle_all
        (claim_upserted (going first_claim) ∷ claim_deleted (going first_claim) ∷ [])
        two_claims in
    pos_part (count_of (key_of (codes "a")) after.claim_counts) + 1
    ≡ entries_with (key_of (codes "a")) after.claims
deletion_undercounts_example =
    deletion_undercounts (going first_claim) two_claims (key_of (codes "a")) two_claims-IsExact
      (omega arith) found named refl two_there

abbrev waiting : List Key
waiting = key_of (codes "a") ∷ key_of (codes "b") ∷ []

abbrev depths : Table Key ℤ
depths =
    increment_admission_queue (key_of (codes "a"))
      (increment_admission_queue (key_of (codes "b")) [])

waiting-Serves : Serves waiting depths
waiting-Serves =
    enters (key_of (codes "a")) (key_of (codes "b") ∷ []) _ (omega arith)
      (enters (key_of (codes "b")) [] [] (omega arith) idle)

queue_depth_example :
    lookup (key_of (codes "a")) depths ≡ entry_for (waiters_for (key_of (codes "a")) waiting)
queue_depth_example = queue_depth waiting depths (key_of (codes "a")) waiting-Serves refl

abbrev listing : List Claim
listing = first_claim ∷ going (claim_of (codes "c3") (codes "a")) ∷ second_claim ∷ []

listing-AreFresh : AreFresh listing []
unfolding lookup text_eq add_claim live_pool insert
listing-AreFresh = (refl, (refl, (refl, tt)))

refresh_pool_index-IsExact_example :
    IsExact (refresh_pool_index [] [] listing new_pool_index)
    × ((q : Key)
        → count_of q (refresh_pool_index [] [] listing new_pool_index).claim_counts
          ≡ count_of q (count_claims listing []))
refresh_pool_index-IsExact_example =
    refresh_pool_index-IsExact [] [] listing new_pool_index listing-AreFresh (omega arith)
