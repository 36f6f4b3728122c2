-- ===== src/Lib.antt =====
-- A verification library for the core of the agent environment gateway and of its image-locality
-- scheduler: which warm pool a session is given, when it must wait, how pools are sized and
-- collected, which nodes a pool's pods prefer, who may call the gateway, and how sessions are listed
-- and their operations run.
--
-- Parts of the program and the files that model them:
--
-- - pkg/gateway/pool_policy.go, selection: SelectPool and Admit are select_pool and admit of
--   Pool/Selector, over the snapshots of Pool/Snapshot. Selector/Order is the ranking of pools,
--   Selector/Choice and Selector/Agreement are about select_pool.
-- - pkg/gateway/pool_policy.go, planning: planSessionAllocation, waitForWarmCapacity and
--   scalePoolForQueuedDemand are functions of the same names of Pool/Planner, the admission queue is
--   Pool/Queue. A wait is a list of moments: what the context, the ticker, the listings and the API
--   server say at each. The state that a plan changes is the queue's map and the pool index.
-- - pkg/gateway/pool_index.go: Pool/Index is poolIndex, one function per update; Index/Events are the
--   informer handlers, Index/Views the reads. Index/Counts, Exact and Events/Runs are about its claim
--   counts, Deletion about the deletion of a claim in two events, Views/Active and Offers about its
--   reads.
-- - pkg/gateway/pool_policy.go and pool_index.go, listing: Pool/Listing has snapshotPoolsForIntent, the
--   direct listings and the refresh of the index; Listing/Refresh compares their counts.
-- - pkg/gateway/pool_autoscaler.go: Pool/Autoscaler has poolAutoscaleTarget and the pass over pools.
-- - pkg/scheduler/rendezvous.go: Scheduler/Rendezvous. pkg/scheduler/image_scheduler.go:
--   Scheduler/ImageIndex, with a run of reconcile events in ImageIndex/Runs.
--   pkg/scheduler/scoring.go and framework_scoring.go: Scheduler/Scoring.
-- - pkg/gateway/memory_store.go: Session/Store is MemoryStore, over a heap of shared sessions;
--   Store/Filing, Indexes and Stale are about its indexes. No lock spans Set or Delete: Store/Calls has
--   their atomic steps, Calls/Own, Others and Settled let them interleave, Calls/Alone compares them
--   with the calls as a whole, and Calls/Overlap is about a Set and a Delete of one id.
-- - pkg/gateway/history.go: Session/History is StepHistory, History/Order runs of its operations.
--
-- - pkg/gateway/experiment.go, listing: Session/Listing is ListSessionsPage with its helpers;
--   Listing/Pages follows cursors, Full and Candidates are about the two ways of listing.
-- - pkg/gateway/operations.go: Session/Operations, with one step per critical section;
--   Operations/Consistency, Runs, Once and Results are about runs of steps.
-- - pkg/gateway/experiment.go and pool_management.go, lifecycle: Pool/Lifecycle has isManagedPool,
--   poolHasActiveBindings and stopManagedPoolIfUnused. pkg/gateway/managed_pool_gc.go: Pool/Gc and
--   Gc/Pass are the collector, Gc/Attempts and Gc/Turns one candidate, Gc/Reasons and Ranking say what idle,
--   referred to and least recently used mean, and Gc/Promises, Order and Idle are about a pass.
--   Lifecycle/Bindings says what managed, stopped and bound mean.
-- - pkg/gateway/managed_pool.go and dnsLabelWithSuffix of sandbox_template_builder.go: Naming.
-- - pkg/config/config.go: Config is Validate, Config/Limits what the other parts get from it.
-- - pkg/gateway/ratelimit.go: RateLimit; RateLimit/Cleanup and Requests are about its
--   two steps, Alone about runs of them.
-- - pkg/gateway/auth.go: Auth; Auth/Access, Ownership, Printing and Reloading are about it.
--
-- They interact as in the program: the planner selects over the snapshots of the index, admits,
-- enters the queue, wakes the pool through the autoscaler's target and writes it to the index. The
-- collector reads the queue, the sessions and the claims, stops idle pools and deletes stopped ones,
-- with their entries of the index.
--
-- Kube holds the fields of Kubernetes objects that the code reads. Base holds Boolean tests, lists,
-- integers with the wraps of int32 and int64, strings as lists of code points, association lists for
-- maps, sets, a stable insertion sort and orders.
--
-- Bounds: counts and replicas are int32 and wrap; theorems on counts ask for fewer than 2^31 claims or
-- requests. Scores are int64 and wrap. There is no fuel: a loop runs over its list, and a wait over
-- its moments, returning `none` where they run out first.
--
-- Parameters: the hash of the rendezvous ranking, the answers of the Kubernetes API server and the
-- informers' events, the time of a patch, SHA-256 and JSON texts, the token bucket of a rate limiter,
-- the parsing of times, the contents of files, the order in which `range` visits a map. Where a mutex
-- spans an operation it is one step, so an interleaving is an order of steps; IncrCount, whose Add and
-- Store are two, is modelled where no other call comes between them.
--
-- Not modelled: the life of a session, execution, HTTP, Redis, gRPC, metrics, the reading of the
-- environment, the command lines, generated code, and the parts in Rust and Python. Error texts are
-- mostly left out; errors are constructors.
pub mod Auth
pub mod Base
pub mod Config
pub mod Kube
pub mod Naming
pub mod Pool
pub mod RateLimit
pub mod Scheduler
pub mod Session
