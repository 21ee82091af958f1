-- ===== src/Lib.antt =====
-- GuardianTracker: the core of the API service, backend/api-service (Go).
--
-- The service answers questions about a player of a game from two kinds of data. The manifest is the
-- game's own database, which a remote service replaces now and then; the membership's data are
-- fetched for each account. Everything that is derived from either is cached, and the hard part of the
-- program is that readers, writers and refreshes run concurrently. On that stand the services that
-- index, classify and rank the items a player misses.
--
-- The parts and the files that model them, with paths below backend/api-service:
--
--   Cache            cache/cache.go. `get`, `set`, `remove` (Delete), `clear`, `run_cleanup` and
--                    `delete_expired` are the methods of MemoryCache. Get holds two locks one after
--                    the other, so `get_read` and `get_evict` are its two critical sections.
--   Cache.Load       cache/load.go. `load_if` and `load` are LoadIf and Load over `AnyCache`.
--   BoundedCache     services/items/boundedcache.go, with the methods by their names.
--   ManifestState    services/manifeststate/publication.go: the fence by which an owner of cached state
--                    refuses values read from an older manifest. Load is load.go.
--                    Schedule puts it beside services/bungie/manifest.go (Download): a manifest is
--                    installed first and announced later.
--   MembershipState  services/membershipstate, the same for each account.
--   Sources          services/sources/sources.go: what a source of items is called and how hard it is.
--   Efficiency       services/efficiency: Index is index.go and classify.go, Scoring is scoring.go,
--                    Milestone is milestone.go.
--   Accounts         db/users.go: the users table; Accounts.Sessions is the table of refresh sessions.
--   Auth             auth/roles.go; Auth.Revocation is auth/revocation.go with EndSession and
--                    EndAllSessions of auth/session.go.
--   Recommendations  services/recommendations/planner.go, over any ranker.
--   RollTargets      services/rolltargets/matching.go: which owned weapons satisfy the saved targets.
--   RollTargets.Dim  services/rolltargets/dimfile.go: the parser of wish lists in the format of DIM.
--   RollTargets.Service  services/rolltargets/service.go and rolltargets.go: validation and the port to
--                    the store; Service.Store and Service.Port are db/rolltargets.go and
--                    db/adapters/rolltargets.go; Service.Resolve and Service.Import are dimimport.go.
--   Auth.Tokens      auth/tokenstore.go; Auth.Tokens.Table is db/tokens.go.
--   Wishlist         services/wishlist: wishlist.go and entries.go; Wishlist.Complete is service.go, and
--                    Wishlist.Store is db/wishlist.go and db/adapters/wishlist.go.
--   Collections      services/collections/tree.go: the choice of the roots and the counts of a user.
--                    Collections.Contains is computeContains, Collections.Building is build, and
--                    Collections.Marking is markReferenced with the rest of buildTreeStructure. Their
--                    recursions are on fuel, one more than the number of nodes.
--   Prelude          what the other modules share.
--   Tests            the theorems at concrete data.
--
-- How they interact: the fences guard an owner's state of any type; Load of either fence is the cache's
-- load with `begin` before the lookup and `publish` around the store, so it is modelled on `AnyCache`.
-- Index classifies a source by `Sources.action_kind`, Scoring ranks the buckets of Index, and
-- Recommendations takes `rank` as its ranker. Auth.Revocation keeps its answers in the cache of Cache
-- and asks the tables of Accounts. RollTargets.Service and Wishlist are written against a port to their
-- store, which their tables with the constraints of the migrations implement; an import runs the same
-- validation as a single save. Collections.Building and Collections.Marking share the memo of
-- Collections.Contains, which each call may extend.
--
-- State and concurrency. A method under a lock is one function from state to state. Where a method
-- takes a lock more than once, or calls a loader between two critical sections, the model has one
-- function for each section, and what other goroutines do in between is an explicit list of events.
-- Locks, channels, contexts and logging have no other effect in the model.
--
-- Numbers. An instant or a duration is a number of nanoseconds, a duration with a sign; a generation
-- is a 64-bit counter and wraps. Weights of the ranking are floats that are multiples of a half; they
-- are counted in halves. A map is an association list whose order stands for the order of a `range`,
-- which the language leaves open, so what depends on it takes it as an argument. Every
-- loop is over a list, and so needs no fuel, but for the walks over the graph of Collections: theirs is
-- one more than the number of nodes, which is enough, since no node is entered twice on a path.
--
-- Parameters. `strings.ToLower`, `strings.TrimSpace` and the regular expression of classify.go come
-- with the language's library and are arguments of the definitions that use them; `strings.Contains`
-- is the library's search for a substring. The decimal print of `fmt` and `strconv` is an argument, and so
-- is `sort.Slice` in Collections, where equal names may stand in any order,
-- and `ORDER BY last_used_at` in Accounts.Sessions; `sort.SearchStrings` is
-- written out as what it finds in a sorted list. The cipher of Auth.Tokens and the remote service that
-- refreshes tokens are arguments too. The store behind the revocation
-- check, the repository and the reader of RollTargets, and the loaders of the caches are answers that
-- may be errors.
--
-- Not modelled: HTTP, the drivers of the databases, the remote service, configuration and logging, which
-- are input and output; the web page; and the services of the API other than those above. A transaction
-- of db/users.go is one step, since it locks the rows that it decides on; one that fails is no step.
pub mod Prelude
pub mod Cache
pub mod BoundedCache
pub mod ManifestState
pub mod MembershipState
pub mod Sources
pub mod Efficiency
pub mod Accounts
pub mod Auth
pub mod Recommendations
pub mod RollTargets
pub mod Tests
pub mod Wishlist
pub mod Collections
