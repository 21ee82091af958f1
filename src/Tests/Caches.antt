-- ===== src/Tests/Caches.antt =====
-- The theorems on the caches at concrete caches.
use guardian_tracker.Prelude.{
  ℕ, ◌≡◌, refl, none, some, [], ◌∷◌, String, ◌==◌, arith, pos, lookup, string_eq, nat_eq,
  if◌then◌else◌,
}
use guardian_tracker.Prelude.Results.{Result, ok, err}
use guardian_tracker.Cache
use guardian_tracker.Cache.{MemoryCache, tick, stop, get_evict, run_cleanup}
use guardian_tracker.Cache.Laws.{IsWellFormed, get-run_cleanup}
use guardian_tracker.Cache.Load.{Readings}
use guardian_tracker.BoundedCache
use guardian_tracker.BoundedCache.{BoundedCache}
use guardian_tracker.BoundedCache.Laws.{IsBounded, operations-IsBounded}

-- One entry that expires at 20 and one that does not expire; five nanoseconds by default.
abbrev shelf : MemoryCache ℕ
shelf = record {
  items =
      ("a", record { value = 1; expires_at = some 20 })
      ∷ ("b", record { value = 2; expires_at = none })
      ∷ [];
  default_expiration = pos 5;
}

shelf-IsWellFormed : IsWellFormed shelf
unfolding lookup
shelf-IsWellFormed = (refl, (refl, tt))

get-run_cleanup_example :
    (Cache.get "b" 30 31 (run_cleanup (tick 25 ∷ stop ∷ []) shelf)).0
    ≡ (Cache.get "b" 30 31 shelf).0
get-run_cleanup_example =
    get-run_cleanup "b" 30 31 (tick 25 ∷ stop ∷ []) shelf shelf-IsWellFormed (omega arith, tt)

abbrev clock : Readings
clock = record { peeked = 30; evicted = 31; stored = 32 }

abbrev soon : Readings
soon = record { peeked = 34; evicted = 35; stored = 36 }

-- A memo of two entries that is full.
abbrev full_memo : BoundedCache ℕ String
full_memo = record { entries = (1, "one") ∷ (2, "two") ∷ []; max = 2 }

full_memo-IsBounded : IsBounded full_memo
unfolding lookup
full_memo-IsBounded = record { distinct = (refl, (refl, tt)); bounded = omega arith }

abbrev fetch : ℕ → Result String String
fetch k = if k == 3 then ok "three" else err "missing"

operations-IsBounded_example :
    IsBounded (BoundedCache.load 1 3 fetch none full_memo).1
    × IsBounded (BoundedCache.put 1 3 "three" full_memo)
    × IsBounded (BoundedCache.clear full_memo)
operations-IsBounded_example =
    operations-IsBounded 1 3 "three" fetch none full_memo (omega arith) full_memo-IsBounded
