-- ===== src/Tests/Fences.antt =====
-- The theorems on the fences at concrete histories.
use guardian_tracker.Prelude.{
  ℕ, ◌≡◌, ◌≤◌, refl, false, none, some, List, [], ◌∷◌, String, arith, pos, lookup,
}
use guardian_tracker.Prelude.Results.{ok}
use guardian_tracker.Cache.Load.{Readings, AnyCache, no_op, any_get, any_set}
use guardian_tracker.ManifestState
use guardian_tracker.ManifestState.{advances, publishes, changes}
use guardian_tracker.ManifestState.Fence.{turns}
use guardian_tracker.ManifestState.Load.{load_if, load_if_miss}
use guardian_tracker.ManifestState.Schedule.{
  Move, arrive, reads, commits, installs, announces, start, moves,
}
use guardian_tracker.ManifestState.Freshness.{kept_is_current}
use guardian_tracker.MembershipState
use guardian_tracker.MembershipState.Fence.{refreshes}
use guardian_tracker.MembershipState.Load.{load, load_miss}

abbrev owner : ManifestState.Owner ℕ
owner = record { generation = 3; version = "v3"; state = 10 }

abbrev news : List (ManifestState.Event ℕ)
news = advances "v3" ∷ advances "v4" ∷ []

-- The version changed once, so the attempt that began before is refused.
abbrev readings : Readings
readings = record { peeked = 1; evicted = 1; stored = 2 }

abbrev shelf_owner : ManifestState.Owner (AnyCache ℕ)
shelf_owner = record { generation = 1; version = "v1"; state = no_op }

load_if_miss_example :
    load_if {E = String} some (λ x. x) (λ c. c) "k" (pos 5) readings (ok 8) none [] [] shelf_owner
    ≡ (ok 8, shelf_owner)
unfolding turns any_set any_get ManifestState.run guardian_tracker.ManifestState.Load.look_up
load_if_miss_example =
    load_if_miss {E = String} some (λ x. x) (λ c. c) "k" (pos 5) readings 8 none [] [] shelf_owner
      refl (omega arith) (omega arith)

-- A loader that read before the new version arrives commits too late; the second one is in time.
-- A loader publishes in the window, and is dropped; an older one comes too late; a newer one is kept.
abbrev swap : List Move
swap =
    arrive
    ∷ installs "v1"
    ∷ reads 0
    ∷ arrive
    ∷ commits 1
    ∷ announces
    ∷ commits 0
    ∷ arrive
    ∷ commits 0
    ∷ []

kept_is_current_example :
    ((moves swap (start "v0")).told ≤ 1)
    × (1 ≤ (moves swap (start "v0")).epoch)
    × ((moves swap (start "v0")).announcing ≡ false → 1 ≡ (moves swap (start "v0")).epoch)
unfolding moves start
kept_is_current_example =
    kept_is_current "v0" swap 1 (tt, (refl, (tt, (tt, (tt, (tt, (tt, (tt, (tt, tt)))))))))
      (omega arith) refl

abbrev account : MembershipState.Membership
account = (pos 3, "461")

abbrev other : MembershipState.Membership
other = (pos 3, "999")

abbrev accounts : MembershipState.Owner ℕ
accounts = record { generations = []; state = 10 }

abbrev empty_accounts : MembershipState.Owner (AnyCache ℕ)
empty_accounts = record { generations = []; state = no_op }

load_miss_example :
    load {E = String} some
      (λ x. x)
      (λ _ c. c)
      account
      "k"
      (pos 5)
      readings
      (ok 8)
      []
      []
      empty_accounts
    ≡ (ok 8, empty_accounts)
unfolding refreshes any_set any_get MembershipState.run
    guardian_tracker.MembershipState.Load.look_up lookup
load_miss_example =
    load_miss {E = String} some (λ x. x) (λ _ c. c) account "k" (pos 5) readings 8 [] []
      empty_accounts refl (omega arith) (omega arith)
