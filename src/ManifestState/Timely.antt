-- ===== src/ManifestState/Timely.antt =====
-- The stamps of the loaders of a schedule: an attempt belongs to the turn in which it began, and one of
-- the current turn read no manifest older than the one that the owner was told of.
use guardian_tracker.Prelude.{
  ℕ, zero, suc, ◌+◌, ◌≤◌, ◌≡◌, some, List, [], ◌∷◌, arith, nat_eq, string_eq, get_elem?, set,
}
use guardian_tracker.ManifestState.{begun, u64}
use guardian_tracker.ManifestState.Schedule.{Loader}

abbrev pub Timely : ℕ → ℕ → ℕ → Loader → Type 0
Timely turns told epoch l =
    (l.attempt ≡ begun (u64 (l.began + 1)))
    × (l.began ≤ turns)
    × (l.began ≡ turns → told ≤ l.read)
    × (l.read ≤ epoch)

abbrev pub AllTimely : ℕ → ℕ → ℕ → List Loader → Type 0
AllTimely turns told epoch [] = Unit {0}
AllTimely turns told epoch (l ∷ ls) = Timely turns told epoch l × AllTimely turns told epoch ls

pub AllTimely-epoch :
    (turns told epoch later : ℕ) (ls : List Loader)
    → epoch ≤ later
    → AllTimely turns told epoch ls
    → AllTimely turns told later ls
AllTimely-epoch turns told epoch later [] h a = tt
AllTimely-epoch turns told epoch later (l ∷ ls) h a = (
  (a.0.0, a.0.1, a.0.2, omega (arith, h, a.0.3)),
  AllTimely-epoch turns told epoch later ls h a.1,
)

-- In a new turn no attempt is of the turn.
pub AllTimely-turn :
    (turns told told' epoch : ℕ) (ls : List Loader)
    → AllTimely turns told epoch ls
    → AllTimely (turns + 1) told' epoch ls
AllTimely-turn turns told told' epoch [] a = tt
AllTimely-turn turns told told' epoch (l ∷ ls) a = (
  (a.0.0, omega (arith, a.0.1), λ e. absurd (omega (arith, e, a.0.1)), a.0.3),
  AllTimely-turn turns told told' epoch ls a.1,
)

pub AllTimely-get_elem? :
    (turns told epoch : ℕ) (ls : List Loader) (i : ℕ) {l : Loader}
    → AllTimely turns told epoch ls
    → get_elem? ls i ≡ some l
    → Timely turns told epoch l
AllTimely-get_elem? turns told epoch [] i a h = absurd (cc)
AllTimely-get_elem? turns told epoch (x ∷ ls) zero a h = ground (arith, h, a)
AllTimely-get_elem? turns told epoch (x ∷ ls) (suc i) a h =
    AllTimely-get_elem? turns told epoch ls i a.1 h

pub AllTimely-set :
    (turns told epoch : ℕ) (ls : List Loader) (i : ℕ) (l : Loader)
    → AllTimely turns told epoch ls
    → Timely turns told epoch l
    → AllTimely turns told epoch (set ls i l)
AllTimely-set turns told epoch [] i l a h = tt
AllTimely-set turns told epoch (x ∷ ls) zero l a h = (h, a.1)
AllTimely-set turns told epoch (x ∷ ls) (suc i) l a h =
    (a.0, AllTimely-set turns told epoch ls i l a.1 h)
