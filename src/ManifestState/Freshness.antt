-- ===== src/ManifestState/Freshness.antt =====
-- The promise of the fence: under every interleaving of loaders with the installation of new manifests
-- and their announcement, what an owner keeps was read from a manifest no older than the one it was last
-- told of.
use guardian_tracker.Prelude.{
  ℕ, ◌+◌, ◌<◌, ◌≤◌, ◌≡◌, refl, Option, some, List, [], ◌∷◌, String, if◌then◌else◌, arith, ◌≢◌,
  nat_eq, string_eq, ◌==◌, ◌⊎◌, true, false, sym, ◌∙◌, subst, Bool-cases, beq→eq, get_elem?,
  Option-cases, inl, inr,
}
use guardian_tracker.ManifestState.{Owner, u64, publish}
use guardian_tracker.ManifestState.Schedule.{
  Loader, System, Move, arrive, reads, commits, installs, announces, start, commit_at, installed,
  announced, move, moves, IsNamed, AllNamed, moves-turns-le,
}
use guardian_tracker.ManifestState.Timely.{
  Timely, AllTimely, AllTimely-epoch, AllTimely-turn, AllTimely-get_elem?, AllTimely-set,
}

record IsFresh (s : System) : Type 0 where
  counted : s.owner.generation ≡ u64 (s.turns + 1)
  timely : AllTimely s.turns s.told s.epoch s.loaders
  kept : (n : ℕ) → s.owner.state ≡ some n → (s.told ≤ n) × (n ≤ s.epoch)
  behind : s.told ≤ s.epoch
  settled : s.announcing ≡ false → s.told ≡ s.epoch
  same : s.owner.version ≡ s.version → s.told ≡ s.epoch
  named : s.announcing ≡ true → (s.version == "") ≡ false
  last : s.announcing ≡ false → (s.owner.version ≡ s.version) ⊎ (s.owner.version ≡ "")

commit_at-version : (l : Loader) (p : Owner (Option ℕ)) → (commit_at (some l) p).version ≡ p.version
unfolding publish
commit_at-version l p = ground arith

commit_at-generation :
    (l : Loader) (p : Owner (Option ℕ)) → (commit_at (some l) p).generation ≡ p.generation
unfolding publish
commit_at-generation l p = ground arith

same_turn :
    (began turns : ℕ)
    → began ≤ turns
    → turns < 18446744073709551615
    → u64 (began + 1) ≡ u64 (turns + 1)
    → began ≡ turns
same_turn began turns le few e = omega (arith, le, few, e)

-- A commit that passes the fence belongs to a loader that began in the current turn.
commit-kept :
    (l : Loader) (s : System)
    → s.turns < 18446744073709551615
    → Timely s.turns s.told s.epoch l
    → IsFresh s
    → (n : ℕ) → (commit_at (some l) s.owner).state ≡ some n
    → (s.told ≤ n) × (n ≤ s.epoch)
unfolding publish
commit-kept l s few t f =
    rw t.0
      (λ n h. ground (arith, f.kept n, f.counted, t.1, t.2, t.3, same_turn l.began s.turns t.1 few))

commit-IsFresh :
    (l : Loader) (s : System)
    → s.turns < 18446744073709551615
    → Timely s.turns s.told s.epoch l
    → IsFresh s
    → IsFresh (record s { owner = commit_at (some l) s.owner })
commit-IsFresh l s few t f = record {
  counted = commit_at-generation l s.owner ∙ f.counted;
  timely = f.timely;
  kept = commit-kept l s few t f;
  behind = f.behind;
  settled = f.settled;
  same = λ e. f.same (sym (commit_at-version l s.owner) ∙ e);
  named = f.named;
  last = λ idle. elim (f.last idle) [
    | inl e ↦ inl (commit_at-version l s.owner ∙ e)
    | inr e ↦ inr (commit_at-version l s.owner ∙ e)
  ];
}

-- The owner knows no version that is installed now for the first time.
installs-apart :
    (version : String) (s : System)
    → (version == "") ≡ false
    → (version == s.version) ≡ false
    → s.announcing ≡ false
    → IsFresh s
    → s.owner.version ≢ version
installs-apart version s named new free f e = elim (f.last free) [
  | inl known ↦ absurd (cc ((string_eq.beq_iff version s.version).1 (sym e ∙ known), new))
  | inr blank ↦ absurd (cc ((string_eq.beq_iff version "").1 (sym e ∙ blank), named))
]

installs-IsFresh :
    (version : String) (s : System)
    → (version == "") ≡ false
    → s.announcing ≡ false
    → IsFresh s
    → IsFresh (installed version s)
unfolding installed
installs-IsFresh version s named free f = elim (Bool-cases (version == s.version)) [
  | inl again ↦
      rw (installed, again)
        (record {
          counted = f.counted;
          timely = f.timely;
          kept = f.kept;
          behind = f.behind;
          settled = λ e. f.settled free;
          same = λ e. f.settled free;
          named = λ e. named;
          last = λ e. absurd (cc e);
        })
  | inr new ↦
      rw (installed, new)
        (record {
          counted = f.counted;
          timely =
              AllTimely-epoch s.turns s.told s.epoch (s.epoch + 1) s.loaders (omega arith) f.timely;
          kept = λ n h. ((f.kept n h).0, omega (arith, f.kept n h));
          behind = omega (arith, f.behind);
          settled = λ e. absurd (cc e);
          same = λ e. absurd (installs-apart version s named new free f e);
          named = λ e. named;
          last = λ e. absurd (cc e);
        })
]

-- An owner that is told of its own version keeps its turn, and one that is told of another begins a new
-- one with nothing held.
announces-IsFresh : (s : System) → s.announcing ≡ true → IsFresh s → IsFresh (announced s)
unfolding announced
announces-IsFresh s busy f = elim (Bool-cases (s.version == s.owner.version)) [
  | inl again ↦
      let current = sym (beq→eq s.version s.owner.version again) in
      rw (announced, f.named busy, again)
        (record {
          counted = f.counted;
          timely =
              subst (λ told. AllTimely s.turns told s.epoch s.loaders) (f.same current) f.timely;
          kept = λ n h. omega (arith, f.kept n h, f.same current);
          behind = omega arith;
          settled = λ e. refl;
          same = λ e. refl;
          named = λ e. absurd (cc e);
          last = λ e. inl current;
        })
  | inr new ↦
      rw (announced, f.named busy, new)
        (record {
          counted = ground (arith, f.counted);
          timely = AllTimely-turn s.turns s.told s.epoch s.epoch s.loaders f.timely;
          kept = λ n h. absurd (cc h);
          behind = omega arith;
          settled = λ e. refl;
          same = λ e. refl;
          named = λ e. absurd (cc e);
          last = λ e. inl refl;
        })
]

move-IsFresh :
    (m : Move) (s : System)
    → IsNamed m
    → (move m s).turns < 18446744073709551615
    → IsFresh s
    → IsFresh (move m s)
unfolding move
move-IsFresh arrive s named few f = record {
  counted = f.counted;
  timely = ((ground (arith, f.counted), omega arith, λ e. f.behind, omega arith), f.timely);
  kept = f.kept;
  behind = f.behind;
  settled = f.settled;
  same = f.same;
  named = f.named;
  last = f.last;
}
move-IsFresh (reads i) s named few f = elim (Option-cases (get_elem? s.loaders i)) [
  | inl missing ↦ rw (missing, move) f
  | inr (l, found) ↦
      let t = AllTimely-get_elem? s.turns s.told s.epoch s.loaders i f.timely found in
      rw (found, move)
        (record {
          counted = f.counted;
          timely =
              AllTimely-set s.turns s.told s.epoch s.loaders i (record l { read = s.epoch })
                f.timely (t.0, t.1, (λ e. f.behind), omega arith);
          kept = f.kept;
          behind = f.behind;
          settled = f.settled;
          same = f.same;
          named = f.named;
          last = f.last;
        })
]
move-IsFresh (commits i) s named few f = elim (Option-cases (get_elem? s.loaders i)) [
  | inl missing ↦ rw (missing, move) f
  | inr (l, found) ↦
      rw (found, move)
        (commit-IsFresh l s few
          (AllTimely-get_elem? s.turns s.told s.epoch s.loaders i f.timely found) f)
]
move-IsFresh (installs version) s named few f = elim (Bool-cases s.announcing) [
  | inl busy ↦ subst (λ b. IsFresh (if b then s else installed version s)) (sym busy) f
  | inr free ↦
      subst (λ b. IsFresh (if b then s else installed version s)) (sym free)
        (installs-IsFresh version s named free f)
]
move-IsFresh announces s named few f = elim (Bool-cases s.announcing) [
  | inr idle ↦ subst (λ b. IsFresh (if b then announced s else s)) (sym idle) f
  | inl busy ↦
      subst (λ b. IsFresh (if b then announced s else s)) (sym busy) (announces-IsFresh s busy f)
]

moves-IsFresh :
    (ms : List Move) (s : System)
    → AllNamed ms
    → (moves ms s).turns < 18446744073709551615
    → IsFresh s
    → IsFresh (moves ms s)
unfolding moves
moves-IsFresh [] s named few f = f
moves-IsFresh (m ∷ ms) s named few f =
    moves-IsFresh ms (move m s) named.1 few
      (move-IsFresh m s named.0 (omega (arith, few, moves-turns-le ms (move m s))) f)

start-IsFresh : (version : String) → IsFresh (start version)
unfolding start
start-IsFresh version = record {
  counted = refl;
  timely = tt;
  kept = λ n h. absurd (cc h);
  behind = omega arith;
  settled = λ e. refl;
  same = λ e. refl;
  named = λ e. absurd (cc e);
  last = λ e. inr refl;
}

pub kept_is_current :
    (version : String) (ms : List Move) (n : ℕ)
    → AllNamed ms
    → (moves ms (start version)).turns < 18446744073709551615
    → (moves ms (start version)).owner.state ≡ some n
    → let s = moves ms (start version) in
      (s.told ≤ n) × (n ≤ s.epoch) × (s.announcing ≡ false → n ≡ s.epoch)
kept_is_current version ms n named few h =
    let f = moves-IsFresh ms (start version) named few (start-IsFresh version) in
    let (low, high) = f.kept n h in (low, high, λ idle. omega (arith, low, high, f.settled idle))
