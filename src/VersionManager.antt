-- ===== src/VersionManager.antt =====
-- util/VersionManager: the lowest active version, which any number of threads raise.
mod Tests
use tellstore.Prelude.{
  ℕ, ◌≤◌, ◌<◌, ◌≡◌, refl, Bool, true, false, ◌==◌, ltb, if◌then◌else◌, update, update-cases, arith,
  ◌⊎◌, inl, inr, Bool-cases,
}

-- Where a thread stands in `addSnapshot`: before its load, in the loop with the value that it has seen,
-- or after its return.
pub data Pc : Type 0 where
  loading : Pc
  comparing : ℕ → Pc
  added : Pc

-- `mLowestActiveVersion`, and the threads.
pub record VersionManager : Type 0 where
  pub lowest_active_version : ℕ
  pub threads : ℕ → Pc

-- The constructor.
abbrev pub new_manager : VersionManager
new_manager = record { lowest_active_version = 1; threads = λ i. loading }

-- The next access of a thread to the version, `version` being that of its snapshot: the value, and
-- where the thread stands then.
unfoldable pub add_snapshot_step : ℕ → ℕ → Pc → ℕ × Pc
add_snapshot_step version current loading = (current, comparing current)
add_snapshot_step version current (comparing seen) =
    if ltb seen version
    then (if current == seen then (version, added) else (current, comparing current))
    else (current, added)
add_snapshot_step version current added = (current, added)

module _ (versions : ℕ → ℕ) where
  unfoldable pub run_thread : VersionManager → ℕ → VersionManager
  unfolding add_snapshot_step
  run_thread s i =
      let (value, pc) = add_snapshot_step (versions i) s.lowest_active_version (s.threads i) in
      record { lowest_active_version = value; threads = update s.threads i pc }

  pub data Steps : VersionManager → VersionManager → Type 0 where
    none_more : (s : VersionManager) → Steps s s
    then_thread : {s t : VersionManager} (i : ℕ) → Steps s t → Steps s (run_thread t i)

  -- A value that a thread has seen is no greater than the present one, and neither is the version of
  -- a snapshot that was added.
  unfoldable pub IsBehind : ℕ → ℕ → Pc → Type 0
  IsBehind version current loading = Unit
  IsBehind version current (comparing seen) = seen ≤ current
  IsBehind version current added = version ≤ current

  IsBehind-mono :
      (version current later : ℕ) (pc : Pc)
      → current ≤ later
      → IsBehind version current pc
      → IsBehind version later pc
  unfolding IsBehind
  IsBehind-mono version current later loading h behind = tt
  IsBehind-mono version current later (comparing seen) h behind = omega (arith, h, behind)
  IsBehind-mono version current later added h behind = omega (arith, h, behind)

  step-IsBehind :
      (version current : ℕ) (pc : Pc)
      → IsBehind version current pc
      → (current ≤ (add_snapshot_step version current pc).0)
        × IsBehind version
            (add_snapshot_step version current pc).0
            (add_snapshot_step version current pc).1
  unfolding IsBehind add_snapshot_step
  step-IsBehind version current loading behind = (omega arith, omega arith)
  step-IsBehind version current (comparing seen) behind = elim (Bool-cases (ltb seen version)) [
    | inl below ↦ elim (Bool-cases (current == seen)) [
      | inl same ↦ rw (below, same) (ground arith, omega arith)
      | inr other ↦ rw (below, other) (omega arith, omega arith)
    ]
    | inr above ↦ rw above (omega arith, ground arith)
  ]
  step-IsBehind version current added behind = (omega arith, behind)

  abbrev AllBehind : VersionManager → Type 0
  AllBehind s = (i : ℕ) → IsBehind (versions i) s.lowest_active_version (s.threads i)

  thread-AllBehind :
      (s : VersionManager) (i : ℕ)
      → AllBehind s
      → (s.lowest_active_version ≤ (run_thread s i).lowest_active_version)
        × AllBehind (run_thread s i)
  unfolding run_thread
  thread-AllBehind s i behind =
      let (rises, own) =
        step-IsBehind (versions i) s.lowest_active_version (s.threads i) (behind i) in
      let (value, pc) = add_snapshot_step (versions i) s.lowest_active_version (s.threads i) in
      (
        rises,
        λ j. elim (update-cases s.threads i pc j) [
          | inl (at, new) ↦ rw (new, at) own
          | inr (ne, old) ↦ rw old (
              IsBehind-mono (versions j) s.lowest_active_version value (s.threads j) rises
                (behind j))
        ],
      )

  Steps-AllBehind :
      (s t : VersionManager)
      → Steps s t
      → AllBehind s
      → (s.lowest_active_version ≤ t.lowest_active_version) × AllBehind t
  Steps-AllBehind s t (none_more u) behind = (omega arith, behind)
  Steps-AllBehind s t (then_thread {t = u} i steps) behind =
      let (rises, all) = Steps-AllBehind s u steps behind in
      let (rises', all') = thread-AllBehind u i all in (omega (arith, rises, rises'), all')

  -- However the threads take turns from the new manager on, the lowest active version never falls, and
  -- it is not below the version of a snapshot whose `addSnapshot` has returned.
  pub lowest_active_version-Steps :
      (s t : VersionManager)
      → Steps new_manager s
      → Steps s t
      → (s.lowest_active_version ≤ t.lowest_active_version)
        × ((i : ℕ) → t.threads i ≡ added → versions i ≤ t.lowest_active_version)
  unfolding IsBehind
  lowest_active_version-Steps s t before after =
      let (_, all) = Steps-AllBehind new_manager s before (λ i. tt) in
      let (rises, all') = Steps-AllBehind s t after all in (rises, λ i at. rw at at (all' i))
