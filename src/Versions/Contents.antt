-- ===== src/Versions/Contents.antt =====
-- The interface between `Table` and a base entry: the laws of `RecordImpl` against the versions that
-- the entry holds, and what an operation of `Table` reads through it.
use tellstore.Prelude.{
  ℕ, zero, suc, ◌<◌, ◌≡◌, refl, Bool, true, false, List, ◌∷◌, ◌++◌, arith, if◌then◌else◌,
  Bool-cases, inl, inr, ap, length, none, some,
}
use tellstore.Versions.{
  is_revert, UpdateLogEntry, UpdateRecordIterator, next, iterate, max_version, RecordImpl,
  SnapshotDescriptor, RecordType, delete_type, same_type, missing, found, Payload, data_type,
  revert_type, invalid_write,
}
use tellstore.Versions.Table.{get_loop, get_chain, can_update_at, can_update}
use tellstore.Versions.History.{
  Version, live, lowest, below, read, newest_is, write_check, content_of, writable,
}
use tellstore.Versions.Iteration.{IsChain, Shows, iterate-Shows, next-Shows}

-- `versions` are those of the entry `r`, and the operations of `impl` respect them: an operation
-- sees the versions below the one that it is given.
pub record RecordLaws {R : Type 0} (impl : RecordImpl R) (r : R) (versions : List Version)
    : Type 0 where
  pub get_law :
      (highest : ℕ) (snapshot : SnapshotDescriptor) (is_newest : Bool)
      → impl.get r highest snapshot is_newest ≡ read (below highest versions) snapshot is_newest
  pub can_update_law :
      (highest : ℕ) (snapshot : SnapshotDescriptor) (type : RecordType)
      → impl.can_update r highest snapshot type ≡ write_check (below highest versions) snapshot type
  pub can_revert_law :
      (highest : ℕ) (snapshot : SnapshotDescriptor)
      → (impl.can_revert r highest snapshot).1 ≡ newest_is snapshot.version (below highest versions)

-- The versions of a record: the live ones of the chain, then those of the base that are older.
unfoldable pub contents : ℕ → List Version → List UpdateLogEntry → List Version
unfolding live lowest below
contents base versions chain =
    live base max_version chain ++ below (lowest base max_version chain) versions

-- An entry of the log, as a lookup and a write see it.
found-content :
    (type : RecordType) (payload : Payload) (n : ℕ) (is_newest : Bool)
    → (if same_type type delete_type then missing is_newest else found n is_newest payload)
      ≡ elim (content_of type payload) [ none ↦ missing is_newest | some p ↦ found n is_newest p ]
found-content data_type payload n is_newest = refl
found-content delete_type payload n is_newest = refl
found-content revert_type payload n is_newest = refl

writable-content :
    (type expected : RecordType) (payload : Payload)
    → is_revert type ≡ false
    → is_revert expected ≡ false
    → (if same_type type expected then 0 else invalid_write)
      ≡ writable (content_of type payload) expected
writable-content data_type data_type payload h h' = refl
writable-content data_type delete_type payload h h' = refl
writable-content delete_type data_type payload h h' = refl
writable-content delete_type delete_type payload h h' = refl
writable-content data_type revert_type payload h h' = ground (arith, h')
writable-content delete_type revert_type payload h h' = ground (arith, h')
writable-content revert_type expected payload h h' = ground (arith, h)

module _ {R : Type 0} (impl : RecordImpl R) (r : R) (versions : List Version)
    (laws : RecordLaws impl r versions) where
  abbrev base : ℕ
  base = impl.base_version r

  get_loop_lem :
      (fuel n : ℕ) (it : UpdateRecordIterator) (vs : List Version) (low : ℕ)
      → Shows base it vs low n
      → n < fuel
      → (snapshot : SnapshotDescriptor) (is_newest : Bool)
      → get_loop impl r fuel it snapshot is_newest
        ≡ some (read (vs ++ below low versions) snapshot is_newest)
  unfolding get_loop read
  get_loop_lem zero n it vs low shows h snapshot is_newest = absurd (omega (arith, h))
  get_loop_lem (suc fuel) n it vs low (inl (done, empty)) h snapshot is_newest =
      rw (done, empty) (ap some (laws.get_law low snapshot is_newest))
  get_loop_lem (suc fuel) n it vs low (inr (e, previous, (on, kept, in_, all, bound, fewer))) h
        snapshot is_newest =
      let rest =
        get_loop_lem fuel (length previous)
          (next base (record { current = e ∷ previous; lowest_version = e.version }))
          (live base e.version previous) (lowest base e.version previous)
          (next-Shows base e previous in_) (ground arith) snapshot false in
      rw (on, all, bound)
        (elim (Bool-cases (snapshot.in_read_set e.version)) [
          | inl visible ↦ rw visible (ap some (found-content e.type e.payload e.version is_newest))
          | inr invisible ↦ rw invisible rest
        ])

  -- The loop of `internalGet` ends and returns the newest version of the record that the snapshot
  -- reads.
  pub get_chain_lem :
      (chain : List UpdateLogEntry) (snapshot : SnapshotDescriptor)
      → IsChain base chain
      → get_chain impl r chain snapshot ≡ some (read (contents base versions chain) snapshot true)
  unfolding get_chain contents
  get_chain_lem chain snapshot ok =
      get_loop_lem (suc (length chain)) (length chain) (iterate base chain)
        (live base max_version chain) (lowest base max_version chain) (iterate-Shows base chain ok)
        (omega arith) snapshot true

  can_update-Shows :
      (n : ℕ) (it : UpdateRecordIterator) (vs : List Version) (low : ℕ)
      → Shows base it vs low n
      → (snapshot : SnapshotDescriptor) (type : RecordType) → is_revert type ≡ false
      → can_update_at impl r it snapshot type ≡ write_check (vs ++ below low versions) snapshot type
  unfolding can_update_at write_check
  can_update-Shows n it vs low (inl (done, empty)) snapshot type t =
      rw (done, empty) (laws.can_update_law low snapshot type)
  can_update-Shows n it vs low (inr (e, previous, (on, kept, in_, all, bound, fewer))) snapshot type
        t =
      rw (on, all)
        (elim (Bool-cases (snapshot.in_read_set e.version)) [
          | inl visible ↦ rw visible (writable-content e.type type e.payload kept t)
          | inr invisible ↦ rw invisible refl
        ])

  -- `canUpdate` decides by the newest version of the record.
  pub can_update_lem :
      (chain : List UpdateLogEntry) (snapshot : SnapshotDescriptor) (type : RecordType)
      → IsChain base chain
      → is_revert type ≡ false
      → can_update impl r chain snapshot type
        ≡ write_check (contents base versions chain) snapshot type
  unfolding contents can_update
  can_update_lem chain snapshot type ok t =
      can_update-Shows (length chain) (iterate base chain) (live base max_version chain)
        (lowest base max_version chain) (iterate-Shows base chain ok) snapshot type t
