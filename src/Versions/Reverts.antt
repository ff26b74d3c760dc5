-- ===== src/Versions/Reverts.antt =====
-- `internalRevert` against the list of versions, and a write with its revert.
use mathlib.Core.Option.{map as option_map}
use tellstore.Prelude.{
  ℕ, zero, suc, ◌<◌, ◌≡◌, refl, Bool, true, false, not, List, [], ◌∷◌, ◌++◌, arith, ltb, Bool-cases,
  ◌⊎◌, inl, inr, ap, length, ◌==◌, sym, Option, some,
}
use tellstore.Versions.{
  UpdateLogEntry, UpdateRecordIterator, next, iterate, max_version, RecordImpl, SnapshotDescriptor,
  revert_type,
}
use tellstore.Versions.MainRecord.{main_record}
use tellstore.Versions.Table.{
  Newest, updates, main, invalid, Outcome, RevertCheck, write, return, check_revert_at,
  check_revert, search_updates, internal_revert,
}
use tellstore.Versions.History.{Version, live, lowest, below, newest_is}
use tellstore.Versions.Iteration.{IsChain, Shows, iterate-Shows, next-Shows}
use tellstore.Versions.Contents.{RecordLaws, contents}
use tellstore.Versions.Laws.{main_versions, main_laws}
use tellstore.Versions.Chains.{contents_revert}
use tellstore.Versions.Refinement.{view, IsRecord, Fits, revert_versions}

module _ {R : Type 0} (impl : RecordImpl R) (r : R) where
  -- The search of the chain ends.
  pub search-ends :
      (fuel n : ℕ) (it : UpdateRecordIterator) (vs : List Version) (low : ℕ)
      → Shows (impl.base_version r) it vs low n
      → n < fuel
      → (number : ℕ) → (ec : ℕ) × (search_updates impl r fuel it number ≡ some ec)
  unfolding search_updates
  search-ends zero n it vs low shows h number = absurd (omega (arith, h))
  search-ends (suc fuel) n it vs low (inl (done, empty)) h number = rw done (0, refl)
  search-ends (suc fuel) n it vs low (inr (e, previous, (on, kept, in_, all, bound, fewer))) h
        number =
      let base : ℕ = impl.base_version r in
      let rest =
        search-ends fuel (length previous)
          (next base (record { current = e ∷ previous; lowest_version = e.version }))
          (live base e.version previous) (lowest base e.version previous)
          (next-Shows base e previous in_) (ground arith) number in
      rw on (elim (Bool-cases (ltb e.version number)) [
        | inl older ↦ rw older (0, refl)
        | inr newer ↦ elim (Bool-cases (e.version == number)) [
          | inl same ↦ rw (newer, same) (10, refl)
          | inr other ↦ rw (newer, other) rest
        ]
      ])

module _ {R : Type 0} (impl : RecordImpl R) (r : R) (versions : List Version)
    (laws : RecordLaws impl r versions) where
  abbrev base : ℕ
  base = impl.base_version r

  -- The record needs a revert if its newest version has the number, and else the code returns.
  abbrev Checked : Option RevertCheck → Bool → Type 0
  Checked check own =
      ((own ≡ true) × (check ≡ some write))
      ⊎ ((own ≡ false) × ((handled : Bool) × (ec : ℕ) × (check ≡ some (return handled ec))))

  check_revert-Shows :
      (n : ℕ) (it : UpdateRecordIterator) (vs : List Version) (low : ℕ)
      → Shows base it vs low n
      → (fuel : ℕ) (snapshot : SnapshotDescriptor) → n < fuel
      → Checked
          (check_revert_at impl r it fuel snapshot)
          (newest_is snapshot.version (vs ++ below low versions))
  unfolding check_revert_at newest_is
  check_revert-Shows n it vs low (inl (done, empty)) fuel snapshot h =
      rw (done, empty, sym (laws.can_revert_law low snapshot))
        (elim (Bool-cases (impl.can_revert r low snapshot).1) [
          | inl needed ↦ rw needed (inl (refl, refl))
          | inr done_ ↦ rw done_ (
              inr (
                refl,
                (
                  not ((impl.can_revert r low snapshot).0 == 0),
                  (impl.can_revert r low snapshot).0,
                  refl,
                ),
              ))
        ])
  check_revert-Shows n it vs low (inr (e, previous, (on, kept, in_, all, bound, fewer))) fuel
        snapshot h =
      let (ec, search) =
        search-ends impl r fuel n (record { current = e ∷ previous; lowest_version = e.version }) vs
          low (inr (e, previous, (refl, kept, in_, all, bound, fewer))) h snapshot.version in
      elim (Bool-cases (ltb e.version snapshot.version)) [
        | inl older ↦ rw (on, all, older) (inr (ground arith, (true, 0, refl)))
        | inr not_older ↦ elim (Bool-cases (ltb snapshot.version e.version)) [
          | inl newer ↦
              rw (on, all, not_older, newer, search) (inr (ground arith, (true, ec, refl)))
          | inr same ↦ rw (on, all, not_older, same) (inl (ground arith, refl))
        ]
      ]

  check_revert_lem :
      (chain : List UpdateLogEntry) (snapshot : SnapshotDescriptor)
      → IsChain base chain
      → Checked
          (check_revert impl r chain snapshot)
          (newest_is snapshot.version (contents base versions chain))
  unfolding check_revert contents
  check_revert_lem chain snapshot ok =
      check_revert-Shows (length chain) (iterate base chain) (live base max_version chain)
        (lowest base max_version chain) (iterate-Shows base chain ok) (suc (length chain)) snapshot
        (omega arith)

-- The outcome of a revert with room in the log.
abbrev pub Reverted : ℕ → ℕ → List Version → Newest → Option Outcome → Type 0
Reverted number base versions newest result =
    (handled : Bool) × (ec : ℕ) × (newest' : Newest) × ((result ≡ some (handled, ec, newest'))
      × (view base versions newest'
          ≡ option_map (revert_versions number) (view base versions newest))
      × IsRecord base newest')

-- On a record whose base entry obeys the laws of `RecordImpl`, whose chain starts with no entry below its
-- base and whose main entries are in order, with room in the log and a snapshot that is not below the
-- base, `internalRevert` ends. If the newest version is the snapshot's own one, it takes away the
-- versions that are not older, and else it leaves all versions. The record stays such a record.
pub internal_revert_lem :
    {R : Type 0} (impl : RecordImpl R) (r : R) (versions : List Version)
    → RecordLaws impl r versions
    → (newest : Newest) (snapshot : SnapshotDescriptor) → IsRecord (impl.base_version r) newest
    → Fits (impl.base_version r) newest snapshot.version
    → Reverted snapshot.version
        (impl.base_version r)
        versions
        newest
        (internal_revert impl r newest snapshot true)
unfolding internal_revert view IsRecord Fits revert_versions main_record
internal_revert_lem impl r versions laws (updates chain) snapshot ok fits =
    elim (check_revert_lem impl r versions laws chain snapshot ok) [
      | inl (own, check) ↦
          rw (check, own)
            (
              true,
              0,
              updates (
                  (record { version = snapshot.version; type = revert_type; payload = [] })
                  ∷ chain),
              (
                refl,
                ap some (
                    contents_revert (impl.base_version r) versions
                      (record { version = snapshot.version; type = revert_type; payload = [] })
                      chain fits refl),
                fits,
              ),
            )
      | inr (other, (handled, ec, check)) ↦
          rw (check, other) (handled, ec, updates chain, (refl, refl, ok))
    ]
internal_revert_lem impl r versions laws (main elements newest) snapshot ok fits =
    let (handled, ec, newest', (run, after, ok')) =
      internal_revert_lem main_record elements (main_versions elements)
        (main_laws max_version elements ok.0) newest snapshot ok.1 fits in
    rw run (handled, ec, main elements newest', (refl, after, (ok.0, ok')))
internal_revert_lem impl r versions laws invalid snapshot ok fits =
    (false, 0, invalid, (refl, refl, tt))
