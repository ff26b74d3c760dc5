-- ===== src/Versions/Collected.antt =====
-- What `collectElements` hands to a new main entry, and what snapshots read there.
use mathlib.Core.Path.{subst}
use tellstore.Prelude.{
  ℕ, zero, suc, ◌≤◌, ◌<◌, ◌≡◌, refl, Bool, false, List, [], ◌∷◌, ◌++◌, arith, ltb, leb,
  if◌then◌else◌, Bool-cases, inl, inr, ap, ◌∙◌, Option, some, length, ◌==◌, le→leb,
}
use tellstore.Versions.{
  SnapshotDescriptor, RecordHolder, RecordImpl, UpdateLogEntry, UpdateRecordIterator, forward, next,
  iterate, is_revert, max_version,
}
use tellstore.Versions.Table.{collect_updates, collect_elements, drop_delete}
use tellstore.Versions.History.{Version, version_of, live, lowest, read, below}
use tellstore.Versions.Iteration.{IsChain, Shows, iterate-Shows, next-Shows, lt→leb}
use tellstore.Versions.Contents.{contents}
use tellstore.Versions.Laws.{main_version, main_versions}
use tellstore.Versions.Trimming.{
  trim, has_old, trim-append, read-trim, OldestIsData, ReadsOld, trim-LastCounts, read-drop_delete,
}

abbrev pub holder_of : UpdateLogEntry → RecordHolder
holder_of e = record { version = e.version; payload = e.payload }

-- Deletions have the size 0, and written data has not.
abbrev pub IsSized : UpdateLogEntry → Type 0
IsSized e = is_revert e.type ≡ false → main_version (holder_of e) ≡ version_of e

abbrev pub AllSized : List UpdateLogEntry → Type 0
AllSized [] = Unit
AllSized (e ∷ previous) = IsSized e × AllSized previous

forward-AllSized :
    (base bound : ℕ) (chain : List UpdateLogEntry)
    → AllSized chain
    → AllSized (forward base bound chain).current
unfolding forward
forward-AllSized base bound [] all = tt
forward-AllSized base bound (e ∷ previous) all = elim (Bool-cases (ltb e.version base)) [
  | inl cut ↦ rw cut tt
  | inr in_ ↦ elim (Bool-cases (leb bound e.version)) [
    | inl skip ↦ rw (in_, skip) (forward-AllSized base bound previous all.1)
    | inr new ↦ elim (Bool-cases (is_revert e.type)) [
      | inl reverted ↦ elim (Bool-cases (e.version == base)) [
        | inl last ↦ rw (in_, new, reverted, last) tt
        | inr more ↦ rw (in_, new, reverted, more) (forward-AllSized base e.version previous all.1)
      ]
      | inr kept ↦ rw (in_, new, kept) all
    ]
  ]
]

next-AllSized :
    (base low : ℕ) (e : UpdateLogEntry) (previous : List UpdateLogEntry)
    → AllSized previous
    → AllSized (next base (record { current = e ∷ previous; lowest_version = low })).current
unfolding next
next-AllSized base low e previous all = elim (Bool-cases (e.version == base)) [
  | inl last ↦ rw last tt
  | inr more ↦ rw more (forward-AllSized base low previous all)
]

iterate-AllSized :
    (base : ℕ) (chain : List UpdateLogEntry)
    → AllSized chain
    → AllSized (iterate base chain).current
unfolding iterate
iterate-AllSized base [] all = tt
iterate-AllSized base (e ∷ previous) all = elim (Bool-cases (is_revert e.type)) [
  | inl reverted ↦ rw reverted (next-AllSized base e.version e previous all.1)
  | inr kept ↦ rw kept all
]

-- What `collect` of a base entry with the versions `versions` hands on.
pub record CollectLaws {R : Type 0} (impl : RecordImpl R) (r : R) (versions : List Version)
    : Type 0 where
  pub nothing :
      (min_version highest : ℕ) → highest ≤ min_version → impl.collect r min_version highest ≡ []
  pub trimmed :
      (min_version highest : ℕ)
      → min_version < highest
      → main_versions (impl.collect r min_version highest)
        ≡ trim min_version (below highest versions)

append_nil : (vs : List Version) → vs ++ [] ≡ vs
append_nil [] = refl
append_nil (v ∷ vs) = ap (λ l. v ∷ l) (append_nil vs)

main_versions-append :
    (xs ys : List RecordHolder) → main_versions (xs ++ ys) ≡ main_versions xs ++ main_versions ys
unfolding main_versions
main_versions-append [] ys = refl
main_versions-append (x ∷ xs) ys = ap (λ l. main_version x ∷ l) (main_versions-append xs ys)

module _ {R : Type 0} (impl : RecordImpl R) (r : R) (versions : List Version)
    (laws : CollectLaws impl r versions) where
  abbrev base : ℕ
  base = impl.base_version r

  -- The loop on the updates ends with the trimmed live versions, and with a lowest version that stops
  -- `collect` if one of them is old enough.
  abbrev LoopEnds : ℕ → Option (List RecordHolder × ℕ) → List Version → ℕ → Type 0
  LoopEnds min_version result vs low =
      (elements : List RecordHolder) × (end : ℕ) × ((result ≡ some (elements, end))
        × (main_versions elements ≡ trim min_version vs)
        × (if has_old min_version vs then end ≤ min_version else end ≡ low))

  collect_updates-Shows :
      (fuel n : ℕ) (it : UpdateRecordIterator) (vs : List Version) (low min_version : ℕ)
      → Shows base it vs low n
      → n < fuel
      → AllSized it.current
      → LoopEnds min_version (collect_updates impl r fuel it min_version) vs low
  unfolding collect_updates trim has_old main_versions
  collect_updates-Shows zero n it vs low min_version shows h all = absurd (omega (arith, h))
  collect_updates-Shows (suc fuel) n it vs low min_version (inl (done, empty)) h all =
      rw (done, empty) ([], low, (refl, refl, refl))
  collect_updates-Shows (suc fuel) n it vs low min_version
        (inr (e, previous, (on, kept, in_, every, bound, fewer))) h all =
      let sized : AllSized (e ∷ previous) = subst (λ i. AllSized i.current) on all in
      let (elements, end, (run, same, stop)) =
        collect_updates-Shows fuel (length previous)
          (next base (record { current = e ∷ previous; lowest_version = e.version }))
          (live base e.version previous) (lowest base e.version previous) min_version
          (next-Shows base e previous in_) (ground arith)
          (next-AllSized base e.version e previous sized.1) in
      rw (on, every, bound)
        (elim (Bool-cases (ltb min_version e.version)) [
          | inl newer ↦
              rw (newer, lt→leb e.version min_version (ground arith), run)
                (
                  holder_of e ∷ elements,
                  end,
                  (
                    refl,
                    ap (λ v. v ∷ main_versions elements) (sized.0 kept)
                        ∙ ap (λ l. version_of e ∷ l) same,
                    stop,
                  ),
                )
          | inr old ↦
              rw (old, le→leb e.version min_version (ground arith))
                (holder_of e ∷ [], e.version, (refl, ap (λ v. v ∷ []) (sized.0 kept), ground arith))
        ])

  -- The elements before the deletion at the end is dropped.
  collected-trim :
      (chain : List UpdateLogEntry) (min_version : ℕ) (elements : List RecordHolder) (end : ℕ)
      → main_versions elements ≡ trim min_version (live base max_version chain)
      → (if has_old min_version (live base max_version chain)
          then end ≤ min_version
          else end ≡ lowest base max_version chain)
      → (has_old min_version (live base max_version chain) ≡ false
          → min_version < lowest base max_version chain)
      → main_versions (elements ++ impl.collect r min_version end)
        ≡ trim min_version (contents base versions chain)
  unfolding contents main_versions
  collected-trim chain min_version elements end same stop reverts =
      rw
        (
          main_versions-append elements (impl.collect r min_version end),
          same,
          trim-append min_version (live base max_version chain)
              (below (lowest base max_version chain) versions),
        )
        (elim (Bool-cases (has_old min_version (live base max_version chain))) [
          | inl old ↦
              rw (old, laws.nothing min_version end (rw old at stop))
                (append_nil (trim min_version (live base max_version chain)))
          | inr new ↦
              rw
                (
                  new,
                  rw new at stop,
                  laws.trimmed min_version (lowest base max_version chain) (reverts new),
                )
                refl
        ])

  -- On a record whose base entry obeys `CollectLaws`, whose chain starts with no entry below its base and
  -- has the size 0 for deletions alone, and whose oldest version is data, if no revert takes the
  -- lowest version of the chain down to the lowest active one (or a live version is old enough),
  -- `collectElements` ends with elements in which every snapshot that reads all versions up to the
  -- lowest active one reads what it read before.
  pub collect_elements_lem :
      (chain : List UpdateLogEntry) (min_version : ℕ)
      → IsChain base chain
      → AllSized chain
      → OldestIsData (contents base versions chain)
      → (has_old min_version (live base max_version chain) ≡ false
          → min_version < lowest base max_version chain)
      → (elements : List RecordHolder) × ((collect_elements impl r chain min_version
            ≡ some elements)
          × ((snapshot : SnapshotDescriptor) (is_newest : Bool)
              → ReadsOld min_version snapshot
              → read (main_versions elements) snapshot is_newest
                ≡ read (contents base versions chain) snapshot is_newest))
  unfolding collect_elements
  collect_elements_lem chain min_version ok sized oldest reverts =
      let (elements, end, (run, same, stop)) =
        collect_updates-Shows (suc (length chain)) (length chain) (iterate base chain)
          (live base max_version chain) (lowest base max_version chain) min_version
          (iterate-Shows base chain ok) (omega arith) (iterate-AllSized base chain sized) in
      let all = elements ++ impl.collect r min_version end in
      let trimmed = collected-trim chain min_version elements end same stop reverts in
      rw (collect_elements, run)
        (
          drop_delete all,
          (
            refl,
            λ snapshot is_newest reads.
                read-drop_delete all snapshot is_newest (
                  rw trimmed (
                    trim-LastCounts min_version (contents base versions chain) snapshot reads
                      oldest))
                ∙ (ap (λ vs. read vs snapshot is_newest) trimmed
                    ∙ read-trim min_version (contents base versions chain) snapshot is_newest
                        reads),
          ),
        )
