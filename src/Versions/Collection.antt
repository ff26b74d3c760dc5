-- ===== src/Versions/Collection.antt =====
-- Reverted versions and the garbage collection: `collectElements` of deltamain/rowstore/RowStorePage, and
-- a write below the base of a chain.
use tellstore.Prelude.{
  ℕ, ◌≤◌, ◌<◌, ◌≡◌, refl, true, false, List, [], ◌∷◌, ◌++◌, arith, ap, ◌∙◌, none, some, le→ltb,
  lt→ltb, le→leb, ==_ne, ==_refl,
}
use tellstore.Versions.{
  UpdateLogEntry, UpdateRecordIterator, forward, next, iterate, RecordHolder, SnapshotDescriptor,
  data_type, revert_type, Payload, found, failed, not_found,
}
use tellstore.Versions.InsertRecord
use tellstore.Versions.InsertRecord.{insert_record}
use tellstore.Versions.MainRecord
use tellstore.Versions.MainRecord.{main_record, base_version, skip_overwritten, get_from, is_empty}
use tellstore.Versions.Table.{get_loop, get_chain, collect_updates, collect_elements, drop_delete}
use tellstore.Versions.Iteration.{lt→leb}

abbrev pub data_entry : ℕ → Payload → UpdateLogEntry
data_entry version payload = record { version = version; type = data_type; payload = payload }

abbrev pub revert_entry : ℕ → UpdateLogEntry
revert_entry version = record { version = version; type = revert_type; payload = [] }

abbrev done_at : ℕ → UpdateRecordIterator
done_at version = record { current = []; lowest_version = version }

-- The iterator finds nothing in a chain with one write and its revert.
iterate-reverted :
    (base version : ℕ) (payload : Payload)
    → base < version
    → iterate base (revert_entry version ∷ data_entry version payload ∷ []) ≡ done_at version
unfolding iterate next forward
iterate-reverted base version payload h =
    rw
      (
        ==_ne version base (λ q. omega (arith, q, h)),
        le→ltb version base (omega (arith, h)),
        le→leb version version (omega arith),
      )
      refl

-- An inserted record whose only update was reverted, below the lowest active version: every
-- snapshot that reads the insert finds it, and the garbage collection collects nothing, so that it
-- drops the record.
pub collect_elements-reverted :
    (e : RecordHolder) (version min_version : ℕ) (payload : Payload)
    → e.version < version
    → version ≤ min_version
    → (collect_elements insert_record e
          (revert_entry version ∷ data_entry version payload ∷ [])
          min_version
        ≡ some [])
      × ((snapshot : SnapshotDescriptor)
          → snapshot.in_read_set e.version ≡ true
          → get_chain insert_record e
              (revert_entry version ∷ data_entry version payload ∷ [])
              snapshot
            ≡ some (found e.version true e.payload))
unfolding collect_elements collect_updates drop_delete insert_record InsertRecord.collect get_chain
    get_loop InsertRecord.get
collect_elements-reverted e version min_version payload h h' =
    let done = iterate-reverted e.version version payload h in
    (
      ap
            (λ it. elim (collect_updates insert_record e 3 it min_version) [
              | none ↦ none
              | some (elements, lowest) ↦
                  some (drop_delete (elements ++ InsertRecord.collect e min_version lowest))
            ])
            done
          ∙ rw (le→leb version min_version h') refl,
      λ snapshot visible.
          ap (λ it. get_loop insert_record e 3 it snapshot true) done
          ∙ rw (lt→leb version e.version h, visible) refl,
    )

iterate-reverted_insert :
    (version : ℕ) → iterate version (revert_entry version ∷ []) ≡ done_at version
unfolding iterate next
iterate-reverted_insert version = rw (==_refl version) refl

-- An insert that was reverted above the lowest active version: no lookup finds it, and the garbage
-- collection collects it, so that the new main entry has it as its newest version.
pub collect_elements-reverted_insert :
    (e : RecordHolder) (min_version : ℕ)
    → min_version < e.version
    → is_empty e.payload ≡ false
    → (collect_elements insert_record e (revert_entry e.version ∷ []) min_version ≡ some (e ∷ []))
      × ((snapshot : SnapshotDescriptor)
          → get_chain insert_record e (revert_entry e.version ∷ []) snapshot
            ≡ some (failed not_found))
unfolding collect_elements collect_updates drop_delete insert_record InsertRecord.collect get_chain
    get_loop InsertRecord.get
collect_elements-reverted_insert e min_version h full =
    let done = iterate-reverted_insert e.version in
    (
      ap
            (λ it. elim (collect_updates insert_record e 2 it min_version) [
              | none ↦ none
              | some (elements, lowest) ↦
                  some (drop_delete (elements ++ InsertRecord.collect e min_version lowest))
            ])
            done
          ∙ rw (lt→leb e.version min_version h, full) refl,
      λ snapshot.
          ap (λ it. get_loop insert_record e 2 it snapshot true) done
          ∙ rw (le→leb e.version e.version (omega arith)) refl,
    )

-- The step from the newer write finds the older one below the base.
next-below_base :
    (base older newer : ℕ) (written : Payload) (entry : UpdateLogEntry)
    (previous : List UpdateLogEntry)
    → older < base
    → base < newer
    → entry.version ≡ newer
    → next base
        (record { current = entry ∷ data_entry older written ∷ previous; lowest_version = newer })
      ≡ done_at newer
unfolding next forward
next-below_base base older newer written entry previous h h' at =
    rw (at, ==_ne newer base (λ q. omega (arith, q, h')), lt→ltb older base h) refl

-- A main entry whose newest version was reverted, then a write of an older transaction, then one of a
-- transaction that the snapshot does not read: the lookup stops at the older write, which is below
-- the base, and finds the reverted version.
pub get_chain-below_base :
    (e : RecordHolder) (rest : List RecordHolder) (older newer : ℕ) (written written' : Payload)
    → (snapshot : SnapshotDescriptor) → older < e.version
    → e.version < newer
    → is_empty e.payload ≡ false
    → snapshot.in_read_set newer ≡ false
    → snapshot.in_read_set e.version ≡ true
    → get_chain main_record
        (e ∷ rest)
        (data_entry newer written' ∷ data_entry older written ∷ revert_entry e.version ∷ [])
        snapshot
      ≡ some (found e.version false e.payload)
unfolding get_chain get_loop iterate main_record MainRecord.get skip_overwritten get_from
get_chain-below_base e rest older newer written written' snapshot h h' full unread read =
    let step =
      ap (λ it. get_loop main_record (e ∷ rest) 3 it snapshot false)
        (next-below_base e.version older newer written (data_entry newer written')
          (revert_entry e.version ∷ []) h h' refl) in
    rw unread (step ∙ rw (lt→leb newer e.version h', read, full) refl)
