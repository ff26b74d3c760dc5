-- ===== src/Versions/Tests.antt =====
-- A record with two versions in the main and a write, an insert, and transactions on them.
use tellstore.Prelude.{Bool, ◌<◌, ℕ, ◌≡◌, refl, true, false, List, [], ◌∷◌, arith, leb, some}
use tellstore.Versions.{
  failed, not_found, UpdateLogEntry, max_version, SnapshotDescriptor, RecordHolder, data_type,
  delete_type, found,
}
use tellstore.Versions.InsertRecord.{insert_record}
use tellstore.Versions.MainRecord.{main_record}
use tellstore.Versions.Table.{
  main, updates, internal_get, internal_update, internal_revert, get_chain, collect_elements,
  Newest,
}
use tellstore.Versions.History.{live, lowest, below, read, write_check}
use tellstore.Versions.Contents.{contents}
use tellstore.Versions.Laws.{inserted_version, insert_laws, main_laws, main_versions}
use tellstore.Versions.Refinement.{
  view, IsRecord, Fits, Written, internal_get_lem, internal_update_lem,
}
use tellstore.Versions.Reverts.{Reverted, internal_revert_lem}
use tellstore.Versions.RevertResults.{
  has_number, has_updates, has_version, Returned, insert-RevertLaw, internal_revert_answer,
}
use tellstore.Versions.Writes.{Undone, revert-update, get-update}
use tellstore.Versions.Trimming.{OldestIsData, has_old, ReadsOld}
use tellstore.Versions.Collected.{collect_elements_lem}
use tellstore.Versions.CollectLaws.{main-CollectLaws}
use tellstore.Versions.Collection.{
  collect_elements-reverted_insert, data_entry, revert_entry, collect_elements-reverted,
  get_chain-below_base,
}

abbrev inserted : RecordHolder
inserted = record { version = 3; payload = 7 ∷ 8 ∷ [] }

abbrev in_main : List RecordHolder
in_main = (record { version = 5; payload = 1 ∷ [] }) ∷ (record { version = 2; payload = [] }) ∷ []

abbrev reverted : Newest
reverted = updates (revert_entry 6 ∷ data_entry 6 (9 ∷ []) ∷ [])

-- A transaction that reads all versions up to its own.
abbrev transaction : ℕ → SnapshotDescriptor
transaction n = record { version = n; in_read_set = λ v. leb v n }

reverted-IsRecord : IsRecord 3 reverted
unfolding IsRecord
reverted-IsRecord = (omega arith, omega arith)

reverted-Fits : Fits 3 reverted 8
unfolding Fits
reverted-Fits = (omega arith, omega arith)

reverted-view :
    view 3 (inserted_version inserted ∷ []) reverted ≡ some (inserted_version inserted ∷ [])
unfolding view contents live lowest below
reverted-view = refl

reverted-write_check : write_check (inserted_version inserted ∷ []) (transaction 8) data_type ≡ 0
unfolding write_check
reverted-write_check = refl

abbrev main_chain : Newest
main_chain = updates (data_entry 6 (9 ∷ []) ∷ [])

main_chain-IsRecord : IsRecord 5 main_chain
unfolding IsRecord
main_chain-IsRecord = (omega arith, omega arith)

main_chain-Fits : Fits 5 main_chain 8
unfolding Fits
main_chain-Fits = (omega arith, omega arith)

internal_get_lem_example :
    internal_get main_record in_main main_chain (transaction 5)
    ≡ some (true, some (found 5 false (1 ∷ [])))
unfolding view contents live lowest below read main_versions main_record
internal_get_lem_example =
    internal_get_lem main_record in_main (main_versions in_main)
      (main_laws 9 in_main (omega arith, (omega arith, tt))) main_chain (transaction 5)
      main_chain-IsRecord

internal_update_lem_example :
    Written (transaction 8) data_type delete_type [] 3 (inserted_version inserted ∷ []) reverted (
      internal_update insert_record inserted reverted [] (transaction 8) data_type delete_type true)
unfolding insert_record
internal_update_lem_example =
    internal_update_lem insert_record inserted (inserted_version inserted ∷ [])
      (insert_laws inserted) reverted [] (transaction 8) data_type delete_type reverted-IsRecord
      reverted-Fits refl refl

internal_revert_lem_example :
    Reverted 8 5
      (main_versions in_main)
      main_chain
      (internal_revert main_record in_main main_chain (transaction 8) true)
unfolding main_record
internal_revert_lem_example =
    internal_revert_lem main_record in_main (main_versions in_main)
      (main_laws 9 in_main (omega arith, (omega arith, tt))) main_chain (transaction 8)
      main_chain-IsRecord main_chain-Fits

revert-update_example : Undone insert_record inserted reverted (transaction 8) (
    internal_update insert_record inserted reverted
      (4 ∷ [])
      (transaction 8)
      data_type
      data_type
      true)
unfolding insert_record
revert-update_example =
    revert-update insert_record inserted (inserted_version inserted ∷ []) (insert_laws inserted)
      reverted (inserted_version inserted ∷ []) (4 ∷ []) (transaction 8) data_type data_type
      reverted-IsRecord reverted-Fits refl refl reverted-view (omega arith, tt) reverted-write_check

get-update_example :
    internal_get insert_record inserted
      (internal_update insert_record inserted reverted
        (4 ∷ [])
        (transaction 8)
        data_type
        data_type
        true).2
      (transaction 8)
    ≡ some (true, some (found 8 true (4 ∷ [])))
unfolding insert_record
get-update_example =
    get-update insert_record inserted (inserted_version inserted ∷ []) (insert_laws inserted)
      reverted (inserted_version inserted ∷ []) (4 ∷ []) (transaction 8) data_type data_type
      reverted-IsRecord reverted-Fits refl refl reverted-view refl reverted-write_check

collect_elements-reverted_example :
    (collect_elements insert_record inserted (revert_entry 6 ∷ data_entry 6 (9 ∷ []) ∷ []) 8
      ≡ some [])
    × ((snapshot : SnapshotDescriptor)
        → snapshot.in_read_set 3 ≡ true
        → get_chain insert_record inserted (revert_entry 6 ∷ data_entry 6 (9 ∷ []) ∷ []) snapshot
          ≡ some (found 3 true (7 ∷ 8 ∷ [])))
collect_elements-reverted_example =
    collect_elements-reverted inserted 6 8 (9 ∷ []) (omega arith) (omega arith)

get_chain-below_base_example :
    get_chain main_record in_main
      (data_entry 6 [] ∷ data_entry 4 (9 ∷ []) ∷ revert_entry 5 ∷ [])
      (transaction 5)
    ≡ some (found 5 false (1 ∷ []))
get_chain-below_base_example =
    get_chain-below_base (record { version = 5; payload = 1 ∷ [] })
      ((record { version = 2; payload = [] }) ∷ []) 4 6 (9 ∷ []) [] (transaction 5) (omega arith)
      (omega arith) refl refl refl

-- An insert that went into the main, which has no version of transaction 8 and a write that was reverted:
-- `internalRevert` answers false.
abbrev moved : Newest
moved = main in_main (updates (revert_entry 6 ∷ data_entry 6 (9 ∷ []) ∷ []))

moved-IsRecord : IsRecord 3 moved
unfolding IsRecord
moved-IsRecord = (omega arith, omega arith)

internal_revert_answer_example :
    Returned false moved (internal_revert insert_record inserted moved (transaction 8) true)
unfolding has_updates has_version has_number view contents live lowest below main_versions
    insert_record
internal_revert_answer_example =
    internal_revert_answer insert_record inserted (inserted_version inserted ∷ [])
      (insert-RevertLaw inserted) moved (transaction 8) true moved-IsRecord

collect_elements-reverted_insert_example :
    (collect_elements insert_record inserted (revert_entry 3 ∷ []) 2 ≡ some (inserted ∷ []))
    × ((snapshot : SnapshotDescriptor)
        → get_chain insert_record inserted (revert_entry 3 ∷ []) snapshot ≡ some (failed not_found))
collect_elements-reverted_insert_example =
    collect_elements-reverted_insert inserted 2 (omega arith) refl

-- A main entry whose older version is data, below a reverted and a live update.
abbrev kept_in_main : List RecordHolder
kept_in_main =
    (record { version = 5; payload = 1 ∷ [] }) ∷ (record { version = 2; payload = 3 ∷ [] }) ∷ []

abbrev kept_chain : List UpdateLogEntry
kept_chain = revert_entry 8 ∷ data_entry 8 (6 ∷ []) ∷ data_entry 7 (9 ∷ []) ∷ []

kept-OldestIsData : OldestIsData (contents 5 (main_versions kept_in_main) kept_chain)
unfolding OldestIsData contents live lowest below main_versions
kept-OldestIsData = λ e. cc

kept-has_old :
    has_old 6 (live 5 max_version kept_chain) ≡ false → 6 < lowest 5 max_version kept_chain
unfolding has_old live lowest
kept-has_old h = omega arith

collect_elements_lem_example :
    (elements : List RecordHolder) × ((collect_elements main_record kept_in_main kept_chain 6
        ≡ some elements)
      × ((snapshot : SnapshotDescriptor) (is_newest : Bool)
          → ReadsOld 6 snapshot
          → read (main_versions elements) snapshot is_newest
            ≡ read (contents 5 (main_versions kept_in_main) kept_chain) snapshot is_newest))
unfolding main_record
collect_elements_lem_example =
    collect_elements_lem main_record kept_in_main (main_versions kept_in_main)
      (main-CollectLaws 9 kept_in_main (omega arith, (omega arith, tt))) kept_chain 6
      (omega arith, omega arith) (λ h. cc, (λ h. refl, (λ h. refl, tt))) kept-OldestIsData
      kept-has_old
