-- ===== src/Versions/Table.antt =====
-- Deltamain/Table: the operations of `Table` on one record, `internalGet`, `internalUpdate`,
-- `canUpdate` and `internalRevert`, and `collectElements` of deltamain/rowstore/RowStorePage. One thread
-- at a time: `tryUpdate` succeeds.
use mathlib.Core.Option.{map as option_map}
use tellstore.Prelude.{
  ℕ, not, zero, suc, Bool, true, false, Option, none, some, List, [], ◌∷◌, ◌++◌, ◌==◌, ltb, leb,
  length, if◌then◌else◌,
}
use tellstore.Versions.{
  Payload, RecordType, delete_type, revert_type, same_type, UpdateLogEntry, SnapshotDescriptor,
  UpdateRecordIterator, iterate, next, RecordHolder, Lookup, found, missing, RecordImpl,
  out_of_memory, not_in_snapshot, invalid_write,
}
use tellstore.Versions.MainRecord.{main_record, is_empty}

-- The field `newest` of an entry, by its tag: a chain of updates, the main entry that the garbage
-- collection put in the place of this one, with its versions and its own field, or the invalid mark.
pub data Newest : Type 0 where
  updates : List UpdateLogEntry → Newest
  main : List RecordHolder → Newest → Newest
  invalid : Newest

-- What an operation returns, its error code, and the field `newest` afterwards.
abbrev pub Outcome : Type 0
Outcome = Bool × ℕ × Newest

-- `internalRevert` before its write: the record needs a revert, or the result and the error code.
pub data RevertCheck : Type 0 where
  write : RevertCheck
  return : Bool → ℕ → RevertCheck

module _ {R : Type 0} (impl : RecordImpl R) (r : R) where
  -- The loop of `internalGet` on the updates; the fuel bounds its rounds.
  unfoldable pub get_loop : ℕ → UpdateRecordIterator → SnapshotDescriptor → Bool → Option Lookup
  unfolding next
  get_loop zero it snapshot is_newest = none
  get_loop (suc fuel) it snapshot is_newest =
      let it' = next (impl.base_version r) it in
      let older = get_loop fuel it' snapshot false in
      elim it.current [
        | [] ↦ some (impl.get r it.lowest_version snapshot is_newest)
        | entry ∷ previous ↦
            if snapshot.in_read_set entry.version
            then some (
                if same_type entry.type delete_type
                then missing is_newest
                else found entry.version is_newest entry.payload)
            else older
      ]

  -- One round for each entry, and one that finds the iterator done.
  unfoldable pub get_chain : List UpdateLogEntry → SnapshotDescriptor → Option Lookup
  unfolding get_loop iterate
  get_chain chain snapshot =
      get_loop (suc (length chain)) (iterate (impl.base_version r) chain) snapshot true

  -- `canUpdate` from the iterator on, and all of it.
  unfoldable pub can_update_at : UpdateRecordIterator → SnapshotDescriptor → RecordType → ℕ
  can_update_at it snapshot expected_type = elim it.current [
    | [] ↦ impl.can_update r it.lowest_version snapshot expected_type
    | entry ∷ previous ↦
        if snapshot.in_read_set entry.version
        then (if same_type entry.type expected_type then 0 else invalid_write)
        else not_in_snapshot
  ]

  unfoldable pub can_update : List UpdateLogEntry → SnapshotDescriptor → RecordType → ℕ
  unfolding can_update_at iterate
  can_update chain snapshot expected_type =
      can_update_at (iterate (impl.base_version r) chain) snapshot expected_type

  -- The search of `internalRevert` for the version of the snapshot.
  unfoldable pub search_updates : ℕ → UpdateRecordIterator → ℕ → Option ℕ
  unfolding next
  search_updates zero it version = none
  search_updates (suc fuel) it version =
      let older = search_updates fuel (next (impl.base_version r) it) version in
      elim it.current [
        | [] ↦ some 0
        | entry ∷ previous ↦
            if ltb entry.version version
            then some 0
            else if entry.version == version
            then some not_in_snapshot
            else older
      ]

  -- `internalRevert` up to its write. Where `canRevert` needs no revert the code returns its error
  -- code as a Boolean, so the code 0 as false.
  unfoldable pub check_revert_at :
      UpdateRecordIterator → ℕ → SnapshotDescriptor → Option RevertCheck
  unfolding search_updates
  check_revert_at it fuel snapshot =
      let (ec, needs_revert) = impl.can_revert r it.lowest_version snapshot in
      let searched = search_updates fuel it snapshot.version in
      elim it.current [
        | [] ↦ if needs_revert then some write else some (return (not (ec == 0)) ec)
        | entry ∷ previous ↦
            if ltb entry.version snapshot.version
            then some (return true 0)
            else if ltb snapshot.version entry.version
            then option_map (return true) searched
            else some write
      ]

  unfoldable pub check_revert : List UpdateLogEntry → SnapshotDescriptor → Option RevertCheck
  unfolding check_revert_at iterate
  check_revert chain snapshot =
      check_revert_at (iterate (impl.base_version r) chain) (suc (length chain)) snapshot

  -- `collectElements`: the loop on the updates with the lowest version where it ends.
  unfoldable pub collect_updates : ℕ → UpdateRecordIterator → ℕ → Option (List RecordHolder × ℕ)
  unfolding next
  collect_updates zero it min_version = none
  collect_updates (suc fuel) it min_version =
      let older = collect_updates fuel (next (impl.base_version r) it) min_version in
      elim it.current [
        | [] ↦ some ([], it.lowest_version)
        | entry ∷ previous ↦
            let holder : RecordHolder = record {
              version = entry.version;
              payload = entry.payload;
            } in
            if leb entry.version min_version
            then some (holder ∷ [], it.lowest_version)
            else elim older [
              | none ↦ none
              | some (elements, lowest) ↦ some (holder ∷ elements, lowest)
            ]
      ]

-- `mElements.pop_back()` where the last element has the size 0.
unfoldable pub drop_delete : List RecordHolder → List RecordHolder
drop_delete [] = []
drop_delete (e ∷ []) = if is_empty e.payload then [] else e ∷ []
drop_delete (e ∷ e' ∷ rest) = e ∷ drop_delete (e' ∷ rest)

-- `collectElements`: the elements of the new entry, [] where the record is invalidated.
unfoldable pub collect_elements :
    {R : Type 0} → RecordImpl R → R → List UpdateLogEntry → ℕ → Option (List RecordHolder)
unfolding collect_updates drop_delete iterate
collect_elements impl r chain min_version =
    elim (collect_updates impl r (suc (length chain)) (iterate (impl.base_version r) chain)
      min_version) [
        | none ↦ none
        | some (elements, lowest) ↦
            some (drop_delete (elements ++ impl.collect r min_version lowest))
      ]

-- `internalGet`: false and no result where the record is invalid; it follows the link to a main entry.
unfoldable pub internal_get :
    {R : Type 0} → RecordImpl R → R → Newest → SnapshotDescriptor → Option (Bool × Option Lookup)
unfolding get_chain
internal_get impl r invalid snapshot = some (false, none)
internal_get impl r (main elements newest) snapshot =
    internal_get main_record elements newest snapshot
internal_get impl r (updates chain) snapshot =
    option_map (λ result. (true, some result)) (get_chain impl r chain snapshot)

-- `internalUpdate`; the last argument says whether the log has room for the entry.
unfoldable pub internal_update :
    {R : Type 0}
    → RecordImpl R
    → R
    → Newest
    → Payload
    → SnapshotDescriptor
    → RecordType
    → RecordType
    → Bool
    → Outcome
unfolding can_update
internal_update impl r invalid payload snapshot expected_type new_type room = (false, 0, invalid)
internal_update impl r (main elements newest) payload snapshot expected_type new_type room =
    let (handled, ec, newest') =
      internal_update main_record elements newest payload snapshot expected_type new_type room in
    (handled, ec, main elements newest')
internal_update impl r (updates chain) payload snapshot expected_type new_type room =
    let ec = can_update impl r chain snapshot expected_type in
    let entry : UpdateLogEntry = record {
      version = snapshot.version;
      type = new_type;
      payload = payload;
    } in
    if ec == 0
    then (if room then (true, 0, updates (entry ∷ chain)) else (true, out_of_memory, updates chain))
    else (true, ec, updates chain)

-- `internalRevert`
unfoldable pub internal_revert :
    {R : Type 0} → RecordImpl R → R → Newest → SnapshotDescriptor → Bool → Option Outcome
unfolding check_revert
internal_revert impl r invalid snapshot room = some (false, 0, invalid)
internal_revert impl r (main elements newest) snapshot room =
    option_map (λ (handled, ec, newest'). (handled, ec, main elements newest'))
      (internal_revert main_record elements newest snapshot room)
internal_revert impl r (updates chain) snapshot room =
    let entry : UpdateLogEntry = record {
      version = snapshot.version;
      type = revert_type;
      payload = [];
    } in
    option_map
      (λ check. elim check [
        | return handled ec ↦ (handled, ec, updates chain)
        | write ↦
            if room
            then (true, 0, updates (entry ∷ chain))
            else (true, out_of_memory, updates chain)
      ])
      (check_revert impl r chain snapshot)
