-- ===== src/Versions/InsertRecord.antt =====
-- Deltamain/Record: `InsertRecordImpl` and `InsertRecord`, the entry of an insert log with its one
-- version.
use tellstore.Prelude.{ℕ, Bool, not, ◌||◌, List, [], ◌∷◌, ◌==◌, leb, if◌then◌else◌}
use tellstore.Versions.{
  RecordType, data_type, delete_type, same_type, SnapshotDescriptor, RecordHolder, Lookup, failed,
  found, missing, RecordImpl, not_in_snapshot, invalid_write,
}

unfoldable pub get : RecordHolder → ℕ → SnapshotDescriptor → Bool → Lookup
get entry highest_version snapshot is_newest =
    if leb highest_version entry.version
    then missing is_newest
    else if snapshot.in_read_set entry.version
    then found entry.version is_newest entry.payload
    else failed not_in_snapshot

unfoldable pub collect : RecordHolder → ℕ → ℕ → List RecordHolder
collect entry min_version highest_version =
    if leb highest_version min_version then [] else entry ∷ []

unfoldable pub can_update : RecordHolder → ℕ → SnapshotDescriptor → RecordType → ℕ
can_update entry highest_version snapshot type =
    if leb highest_version entry.version
    then (if same_type type delete_type then 0 else invalid_write)
    else if snapshot.in_read_set entry.version
    then (if same_type type data_type then 0 else invalid_write)
    else not_in_snapshot

unfoldable pub can_revert : RecordHolder → ℕ → SnapshotDescriptor → ℕ × Bool
can_revert entry highest_version snapshot =
    (0, not (leb highest_version entry.version || not (entry.version == snapshot.version)))

unfoldable pub insert_record : RecordImpl RecordHolder
unfolding get collect can_update can_revert
insert_record = record {
  base_version = λ entry. entry.version;
  get = get;
  can_update = can_update;
  can_revert = can_revert;
  collect = collect;
}
