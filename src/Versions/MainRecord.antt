-- ===== src/Versions/MainRecord.antt =====
-- Deltamain/rowstore/RowStoreRecord: `RowStoreRecordImpl` and `RowStoreRecord`, the entry of the main
-- with an array of versions, the newest first. The arrays of versions and of offsets are a list; a
-- loop on the index is a recursion on the list from that index.
use tellstore.Prelude.{ℕ, Bool, true, false, List, [], ◌∷◌, ◌==◌, ltb, leb, length, if◌then◌else◌}
use tellstore.Versions.{
  Payload, RecordType, data_type, delete_type, same_type, SnapshotDescriptor, RecordHolder, Lookup,
  found, missing, RecordImpl, not_in_snapshot, invalid_write,
}

-- `for (; i < versionCount && versions[i] >= highestVersion; ++i)`
unfoldable pub skip_overwritten : ℕ → List RecordHolder → List RecordHolder
skip_overwritten highest_version [] = []
skip_overwritten highest_version (e ∷ rest) =
    let skipped = skip_overwritten highest_version rest in
    if leb highest_version e.version then skipped else e ∷ rest

abbrev pub is_empty : Payload → Bool
is_empty [] = true
is_empty (x ∷ xs) = false

unfoldable pub get_from : List RecordHolder → SnapshotDescriptor → Bool → Lookup
get_from [] snapshot is_newest = missing is_newest
get_from (e ∷ rest) snapshot is_newest =
    let older = get_from rest snapshot false in
    if snapshot.in_read_set e.version
    then (if is_empty e.payload then missing is_newest else found e.version is_newest e.payload)
    else older

unfoldable pub get : List RecordHolder → ℕ → SnapshotDescriptor → Bool → Lookup
unfolding skip_overwritten get_from
get elements highest_version snapshot is_newest =
    get_from (skip_overwritten highest_version elements) snapshot is_newest

-- The loop on the versions newer than the lowest active one, and the one after it.
unfoldable pub collect_from : ℕ → List RecordHolder → List RecordHolder
collect_from min_version [] = []
collect_from min_version (e ∷ rest) =
    let older = collect_from min_version rest in
    if ltb min_version e.version then e ∷ older else e ∷ []

unfoldable pub collect : List RecordHolder → ℕ → ℕ → List RecordHolder
unfolding skip_overwritten collect_from
collect elements min_version highest_version =
    if leb highest_version min_version
    then []
    else collect_from min_version (skip_overwritten highest_version elements)

-- `canUpdate` and `canRevert` after the loop that skips.
unfoldable pub can_update_from : List RecordHolder → SnapshotDescriptor → RecordType → ℕ
can_update_from [] snapshot type = if same_type type delete_type then 0 else invalid_write
can_update_from (e ∷ rest) snapshot type =
    let actual_type = if is_empty e.payload then delete_type else data_type in
    if snapshot.in_read_set e.version
    then (if same_type type actual_type then 0 else invalid_write)
    else not_in_snapshot

unfoldable pub can_update : List RecordHolder → ℕ → SnapshotDescriptor → RecordType → ℕ
unfolding skip_overwritten can_update_from
can_update elements highest_version snapshot type =
    can_update_from (skip_overwritten highest_version elements) snapshot type

-- `canRevert` from the search of the version history on, which needs no revert.
unfoldable pub search_history : ℕ → List RecordHolder → ℕ
search_history version [] = 0
search_history version (e ∷ rest) =
    let older = search_history version rest in
    if ltb e.version version then 0 else if e.version == version then not_in_snapshot else older

unfoldable pub can_revert_from : List RecordHolder → SnapshotDescriptor → ℕ × Bool
unfolding search_history
can_revert_from [] snapshot = (0, false)
can_revert_from (e ∷ rest) snapshot =
    if ltb e.version snapshot.version
    then (0, false)
    else if ltb snapshot.version e.version
    then (search_history snapshot.version (e ∷ rest), false)
    else (0, true)

unfoldable pub can_revert : List RecordHolder → ℕ → SnapshotDescriptor → ℕ × Bool
unfolding skip_overwritten can_revert_from
can_revert elements highest_version snapshot =
    can_revert_from (skip_overwritten highest_version elements) snapshot

-- `baseVersion`: an entry has at least one version.
abbrev pub base_version : List RecordHolder → ℕ
base_version [] = 0
base_version (e ∷ rest) = e.version

unfoldable pub needs_cleaning_from : ℕ → List RecordHolder → Bool
needs_cleaning_from min_version [] = false
needs_cleaning_from min_version (e ∷ []) = ltb e.version min_version
needs_cleaning_from min_version (e ∷ e' ∷ rest) = needs_cleaning_from min_version (e' ∷ rest)

-- `needsCleaning`; the flag says whether the record has pending updates.
unfoldable pub needs_cleaning : List RecordHolder → Bool → ℕ → Bool
unfolding needs_cleaning_from
needs_cleaning elements has_updates min_version =
    if has_updates
    then true
    else if length elements == 1
    then false
    else needs_cleaning_from min_version elements

unfoldable pub main_record : RecordImpl (List RecordHolder)
unfolding get collect can_update can_revert
main_record = record {
  base_version = base_version;
  get = get;
  can_update = can_update;
  can_revert = can_revert;
  collect = collect;
}
