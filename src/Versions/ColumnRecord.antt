-- ===== src/Versions/ColumnRecord.antt =====
-- Deltamain/colstore/ColumnMapRecord: `ColumnMapRecordImpl` and `ColumnMapRecord`, an entry of the
-- columnar main: the rows of a page with its key from its index on, the newest first. `row_data` is what
-- `materialize` writes for a row, which the record does not look at. The loops run over the rows up to
-- the end of the page.
use tellstore.Prelude.{ℕ, zero, suc, ◌+◌, ◌-◌, Bool, true, false, ◌==◌, ltb, leb, if◌then◌else◌}
use tellstore.Versions.{
  Payload, RecordType, data_type, delete_type, same_type, SnapshotDescriptor, Lookup, found,
  missing, not_in_snapshot, invalid_write,
}

pub record ColumnMapMainEntry : Type 0 where
  pub key : ℕ
  pub version : ℕ

pub record ColumnMapMainPage : Type 0 where
  pub count : ℕ
  pub entry_data : ℕ → ColumnMapMainEntry
  pub size_data : ℕ → ℕ
  pub row_data : ℕ → Payload

module _ (page : ColumnMapMainPage) (key : ℕ) where
  -- The loop of `get` with the rows that are left.
  unfoldable pub get_rows : ℕ → ℕ → ℕ → SnapshotDescriptor → Bool → Lookup
  get_rows zero i highest_version snapshot is_newest = missing is_newest
  get_rows (suc n) i highest_version snapshot is_newest =
      let entry = page.entry_data i in
      let older = get_rows n (i + 1) highest_version snapshot is_newest in
      let older' = get_rows n (i + 1) highest_version snapshot false in
      if entry.key == key
      then (if leb highest_version entry.version
          then older
          else if snapshot.in_read_set entry.version
          then (if page.size_data i == 0
              then missing is_newest
              else found entry.version is_newest (page.row_data i))
          else older')
      else missing is_newest

  unfoldable pub can_update_rows : ℕ → ℕ → ℕ → SnapshotDescriptor → RecordType → ℕ
  can_update_rows zero i highest_version snapshot type =
      if same_type type delete_type then 0 else invalid_write
  can_update_rows (suc n) i highest_version snapshot type =
      let entry = page.entry_data i in
      let older = can_update_rows n (i + 1) highest_version snapshot type in
      let actual_type = if page.size_data i == 0 then delete_type else data_type in
      if entry.key == key
      then (if leb highest_version entry.version
          then older
          else if snapshot.in_read_set entry.version
          then (if same_type type actual_type then 0 else invalid_write)
          else not_in_snapshot)
      else if same_type type delete_type
      then 0
      else invalid_write

  -- The search of the version history, which needs no revert.
  unfoldable pub search_rows : ℕ → ℕ → ℕ → ℕ
  search_rows zero i version = 0
  search_rows (suc n) i version =
      let entry = page.entry_data i in
      let older = search_rows n (i + 1) version in
      if entry.key == key
      then (if ltb entry.version version
          then 0
          else if entry.version == version
          then not_in_snapshot
          else older)
      else 0

  unfoldable pub can_revert_rows : ℕ → ℕ → ℕ → SnapshotDescriptor → ℕ × Bool
  unfolding search_rows
  can_revert_rows zero i highest_version snapshot = (0, false)
  can_revert_rows (suc n) i highest_version snapshot =
      let entry = page.entry_data i in
      let older = can_revert_rows n (i + 1) highest_version snapshot in
      if entry.key == key
      then (if leb highest_version entry.version
          then older
          else if ltb entry.version snapshot.version
          then (0, false)
          else if ltb snapshot.version entry.version
          then (search_rows (suc n) i snapshot.version, false)
          else (0, true))
      else (0, false)

-- The operations of the record at an index of the page.
module _ (page : ColumnMapMainPage) (index : ℕ) where
  abbrev pub own_key : ℕ
  own_key = (page.entry_data index).key

  abbrev pub base_version : ℕ
  base_version = (page.entry_data index).version

  unfoldable pub get : ℕ → SnapshotDescriptor → Bool → Lookup
  unfolding get_rows
  get highest_version snapshot is_newest =
      get_rows page own_key (page.count - index) index highest_version snapshot is_newest

  unfoldable pub can_update : ℕ → SnapshotDescriptor → RecordType → ℕ
  unfolding can_update_rows
  can_update highest_version snapshot type =
      can_update_rows page own_key (page.count - index) index highest_version snapshot type

  unfoldable pub can_revert : ℕ → SnapshotDescriptor → ℕ × Bool
  unfolding can_revert_rows
  can_revert highest_version snapshot =
      can_revert_rows page own_key (page.count - index) index highest_version snapshot
