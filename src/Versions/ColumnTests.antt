-- ===== src/Versions/ColumnTests.antt =====
-- An entry of the columnar main with two versions, before the row of another key.
use tellstore.Prelude.{ℕ, ◌≡◌, refl, Bool, true, false, [], ◌∷◌, ◌==◌, leb, if◌then◌else◌}
use tellstore.Versions.{SnapshotDescriptor, RecordType, found}
use tellstore.Versions.ColumnRecord.{
  ColumnMapMainEntry, ColumnMapMainPage, get, can_update, can_revert,
}
use tellstore.Versions.ColumnLaws.{column_versions, column_record_lem}
use tellstore.Versions.History.{below, read, write_check, newest_is}

abbrev rows : ℕ → ColumnMapMainEntry
rows i =
    if i == 0
    then record { key = 7; version = 9 }
    else if i == 1
    then record { key = 7; version = 4 }
    else record { key = 8; version = 2 }

-- The newest version of the key 7 is a deletion.
abbrev page : ColumnMapMainPage
page = record {
  count = 3;
  entry_data = rows;
  size_data = λ i. if i == 0 then 0 else 1;
  row_data = λ i. i ∷ [];
}

abbrev snapshot : SnapshotDescriptor
snapshot = record { version = 6; in_read_set = λ v. leb v 5 }

column_record_lem_example :
    ((is_newest : Bool)
      → get page 0 20 snapshot is_newest
        ≡ read (below 20 (column_versions page 0)) snapshot is_newest)
    × ((type : RecordType)
        → can_update page 0 20 snapshot type
          ≡ write_check (below 20 (column_versions page 0)) snapshot type)
    × ((can_revert page 0 20 snapshot).1 ≡ newest_is 6 (below 20 (column_versions page 0)))
column_record_lem_example = column_record_lem page 0 20 snapshot

column_get_test : get page 0 20 snapshot true ≡ found 4 false (1 ∷ [])
unfolding get
column_get_test = refl
