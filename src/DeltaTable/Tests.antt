-- ===== src/DeltaTable/Tests.antt =====
-- A table with a record in the main under 1 and one in the insert log under 2.
use tellstore.Prelude.{
  ℕ, true, false, none, some, List, [], ◌∷◌, ◌≡◌, refl, ◌==◌, if◌then◌else◌, arith, leb,
}
use tellstore.Versions.{
  SnapshotDescriptor, RecordHolder, UpdateLogEntry, found, data_type, delete_type, invalid_write,
}
use tellstore.Versions.Table.{updates}
use tellstore.Versions.History.{Version, live, lowest, below, read}
use tellstore.Versions.Contents.{contents}
use tellstore.Versions.Laws.{main_versions}
use tellstore.Versions.Refinement.{view, IsRecord, Fits}
use tellstore.DeltaTable.{Table, get, get_from_insert, generic_update, insert}
use tellstore.DeltaTable.Records.{
  main_view, first_of, record_of, IsMain, IsInsert, IsTable, read_of, get_lem,
}
use tellstore.DeltaTable.Writes.{FitsMain, FitsInsert, FitsTable, Wrote}
use tellstore.DeltaTable.Operations.{generic_update_lem, Appended, insert_tuple}

abbrev holder : ℕ → RecordHolder
holder n = record { version = n; payload = 7 ∷ [] }

abbrev write_at : ℕ → UpdateLogEntry
write_at n = record { version = n; type = data_type; payload = 9 ∷ [] }

abbrev table : Table
table = record {
  main = λ k.
      if k == 1
      then some (record { elements = holder 5 ∷ holder 2 ∷ []; newest = updates (write_at 6 ∷ []) })
      else none;
  inserts = λ k.
      if k == 2
      then some (record { holder = holder 3; newest = updates []; sealed = true })
      else none;
}

abbrev reader : ℕ → SnapshotDescriptor
reader n = record { version = n; in_read_set = λ v. leb v n }

table-IsTable_one : IsTable table 1
unfolding IsMain IsInsert IsRecord get_from_insert
table-IsTable_one = record {
  main_ok = ((omega arith, (omega arith, tt)), (omega arith, omega arith));
  insert_ok = tt;
}

table-IsTable_two : IsTable table 2
unfolding IsMain IsInsert IsRecord get_from_insert
table-IsTable_two = record { main_ok = tt; insert_ok = tt }

table-FitsTable_two : FitsTable table 2 8
unfolding FitsMain FitsInsert Fits get_from_insert
table-FitsTable_two = record { main_fits = tt; insert_fits = (omega arith, omega arith) }

table-IsTable_three : IsTable table 3
unfolding IsMain IsInsert IsRecord get_from_insert
table-IsTable_three = record { main_ok = tt; insert_ok = tt }

table-FitsTable_three : FitsTable table 3 8
unfolding FitsMain FitsInsert Fits get_from_insert
table-FitsTable_three = record { main_fits = tt; insert_fits = tt }

get_lem_example : get table 1 (reader 5) ≡ some (found 5 false (7 ∷ []))
unfolding record_of first_of main_view view main_versions contents live lowest below read_of read
get_lem_example = get_lem table 1 (reader 5) table-IsTable_one

generic_update_lem_example :
    (record_of table 2 ≡ none
      → generic_update table 2 [] (reader 8) delete_type true ≡ (invalid_write, table))
    × ((vs : List Version)
        → record_of table 2 ≡ some vs
        → Wrote table 2 []
            (reader 8)
            data_type
            delete_type
            vs
            (generic_update table 2 [] (reader 8) delete_type true))
generic_update_lem_example =
    generic_update_lem table 2 [] (reader 8) delete_type table-IsTable_two table-FitsTable_two refl

insert_tuple_example :
    (record_of table 3 ≡ none
      → Appended table 3 (4 ∷ []) 8 (insert table 3 (4 ∷ []) (reader 8) true))
    × ((vs : List Version)
        → record_of table 3 ≡ some vs
        → Wrote table 3
            (4 ∷ [])
            (reader 8)
            delete_type
            data_type
            vs
            (insert table 3 (4 ∷ []) (reader 8) true))
insert_tuple_example =
    insert_tuple table 3 (4 ∷ []) (reader 8) table-IsTable_three table-FitsTable_three (omega arith)
      (λ e at. cc)
