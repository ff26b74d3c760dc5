-- ===== src/DeltaTable.antt =====
-- deltamain/Table: the operations of `Table` on a key, over the main table and the insert table, each as
-- the map from a key to the record that its pointer leads to. One thread at a time: the main table
-- does not change during an operation.
pub mod Records
pub mod Writes
pub mod Operations
mod Tests
use tellstore.Prelude.{
  ℕ, Bool, true, false, Option, none, some, List, [], update as store_at, if◌then◌else◌,
}
use tellstore.Versions.{
  Payload, RecordType, data_type, delete_type, SnapshotDescriptor, RecordHolder, Lookup, failed,
  out_of_memory, not_found, not_in_snapshot, invalid_write,
}
use tellstore.Versions.InsertRecord.{insert_record}
use tellstore.Versions.MainRecord.{main_record}
use tellstore.Versions.Table.{Newest, updates, internal_get, internal_update}

-- An entry of the main, and one of the insert log with its seal.
pub record MainEntry : Type 0 where
  pub elements : List RecordHolder
  pub newest : Newest

pub record InsertEntry : Type 0 where
  pub holder : RecordHolder
  pub newest : Newest
  pub sealed : Bool

pub record Table : Type 0 where
  pub main : ℕ → Option MainEntry
  pub inserts : ℕ → Option InsertEntry

-- `getFromInsert`
unfoldable pub get_from_insert : Table → ℕ → Option InsertEntry
get_from_insert t key = elim (t.inserts key) [
  | none ↦ none
  | some entry ↦ if entry.sealed then some entry else none
]

-- What `internalGet` returns, or what the code goes on with.
unfoldable pub or_else : Option (Bool × Option Lookup) → Option Lookup → Option Lookup
or_else none rest = none
or_else (some (true, some result)) rest = some result
or_else (some (true, none)) rest = rest
or_else (some (false, result)) rest = rest

-- The lookups of `get` in the main and in the insert table, each with what follows.
unfoldable pub get_insert : Option InsertEntry → SnapshotDescriptor → Option Lookup → Option Lookup
unfolding or_else
get_insert none snapshot rest = rest
get_insert (some e) snapshot rest =
    or_else (internal_get insert_record e.holder e.newest snapshot) rest

unfoldable pub get_main : Option MainEntry → SnapshotDescriptor → Option Lookup → Option Lookup
unfolding or_else
get_main none snapshot rest = rest
get_main (some e) snapshot rest =
    or_else (internal_get main_record e.elements e.newest snapshot) rest

unfoldable pub get : Table → ℕ → SnapshotDescriptor → Option Lookup
unfolding get_main get_insert get_from_insert
get t key snapshot =
    get_main (t.main key) snapshot
      (get_insert (get_from_insert t key) snapshot (some (failed not_found)))

-- What `internalUpdate` leaves of a table, with its result and its error code.
unfoldable pub update_main :
    Table
    → ℕ
    → MainEntry
    → Payload
    → SnapshotDescriptor
    → RecordType
    → RecordType
    → Bool
    → Bool × ℕ × Table
update_main t key entry payload snapshot expected_type new_type room =
    let (handled, ec, newest) =
      internal_update main_record entry.elements entry.newest payload snapshot expected_type
        new_type room in
    (handled, ec, record t { main = store_at t.main key (some (record entry { newest = newest })) })

unfoldable pub update_insert :
    Table
    → ℕ
    → InsertEntry
    → Payload
    → SnapshotDescriptor
    → RecordType
    → RecordType
    → Bool
    → Bool × ℕ × Table
update_insert t key entry payload snapshot expected_type new_type room =
    let (handled, ec, newest) =
      internal_update insert_record entry.holder entry.newest payload snapshot expected_type
        new_type room in
    (
      handled,
      ec,
      record t { inserts = store_at t.inserts key (some (record entry { newest = newest })) },
    )

-- The error code and the table, or what the code goes on with on the table as it was.
unfoldable pub or_retry : Bool × ℕ × Table → ℕ × Table → ℕ × Table
or_retry (handled, ec, t) rest = if handled then (ec, t) else rest

-- The lookups of a write in the main and in the insert table, each with what follows.
unfoldable pub write_insert :
    Option InsertEntry
    → Table
    → ℕ
    → Payload
    → SnapshotDescriptor
    → RecordType
    → RecordType
    → Bool
    → ℕ × Table
    → ℕ × Table
unfolding update_insert or_retry
write_insert none t key payload snapshot expected_type new_type room rest = rest
write_insert (some e) t key payload snapshot expected_type new_type room rest =
    or_retry (update_insert t key e payload snapshot expected_type new_type room) rest

unfoldable pub write_main :
    Option MainEntry
    → Table
    → ℕ
    → Payload
    → SnapshotDescriptor
    → RecordType
    → RecordType
    → Bool
    → ℕ × Table
    → ℕ × Table
unfolding update_main or_retry
write_main none t key payload snapshot expected_type new_type room rest = rest
write_main (some e) t key payload snapshot expected_type new_type room rest =
    or_retry (update_main t key e payload snapshot expected_type new_type room) rest

unfoldable pub write_through :
    Table
    → ℕ
    → Payload
    → SnapshotDescriptor
    → RecordType
    → RecordType
    → Bool
    → ℕ × Table
    → ℕ × Table
unfolding write_main write_insert get_from_insert
write_through t key payload snapshot expected_type new_type room rest =
    write_main (t.main key) t key payload snapshot expected_type new_type room
      (write_insert (get_from_insert t key) t key payload snapshot expected_type new_type room rest)

-- `genericUpdate`, `update` and `remove`
unfoldable pub generic_update :
    Table → ℕ → Payload → SnapshotDescriptor → RecordType → Bool → ℕ × Table
unfolding write_through
generic_update t key payload snapshot new_type room =
    write_through t key payload snapshot data_type new_type room (invalid_write, t)

unfoldable pub update : Table → ℕ → Payload → SnapshotDescriptor → Bool → ℕ × Table
unfolding generic_update
update t key payload snapshot room = generic_update t key payload snapshot data_type room

unfoldable pub remove : Table → ℕ → SnapshotDescriptor → Bool → ℕ × Table
unfolding generic_update
remove t key snapshot room = generic_update t key [] snapshot delete_type room

-- An invalid entry that `insert` found is removed before the append.
unfoldable pub remove_invalid : Table → ℕ → Table
unfolding get_from_insert
remove_invalid t key = elim (get_from_insert t key) [
  | none ↦ t
  | some entry ↦ record t { inserts = store_at t.inserts key none }
]

-- The new entry of `insert`. An entry that is there still, which has no seal, makes the insert table
-- refuse.
unfoldable pub append_insert : Table → ℕ → Payload → SnapshotDescriptor → ℕ × Table
append_insert t key payload snapshot =
    let entry : InsertEntry = record {
      holder = record { version = snapshot.version; payload = payload };
      newest = updates [];
      sealed = true;
    } in
    let inserted : ℕ × Table = (0, record t { inserts = store_at t.inserts key (some entry) }) in
    elim (t.inserts key) [ none ↦ inserted | some old ↦ (not_in_snapshot, t) ]

unfoldable pub insert : Table → ℕ → Payload → SnapshotDescriptor → Bool → ℕ × Table
unfolding write_through append_insert remove_invalid
insert t key payload snapshot room =
    let cleared = remove_invalid t key in
    let appended =
      if room then append_insert cleared key payload snapshot else (out_of_memory, cleared) in
    write_through t key payload snapshot delete_type data_type room appended
