-- ===== src/Lib.antt =====
-- TellStore is a distributed key-value store with versioned records. This library models the core of
-- its delta main storage engine and of the data structures that it stands on.
--
-- The parts, from the bottom:
-- - HashFunction: `cuckoo_hash_function` of util/functional.hpp. `make` is its constructor, where the
--   random factor is an argument, and `hash` is `operator()`.
-- - InsertTable: `InsertTable` of deltamain/InsertHash.hpp and .cpp, the hash table with open
--   addressing of the records that are not in the main yet. Its array is a function of the index; `get`,
--   `insert`, `update_entry` (`update`) and `remove` are its operations, and InsertTable/Valid has its
--   invariant.
-- - DynamicInsertTable: `DynamicInsertTable` of the same files, a list of insert tables with a head that
--   grows. `insert` is the one with two arguments, `insert_loop` the one that is given the head;
--   `remove` says where the code dereferences a null pointer.
-- - OpenAddressing: `OpenAddressingTable` of util/OpenAddressingHash.hpp and .cpp, the table of the
--   log-structured engine, with its tagged pointers and the scan for conflicting inserts.
-- - LogPage: `LogEntry`, `LogPage` and `LogPage::EntryIterator` of util/Log.hpp and .cpp. An append is
--   the sequence of its accesses to shared words, `append_step`; LogPage/Threads is the step relation
--   of any number of threads that append and seal, in any order. `crossbow::align` is an argument
--   (Align), about which the rounding up of a size is assumed.
-- - Versions: deltamain/Record.hpp and .cpp, deltamain/rowstore/RowStoreRecord.hpp and .cpp, and of
--   deltamain/Table.hpp and .cpp and deltamain/rowstore/RowStorePage.cpp the operations on one record:
--   `internal_get`, `internal_update`, `internal_revert` and `collect_elements`. `RecordImpl` is the
--   interface that the code's templates ask of a record; Versions/InsertRecord and Versions/MainRecord
--   implement it, and Versions/Contents states its laws. Versions/RevertResults says what the Boolean of
--   `internalRevert` is, which its callers read as the validity of a record. Versions/History is the abstract view of a
--   record, the list of its versions. The snapshot is that of the commit manager, as its number
--   and its read set. Versions/ColumnRecord is the entry of the columnar main, deltamain/colstore/ColumnMapRecord.hpp and
--   .cpp, over the rows of a page.
-- - DeltaTable: `Table` of deltamain/Table.hpp and .cpp, its operations on a key: `get`, `insert`, `update` and
--   `remove`. The main table and the insert table are maps from a key to the entry there.
-- - VersionManager: `VersionManager` of util/VersionManager.hpp, whose lowest active version the garbage
--   collection asks for; any number of threads run `addSnapshot`, one access at a time.
-- - Schema: `FieldBase`, `Field` and `Schema` of tellstore/Record.hpp and common/Record.cpp: `add_field`,
--   the lookups, and in Schema/Wire `serialize`, `deserialize` and `serialized_length`. The writer and the
--   reader of crossbow are an interface, `ByteBuffer`, about which it is assumed that a read gives what was written;
--   so is the place of an entry in an `unordered_map`. A code that throws returns none.
-- - Record: `Record` of the same files, the layout of a tuple in memory: `make_record` is the constructor,
--   `create` writes a tuple, `data_of` (`data`) finds a field. A memory is a function from addresses
--   to bytes. `Filled` says what `create` returns, and where it reads through a null pointer.
-- - Cuckoo: `Modifier` of util/CuckooHash.hpp and .cpp, which changes the hash table of the main by copy
--   on write. Pages have addresses, of which the page manager hands out a list; `place_at` and
--   `place_rounds` are the loops of `insert`, `set_entry` is `cow` with the assignment to an entry.
--
-- An operation of the insert tables hashes a key and probes an insert table; the tables hand out
-- pointers to entries of the logs, which are pages; the entries are the records of Versions, whose data
-- has the layout of Record for the Schema of its table.
--
-- Bounds. Loops over the buckets of a table run on a number of rounds, the capacity (in OpenAddressing what
-- the wrapped sum leaves of it). The loop of the dynamic insert runs on fuel, and two rounds
-- are enough. The rounds of the cuckoo insert are the twenty of the code. The loops over a chain of updates run on fuel, one more than its length, which is
-- enough. Words of 64 and of 32 bits wrap where the code computes on them.
--
-- Not modelled: the scans and the code that they generate, the pages of the column map, the log-structured engine,
-- the rehash of the cuckoo hash table, for which its insert says only what pair is in hand, aggregations and predicates of fields, the server and the client. Only the
-- appends to a page and the calls of `addSnapshot` are interleaved; elsewhere one operation runs at a time, so that a
-- compare-exchange against a value just read succeeds. The memory that an epoch frees is not modelled.
pub mod Prelude
pub mod HashFunction
pub mod InsertTable
pub mod DynamicInsertTable
pub mod OpenAddressing
pub mod Align
pub mod LogPage
pub mod Versions
pub mod DeltaTable
pub mod VersionManager
pub mod Schema
pub mod Record
pub mod Cuckoo
