-- ===== src/Versions.antt =====
-- The versions of one record in `deltamain`: the entry that a hash table points to, which holds the
-- oldest versions, and the chain of entries in the update log, the newest first. A pointer to an
-- entry of the log is the list of the entries from there along `previous`; the null pointer is [].
-- Deltamain/Record defines the entries and the iterator over them.
pub mod InsertRecord
pub mod MainRecord
pub mod Table
pub mod History
pub mod Iteration
pub mod Contents
pub mod Laws
pub mod Chains
pub mod Refinement
pub mod Reverts
pub mod RevertResults
pub mod Writes
pub mod Collection
pub mod Trimming
pub mod Collected
pub mod CollectLaws
pub mod ColumnRecord
pub mod ColumnLaws
mod ColumnTests
mod Tests
use tellstore.Prelude.{
  ℕ, zero, suc, ◌+◌, ◌-◌, ◌^◌, Bool, true, false, not, ◌||◌, Option, none, some, List, [], ◌∷◌,
  ◌==◌, ltb, leb, if◌then◌else◌,
}

-- The payload of an entry, in bytes.
abbrev pub Payload : Type 0
Payload = List ℕ

pub data RecordType : Type 0 where
  data_type : RecordType
  delete_type : RecordType
  revert_type : RecordType

abbrev pub is_revert : RecordType → Bool
is_revert revert_type = true
is_revert _ = false

abbrev pub same_type : RecordType → RecordType → Bool
same_type data_type data_type = true
same_type delete_type delete_type = true
same_type revert_type revert_type = true
same_type _ _ = false

-- An entry of the update log, with the type that the log keeps beside it.
pub record UpdateLogEntry : Type 0 where
  pub version : ℕ
  pub type : RecordType
  pub payload : Payload

-- `error::errors`, as far as a record returns them.
abbrev pub out_of_memory : ℕ
out_of_memory = 8

abbrev pub not_found : ℕ
not_found = 9

abbrev pub not_in_snapshot : ℕ
not_in_snapshot = 10

abbrev pub invalid_write : ℕ
invalid_write = 11

-- What the code asks of a `commitmanager::SnapshotDescriptor`: `version()` and `inReadSet`.
pub record SnapshotDescriptor : Type 0 where
  pub version : ℕ
  pub in_read_set : ℕ → Bool

-- `UpdateRecordIterator`: `mCurrent` and `mLowestVersion`; the base version is an argument.
pub record UpdateRecordIterator : Type 0 where
  pub current : List UpdateLogEntry
  pub lowest_version : ℕ

abbrev pub max_version : ℕ
max_version = 2 ^ 64 - 1

-- The loops of `UpdateRecordIterator::next` from `entry = entry->previous` on.
unfoldable pub forward : ℕ → ℕ → List UpdateLogEntry → UpdateRecordIterator
forward base lowest [] = record { current = []; lowest_version = lowest }
forward base lowest (entry ∷ previous) =
    let skipped = forward base lowest previous in
    let reverted = forward base entry.version previous in
    if ltb entry.version base
    then record { current = []; lowest_version = lowest }
    else if leb lowest entry.version
    then skipped
    else if is_revert entry.type
    then (if entry.version == base
        then record { current = []; lowest_version = entry.version }
        else reverted)
    else record { current = entry ∷ previous; lowest_version = entry.version }

unfoldable pub next : ℕ → UpdateRecordIterator → UpdateRecordIterator
unfolding forward
next base it = elim it.current [
  | [] ↦ it
  | entry ∷ previous ↦
      if entry.version == base
      then record it { current = [] }
      else forward base it.lowest_version previous
]

-- The constructor of `UpdateRecordIterator`.
unfoldable pub iterate : ℕ → List UpdateLogEntry → UpdateRecordIterator
unfolding next
iterate base [] = record { current = []; lowest_version = max_version }
iterate base (entry ∷ previous) =
    let it : UpdateRecordIterator = record {
      current = entry ∷ previous;
      lowest_version = entry.version;
    } in
    if is_revert entry.type then next base it else it

-- A version that a base entry holds: a main entry marks a deletion by the size 0.
pub record RecordHolder : Type 0 where
  pub version : ℕ
  pub payload : Payload

-- What a lookup comes to: an error code, or the version, whether it is the newest one, and the payload.
pub data Lookup : Type 0 where
  failed : ℕ → Lookup
  found : ℕ → Bool → Payload → Lookup

-- `isNewest ? error::not_found : error::not_in_snapshot`
abbrev pub missing : Bool → Lookup
missing is_newest = if is_newest then failed not_found else failed not_in_snapshot

-- What `Table` asks of its template argument `Rec`: an `InsertRecord` or a `MainRecord`. `can_revert`
-- returns the error code and `needsRevert`; `collect` what it appends.
pub record RecordImpl (R : Type 0) : Type 0 where
  pub base_version : R → ℕ
  pub get : R → ℕ → SnapshotDescriptor → Bool → Lookup
  pub can_update : R → ℕ → SnapshotDescriptor → RecordType → ℕ
  pub can_revert : R → ℕ → SnapshotDescriptor → ℕ × Bool
  pub collect : R → ℕ → ℕ → List RecordHolder
