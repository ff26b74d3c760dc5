-- ===== src/Versions/History.antt =====
-- What the chain of updates and a base entry stand for: the versions that are left when the reverted
-- and the overwritten ones are gone.
use tellstore.Prelude.{
  ℕ, Bool, false, List, [], ◌∷◌, ltb, leb, if◌then◌else◌, ◌==◌, Option, none, some,
}
use tellstore.Versions.{
  Payload, RecordType, data_type, delete_type, is_revert, same_type, UpdateLogEntry,
  SnapshotDescriptor, Lookup, missing, found, not_in_snapshot, invalid_write,
}

-- A version: its number and its payload, none for a deletion.
pub record Version : Type 0 where
  pub number : ℕ
  pub content : Option Payload

-- The versions below a bound.
unfoldable pub below : ℕ → List Version → List Version
below bound [] = []
below bound (v ∷ rest) =
    let older = below bound rest in if ltb v.number bound then v ∷ older else older

-- The version of an entry that is no revert.
abbrev pub content_of : RecordType → Payload → Option Payload
content_of type payload = if same_type type delete_type then none else some payload

abbrev pub version_of : UpdateLogEntry → Version
version_of entry = record { number = entry.version; content = content_of entry.type entry.payload }

-- The abstract view of a chain: the entries that an older bound, an entry below the base, or a
-- revert does not hide.
unfoldable pub live : ℕ → ℕ → List UpdateLogEntry → List Version
live base bound [] = []
live base bound (entry ∷ previous) =
    let hidden = live base bound previous in
    let older = live base entry.version previous in
    if ltb entry.version base
    then []
    else if leb bound entry.version
    then hidden
    else if is_revert entry.type
    then older
    else version_of entry ∷ older

-- The lowest version of the chain down to the first entry below the base.
unfoldable pub lowest : ℕ → ℕ → List UpdateLogEntry → ℕ
lowest base bound [] = bound
lowest base bound (entry ∷ previous) =
    let rest = lowest base bound previous in
    let rest' = lowest base entry.version previous in
    if ltb entry.version base then bound else if leb bound entry.version then rest else rest'

-- The first version that the snapshot reads: what a lookup returns.
unfoldable pub read : List Version → SnapshotDescriptor → Bool → Lookup
read [] snapshot is_newest = missing is_newest
read (v ∷ rest) snapshot is_newest =
    let older = read rest snapshot false in
    if snapshot.in_read_set v.number
    then elim v.content [
      | none ↦ missing is_newest
      | some payload ↦ found v.number is_newest payload
    ]
    else older

abbrev pub writable : Option Payload → RecordType → ℕ
writable content type = elim content [
  | none ↦ if same_type type delete_type then 0 else invalid_write
  | some payload ↦ if same_type type data_type then 0 else invalid_write
]

-- Whether a write may follow: by the newest version, a missing one counts as deleted.
unfoldable pub write_check : List Version → SnapshotDescriptor → RecordType → ℕ
write_check [] snapshot type = writable none type
write_check (v ∷ rest) snapshot type =
    if snapshot.in_read_set v.number then writable v.content type else not_in_snapshot

-- Whether the newest version has the number.
unfoldable pub newest_is : ℕ → List Version → Bool
newest_is number [] = false
newest_is number (v ∷ rest) = v.number == number
