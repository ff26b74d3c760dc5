-- ===== src/Versions/Laws.antt =====
-- The two kinds of base entries respect the laws of `RecordImpl`.
use tellstore.Prelude.{
  ℕ, ◌≤◌, ◌<◌, ◌≡◌, refl, Bool, true, false, List, [], ◌∷◌, arith, leb, if◌then◌else◌, Bool-cases,
  inl, inr, ap, lt→ltb, le→ltb, none, some,
}
use tellstore.Versions.{
  RecordHolder, SnapshotDescriptor, RecordType, data_type, delete_type, revert_type,
}
use tellstore.Versions.InsertRecord
use tellstore.Versions.InsertRecord.{insert_record}
use tellstore.Versions.MainRecord
use tellstore.Versions.MainRecord.{
  main_record, is_empty, skip_overwritten, get_from, can_update_from, can_revert_from,
}
use tellstore.Versions.History.{Version, below, read, write_check, newest_is}
use tellstore.Versions.Contents.{RecordLaws}

-- The version of an insert entry: data, whatever its size.
abbrev pub inserted_version : RecordHolder → Version
inserted_version e = record { number = e.version; content = some e.payload }

-- A version of a main entry: the size 0 is a deletion.
abbrev pub main_version : RecordHolder → Version
main_version e = record {
  number = e.version;
  content = if is_empty e.payload then none else some e.payload;
}

unfoldable pub main_versions : List RecordHolder → List Version
main_versions [] = []
main_versions (e ∷ rest) = main_version e ∷ main_versions rest

-- The versions of an entry are in order, and below a bound.
abbrev pub Descending : ℕ → List RecordHolder → Type 0
Descending bound [] = Unit
Descending bound (e ∷ rest) = (e.version < bound) × Descending e.version rest

insert_get :
    (e : RecordHolder) (highest : ℕ) (snapshot : SnapshotDescriptor) (is_newest : Bool)
    → InsertRecord.get e highest snapshot is_newest
      ≡ read (below highest (inserted_version e ∷ [])) snapshot is_newest
unfolding InsertRecord.get read below
insert_get e highest snapshot true = ground arith
insert_get e highest snapshot false = ground arith

insert_can_update :
    (e : RecordHolder) (highest : ℕ) (snapshot : SnapshotDescriptor) (type : RecordType)
    → InsertRecord.can_update e highest snapshot type
      ≡ write_check (below highest (inserted_version e ∷ [])) snapshot type
unfolding InsertRecord.can_update write_check below
insert_can_update e highest snapshot data_type = ground arith
insert_can_update e highest snapshot delete_type = ground arith
insert_can_update e highest snapshot revert_type = ground arith

insert_can_revert :
    (e : RecordHolder) (highest : ℕ) (snapshot : SnapshotDescriptor)
    → (InsertRecord.can_revert e highest snapshot).1
      ≡ newest_is snapshot.version (below highest (inserted_version e ∷ []))
unfolding InsertRecord.can_revert newest_is below
insert_can_revert e highest snapshot = ground arith

pub insert_laws : (e : RecordHolder) → RecordLaws insert_record e (inserted_version e ∷ [])
unfolding insert_record
insert_laws e = record {
  get_law = insert_get e;
  can_update_law = insert_can_update e;
  can_revert_law = insert_can_revert e;
}

-- From the first version below the bound on, all are.
Descending-below :
    (bound highest : ℕ) (elements : List RecordHolder)
    → Descending bound elements
    → bound ≤ highest
    → below highest (main_versions elements) ≡ main_versions elements
unfolding below main_versions
Descending-below bound highest [] d h = refl
Descending-below bound highest (e ∷ rest) d h =
    rw (lt→ltb e.version highest (ground arith))
      (ap (λ x. main_version e ∷ x) (Descending-below e.version highest rest d.1 (ground arith)))

pub skip-below :
    (bound highest : ℕ) (elements : List RecordHolder)
    → Descending bound elements
    → below highest (main_versions elements) ≡ main_versions (skip_overwritten highest elements)
unfolding below main_versions skip_overwritten
skip-below bound highest [] d = refl
skip-below bound highest (e ∷ rest) d = elim (Bool-cases (leb highest e.version)) [
  | inl skip ↦
      rw (skip, le→ltb e.version highest (ground arith)) (skip-below e.version highest rest d.1)
  | inr keep ↦
      rw (keep, lt→ltb e.version highest (ground arith))
        (ap (λ x. main_version e ∷ x) (Descending-below e.version highest rest d.1 (ground arith)))
]

get_from-read :
    (elements : List RecordHolder) (snapshot : SnapshotDescriptor) (is_newest : Bool)
    → get_from elements snapshot is_newest ≡ read (main_versions elements) snapshot is_newest
unfolding get_from read main_versions
get_from-read [] snapshot is_newest = refl
get_from-read (e ∷ rest) snapshot is_newest = elim (Bool-cases (snapshot.in_read_set e.version)) [
  | inl visible ↦ elim (Bool-cases (is_empty e.payload)) [
    | inl empty ↦ rw (visible, empty) refl
    | inr full ↦ rw (visible, full) refl
  ]
  | inr invisible ↦ rw invisible (get_from-read rest snapshot false)
]

can_update_from-write_check :
    (elements : List RecordHolder) (snapshot : SnapshotDescriptor) (type : RecordType)
    → can_update_from elements snapshot type ≡ write_check (main_versions elements) snapshot type
unfolding can_update_from write_check main_versions
can_update_from-write_check [] snapshot type = refl
can_update_from-write_check (e ∷ rest) snapshot type = elim (Bool-cases (is_empty e.payload)) [
  | inl empty ↦ rw empty refl
  | inr full ↦ rw full refl
]

can_revert_from-newest_is :
    (elements : List RecordHolder) (snapshot : SnapshotDescriptor)
    → (can_revert_from elements snapshot).1 ≡ newest_is snapshot.version (main_versions elements)
unfolding can_revert_from newest_is main_versions
can_revert_from-newest_is [] snapshot = refl
can_revert_from-newest_is (e ∷ rest) snapshot = ground arith

pub main_laws :
    (bound : ℕ) (elements : List RecordHolder)
    → Descending bound elements
    → RecordLaws main_record elements (main_versions elements)
unfolding main_record MainRecord.get MainRecord.can_update MainRecord.can_revert
main_laws bound elements d = record {
  get_law = λ highest snapshot is_newest.
      rw (skip-below bound highest elements d)
        (get_from-read (skip_overwritten highest elements) snapshot is_newest);
  can_update_law = λ highest snapshot type.
      rw (skip-below bound highest elements d)
        (can_update_from-write_check (skip_overwritten highest elements) snapshot type);
  can_revert_law = λ highest snapshot.
      rw (skip-below bound highest elements d)
        (can_revert_from-newest_is (skip_overwritten highest elements) snapshot);
}
