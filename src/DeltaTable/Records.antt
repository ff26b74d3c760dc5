-- ===== src/DeltaTable/Records.antt =====
-- The operations on a key against the versions of its record.
use tellstore.Prelude.{ℕ, true, false, Option, none, some, List, [], ◌∷◌, ◌≡◌, refl, ap, ◌∙◌}
use tellstore.Versions.{SnapshotDescriptor, Lookup, failed, not_found, max_version}
use tellstore.Versions.InsertRecord.{insert_record}
use tellstore.Versions.MainRecord.{main_record, base_version}
use tellstore.Versions.History.{Version, read}
use tellstore.Versions.Laws.{inserted_version, insert_laws, main_laws, main_versions, Descending}
use tellstore.Versions.Refinement.{view, IsRecord, internal_get_lem}
use tellstore.DeltaTable.{
  MainEntry, InsertEntry, Table, get_from_insert, or_else, get_insert, get_main, get,
}

-- The versions of an entry, none where there is none or where it is invalid.
unfoldable pub main_view : Option MainEntry → Option (List Version)
unfolding view main_versions
main_view none = none
main_view (some m) = view (base_version m.elements) (main_versions m.elements) m.newest

unfoldable pub insert_view : Option InsertEntry → Option (List Version)
unfolding view
insert_view none = none
insert_view (some e) = view e.holder.version (inserted_version e.holder ∷ []) e.newest

unfoldable pub first_of : Option (List Version) → Option (List Version) → Option (List Version)
first_of none vs = vs
first_of (some vs) ws = some vs

-- The versions that the table has for a key: those of the main entry come first.
unfoldable pub record_of : Table → ℕ → Option (List Version)
unfolding main_view insert_view first_of get_from_insert
record_of t key = first_of (main_view (t.main key)) (insert_view (get_from_insert t key))

-- The entries fit their chains.
unfoldable pub IsMain : Option MainEntry → Type 0
IsMain none = Unit
IsMain (some m) = Descending max_version m.elements × IsRecord (base_version m.elements) m.newest

unfoldable pub IsInsert : Option InsertEntry → Type 0
IsInsert none = Unit
IsInsert (some e) = IsRecord e.holder.version e.newest

pub record IsTable (t : Table) (key : ℕ) : Type 0 where
  pub main_ok : IsMain (t.main key)
  pub insert_ok : IsInsert (get_from_insert t key)

unfoldable pub read_of : Option (List Version) → SnapshotDescriptor → Lookup
unfolding read
read_of none snapshot = failed not_found
read_of (some vs) snapshot = read vs snapshot true

-- A lookup in an entry, with what follows.
or_else_view :
    (o : Option (List Version)) (rest : Lookup) (snapshot : SnapshotDescriptor)
    → or_else
        (some (elim o [ none ↦ (false, none) | some vs ↦ (true, some (read vs snapshot true)) ]))
        (some rest)
      ≡ some (elim o [ none ↦ rest | some vs ↦ read vs snapshot true ])
unfolding or_else
or_else_view none rest snapshot = refl
or_else_view (some vs) rest snapshot = refl

get_insert_lem :
    (o : Option InsertEntry) (snapshot : SnapshotDescriptor) (rest : Lookup)
    → IsInsert o
    → get_insert o snapshot (some rest)
      ≡ some (elim (insert_view o) [ none ↦ rest | some vs ↦ read vs snapshot true ])
unfolding get_insert insert_view IsInsert insert_record
get_insert_lem none snapshot rest ok = refl
get_insert_lem (some e) snapshot rest ok =
    rw
      (internal_get_lem insert_record e.holder (inserted_version e.holder ∷ [])
        (insert_laws e.holder) e.newest snapshot ok)
      (or_else_view (view e.holder.version (inserted_version e.holder ∷ []) e.newest) rest snapshot)

get_main_lem :
    (o : Option MainEntry) (snapshot : SnapshotDescriptor) (rest : Lookup)
    → IsMain o
    → get_main o snapshot (some rest)
      ≡ some (elim (main_view o) [ none ↦ rest | some vs ↦ read vs snapshot true ])
unfolding get_main main_view IsMain main_record
get_main_lem none snapshot rest ok = refl
get_main_lem (some m) snapshot rest ok =
    rw
      (internal_get_lem main_record m.elements (main_versions m.elements)
        (main_laws max_version m.elements ok.0) m.newest snapshot ok.1)
      (or_else_view (view (base_version m.elements) (main_versions m.elements) m.newest) rest
        snapshot)

read_first :
    (o o' : Option (List Version)) (snapshot : SnapshotDescriptor)
    → elim o [
      | none ↦ elim o' [ none ↦ failed not_found | some vs ↦ read vs snapshot true ]
      | some vs ↦ read vs snapshot true
    ]
      ≡ read_of (first_of o o') snapshot
unfolding read_of first_of
read_first none none snapshot = refl
read_first none (some vs) snapshot = refl
read_first (some vs) o' snapshot = refl

-- Where the entries of a key fit their chains, `get` ends: it returns not-found where the table has no
-- valid record for the key, and else the newest version that the snapshot reads.
pub get_lem :
    (t : Table) (key : ℕ) (snapshot : SnapshotDescriptor)
    → IsTable t key
    → get t key snapshot ≡ some (read_of (record_of t key) snapshot)
unfolding get record_of
get_lem t key snapshot ok =
    rw (get_insert_lem (get_from_insert t key) snapshot (failed not_found) ok.insert_ok) (
      get_main_lem (t.main key) snapshot
        (elim (insert_view (get_from_insert t key)) [
          | none ↦ failed not_found
          | some vs ↦ read vs snapshot true
        ])
        ok.main_ok
      ∙ ap some
          (read_first (main_view (t.main key)) (insert_view (get_from_insert t key)) snapshot))
