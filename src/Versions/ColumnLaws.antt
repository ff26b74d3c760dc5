-- ===== src/Versions/ColumnLaws.antt =====
-- An entry of the columnar main behaves as the list of its versions, like the entries of `RecordImpl`.
use tellstore.Prelude.{
  ℕ, zero, suc, ◌+◌, ◌-◌, ◌≡◌, refl, Bool, false, List, [], ◌∷◌, arith, leb, if◌then◌else◌,
  Bool-cases, ◌==◌, inl, inr, lt→ltb, le→ltb, none, some,
}
use tellstore.Versions.{SnapshotDescriptor, RecordType}
use tellstore.Versions.ColumnRecord.{
  ColumnMapMainPage, get_rows, can_update_rows, can_revert_rows, get, can_update, can_revert,
  own_key,
}
use tellstore.Versions.History.{Version, below, read, write_check, newest_is}

module _ (page : ColumnMapMainPage) (key : ℕ) where
  -- A row without bytes is a deletion.
  abbrev pub row_version : ℕ → Version
  row_version i = record {
    number = (page.entry_data i).version;
    content = if page.size_data i == 0 then none else some (page.row_data i);
  }

  -- The versions in the rows from an index on: those up to the first one with another key.
  unfoldable pub row_versions : ℕ → ℕ → List Version
  row_versions zero i = []
  row_versions (suc n) i =
      let older = row_versions n (i + 1) in
      if (page.entry_data i).key == key then row_version i ∷ older else []

  get_rows-read :
      (n i highest : ℕ) (snapshot : SnapshotDescriptor) (is_newest : Bool)
      → get_rows page key n i highest snapshot is_newest
        ≡ read (below highest (row_versions n i)) snapshot is_newest
  unfolding get_rows read below row_versions
  get_rows-read zero i highest snapshot is_newest = refl
  get_rows-read (suc n) i highest snapshot is_newest =
      let v : ℕ = (page.entry_data i).version in
      elim (Bool-cases ((page.entry_data i).key == key)) [
        | inr other ↦ rw other refl
        | inl same ↦ elim (Bool-cases (leb highest v)) [
          | inl skip ↦
              rw (same, skip, le→ltb v highest (ground arith))
                (get_rows-read n (i + 1) highest snapshot is_newest)
          | inr keep ↦ elim (Bool-cases (snapshot.in_read_set v)) [
            | inr invisible ↦
                rw (same, keep, lt→ltb v highest (ground arith), invisible)
                  (get_rows-read n (i + 1) highest snapshot false)
            | inl visible ↦ elim (Bool-cases (page.size_data i == 0)) [
              | inl empty ↦ rw (same, keep, lt→ltb v highest (ground arith), visible, empty) refl
              | inr full ↦ rw (same, keep, lt→ltb v highest (ground arith), visible, full) refl
            ]
          ]
        ]
      ]

  can_update_rows-write_check :
      (n i highest : ℕ) (snapshot : SnapshotDescriptor) (type : RecordType)
      → can_update_rows page key n i highest snapshot type
        ≡ write_check (below highest (row_versions n i)) snapshot type
  unfolding can_update_rows write_check below row_versions
  can_update_rows-write_check zero i highest snapshot type = refl
  can_update_rows-write_check (suc n) i highest snapshot type =
      let v : ℕ = (page.entry_data i).version in
      elim (Bool-cases ((page.entry_data i).key == key)) [
        | inr other ↦ rw other refl
        | inl same ↦ elim (Bool-cases (leb highest v)) [
          | inl skip ↦
              rw (same, skip, le→ltb v highest (ground arith))
                (can_update_rows-write_check n (i + 1) highest snapshot type)
          | inr keep ↦ elim (Bool-cases (page.size_data i == 0)) [
            | inl empty ↦ rw (same, keep, lt→ltb v highest (ground arith), empty) refl
            | inr full ↦ rw (same, keep, lt→ltb v highest (ground arith), full) refl
          ]
        ]
      ]

  can_revert_rows-newest_is :
      (n i highest : ℕ) (snapshot : SnapshotDescriptor)
      → (can_revert_rows page key n i highest snapshot).1
        ≡ newest_is snapshot.version (below highest (row_versions n i))
  unfolding can_revert_rows newest_is below row_versions
  can_revert_rows-newest_is zero i highest snapshot = refl
  can_revert_rows-newest_is (suc n) i highest snapshot =
      let v : ℕ = (page.entry_data i).version in
      elim (Bool-cases ((page.entry_data i).key == key)) [
        | inr other ↦ rw other refl
        | inl same ↦ elim (Bool-cases (leb highest v)) [
          | inl skip ↦
              rw (same, skip, le→ltb v highest (ground arith))
                (can_revert_rows-newest_is n (i + 1) highest snapshot)
          | inr keep ↦ rw (same, keep, lt→ltb v highest (ground arith)) (ground arith)
        ]
      ]

-- The versions of the entry at an index of a page.
abbrev pub column_versions : ColumnMapMainPage → ℕ → List Version
column_versions page index = row_versions page (own_key page index) (page.count - index) index

-- For an entry of any page of the columnar main, a lookup returns the newest of its versions below the
-- given one that the snapshot reads; a write is decided by the newest of its versions below the given
-- one; and a revert is needed exactly if that one has the number of the snapshot. Its versions are
-- those of the rows of its key from its index on, where a row without bytes is a deletion.
pub column_record_lem :
    (page : ColumnMapMainPage) (index highest : ℕ) (snapshot : SnapshotDescriptor)
    → ((is_newest : Bool)
        → get page index highest snapshot is_newest
          ≡ read (below highest (column_versions page index)) snapshot is_newest)
      × ((type : RecordType)
          → can_update page index highest snapshot type
            ≡ write_check (below highest (column_versions page index)) snapshot type)
      × ((can_revert page index highest snapshot).1
          ≡ newest_is snapshot.version (below highest (column_versions page index)))
unfolding get can_update can_revert
column_record_lem page index highest snapshot =
    let key : ℕ = own_key page index in
    let n : ℕ = page.count - index in
    (
      get_rows-read page key n index highest snapshot,
      can_update_rows-write_check page key n index highest snapshot,
      can_revert_rows-newest_is page key n index highest snapshot,
    )
