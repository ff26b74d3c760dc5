-- ===== src/DeltaTable/Operations.antt =====
-- What `update`, `remove` and `insert` of `Table` return, and what they leave.
use tellstore.Prelude.{
  ℕ, true, false, none, some, List, [], ◌∷◌, ◌≡◌, ◌≢◌, ◌<◌, refl, ◌∙◌, Option-cases, inl, inr,
  lt→ltb, update as store_at, update_self, update_ne,
}
use tellstore.Versions.{
  Payload, RecordType, data_type, delete_type, SnapshotDescriptor, invalid_write, is_revert,
  max_version,
}
use tellstore.Versions.History.{Version, live, lowest, below}
use tellstore.Versions.Contents.{contents}
use tellstore.Versions.Refinement.{view}
use tellstore.Versions.Table.{updates}
use tellstore.DeltaTable.{
  Table, InsertEntry, get_from_insert, write_insert, write_through, generic_update, append_insert,
  remove_invalid, insert,
}
use tellstore.DeltaTable.Records.{main_view, insert_view, first_of, record_of, IsTable}
use tellstore.DeltaTable.Writes.{
  FitsTable, Wrote, write_main-none, write_through-none, Wrote-main, Wrote-insert, stored,
  stored_other,
}

-- A write to a key with a valid record.
write_through-some :
    (t : Table) (key : ℕ) (payload : Payload) (snapshot : SnapshotDescriptor)
    (expected type : RecordType)
    → IsTable t key
    → FitsTable t key snapshot.version
    → is_revert expected ≡ false
    → is_revert type ≡ false
    → (rest : ℕ × Table) (vs : List Version) → record_of t key ≡ some vs
    → Wrote t key payload snapshot expected type vs
        (write_through t key payload snapshot expected type true rest)
unfolding write_through record_of first_of
write_through-some t key payload snapshot expected type ok fits e_ok t_ok rest vs h =
    let on_insert =
      write_insert (get_from_insert t key) t key payload snapshot expected type true rest in
    elim (Option-cases (main_view (t.main key))) [
      | inl none_ ↦
          let h' : insert_view (get_from_insert t key) ≡ some vs = rw none_ at h in
          rw
            (write_main-none t key payload snapshot expected type ok fits e_ok t_ok on_insert none_)
            (Wrote-insert t key payload snapshot expected type ok fits e_ok t_ok rest vs none_ h')
      | inr (ws, at) ↦
          let same : first_of (some ws) (insert_view (get_from_insert t key)) ≡ some vs =
            rw at at h in
          Wrote-main t key payload snapshot expected type ok fits e_ok t_ok on_insert vs (at ∙ same)
    ]

-- Where the entries of a key fit their chains and the log has room, an update or a removal of a key
-- without a valid record is a wrong write that changes nothing. With one, the newest version decides
-- the error code and whether the write becomes the newest version; other keys keep their records.
pub generic_update_lem :
    (t : Table) (key : ℕ) (payload : Payload) (snapshot : SnapshotDescriptor) (type : RecordType)
    → IsTable t key
    → FitsTable t key snapshot.version
    → is_revert type ≡ false
    → (record_of t key ≡ none
        → generic_update t key payload snapshot type true ≡ (invalid_write, t))
      × ((vs : List Version)
          → record_of t key ≡ some vs
          → Wrote t key payload snapshot data_type type vs
              (generic_update t key payload snapshot type true))
unfolding generic_update
generic_update_lem t key payload snapshot type ok fits t_ok = (
  λ h.
      write_through-none t key payload snapshot data_type type ok fits refl t_ok (invalid_write, t)
        h,
  λ vs h.
      write_through-some t key payload snapshot data_type type ok fits refl t_ok (invalid_write, t)
        vs h,
)

-- A new record of one version.
pub record Appended (t : Table) (key : ℕ) (payload : Payload) (number : ℕ) (r : ℕ × Table)
    : Type 0 where
  pub code : r.0 ≡ 0
  pub versions :
      record_of r.1 key ≡ some ((record { number = number; content = some payload }) ∷ [])
  pub others : (k : ℕ) → k ≢ key → record_of r.1 k ≡ record_of t k

abbrev new_entry : Payload → SnapshotDescriptor → InsertEntry
new_entry payload snapshot = record {
  holder = record { version = snapshot.version; payload = payload };
  newest = updates [];
  sealed = true;
}

appended :
    (t : Table) (key : ℕ) (payload : Payload) (snapshot : SnapshotDescriptor)
    → snapshot.version < max_version
    → main_view (t.main key) ≡ none
    → Appended t key payload snapshot.version
        (0, record t { inserts = store_at t.inserts key (some (new_entry payload snapshot)) })
unfolding record_of first_of insert_view view contents live lowest below
appended t key payload snapshot small no_main = record {
  code = refl;
  versions =
      rw
        (
          no_main,
          stored t key (new_entry payload snapshot) refl,
          lt→ltb snapshot.version max_version small,
        )
        refl;
  others = λ k ne. rw (stored_other t key k (new_entry payload snapshot) ne) refl;
}

-- An append at a table whose main is that of `t` and in which the key has no entry.
append_insert_lem :
    (t c : Table) (key : ℕ) (payload : Payload) (snapshot : SnapshotDescriptor)
    → snapshot.version < max_version
    → main_view (c.main key) ≡ none
    → c.inserts key ≡ none
    → ((k : ℕ) → k ≢ key → record_of c k ≡ record_of t k)
    → Appended t key payload snapshot.version (append_insert c key payload snapshot)
unfolding append_insert
append_insert_lem t c key payload snapshot small no_main free same =
    let new = appended c key payload snapshot small no_main in
    rw (append_insert, free)
      (record {
        code = refl;
        versions = new.versions;
        others = λ k ne. new.others k ne ∙ same k ne;
      })

removed_other :
    (t : Table) (key k : ℕ)
    → k ≢ key
    → record_of (record t { inserts = store_at t.inserts key none }) k ≡ record_of t k
unfolding record_of get_from_insert
removed_other t key k ne = rw (record_of, get_from_insert, update_ne t.inserts key k none ne) refl

remove_invalid_free : (t : Table) (key : ℕ) → t.inserts key ≡ none → remove_invalid t key ≡ t
unfolding remove_invalid get_from_insert
remove_invalid_free t key free = rw (remove_invalid, get_from_insert, free) refl

remove_invalid_sealed :
    (t : Table) (key : ℕ) (e : InsertEntry)
    → t.inserts key ≡ some e
    → e.sealed ≡ true
    → remove_invalid t key ≡ record t { inserts = store_at t.inserts key none }
unfolding remove_invalid get_from_insert
remove_invalid_sealed t key e at sealed = rw (remove_invalid, get_from_insert, at, sealed) refl

-- After the removal of an invalid entry a sealed one is not there any more.
append_insert-remove_invalid :
    (t : Table) (key : ℕ) (payload : Payload) (snapshot : SnapshotDescriptor)
    → snapshot.version < max_version
    → main_view (t.main key) ≡ none
    → ((e : InsertEntry) → t.inserts key ≡ some e → e.sealed ≡ true)
    → Appended t key payload snapshot.version
        (append_insert (remove_invalid t key) key payload snapshot)
append_insert-remove_invalid t key payload snapshot small no_main sealed =
    elim (Option-cases (t.inserts key)) [
      | inl none_ ↦
          rw (remove_invalid_free t key none_)
            (append_insert_lem t t key payload snapshot small no_main none_ (λ k ne. refl))
      | inr (e, at) ↦ rw (remove_invalid_sealed t key e at (sealed e at)) (
          append_insert_lem t (record t { inserts = store_at t.inserts key none }) key payload
            snapshot small no_main (update_self t.inserts key none) (removed_other t key))
    ]

no_main_view : (t : Table) (key : ℕ) → record_of t key ≡ none → main_view (t.main key) ≡ none
unfolding record_of first_of
no_main_view t key h = elim (Option-cases (main_view (t.main key))) [
  | inl none_ ↦ none_
  | inr (vs, at) ↦
      let bad : first_of (some vs) (insert_view (get_from_insert t key)) ≡ none = rw at at h in cc
]

-- Where the entries of a key fit their chains, its entry in the insert table, if any, is sealed, and
-- the logs have room, an insert under a key without a valid record succeeds with a record of one
-- version. With a valid record the newest version decides, as for a write that expects a deletion.
-- Other keys keep their records.
pub insert_tuple :
    (t : Table) (key : ℕ) (payload : Payload) (snapshot : SnapshotDescriptor)
    → IsTable t key
    → FitsTable t key snapshot.version
    → snapshot.version < max_version
    → ((e : InsertEntry) → t.inserts key ≡ some e → e.sealed ≡ true)
    → (record_of t key ≡ none
        → Appended t key payload snapshot.version (insert t key payload snapshot true))
      × ((vs : List Version)
          → record_of t key ≡ some vs
          → Wrote t key payload snapshot delete_type data_type vs
              (insert t key payload snapshot true))
unfolding insert
insert_tuple t key payload snapshot ok fits small sealed =
    let rest = append_insert (remove_invalid t key) key payload snapshot in
    (
      λ h.
          rw
            (write_through-none t key payload snapshot delete_type data_type ok fits refl refl rest
              h)
            (append_insert-remove_invalid t key payload snapshot small (no_main_view t key h)
              sealed),
      λ vs h.
          write_through-some t key payload snapshot delete_type data_type ok fits refl refl rest vs
            h,
    )
