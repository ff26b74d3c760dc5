-- ===== src/DeltaTable/Writes.antt =====
-- The writes of `Table` against the versions of the record of a key.
use mathlib.Core.Option.{map as option_map}
use tellstore.Prelude.{
  ℕ, Bool, true, false, Option, none, some, List, [], ◌∷◌, update as store_at, update_self,
  update_ne, if◌then◌else◌, ◌≡◌, ◌≢◌, refl, sym, ap, ◌∙◌, Option-cases, inl, inr,
}
use tellstore.Versions.{Payload, RecordType, SnapshotDescriptor, is_revert, max_version}
use tellstore.Versions.InsertRecord.{insert_record}
use tellstore.Versions.MainRecord.{main_record, base_version}
use tellstore.Versions.Table.{internal_update}
use tellstore.Versions.History.{Version, write_check}
use tellstore.Versions.Laws.{inserted_version, insert_laws, main_laws, main_versions}
use tellstore.Versions.Refinement.{view, Fits, Written, write_versions, internal_update_lem}
use tellstore.DeltaTable.{
  MainEntry, InsertEntry, Table, get_from_insert, update_main, update_insert, or_retry,
  write_insert, write_main, write_through,
}
use tellstore.DeltaTable.Records.{
  main_view, insert_view, first_of, record_of, IsMain, IsInsert, IsTable,
}

-- The number of the snapshot is not below the base of a chain.
unfoldable pub FitsMain : Option MainEntry → ℕ → Type 0
FitsMain none number = Unit
FitsMain (some m) number = Fits (base_version m.elements) m.newest number

unfoldable pub FitsInsert : Option InsertEntry → ℕ → Type 0
FitsInsert none number = Unit
FitsInsert (some e) number = Fits e.holder.version e.newest number

pub record FitsTable (t : Table) (key number : ℕ) : Type 0 where
  pub main_fits : FitsMain (t.main key) number
  pub insert_fits : FitsInsert (get_from_insert t key) number

-- What a write does to the record of the key, `vs`, and to the other keys.
pub record Wrote (t : Table) (key : ℕ) (payload : Payload) (snapshot : SnapshotDescriptor)
    (expected type : RecordType) (vs : List Version) (r : ℕ × Table) : Type 0 where
  pub code : r.0 ≡ write_check vs snapshot expected
  pub versions : record_of r.1 key ≡ some (write_versions snapshot expected type payload vs)
  pub ok : IsTable r.1 key
  pub others : (k : ℕ) → k ≢ key → record_of r.1 k ≡ record_of t k

chosen :
    (s : Bool) (x e : InsertEntry)
    → (if s then some x else none) ≡ some e
    → (some x ≡ some e) × (s ≡ true)
chosen true x e h = (h, refl)
chosen false x e h = cc

-- An entry that `getFromInsert` returns is sealed.
sealed_entry :
    (t : Table) (key : ℕ) (e : InsertEntry) → get_from_insert t key ≡ some e → e.sealed ≡ true
unfolding get_from_insert
sealed_entry t key e at = elim (Option-cases (t.inserts key)) [
  | inl none_ ↦ let bad : none ≡ some e = rw (get_from_insert, none_) at at in cc
  | inr (e', found) ↦
      let (same, sealed) = chosen e'.sealed e' e (rw (get_from_insert, found) at at) in
      ap (λ (o : Option InsertEntry). elim o [ none ↦ true | some x ↦ x.sealed ]) (sym same)
      ∙ sealed
]

-- `getFromInsert` after an entry was stored.
pub stored :
    (t : Table) (key : ℕ) (e : InsertEntry)
    → e.sealed ≡ true
    → get_from_insert (record t { inserts = store_at t.inserts key (some e) }) key ≡ some e
unfolding get_from_insert
stored t key e sealed = rw (get_from_insert, update_self t.inserts key (some e), sealed) refl

pub stored_other :
    (t : Table) (key k : ℕ) (e : InsertEntry)
    → k ≢ key
    → get_from_insert (record t { inserts = store_at t.inserts key (some e) }) k
      ≡ get_from_insert t k
unfolding get_from_insert
stored_other t key k e ne = rw (get_from_insert, update_ne t.inserts key k (some e) ne) refl

-- The second of two results, for an entry without a valid record.
abbrev handled_by : Option (List Version) → Bool
handled_by o = elim o [ none ↦ false | some vs ↦ true ]

module _ (t : Table) (key : ℕ) (payload : Payload) (snapshot : SnapshotDescriptor)
    (expected type : RecordType) (ok : IsTable t key) (fits : FitsTable t key snapshot.version)
    (e_ok : is_revert expected ≡ false) (t_ok : is_revert type ≡ false) where
  main-Written :
      (m : MainEntry)
      → t.main key ≡ some m
      → Written snapshot expected type payload
          (base_version m.elements)
          (main_versions m.elements)
          m.newest
          (internal_update main_record m.elements m.newest payload snapshot expected type true)
  unfolding IsMain FitsMain main_record
  main-Written m at =
      let m_ok : IsMain (some m) = rw at at ok.main_ok in
      let m_fits : FitsMain (some m) snapshot.version = rw at at fits.main_fits in
      internal_update_lem main_record m.elements (main_versions m.elements)
        (main_laws max_version m.elements m_ok.0) m.newest payload snapshot expected type m_ok.1
        m_fits e_ok t_ok

  insert-Written :
      (e : InsertEntry)
      → get_from_insert t key ≡ some e
      → Written snapshot expected type payload e.holder.version
          (inserted_version e.holder ∷ [])
          e.newest
          (internal_update insert_record e.holder e.newest payload snapshot expected type true)
  unfolding IsInsert FitsInsert insert_record
  insert-Written e at =
      let i_ok : IsInsert (some e) = rw at at ok.insert_ok in
      let i_fits : FitsInsert (some e) snapshot.version = rw at at fits.insert_fits in
      internal_update_lem insert_record e.holder (inserted_version e.holder ∷ [])
        (insert_laws e.holder) e.newest payload snapshot expected type i_ok i_fits e_ok t_ok

  -- Without a valid record in the main the write goes on with the insert table.
  pub write_main-none :
      (rest : ℕ × Table)
      → main_view (t.main key) ≡ none
      → write_main (t.main key) t key payload snapshot expected type true rest ≡ rest
  unfolding write_main update_main or_retry main_view
  write_main-none rest h = elim (Option-cases (t.main key)) [
    | inl at ↦ rw at refl
    | inr (m, at) ↦
        let v : view (base_version m.elements) (main_versions m.elements) m.newest ≡ none =
          rw at at h in
        rw (at, (main-Written m at).0 ∙ ap handled_by v) refl
  ]

  write_insert-none :
      (rest : ℕ × Table)
      → insert_view (get_from_insert t key) ≡ none
      → write_insert (get_from_insert t key) t key payload snapshot expected type true rest ≡ rest
  unfolding write_insert update_insert or_retry insert_view
  write_insert-none rest h = elim (Option-cases (get_from_insert t key)) [
    | inl at ↦ rw at refl
    | inr (e, at) ↦
        let v : view e.holder.version (inserted_version e.holder ∷ []) e.newest ≡ none =
          rw at at h in
        rw (at, (insert-Written e at).0 ∙ ap handled_by v) refl
  ]

  -- A write to a key without a valid record does what follows the two lookups.
  pub write_through-none :
      (rest : ℕ × Table)
      → record_of t key ≡ none
      → write_through t key payload snapshot expected type true rest ≡ rest
  unfolding write_through record_of first_of
  write_through-none rest h = elim (Option-cases (main_view (t.main key))) [
    | inl none_ ↦
        let h' : insert_view (get_from_insert t key) ≡ none = rw none_ at h in
        write_main-none
          (write_insert (get_from_insert t key) t key payload snapshot expected type true rest)
          none_
        ∙ write_insert-none rest h'
    | inr (vs, at) ↦
        let found : first_of (some vs) (insert_view (get_from_insert t key)) ≡ none = rw at at h in
        cc
  ]

  pub Wrote-main :
      (rest : ℕ × Table) (vs : List Version)
      → main_view (t.main key) ≡ some vs
      → Wrote t key payload snapshot expected type vs
          (write_main (t.main key) t key payload snapshot expected type true rest)
  unfolding write_main update_main or_retry main_view record_of first_of IsMain get_from_insert
  Wrote-main rest vs h = elim (Option-cases (t.main key)) [
    | inl at ↦ let bad : main_view none ≡ some vs = rw at at h in cc
    | inr (m, at) ↦
        let v : view (base_version m.elements) (main_versions m.elements) m.newest ≡ some vs =
          rw at at h in
        let m_ok : IsMain (some m) = rw at at ok.main_ok in
        let (handled, code, view', ok') = main-Written m at in
        let m' : MainEntry = record m {
          newest =
              (internal_update main_record m.elements m.newest payload snapshot expected type
                true).2;
        } in
        let handled' = handled ∙ ap handled_by v in
        let code' =
          code ∙ ap (λ o. elim o [ none ↦ 0 | some ws ↦ write_check ws snapshot expected ]) v in
        let view'' = view' ∙ ap (option_map (write_versions snapshot expected type payload)) v in
        rw (at, handled')
          (record {
            code = code';
            versions = rw (update_self t.main key (some m'), view'') refl;
            ok = record {
              main_ok = rw (update_self t.main key (some m')) (m_ok.0, ok');
              insert_ok = ok.insert_ok;
            };
            others = λ k ne. rw (update_ne t.main key k (some m') ne) refl;
          })
  ]

  pub Wrote-insert :
      (rest : ℕ × Table) (vs : List Version)
      → main_view (t.main key) ≡ none
      → insert_view (get_from_insert t key) ≡ some vs
      → Wrote t key payload snapshot expected type vs
          (write_insert (get_from_insert t key) t key payload snapshot expected type true rest)
  unfolding write_insert update_insert or_retry insert_view record_of first_of IsInsert
  Wrote-insert rest vs no_main h = elim (Option-cases (get_from_insert t key)) [
    | inl at ↦ let bad : insert_view none ≡ some vs = rw at at h in cc
    | inr (e, at) ↦
        let sealed = sealed_entry t key e at in
        let v : view e.holder.version (inserted_version e.holder ∷ []) e.newest ≡ some vs =
          rw at at h in
        let (handled, code, view', ok') = insert-Written e at in
        let e' : InsertEntry = record e {
          newest =
              (internal_update insert_record e.holder e.newest payload snapshot expected type
                true).2;
        } in
        let handled' = handled ∙ ap handled_by v in
        let code' =
          code ∙ ap (λ o. elim o [ none ↦ 0 | some ws ↦ write_check ws snapshot expected ]) v in
        let view'' = view' ∙ ap (option_map (write_versions snapshot expected type payload)) v in
        rw (at, handled')
          (record {
            code = code';
            versions = rw (no_main, stored t key e' sealed) view'';
            ok = record { main_ok = ok.main_ok; insert_ok = rw (stored t key e' sealed) ok' };
            others = λ k ne. rw (stored_other t key k e' ne) refl;
          })
  ]
