-- ===== src/Record/Refusals.antt =====
-- `Record::create` for a tuple without a value for a field that must have one.
use mathlib.Core.Option.{none-ne-some, some-injective}
use tellstore.Prelude.{
  ℕ, zero, suc, ◌+◌, ◌%◌, ◌^◌, ◌≡◌, ◌≢◌, update, refl, sym, ap, ◌∙◌, true, List, [], ◌∷◌, Option,
  none, some, length, arith, ◌⊎◌, inl, inr, Bool-cases, get_elem?,
}
use tellstore.Schema.{is_fixed_sized, static_size, Field}
use tellstore.Record.{
  FieldMetaData, Record, GenericTuple, Value, Memory, fill_zero, write_word32, word_bytes, copy,
  Filled, filled, refused, fill_field, fill_fields, set_last_offset, create,
}
use tellstore.Record.Values.{Fits, number_of, text_of, write_value-number, write_value-string}
use tellstore.Record.Filling.{continue}

-- A value that is given has the type of the field.
pub data IsTyped (f : Field) : Option Value → Type 0 where
  absent : IsTyped f none
  typed : {v : Value} → Fits f.type v → IsTyped f (some v)

abbrev pub AllTyped : GenericTuple → List FieldMetaData → Type 0
AllTyped t [] = Unit
AllTyped t (f ∷ fs) = IsTyped f.field (t f.field.name) × AllTyped t fs

-- What a field without a value of another type does.
abbrev Outcome : FieldMetaData → Option Value → Filled → Type 0
Outcome f o z =
    ((m : Memory) × (heap : ℕ) × (z ≡ filled m heap) × ((f.field.not_null ≡ true) → o ≢ none))
    ⊎ ((m : Memory) × (z ≡ refused m))

fill_field-outcome :
    (f : FieldMetaData) (o : Option Value) (m : Memory) (heap : ℕ)
    → IsTyped f.field o
    → Outcome f o (fill_field o f m heap)
unfolding fill_field
fill_field-outcome f none m heap absent = elim (Bool-cases f.field.not_null) [
  | inl required ↦ inr (m, rw required refl)
  | inr nullable ↦ inl (elim (Bool-cases (is_fixed_sized f.field.type)) [
    | inl fixed ↦ (
      fill_zero (update m f.null_idx 1) f.offset (static_size f.field.type),
      heap,
      rw (nullable, fixed) refl,
      λ e. absurd (ground (arith, e, nullable)),
    )
    | inr variable ↦ (
      write_word32 (update m f.null_idx 1) f.offset heap,
      heap,
      rw (nullable, variable) refl,
      λ e. absurd (ground (arith, e, nullable)),
    )
  ])
]
fill_field-outcome f (some v) m heap (typed fits) =
    elim (Bool-cases (is_fixed_sized f.field.type)) [
      | inl fixed ↦ inl (
        copy m f.offset (word_bytes (static_size f.field.type) (number_of (some v))),
        heap,
        (write_value-number f.field.type v f.offset m heap fixed fits).0,
        λ e e'. none-ne-some _ (sym e'),
      )
      | inr variable ↦ inl (
        copy (write_word32 m f.offset heap) heap (text_of (some v)),
        (heap + length (text_of (some v))) % 2 ^ 32,
        write_value-string f.field.type v f.offset m heap variable fits,
        λ e e'. none-ne-some _ (sym e'),
      )
    ]

later :
    (g : FieldMetaData) (ms : List FieldMetaData) (id : ℕ) (f : FieldMetaData)
    → get_elem? (g ∷ ms) id ≡ some f
    → (g ≡ f) ⊎ ((id' : ℕ) × (get_elem? ms id' ≡ some f))
later g ms zero f e = inl (some-injective _ _ e)
later g ms (suc id) f e = inr (id, e)

fill_fields-missing :
    (t : GenericTuple) (ms : List FieldMetaData) (id : ℕ) (f : FieldMetaData) (m : Memory)
    (heap : ℕ)
    → AllTyped t ms
    → get_elem? ms id ≡ some f
    → f.field.not_null ≡ true
    → t f.field.name ≡ none
    → (m' : Memory) × (fill_fields t ms m heap ≡ refused m')
unfolding fill_fields
fill_fields-missing t [] id f m heap all e required missing = absurd (none-ne-some _ e)
fill_fields-missing t (g ∷ ms) id f m heap all e required missing =
    elim (fill_field-outcome g (t g.field.name) m heap all.0) [
      | inr (m', run) ↦ (m', ap (continue t ms) run)
      | inl (m', heap', run, present) ↦ elim (later g ms id f e) [
        | inl same ↦ absurd (
            present (ap (λ x. x.field.not_null) same ∙ required)
              (ap (λ x. t x.field.name) same ∙ missing))
        | inr (id', e') ↦
            let (m2, run') = fill_fields-missing t ms id' f m' heap' all.1 e' required missing in
            (m2, ap (continue t ms) run ∙ run')
      ]
    ]

-- When a tuple gives no field a value of another type, and gives no value for some field that must not
-- be null, `create` returns false, for any record.
pub create-missing :
    (r : Record) (t : GenericTuple) (m : Memory) (id : ℕ) (f : FieldMetaData)
    → AllTyped t r.metadata
    → get_elem? r.metadata id ≡ some f
    → f.field.not_null ≡ true
    → t f.field.name ≡ none
    → (m' : Memory) × (create r t m ≡ refused m')
unfolding create set_last_offset
create-missing r t m id f all e required missing =
    let (m', run) =
      fill_fields-missing t r.metadata id f (fill_zero m 0 r.schema.null_fields) r.static_size all e
        required missing in
    (m', ap (set_last_offset r) run)
