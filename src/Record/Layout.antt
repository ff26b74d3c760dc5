-- ===== src/Record/Layout.antt =====
-- The offsets of the constructor of `Record` without the words that hold them.
use native.Mathlib.Nat.{mod-eq_of_lt}
use tellstore.Prelude.{
  ℕ, ◌+◌, ◌*◌, ◌%◌, ◌^◌, ◌≤◌, ◌<◌, ◌≡◌, refl, ◌∙◌, true, false, List, [], ◌∷◌, ◌++◌, length,
  if◌then◌else◌, arith, Bool-cases, inl, inr,
}
use tellstore.Align.{Aligner}
use tellstore.Schema.{
  FieldType, no_type, null_type, small_int, int, big_int, float, double, text, blob, unknown_type,
  is_fixed_sized, static_size, Field, Schema, is_empty,
}
use tellstore.Schema.Fields.{AllSized, nullable, IsSchema}
use tellstore.Record.{FieldMetaData, Record, place_fields, fixed_width, offset_width, make_record}

unfoldable pub total : (Field → ℕ) → List Field → ℕ
total width [] = 0
total width (f ∷ fs) = width f + total width fs

abbrev pub null_width : Field → ℕ
null_width f = if f.not_null then 0 else 1

abbrev pub meta_of : Field → ℕ → ℕ → FieldMetaData
meta_of f offset null_idx = record {
  field = f;
  offset = offset;
  null_idx = if f.not_null then 0 else null_idx;
}

-- The fields one behind the other.
unfoldable pub placed : (Field → ℕ) → List Field → ℕ → ℕ → List FieldMetaData
placed width [] offset null_idx = []
placed width (f ∷ fs) offset null_idx =
    meta_of f offset null_idx ∷ placed width fs (offset + width f) (null_idx + null_width f)

next_index :
    (f : Field) (n : ℕ)
    → n + null_width f < 2 ^ 16
    → (if f.not_null then n else (n + 1) % 2 ^ 16) ≡ n + null_width f
next_index f n h = elim (Bool-cases f.not_null) [
  | inl e ↦ rw e (omega arith)
  | inr e ↦ rw e (mod-eq_of_lt (ground (arith, h, e)))
]

pub place_fields-placed :
    (width : Field → ℕ) (fs : List Field) (offset null_idx : ℕ)
    → offset + total width fs < 2 ^ 32
    → null_idx + nullable fs < 2 ^ 16
    → place_fields width fs offset null_idx
      ≡ (placed width fs offset null_idx, offset + total width fs, null_idx + nullable fs)
unfolding place_fields placed total nullable
place_fields-placed width [] offset null_idx h k =
    let e : offset + 0 ≡ offset = omega arith in
    let e' : null_idx + 0 ≡ null_idx = omega arith in rw (e, e') refl
place_fields-placed width (f ∷ fs) offset null_idx h k =
    let e : offset + (width f + total width fs) ≡ offset + width f + total width fs = omega arith in
    let e' : null_idx + (null_width f + nullable fs) ≡ null_idx + null_width f + nullable fs =
      omega arith in
    let head_lt : offset + width f < 2 ^ 32 = omega (arith, h) in
    rw
      (
        next_index f null_idx (omega (arith, k)),
        mod-eq_of_lt head_lt,
        place_fields-placed width fs (offset + width f) (null_idx + null_width f) (omega (arith, h))
            (omega (arith, k)),
        e,
        e',
      )
      refl

pub nullable_le : (fs : List Field) → nullable fs ≤ length fs
unfolding nullable
nullable_le [] = omega arith
nullable_le (f ∷ fs) = ground (arith, nullable_le fs)

-- Fields of a fixed size have at most 8 bytes.
fixed_width_le : (type : FieldType) → is_fixed_sized type ≡ true → static_size type ≤ 8
fixed_width_le null_type h = omega arith
fixed_width_le small_int h = omega arith
fixed_width_le int h = omega arith
fixed_width_le big_int h = omega arith
fixed_width_le float h = omega arith
fixed_width_le double h = omega arith
fixed_width_le text h = omega arith
fixed_width_le blob h = omega arith
fixed_width_le no_type h = ground (arith, h)
fixed_width_le (unknown_type n) h = ground (arith, h)

pub total-fixed_le : (fs : List Field) → AllSized true fs → total fixed_width fs ≤ 8 * length fs
unfolding total
total-fixed_le [] all = omega arith
total-fixed_le (f ∷ fs) all = omega (arith, fixed_width_le f.type all.0, total-fixed_le fs all.1)

pub total-offset : (fs : List Field) → total offset_width fs ≡ 4 * length fs
unfolding total
total-offset [] = omega arith
total-offset (f ∷ fs) = omega (arith, total-offset fs)

-- Where the parts of a record start.
module _ (a : Aligner) (s : Schema) where
  abbrev pub fixed_start : ℕ
  fixed_start = a.align s.null_fields 8

  abbrev pub fixed_end : ℕ
  fixed_end = fixed_start + total fixed_width s.fixed_size_fields

  abbrev pub variable_start : ℕ
  variable_start = a.align fixed_end 4

  abbrev pub variable_end : ℕ
  variable_end = variable_start + total offset_width s.var_size_fields

  abbrev pub fixed_metadata : List FieldMetaData
  fixed_metadata = placed fixed_width s.fixed_size_fields fixed_start 0

  abbrev pub variable_metadata : List FieldMetaData
  variable_metadata =
      placed offset_width s.var_size_fields variable_start (nullable s.fixed_size_fields)

  abbrev pub fixed_layout : Record
  fixed_layout = record {
    schema = s;
    metadata = fixed_metadata;
    static_size = fixed_end;
    variable_offset = 0;
  }

  abbrev pub variable_layout : Record
  variable_layout = record {
    schema = s;
    metadata = fixed_metadata ++ variable_metadata;
    static_size = variable_end + 4;
    variable_offset = variable_start;
  }

  abbrev pub layout : Record
  layout = if is_empty s.var_size_fields then fixed_layout else variable_layout

nullable-append : (xs ys : List Field) → nullable (xs ++ ys) ≡ nullable xs + nullable ys
unfolding nullable
nullable-append [] ys = omega arith
nullable-append (x ∷ xs) ys = ground (arith, nullable-append xs ys)

pub null_fields-split :
    (s : Schema)
    → IsSchema s
    → s.null_fields ≡ nullable s.fixed_size_fields + nullable s.var_size_fields
null_fields-split s ok = ok.counted ∙ nullable-append s.fixed_size_fields s.var_size_fields

-- No word of the constructor wraps round.
pub make_record-layout : (a : Aligner) (s : Schema) → IsSchema s → make_record a s ≡ layout a s
unfolding make_record
make_record-layout a s ok =
    let null_few : s.null_fields ≤ 65535 = omega (
      arith,
      null_fields-split s ok,
      nullable_le s.fixed_size_fields,
      nullable_le s.var_size_fields,
      ok.few,
    ) in
    let start : fixed_start a s < 2 ^ 17 =
      omega (arith, a.align-lt s.null_fields 8 (omega arith)) in
    let fixed : fixed_end a s < 2 ^ 20 =
      omega (arith, total-fixed_le s.fixed_size_fields ok.fixed, ok.few) in
    let variable : variable_start a s < 2 ^ 21 =
      omega (arith, a.align-lt (fixed_end a s) 4 (omega arith)) in
    let end : variable_end a s < 2 ^ 22 = omega (arith, total-offset s.var_size_fields, ok.few) in
    let start32 : fixed_start a s < 2 ^ 32 = omega (arith, start) in
    let variable32 : variable_start a s < 2 ^ 32 = omega (arith, variable) in
    let end32 : variable_end a s + 4 < 2 ^ 32 = omega (arith, end) in
    let counts : nullable s.fixed_size_fields + nullable s.var_size_fields < 2 ^ 16 =
      omega (arith, null_few, null_fields-split s ok) in
    let zero_add : 0 + nullable s.fixed_size_fields ≡ nullable s.fixed_size_fields = omega arith in
    rw
      (
        mod-eq_of_lt start32,
        place_fields-placed fixed_width s.fixed_size_fields (fixed_start a s) 0
            (omega (arith, fixed)) (omega (arith, counts)),
        zero_add,
        mod-eq_of_lt variable32,
        place_fields-placed offset_width s.var_size_fields (variable_start a s)
            (nullable s.fixed_size_fields) (omega (arith, end)) counts,
        mod-eq_of_lt end32,
      )
      refl

pub make_record-fixed :
    (a : Aligner) (s : Schema)
    → IsSchema s
    → is_empty s.var_size_fields ≡ true
    → make_record a s ≡ fixed_layout a s
make_record-fixed a s ok e = make_record-layout a s ok ∙ rw e refl

pub make_record-variable :
    (a : Aligner) (s : Schema)
    → IsSchema s
    → is_empty s.var_size_fields ≡ false
    → make_record a s ≡ variable_layout a s
make_record-variable a s ok e = make_record-layout a s ok ∙ rw e refl
