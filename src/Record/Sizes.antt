-- ===== src/Record/Sizes.antt =====
-- `Record::sizeOfTuple` of a tuple and of the record in memory.
use native.Mathlib.Nat.{mod-eq_of_lt}
use tellstore.Prelude.{
  ℕ, suc, ◌+◌, ◌-◌, ◌^◌, ◌<◌, ◌≡◌, refl, sym, ap, true, false, List, [], ◌∷◌, ◌++◌, Option, none,
  some, length, arith,
}
use tellstore.Align.{Aligner}
use tellstore.Schema.{FieldType, is_fixed_sized, Field, Schema, is_empty}
use tellstore.Schema.Fields.{AllSized, nullable}
use tellstore.Record.{
  Record, GenericTuple, Value, Memory, read_word32, offset_width, add_size, add_sizes, fixed_width,
  drop, size_of_tuple, size_of_record, heap_size,
}
use tellstore.Record.Layout.{
  null_width, placed, fixed_layout, variable_layout, fixed_metadata, variable_metadata,
  variable_end, fixed_start, variable_start,
}
use tellstore.Record.Values.{
  Fits, IsGiven, missing, given, AllGiven, text_of, fits_int16, fits_int32, fits_int64, fits_float,
  fits_double, fits_text, fits_blob,
}
use tellstore.Record.Filling.{heap_bytes, add_assoc}

add_size-string :
    (type : FieldType) (v : Value) (result : ℕ)
    → is_fixed_sized type ≡ false
    → Fits type v
    → result + length (text_of (some v)) < 2 ^ 32
    → add_size (some v) result ≡ some (result + length (text_of (some v)))
unfolding add_size
add_size-string type v result e fits_text small = ap some (mod-eq_of_lt small)
add_size-string type v result e fits_blob small = ap some (mod-eq_of_lt small)
add_size-string type v result e (fits_int16 h) small = ground (arith, e)
add_size-string type v result e (fits_int32 h) small = ground (arith, e)
add_size-string type v result e (fits_int64 h) small = ground (arith, e)
add_size-string type v result e (fits_float h) small = ground (arith, e)
add_size-string type v result e (fits_double h) small = ground (arith, e)

add_size-given :
    (f : Field) (o : Option Value) (result : ℕ)
    → is_fixed_sized f.type ≡ false
    → IsGiven f o
    → result + length (text_of o) < 2 ^ 32
    → add_size o result ≡ some (result + length (text_of o))
unfolding add_size
add_size-given f none result e (missing nullable) small = ap some (omega arith)
add_size-given f (some v) result e (given fits) small = add_size-string f.type v result e fits small

add_sizes-variable :
    (t : GenericTuple) (fs : List Field) (lo nlo result : ℕ)
    → AllSized false fs
    → AllGiven t fs
    → result + heap_bytes t fs < 2 ^ 32
    → add_sizes t (placed offset_width fs lo nlo) result ≡ some (result + heap_bytes t fs)
unfolding add_sizes placed heap_bytes
add_sizes-variable t [] lo nlo result sized all small = ap some (omega arith)
add_sizes-variable t (f ∷ fs) lo nlo result sized all small =
    let d : ℕ = length (text_of (t f.name)) in
    rw
      (
        add_sizes,
        add_size-given f (t f.name) result sized.0 all.0 (omega (arith, small)),
        sym (add_assoc result d (heap_bytes t fs)),
      )
      (add_sizes-variable t fs (lo + 4) (nlo + null_width f) (result + d) sized.1 all.1
        (omega (arith, small)))

drop-append : {A : Type 0} (xs ys : List A) → drop (length xs) (xs ++ ys) ≡ ys
drop-append [] ys = refl
drop-append (x ∷ xs) ys = drop-append xs ys

drop-all : {A : Type 0} (xs : List A) → drop (length xs) xs ≡ []
drop-all [] = refl
drop-all (x ∷ xs) = drop-all xs

pub length-placed :
    (width : Field → ℕ) (fs : List Field) (lo nlo : ℕ) → length (placed width fs lo nlo) ≡ length fs
unfolding placed
length-placed width [] lo nlo = refl
length-placed width (f ∷ fs) lo nlo =
    ap suc (length-placed width fs (lo + width f) (nlo + null_width f))

-- The size of the tuple is the size of the record in memory, and the heap has the bytes of the strings.
abbrev pub HasSize : Aligner → Record → GenericTuple → Memory → Type 0
HasSize a r t m =
    (size_of_tuple a r t ≡ some (size_of_record a r m))
    × (heap_size r m ≡ heap_bytes t r.schema.var_size_fields)

pub heap_bytes-empty :
    (t : GenericTuple) (fs : List Field) → is_empty fs ≡ true → heap_bytes t fs ≡ 0
unfolding heap_bytes
heap_bytes-empty t [] e = refl
heap_bytes-empty t (f ∷ fs) e = ground (arith, e)

module _ (a : Aligner) (s : Schema) (t : GenericTuple) (m : Memory) where
  pub HasSize-fixed : is_empty s.var_size_fields ≡ true → HasSize a (fixed_layout a s) t m
  unfolding size_of_tuple size_of_record heap_size add_sizes
  HasSize-fixed empty =
      let same : length s.fixed_size_fields ≡ length (fixed_metadata a s) =
        sym (length-placed fixed_width s.fixed_size_fields (fixed_start a s) 0) in
      (
        rw (size_of_tuple, same, drop-all (fixed_metadata a s), size_of_record, empty) refl,
        rw (heap_size, empty) (sym (heap_bytes-empty t s.var_size_fields empty)),
      )

  pub HasSize-variable :
      is_empty s.var_size_fields ≡ false
      → AllSized false s.var_size_fields
      → AllGiven t s.var_size_fields
      → variable_end a s + 4 + heap_bytes t s.var_size_fields < 2 ^ 32
      → read_word32 m (variable_end a s) ≡ variable_end a s + 4 + heap_bytes t s.var_size_fields
      → HasSize a (variable_layout a s) t m
  unfolding size_of_tuple size_of_record heap_size
  HasSize-variable some_variable sized all small last =
      let same : length s.fixed_size_fields ≡ length (fixed_metadata a s) =
        sym (length-placed fixed_width s.fixed_size_fields (fixed_start a s) 0) in
      let before : variable_end a s + 4 - 4 ≡ variable_end a s = omega arith in
      (
        rw
            (
              size_of_tuple,
              same,
              drop-append (fixed_metadata a s) (variable_metadata a s),
              size_of_record,
              some_variable,
              before,
              last,
              add_sizes-variable t s.var_size_fields (variable_start a s)
                  (nullable s.fixed_size_fields) (variable_end a s + 4) sized all small,
            )
            refl,
        rw (heap_size, some_variable, before, last) (omega arith),
      )
