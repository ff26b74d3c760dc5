-- ===== src/Record.antt =====
-- tellstore/Record.hpp and common/Record.cpp: `FieldMetaData` and `Record`, the layout of a tuple in
-- memory. A memory is a function from addresses to bytes, words have their least byte first, and
-- addresses count from the start of the record.
pub mod Memory
pub mod Layout
pub mod Values
pub mod Steps
pub mod Filling
pub mod Creation
pub mod Sizes
pub mod Bounds
pub mod Alignment
pub mod LaidOut
pub mod RoundTrip
pub mod Refusals
pub mod Tests
use tellstore.Prelude.{
  ℕ, zero, suc, ◌+◌, ◌-◌, ◌*◌, ◌/◌, ◌%◌, ◌^◌, Bool, true, false, not, List, [], ◌∷◌, ◌++◌, Option,
  none, some, ◌==◌, length, get_elem?, if◌then◌else◌, update,
}
use tellstore.Align.{Aligner}
use tellstore.Schema.{
  Text, text_eq, FieldType, no_type, null_type, small_int, int, big_int, float, double, text, blob,
  unknown_type, is_fixed_sized, static_size, Field, Schema, is_empty,
}

abbrev pub Memory : Type 0
Memory = ℕ → ℕ

-- `memset` and `memcpy`
unfoldable pub fill_zero : Memory → ℕ → ℕ → Memory
fill_zero m a zero = m
fill_zero m a (suc n) = fill_zero (update m a 0) (a + 1) n

unfoldable pub copy : Memory → ℕ → List ℕ → Memory
copy m a [] = m
copy m a (x ∷ xs) = copy (update m a x) (a + 1) xs

-- The bytes of a word of some size, and the word of some bytes.
unfoldable pub word_bytes : ℕ → ℕ → List ℕ
word_bytes zero n = []
word_bytes (suc k) n = n % 256 ∷ word_bytes k (n / 256)

unfoldable pub read_bytes : Memory → ℕ → ℕ → List ℕ
read_bytes m a zero = []
read_bytes m a (suc n) = m a ∷ read_bytes m (a + 1) n

unfoldable pub word_of : List ℕ → ℕ
word_of [] = 0
word_of (x ∷ xs) = x + 256 * word_of xs

-- `*reinterpret_cast<const uint32_t*>(ptr + a)`
unfoldable pub read_word32 : Memory → ℕ → ℕ
unfolding word_of read_bytes
read_word32 m a = word_of (read_bytes m a 4)

unfoldable pub write_word32 : Memory → ℕ → ℕ → Memory
unfolding copy word_bytes
write_word32 m a n = copy m a (word_bytes 4 n)

pub record FieldMetaData : Type 0 where
  pub field : Field
  pub offset : ℕ
  pub null_idx : ℕ

pub record Record : Type 0 where
  pub schema : Schema
  pub metadata : List FieldMetaData
  pub static_size : ℕ
  pub variable_offset : ℕ

-- The loops of the constructor over the fields: the metadata, the offset behind the fields and the next
-- index of a nullable field. `width` is what a field adds to `mStaticSize`.
unfoldable pub place_fields : (Field → ℕ) → List Field → ℕ → ℕ → List FieldMetaData × ℕ × ℕ
place_fields width [] size null_idx = ([], size, null_idx)
place_fields width (f ∷ rest) size null_idx =
    let next = if f.not_null then null_idx else (null_idx + 1) % 2 ^ 16 in
    let (placed, size', next') = place_fields width rest ((size + width f) % 2 ^ 32) next in
    let meta : FieldMetaData = record {
      field = f;
      offset = size;
      null_idx = if f.not_null then 0 else null_idx;
    } in
    (meta ∷ placed, size', next')

abbrev pub fixed_width : Field → ℕ
fixed_width f = static_size f.type

abbrev pub offset_width : Field → ℕ
offset_width f = 4

unfoldable pub make_record : Aligner → Schema → Record
unfolding place_fields
make_record a s =
    let (fixed, size, null_idx) =
      place_fields fixed_width s.fixed_size_fields (a.align s.null_fields 8 % 2 ^ 32) 0 in
    let offset = a.align size 4 % 2 ^ 32 in
    let (variable, size', next) = place_fields offset_width s.var_size_fields offset null_idx in
    if is_empty s.var_size_fields
    then record { schema = s; metadata = fixed; static_size = size; variable_offset = 0 }
    else record {
      schema = s;
      metadata = fixed ++ variable;
      static_size = (size' + 4) % 2 ^ 32;
      variable_offset = offset;
    }

-- The values of a `GenericTuple`. Numbers are the words that are copied.
pub data Value : Type 0 where
  int16_value : ℕ → Value
  int32_value : ℕ → Value
  int64_value : ℕ → Value
  float_value : ℕ → Value
  double_value : ℕ → Value
  string_value : Text → Value

-- `find` on the tuple.
abbrev pub GenericTuple : Type 0
GenericTuple = Text → Option Value

-- What the loop of `sizeOfTuple` adds for a field; none where `any_cast` throws.
unfoldable pub add_size : Option Value → ℕ → Option ℕ
add_size none result = some result
add_size (some (string_value d)) result = some ((result + length d) % 2 ^ 32)
add_size (some v) result = none

unfoldable pub add_sizes : GenericTuple → List FieldMetaData → ℕ → Option ℕ
unfolding add_size
add_sizes t [] result = some result
add_sizes t (f ∷ rest) result = elim (add_size (t f.field.name) result) [
  | none ↦ none
  | some result' ↦ add_sizes t rest result'
]

abbrev pub drop {ℓ} : {A : Type ℓ} → ℕ → List A → List A
drop zero xs = xs
drop (suc n) [] = []
drop (suc n) (x ∷ xs) = drop n xs

unfoldable pub size_of_tuple : Aligner → Record → GenericTuple → Option ℕ
unfolding add_sizes
size_of_tuple a r t =
    elim (add_sizes t (drop (length r.schema.fixed_size_fields) r.metadata) r.static_size) [
      | none ↦ none
      | some result ↦ some (a.align result 8 % 2 ^ 32)
    ]

-- `sizeOfTuple` and `heapSize` of a record in memory.
unfoldable pub size_of_record : Aligner → Record → Memory → ℕ
size_of_record a r m =
    let end =
      if is_empty r.schema.var_size_fields
      then r.static_size
      else read_word32 m (r.static_size - 4) in
    a.align end 8 % 2 ^ 32

unfoldable pub heap_size : Record → Memory → ℕ
heap_size r m =
    if is_empty r.schema.var_size_fields
    then 0
    else read_word32 m (r.static_size - 4) - r.static_size

-- What `create` leaves: the memory, with the offset of the heap's end, when it returns true; the memory
-- when it returns false; nothing when it reads a value of another type through a null pointer.
pub data Filled : Type 0 where
  filled : Memory → ℕ → Filled
  refused : Memory → Filled
  undefined : Filled

abbrev pub write_string : ℕ → Value → Memory → ℕ → Filled
write_string offset (string_value d) m heap =
    filled (copy (write_word32 m offset heap) heap d) ((heap + length d) % 2 ^ 32)
write_string offset v m heap = undefined

-- The `switch` of `create`.
unfoldable pub write_value : FieldType → ℕ → Value → Memory → ℕ → Filled
write_value small_int offset (int16_value n) m heap = filled (copy m offset (word_bytes 2 n)) heap
write_value int offset (int32_value n) m heap = filled (copy m offset (word_bytes 4 n)) heap
write_value big_int offset (int64_value n) m heap = filled (copy m offset (word_bytes 8 n)) heap
write_value float offset (float_value n) m heap = filled (copy m offset (word_bytes 4 n)) heap
write_value double offset (double_value n) m heap = filled (copy m offset (word_bytes 8 n)) heap
write_value text offset v m heap = write_string offset v m heap
write_value blob offset v m heap = write_string offset v m heap
write_value no_type offset v m heap = refused m
write_value null_type offset v m heap = refused m
write_value (unknown_type n) offset v m heap = refused m
write_value type offset v m heap = undefined

-- What `create` does for one field, for what `find` gave.
unfoldable pub fill_field : Option Value → FieldMetaData → Memory → ℕ → Filled
unfolding write_value fill_zero write_word32
fill_field (some v) f m heap = write_value f.field.type f.offset v m heap
fill_field none f m heap =
    let m' = update m f.null_idx 1 in
    if f.field.not_null
    then refused m
    else if is_fixed_sized f.field.type
    then filled (fill_zero m' f.offset (static_size f.field.type)) heap
    else filled (write_word32 m' f.offset heap) heap

unfoldable pub fill_fields : GenericTuple → List FieldMetaData → Memory → ℕ → Filled
unfolding fill_field
fill_fields t [] m heap = filled m heap
fill_fields t (f ∷ rest) m heap = elim (fill_field (t f.field.name) f m heap) [
  | filled m' heap' ↦ fill_fields t rest m' heap'
  | refused m' ↦ refused m'
  | undefined ↦ undefined
]

-- The offset behind those of the fields is set to the end of the heap.
unfoldable pub set_last_offset : Record → Filled → Filled
set_last_offset r (refused m) = refused m
set_last_offset r undefined = undefined
set_last_offset r (filled m heap) =
    if is_empty r.schema.var_size_fields
    then filled m heap
    else filled (write_word32 m (r.static_size - 4) heap) heap

unfoldable pub create : Record → GenericTuple → Memory → Filled
unfolding fill_fields set_last_offset
create r t m =
    set_last_offset r (fill_fields t r.metadata (fill_zero m 0 r.schema.null_fields) r.static_size)

-- `data`: the address, the type, and what `isNull` is set to if it is; none for an id that is not there.
unfoldable pub data_of : Record → Memory → ℕ → Option (ℕ × FieldType × Option Bool)
data_of r m id = elim (get_elem? r.metadata id) [
  | none ↦ none
  | some f ↦
      let is_null = if f.field.not_null then none else some (not (m f.null_idx == 0)) in
      some (f.offset, f.field.type, is_null)
]
