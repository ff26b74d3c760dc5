-- ===== src/Record/Values.antt =====
-- The values that `Record::create` takes for a field, and how they are copied.
use tellstore.Prelude.{
  ℕ, ◌+◌, ◌%◌, ◌^◌, ◌<◌, ◌≡◌, refl, true, false, List, [], ◌∷◌, Option, none, some, length, arith,
}
use tellstore.Schema.{
  Text, FieldType, small_int, int, big_int, float, double, text, blob, is_fixed_sized, static_size,
  Field,
}
use tellstore.Record.{
  Value, int16_value, int32_value, int64_value, float_value, double_value, string_value,
  GenericTuple, Memory, copy, word_bytes, word_of, filled, write_word32, write_value,
}
use tellstore.Record.Memory.{word_of-word_bytes2, word_of-word_bytes4, word_of-word_bytes8}

-- The value has the type of the field.
pub data Fits : FieldType → Value → Type 0 where
  fits_int16 : {n : ℕ} → n < 2 ^ 16 → Fits small_int (int16_value n)
  fits_int32 : {n : ℕ} → n < 2 ^ 32 → Fits int (int32_value n)
  fits_int64 : {n : ℕ} → n < 2 ^ 64 → Fits big_int (int64_value n)
  fits_float : {n : ℕ} → n < 2 ^ 32 → Fits float (float_value n)
  fits_double : {n : ℕ} → n < 2 ^ 64 → Fits double (double_value n)
  fits_text : {d : Text} → Fits text (string_value d)
  fits_blob : {d : Text} → Fits blob (string_value d)

-- A field that may be null, or one with a value of its type.
pub data IsGiven (f : Field) : Option Value → Type 0 where
  missing : f.not_null ≡ false → IsGiven f none
  given : {v : Value} → Fits f.type v → IsGiven f (some v)

abbrev pub AllGiven : GenericTuple → List Field → Type 0
AllGiven t [] = Unit
AllGiven t (f ∷ fs) = IsGiven f (t f.name) × AllGiven t fs

abbrev pub number_of : Option Value → ℕ
number_of none = 0
number_of (some (int16_value n)) = n
number_of (some (int32_value n)) = n
number_of (some (int64_value n)) = n
number_of (some (float_value n)) = n
number_of (some (double_value n)) = n
number_of (some (string_value d)) = 0

abbrev pub text_of : Option Value → Text
text_of (some (string_value d)) = d
text_of o = []

abbrev pub null_bit : Option Value → ℕ
null_bit none = 1
null_bit (some v) = 0

-- A number is copied as a word of its size, which gives the number back.
pub write_value-number :
    (type : FieldType) (v : Value) (offset : ℕ) (m : Memory) (heap : ℕ)
    → is_fixed_sized type ≡ true
    → Fits type v
    → (write_value type offset v m heap
        ≡ filled (copy m offset (word_bytes (static_size type) (number_of (some v)))) heap)
      × (word_of (word_bytes (static_size type) (number_of (some v))) ≡ number_of (some v))
unfolding write_value
write_value-number type v offset m heap e (fits_int16 {n} h) = (refl, word_of-word_bytes2 n h)
write_value-number type v offset m heap e (fits_int32 {n} h) = (refl, word_of-word_bytes4 n h)
write_value-number type v offset m heap e (fits_int64 {n} h) = (refl, word_of-word_bytes8 n h)
write_value-number type v offset m heap e (fits_float {n} h) = (refl, word_of-word_bytes4 n h)
write_value-number type v offset m heap e (fits_double {n} h) = (refl, word_of-word_bytes8 n h)
write_value-number type v offset m heap e fits_text = ground (arith, e)
write_value-number type v offset m heap e fits_blob = ground (arith, e)

pub write_value-string :
    (type : FieldType) (v : Value) (offset : ℕ) (m : Memory) (heap : ℕ)
    → is_fixed_sized type ≡ false
    → Fits type v
    → write_value type offset v m heap
      ≡ filled
          (copy (write_word32 m offset heap) heap (text_of (some v)))
          ((heap + length (text_of (some v))) % 2 ^ 32)
unfolding write_value
write_value-string type v offset m heap e fits_text = refl
write_value-string type v offset m heap e fits_blob = refl
write_value-string type v offset m heap e (fits_int16 h) = ground (arith, e)
write_value-string type v offset m heap e (fits_int32 h) = ground (arith, e)
write_value-string type v offset m heap e (fits_int64 h) = ground (arith, e)
write_value-string type v offset m heap e (fits_float h) = ground (arith, e)
write_value-string type v offset m heap e (fits_double h) = ground (arith, e)
