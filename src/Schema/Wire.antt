-- ===== src/Schema/Wire.antt =====
-- common/Record.cpp: `Schema::serialize`, `deserialize` and `serializedLength`. The buffers are those of
-- crossbow: the code is the sequence of its calls to a writer, and reads through an interface.
use tellstore.Prelude.{
  ℕ, zero, suc, ◌+◌, ◌%◌, ◌*◌, ◌^◌, ◌<◌, ◌≤◌, ◌≡◌, Bool, true, false, not, List, [], ◌∷◌, ◌++◌,
  ◌==◌, length, if◌then◌else◌,
}
use tellstore.Align.{Aligner}
use tellstore.Schema.{
  Text, text_eq, FieldType, no_type, null_type, small_int, int, big_int, float, double, text, blob,
  unknown_type, is_fixed_sized, Field, Index, Schema, make_schema, insert_at,
}

-- The calls of a `crossbow::buffer_writer`.
pub data Write : Type 0 where
  word8 : ℕ → Write
  word16 : ℕ → Write
  word32 : ℕ → Write
  bytes : Text → Write
  align : ℕ → Write

-- The position after the calls.
unfoldable pub end_position : Aligner → ℕ → List Write → ℕ
end_position a p [] = p
end_position a p (word8 n ∷ rest) = end_position a (p + 1) rest
end_position a p (word16 n ∷ rest) = end_position a (p + 2) rest
end_position a p (word32 n ∷ rest) = end_position a (p + 4) rest
end_position a p (bytes t ∷ rest) = end_position a (p + length t) rest
end_position a p (align n ∷ rest) = end_position a (a.align p n) rest

abbrev pub take : ℕ → Text → Text
take zero t = []
take (suc n) [] = []
take (suc n) (x ∷ t) = x ∷ take n t

-- A `crossbow::buffer_reader`: it reads at a position what the calls wrote from there on. `peek` is
-- `data()` with a length.
pub record ByteBuffer : Type 1 where
  pub aligner : Aligner
  pub Reader : Type 0
  pub reader_of : ℕ → List Write → Reader
  pub read8 : Reader → ℕ × Reader
  pub read16 : Reader → ℕ × Reader
  pub read32 : Reader → ℕ × Reader
  pub peek : Reader → ℕ → Text
  pub advance : Reader → ℕ → Reader
  pub align_to : Reader → ℕ → Reader
  pub read8-word8 :
      (p n : ℕ) (rest : List Write)
      → n < 2 ^ 8
      → read8 (reader_of p (word8 n ∷ rest)) ≡ (n, reader_of (p + 1) rest)
  pub read16-word16 :
      (p n : ℕ) (rest : List Write)
      → n < 2 ^ 16
      → read16 (reader_of p (word16 n ∷ rest)) ≡ (n, reader_of (p + 2) rest)
  pub read32-word32 :
      (p n : ℕ) (rest : List Write)
      → n < 2 ^ 32
      → read32 (reader_of p (word32 n ∷ rest)) ≡ (n, reader_of (p + 4) rest)
  pub peek-bytes :
      (p n : ℕ) (t : Text) (rest : List Write)
      → n ≤ length t
      → peek (reader_of p (bytes t ∷ rest)) n ≡ take n t
  pub advance-word8 :
      (p n : ℕ) (rest : List Write)
      → advance (reader_of p (word8 n ∷ rest)) 1 ≡ reader_of (p + 1) rest
  pub advance-bytes :
      (p : ℕ) (t : Text) (rest : List Write)
      → advance (reader_of p (bytes t ∷ rest)) (length t) ≡ reader_of (p + length t) rest
  pub align_to-align :
      (p n : ℕ) (rest : List Write)
      → align_to (reader_of p (align n ∷ rest)) n ≡ reader_of (aligner.align p n) rest

-- `FieldType` as a 16-bit word, and back.
abbrev pub type_code : FieldType → ℕ
type_code no_type = 0
type_code null_type = 1
type_code small_int = 2
type_code int = 3
type_code big_int = 4
type_code float = 5
type_code double = 6
type_code text = 7
type_code blob = 8
type_code (unknown_type n) = n

unfoldable pub type_of : ℕ → FieldType
type_of n =
    if n == 0
    then no_type
    else if n == 1
    then null_type
    else if n == 2
    then small_int
    else if n == 3
    then int
    else if n == 4
    then big_int
    else if n == 5
    then float
    else if n == 6
    then double
    else if n == 7
    then text
    else if n == 8
    then blob
    else unknown_type n

-- `writeField`, and the loops over the fields. A name is a string with a size of 32 bits.
unfoldable pub write_field : Field → List Write
write_field f =
    word16 (type_code f.type)
    ∷ word8 (if f.not_null then 1 else 0)
    ∷ word8 0
    ∷ word32 (length f.name % 2 ^ 32)
    ∷ bytes f.name
    ∷ align 4
    ∷ []

unfoldable pub write_fields : List Field → List Write
unfolding write_field
write_fields [] = []
write_fields (f ∷ rest) = write_field f ++ write_fields rest

unfoldable pub write_ids : List ℕ → List Write
write_ids [] = []
write_ids (id ∷ rest) = word16 id ∷ write_ids rest

-- The bytes of a name of an index with those up to the next even size: the terminator.
abbrev pub padded : Text → Text
padded name = if length name % 2 == 0 then name else name ++ (0 ∷ [])

unfoldable pub write_index : Index → List Write
unfolding write_ids
write_index i =
    word16 (length i.fields % 2 ^ 16)
    ∷ word8 (if i.unique then 1 else 0)
    ∷ word8 0
    ∷ word16 (length i.name % 2 ^ 16)
    ∷ bytes (padded i.name)
    ∷ write_ids i.fields

unfoldable pub write_indexes : List Index → List Write
unfolding write_index
write_indexes [] = []
write_indexes (i ∷ rest) = write_index i ++ write_indexes rest

unfoldable pub serialize : Schema → List Write
unfolding write_fields write_indexes
serialize s =
    word16 ((length s.fixed_size_fields + length s.var_size_fields) % 2 ^ 16)
    ∷ word8 s.type
    ∷ word8 0
    ∷ (write_fields s.fixed_size_fields
        ++ (write_fields s.var_size_fields
            ++ (word16 (length s.indexes % 2 ^ 16) ∷ write_indexes s.indexes)))

-- `serializedLength`
unfoldable pub length_fields : Aligner → ℕ → List Field → ℕ
length_fields a res [] = res
length_fields a res (f ∷ rest) =
    length_fields a (a.align (res + (2 * 2 + 4) + length f.name) 4) rest

unfoldable pub length_indexes : ℕ → List Index → ℕ
length_indexes res [] = res
length_indexes res (i ∷ rest) =
    length_indexes (res + 3 * 2 + (length i.name + length i.name % 2) + 2 * length i.fields) rest

unfoldable pub serialized_length : Aligner → Schema → ℕ
unfolding length_fields length_indexes
serialized_length a s =
    length_indexes (length_fields a (length_fields a 4 s.fixed_size_fields) s.var_size_fields + 2)
      s.indexes

-- `emplace_back` of a field that was read.
unfoldable pub append_field : Schema → Field → Schema
append_field s f =
    let null_fields = if f.not_null then s.null_fields else s.null_fields + 1 in
    if is_fixed_sized f.type
    then record s { null_fields = null_fields; fixed_size_fields = s.fixed_size_fields ++ (f ∷ []) }
    else record s { null_fields = null_fields; var_size_fields = s.var_size_fields ++ (f ∷ []) }

-- `emplace` of an index: a name that is there keeps its index. The place of a new entry among those of
-- the `unordered_map` is a parameter.
unfoldable pub has_index : Text → List Index → Bool
has_index name [] = false
has_index name (i ∷ rest) = if text_eq i.name name then true else has_index name rest

unfoldable pub emplace_index : (Text → List Index → ℕ) → Schema → Index → Schema
unfolding has_index insert_at
emplace_index place s i =
    if has_index i.name s.indexes
    then s
    else record s { indexes = insert_at (place i.name s.indexes) i s.indexes }

module _ (b : ByteBuffer) (place : Text → List Index → ℕ) where
  unfoldable pub read_field : b.Reader → Field × b.Reader
  unfolding type_of
  read_field r0 =
      let (code, r1) = b.read16 r0 in
      let (flag, r2) = b.read8 r1 in
      let r3 = b.advance r2 1 in
      let (name_length, r4) = b.read32 r3 in
      let name = b.peek r4 name_length in
      let r5 = b.align_to (b.advance r4 name_length) 4 in
      (record { type = type_of code; name = name; not_null = not (flag == 0) }, r5)

  unfoldable pub read_fields : ℕ → Schema → b.Reader → Schema × b.Reader
  unfolding read_field append_field
  read_fields zero s r = (s, r)
  read_fields (suc n) s r = let (f, r') = read_field r in read_fields n (append_field s f) r'

  unfoldable pub read_ids : ℕ → b.Reader → List ℕ × b.Reader
  read_ids zero r = ([], r)
  read_ids (suc n) r =
      let (id, r') = b.read16 r in let (rest, r'') = read_ids n r' in (id ∷ rest, r'')

  unfoldable pub read_index : b.Reader → Index × b.Reader
  unfolding read_ids
  read_index r0 =
      let (num_fields, r1) = b.read16 r0 in
      let (unique, r2) = b.read8 r1 in
      let (padding, r3) = b.read8 r2 in
      let (name_size, r4) = b.read16 r3 in
      let name = b.peek r4 name_size in
      let r5 = b.advance r4 (name_size + name_size % 2) in
      let (fields, r6) = read_ids num_fields r5 in
      (record { name = name; unique = not (unique == 0); fields = fields }, r6)

  unfoldable pub read_indexes : ℕ → Schema → b.Reader → Schema × b.Reader
  unfolding read_index emplace_index
  read_indexes zero s r = (s, r)
  read_indexes (suc n) s r =
      let (i, r') = read_index r in read_indexes n (emplace_index place s i) r'

  unfoldable pub deserialize : b.Reader → Schema × b.Reader
  unfolding read_fields read_indexes
  deserialize r0 =
      let (num_columns, r1) = b.read16 r0 in
      let (type, r2) = b.read8 r1 in
      let r3 = b.advance r2 1 in
      let (s, r4) = read_fields num_columns (make_schema type) r3 in
      let (num_indexes, r5) = b.read16 r4 in read_indexes num_indexes s r5
