-- ===== src/Schema/RoundTrip.antt =====
-- A schema that was serialized and read back is the schema.
use mathlib.Core.List.{append_assoc}
use native.Mathlib.Nat.{mod-eq_of_lt}
use tellstore.Prelude.{
  ℕ, ◌+◌, ◌^◌, ◌<◌, ◌≡◌, refl, sym, ap, ◌∙◌, List, [], ◌∷◌, ◌++◌, length, arith, length-append,
}
use tellstore.Schema.{Text, Field, Index, Schema, make_schema}
use tellstore.Schema.Fields.{AllShort, nullable, all_fields, IsSchema}
use tellstore.Schema.Wire.{
  Write, write_field, append_field, word8, word16, end_position, ByteBuffer, type_code, type_of,
  write_field, write_fields, append_field, write_indexes, serialize, deserialize,
}
use tellstore.Schema.Reading.{
  AllWritable, AllIndexes, append_fields, emplace_indexes, end_position-append,
  read_fields-write_fields, read_indexes-write_indexes,
}
use tellstore.Schema.Emplacing.{
  find_index, with_indexes, find_index-emplace_indexes, emplace_indexes-fields, append_fields-fixed,
  append_fields-variable,
}

-- What the words of the wire can hold.
abbrev pub AllKnown : List Field → Type 0
AllKnown [] = Unit
AllKnown (f ∷ rest) =
    (type_of (type_code f.type) ≡ f.type) × (type_code f.type < 2 ^ 16) × AllKnown rest

pub record IsWritable (s : Schema) : Type 0 where
  pub type : s.type < 2 ^ 8
  pub known : AllKnown (all_fields s)
  pub few : length s.indexes < 2 ^ 16
  pub indexes : AllIndexes s.indexes

AllWritable-of_short : (fs : List Field) → AllKnown fs → AllShort fs → AllWritable fs
AllWritable-of_short [] k h = tt
AllWritable-of_short (f ∷ fs) k h = (
  record { known = k.0; word = k.1; short = omega (arith, h.0) },
  AllWritable-of_short fs k.2 h.1,
)

-- The fields of both kinds are read in one loop.
write_fields-append :
    (xs ys : List Field) → write_fields (xs ++ ys) ≡ write_fields xs ++ write_fields ys
unfolding write_fields
write_fields-append [] ys = refl
write_fields-append (x ∷ xs) ys =
    ap (λ l. write_field x ++ l) (write_fields-append xs ys)
    ∙ sym (append_assoc (write_field x) (write_fields xs) (write_fields ys))

append_fields-append :
    (s : Schema) (xs ys : List Field)
    → append_fields s (xs ++ ys) ≡ append_fields (append_fields s xs) ys
unfolding append_fields
append_fields-append s [] ys = refl
append_fields-append s (x ∷ xs) ys = append_fields-append (append_field s x) xs ys

nullable-append : (xs ys : List Field) → nullable (xs ++ ys) ≡ nullable xs + nullable ys
unfolding nullable
nullable-append [] ys = omega arith
nullable-append (x ∷ xs) ys = ground (arith, nullable-append xs ys)

-- The fields that were read build the schema without its indexes.
append_fields-schema :
    (s : Schema)
    → IsSchema s
    → append_fields (make_schema s.type) (all_fields s) ≡ with_indexes s []
append_fields-schema s ok =
    let total : 0 + nullable s.fixed_size_fields + nullable s.var_size_fields ≡ s.null_fields =
      omega (arith, ok.counted, nullable-append s.fixed_size_fields s.var_size_fields) in
    append_fields-append (make_schema s.type) s.fixed_size_fields s.var_size_fields
    ∙ ap (λ t. append_fields t s.var_size_fields)
        (append_fields-fixed (make_schema s.type) s.fixed_size_fields ok.fixed)
    ∙ append_fields-variable
        (record (make_schema s.type) {
          null_fields = 0 + nullable s.fixed_size_fields;
          fixed_size_fields = s.fixed_size_fields;
        })
        s.var_size_fields ok.variable
    ∙ ap (λ n. record s { null_fields = n; indexes = [] }) total

module _ (b : ByteBuffer) (place : Text → List Index → ℕ) where
  -- The indexes are emplaced in the schema with the fields alone.
  deserialize-serialize_exact :
      (p : ℕ) (s : Schema) (rest : List Write)
      → IsSchema s
      → IsWritable s
      → deserialize b place (b.reader_of p (serialize s ++ rest)) ≡ (
        emplace_indexes place (with_indexes s []) s.indexes,
        b.reader_of (end_position b.aligner p (serialize s)) rest,
      )
  unfolding deserialize serialize end_position
  deserialize-serialize_exact p s rest ok w =
      let count : ℕ = length s.fixed_size_fields + length s.var_size_fields in
      let tail : List Write = word16 (length s.indexes) ∷ (write_indexes s.indexes ++ rest) in
      let few : count < 2 ^ 16 = omega (arith, ok.few) in
      let q : ℕ = end_position b.aligner (p + 2 + 1 + 1) (write_fields (all_fields s)) in
      rw
        (
          mod-eq_of_lt few,
          mod-eq_of_lt w.few,
          sym (
              append_assoc (write_fields s.fixed_size_fields) (write_fields s.var_size_fields)
                (word16 (length s.indexes) ∷ write_indexes s.indexes)),
          sym (write_fields-append s.fixed_size_fields s.var_size_fields),
          append_assoc (write_fields (all_fields s))
              (word16 (length s.indexes) ∷ write_indexes s.indexes) rest,
          b.read16-word16 p count (word8 s.type ∷ word8 0 ∷ (write_fields (all_fields s) ++ tail))
              few,
          b.read8-word8 (p + 2) s.type (word8 0 ∷ (write_fields (all_fields s) ++ tail)) w.type,
          b.advance-word8 (p + 2 + 1) 0 (write_fields (all_fields s) ++ tail),
          sym (length-append s.fixed_size_fields s.var_size_fields),
          read_fields-write_fields b place (p + 2 + 1 + 1) (make_schema s.type) (all_fields s) tail
              (AllWritable-of_short (all_fields s) w.known ok.short),
          append_fields-schema s ok,
          b.read16-word16 q (length s.indexes) (write_indexes s.indexes ++ rest) w.few,
          read_indexes-write_indexes b place (q + 2) (with_indexes s []) s.indexes rest w.indexes,
          end_position-append b.aligner (p + 2 + 1 + 1) (write_fields (all_fields s))
              (word16 (length s.indexes) ∷ write_indexes s.indexes),
        )
        refl

  -- For a schema with the invariant of `addField`, whose types, indexes and numbers fit their words,
  -- `deserialize` at the start of what `serialize` wrote gives a schema with the same type, fields and
  -- number of nullable fields, in which every name finds the same index, and leaves the reader at the
  -- end of what was written, wherever it starts and whatever follows.
  pub deserialize-serialize :
      (p : ℕ) (s : Schema) (rest : List Write)
      → IsSchema s
      → IsWritable s
      → let (s', r) = deserialize b place (b.reader_of p (serialize s ++ rest)) in
        (s' ≡ with_indexes s s'.indexes)
        × ((name : Text) → find_index name s'.indexes ≡ find_index name s.indexes)
        × (r ≡ b.reader_of (end_position b.aligner p (serialize s)) rest)
  unfolding find_index
  deserialize-serialize p s rest ok w = rw (deserialize-serialize_exact p s rest ok w) (
    emplace_indexes-fields place (with_indexes s []) s.indexes,
    λ name. find_index-emplace_indexes place name (with_indexes s []) s.indexes,
    refl,
  )
