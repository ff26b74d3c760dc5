-- ===== src/Schema/Lengths.antt =====
-- `Schema::serializedLength` is the number of bytes that `Schema::serialize` writes.
use tellstore.Prelude.{ℕ, ◌+◌, ◌%◌, ◌*◌, ◌^◌, ◌≡◌, refl, List, [], ◌∷◌, ◌++◌, length, arith}
use tellstore.Align.{Aligner}
use tellstore.Schema.{Field, Index, Schema}
use tellstore.Schema.Wire.{
  word16, end_position, write_fields, write_ids, padded, write_indexes, serialize, length_fields,
  length_indexes, serialized_length,
}
use tellstore.Schema.Reading.{end_position-append, length-padded}

length_fields-end_position :
    (a : Aligner) (p : ℕ) (fs : List Field)
    → length_fields a p fs ≡ end_position a p (write_fields fs)
unfolding length_fields end_position write_fields
length_fields-end_position a p [] = refl
length_fields-end_position a p (f ∷ fs) =
    let q : p + (2 * 2 + 4) + length f.name ≡ p + 2 + 1 + 1 + 4 + length f.name = omega arith in
    rw q (length_fields-end_position a (a.align (p + 2 + 1 + 1 + 4 + length f.name) 4) fs)

end_position-write_ids :
    (a : Aligner) (p : ℕ) (ids : List ℕ) → end_position a p (write_ids ids) ≡ p + 2 * length ids
unfolding end_position write_ids
end_position-write_ids a p [] = omega arith
end_position-write_ids a p (id ∷ ids) = omega (arith, end_position-write_ids a (p + 2) ids)

length_indexes-end_position :
    (a : Aligner) (p : ℕ) (is : List Index)
    → length_indexes p is ≡ end_position a p (write_indexes is)
unfolding length_indexes end_position write_indexes
length_indexes-end_position a p [] = refl
length_indexes-end_position a p (i ∷ is) =
    let q : ℕ = p + 2 + 1 + 1 + 2 + length (padded i.name) in
    let e : p + 3 * 2 + (length i.name + length i.name % 2) + 2 * length i.fields
        ≡ q + 2 * length i.fields =
      omega (arith, length-padded i.name) in
    rw
      (
        e,
        end_position-append a q (write_ids i.fields) (write_indexes is),
        end_position-write_ids a q i.fields,
      )
      (length_indexes-end_position a (q + 2 * length i.fields) is)

-- For every schema, `serializedLength` is the position at which `serialize` ends when it starts at the
-- position 0.
pub serialized_length-serialize :
    (a : Aligner) (s : Schema) → serialized_length a s ≡ end_position a 0 (serialize s)
unfolding serialized_length serialize end_position
serialized_length-serialize a s =
    rw
      (
        end_position-append a 4 (write_fields s.fixed_size_fields) (
            write_fields s.var_size_fields
            ++ word16 (length s.indexes % 2 ^ 16) ∷ write_indexes s.indexes),
        end_position-append a (end_position a 4 (write_fields s.fixed_size_fields))
            (write_fields s.var_size_fields)
            (word16 (length s.indexes % 2 ^ 16) ∷ write_indexes s.indexes),
        length_fields-end_position a 4 s.fixed_size_fields,
        length_fields-end_position a (end_position a 4 (write_fields s.fixed_size_fields))
            s.var_size_fields,
      )
      (length_indexes-end_position a
        (end_position a (end_position a 4 (write_fields s.fixed_size_fields))
            (write_fields s.var_size_fields)
          + 2)
        s.indexes)
