-- ===== src/Schema/Tests.antt =====
-- The theorems on `Schema` at concrete schemas.
use tellstore.Prelude.{ℕ, ◌+◌, ◌≡◌, refl, true, false, List, [], ◌∷◌, ◌++◌, some, arith}
use tellstore.Align.Rounding.{round, rounding}
use tellstore.Schema.{
  Text, int, big_int, text, Field, Index, Schema, id_of, get_field_from_name, field_at, add_field,
}
use tellstore.Schema.Lookups.{id_of-field_at}
use tellstore.Schema.Fields.{nullable, IsSchema}
use tellstore.Schema.Adding.{Added, add_field-IsSchema}
use tellstore.Schema.Wire.{word8, end_position, serialize, serialized_length, deserialize, type_of}
use tellstore.Schema.Emplacing.{find_index, with_indexes}
use tellstore.Schema.RoundTrip.{IsWritable, deserialize-serialize}
use tellstore.Schema.Lengths.{serialized_length-serialize}
use tellstore.Schema.Buffers.{byte_buffer}

abbrev pub number : Field
number = record { type = big_int; name = 110 ∷ []; not_null = true }

abbrev pub size : Field
size = record { type = int; name = 115 ∷ 122 ∷ []; not_null = false }

abbrev pub label : Field
label = record { type = text; name = 108 ∷ []; not_null = false }

abbrev pub by_number : Index
by_number = record { name = 105 ∷ []; unique = true; fields = 0 ∷ 2 ∷ [] }

abbrev pub table : Schema
table = record {
  type = 1;
  null_fields = 2;
  fixed_size_fields = number ∷ size ∷ [];
  var_size_fields = label ∷ [];
  indexes = by_number ∷ [];
}

abbrev without_indexes : Schema
without_indexes = record table { indexes = [] }

without_indexes-IsSchema : IsSchema without_indexes
unfolding nullable
without_indexes-IsSchema = record {
  descending = ((omega arith, tt), (tt, tt));
  fixed = (refl, (refl, tt));
  variable = (refl, tt);
  distinct = ((refl, (refl, tt)), ((refl, tt), (tt, tt)));
  short = (omega arith, (omega arith, (omega arith, tt)));
  counted = refl;
  few = omega arith;
}

pub table-IsSchema : IsSchema table
table-IsSchema = record {
  descending = without_indexes-IsSchema.descending;
  fixed = without_indexes-IsSchema.fixed;
  variable = without_indexes-IsSchema.variable;
  distinct = without_indexes-IsSchema.distinct;
  short = without_indexes-IsSchema.short;
  counted = without_indexes-IsSchema.counted;
  few = without_indexes-IsSchema.few;
}

table-IsWritable : IsWritable table
unfolding type_of
table-IsWritable = record {
  type = omega arith;
  known = (refl, omega arith, (refl, omega arith, (refl, omega arith, tt)));
  few = omega arith;
  indexes = (
    record { many = omega arith; short = omega arith; words = (omega arith, (omega arith, tt)) },
    tt,
  );
}

abbrev first_place : Text → List Index → ℕ
first_place name is = 0

add_field-IsSchema_example :
    Added without_indexes
      (record { type = big_int; name = 120 ∷ []; not_null = false })
      (add_field without_indexes big_int (120 ∷ []) false)
add_field-IsSchema_example =
    add_field-IsSchema without_indexes big_int (120 ∷ []) false without_indexes-IsSchema

deserialize-serialize_example :
    let (s', r) =
      deserialize byte_buffer first_place
        (byte_buffer.reader_of 8 (serialize table ++ (word8 7 ∷ []))) in
    (s' ≡ with_indexes table s'.indexes)
    × ((name : Text) → find_index name s'.indexes ≡ find_index name table.indexes)
    × (r ≡ byte_buffer.reader_of (end_position rounding 8 (serialize table)) (word8 7 ∷ []))
deserialize-serialize_example =
    deserialize-serialize byte_buffer first_place 8 table (word8 7 ∷ []) table-IsSchema
      table-IsWritable

id_of-field_at_example :
    (id_of table label.name ≡ some 2) × (get_field_from_name table label.name ≡ some label)
unfolding field_at
id_of-field_at_example = id_of-field_at table 2 label table-IsSchema refl

serialized_length-serialize_example :
    serialized_length rounding table ≡ end_position rounding 0 (serialize table)
serialized_length-serialize_example = serialized_length-serialize rounding table

-- The new field is inserted behind the one with the same alignment.
add_field_test :
    (add_field without_indexes big_int (120 ∷ []) false).1.fixed_size_fields
    ≡ (number ∷ record { type = big_int; name = 120 ∷ []; not_null = false } ∷ size ∷ [])
unfolding add_field
add_field_test = refl

serialized_length_test : serialized_length rounding table ≡ 4 + 12 + 12 + 12 + 2 + 6 + 2 + 4
unfolding serialized_length round
serialized_length_test = refl
