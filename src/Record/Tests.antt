-- ===== src/Record/Tests.antt =====
-- The theorems on `Record` at the record of a schema with numbers and a string.
use tellstore.Prelude.{◌≡◌, refl, [], ◌∷◌, none, some, arith, if◌then◌else◌}
use tellstore.Align.Rounding.{round, rounding}
use tellstore.Schema.{text_eq}
use tellstore.Schema.Tests.{table, number, table-IsSchema}
use tellstore.Record.{
  place_fields, make_record, GenericTuple, int64_value, string_value, Memory, refused, create,
  size_of_tuple,
}
use tellstore.Record.Values.{fits_int64, fits_text, missing, given}
use tellstore.Record.Filling.{heap_bytes}
use tellstore.Record.RoundTrip.{Created, create-data}
use tellstore.Record.LaidOut.{IsLaidOut, make_record-IsLaidOut}
use tellstore.Record.Refusals.{absent, create-missing}

abbrev empty_memory : Memory
empty_memory a = 255

-- The number 7 and the string "hi".
abbrev tuple : GenericTuple
tuple name =
    if text_eq name (110 ∷ [])
    then some (int64_value 7)
    else if text_eq name (108 ∷ [])
    then some (string_value (104 ∷ 105 ∷ []))
    else none

abbrev without_number : GenericTuple
without_number name = none

make_record-IsLaidOut_example :
    ((make_record rounding table).schema ≡ table) × IsLaidOut (make_record rounding table)
make_record-IsLaidOut_example = make_record-IsLaidOut rounding table table-IsSchema

create-data_example :
    Created rounding table tuple empty_memory table-IsSchema
      (given (fits_int64 (omega arith)), (missing refl, (given fits_text, tt)))
      (make_record rounding table)
unfolding make_record heap_bytes round
create-data_example =
    create-data rounding table tuple empty_memory table-IsSchema
      (given (fits_int64 (omega arith)), (missing refl, (given fits_text, tt))) (omega arith)

create-missing_example :
    (m' : Memory) × (create (make_record rounding table) without_number empty_memory ≡ refused m')
unfolding make_record place_fields round
create-missing_example =
    create-missing (make_record rounding table) without_number empty_memory 0
      (record { field = number; offset = 8; null_idx = 0 }) (absent, (absent, (absent, tt))) refl
      refl refl

size_of_tuple_test : size_of_tuple rounding (make_record rounding table) tuple ≡ some 32
unfolding make_record size_of_tuple round
size_of_tuple_test = refl
