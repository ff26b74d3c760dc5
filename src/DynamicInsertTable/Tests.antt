-- ===== src/DynamicInsertTable/Tests.antt =====
-- `DynamicInsertTable` at concrete keys, across the growth of its head.
use tellstore.Prelude.{ℕ, ◌^◌, ◌≡◌, refl, true, some, List, [], ◌∷◌, arith, ◌==◌, if◌then◌else◌}
use tellstore.HashFunction.{HashFunction, hash}
use tellstore.InsertTable
use tellstore.InsertTable.Operations.{get-make_table, insert_free}
use tellstore.InsertTable.Taken.{taken}
use tellstore.InsertTable.Valid.{make_table-IsValid}
use tellstore.DynamicInsertTable.{
  ListEntry, DynamicInsertTable, make_dynamic, get, insert, remove, done, next_list,
  next_power_of_2,
}
use tellstore.DynamicInsertTable.Lookups.{IsValid, Inserted, insert_absent}
use tellstore.DynamicInsertTable.Removing.{
  AllValid, not_found, remove-not_found, remove_newest, older, remove-insert_at_bound,
}

abbrev hashers : ℕ → ℕ → HashFunction
hashers a capacity = record { salt = 2 ^ 62; w_m = 62 }

abbrev empty : DynamicInsertTable
empty = record {
  minimum_capacity = 2;
  lists =
      record {
        address = 0;
        size = 0;
        maximum_size = 1;
        table = InsertTable.make_table 2 (hashers 0 2);
      }
      ∷ [];
  allocated = 1;
  hashers = hashers;
}

make_empty : make_dynamic 2 hashers ≡ empty
unfolding make_dynamic
make_empty = refl

powers : (next_power_of_2 0 ≡ 1) × (next_power_of_2 5 ≡ 8) × (next_power_of_2 8 ≡ 16)
unfolding next_power_of_2
powers = (refl, refl, refl)

abbrev only : ListEntry
only = record {
  address = 0;
  size = 0;
  maximum_size = 1;
  table = InsertTable.make_table 2 (hashers 0 2);
}

empty-IsValid : IsValid empty only []
unfolding taken
empty-IsValid = record {
  shape = refl;
  head = record {
    valid = make_table-IsValid 2 (hashers 0 2) (omega arith);
    counted = omega arith;
    room = omega arith;
    bound = refl;
    large = omega arith;
  };
}

get-empty : get empty 7 ≡ 0
unfolding get InsertTable.get hash
get-empty = refl

insert_absent_example : Inserted empty 7 80 (insert 2 empty 7 80)
insert_absent_example = insert_absent empty only [] 7 80 empty-IsValid (omega arith) get-empty 0

-- The first insert already reaches the load bound of two buckets.
remove-insert_at_bound_example :
    (r : DynamicInsertTable) × (lists : List ListEntry) × (insert 2 empty 7 80 ≡ some (true, r))
    × (remove r 7 80 1 ≡ done true lists)
    × (get (record r { lists = lists }) 7 ≡ 80)
remove-insert_at_bound_example =
    remove-insert_at_bound empty only [] 7 80 1 empty-IsValid tt (omega arith) get-empty
      (omega arith)

-- The removal of an absent key, bounded by the only list.
remove-not_found_example : remove empty 7 80 0 ≡ not_found empty.lists (next_list 0 empty.lists)
remove-not_found_example = remove-not_found empty 7 80 0 get-empty (omega arith)

abbrev filled : DynamicInsertTable
filled = record empty {
  lists = record only { table = (InsertTable.insert only.table 7 80).2 } ∷ [];
}

get-filled : get filled 7 ≡ 80
unfolding get InsertTable.get InsertTable.insert hash
get-filled = refl

filled-AllValid : AllValid filled.lists
filled-AllValid = (
  (insert_free only.table 7 80 0 (make_table-IsValid 2 (hashers 0 2) (omega arith)) (omega arith)
      (get-make_table 2 (hashers 0 2) 7) (omega arith) refl).2.0,
  tt,
)

remove_newest_example :
    (lists : List ListEntry) × (remove filled 7 80 0 ≡ done true lists)
    × ((k : ℕ)
        → get (record filled { lists = lists }) k
          ≡ (if k == 7 then older filled.lists 7 else get filled k))
remove_newest_example = remove_newest filled 7 80 0 filled-AllValid get-filled (omega arith)
