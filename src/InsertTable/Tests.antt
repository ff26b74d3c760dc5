-- ===== src/InsertTable/Tests.antt =====
-- `InsertTable` at concrete keys, with collisions and deletions.
use tellstore.Prelude.{◌^◌, ◌≡◌, refl, true, false, none, some, arith, ◌==◌, if◌then◌else◌}
use tellstore.HashFunction.{HashFunction, hash}
use tellstore.InsertTable.{InsertTable, Outcome, make_table, get, insert, update_entry, remove}
use tellstore.InsertTable.Operations.{
  Lookups, insert_free, insert_present, update_entry_present, remove_present, stale_pointer,
  get-make_table,
}
use tellstore.InsertTable.Valid.{IsValid, make_table-IsValid}

-- The hash of a key is its remainder modulo 4.
abbrev remainder_4 : HashFunction
remainder_4 = record { salt = 2 ^ 62; w_m = 62 }

abbrev empty : InsertTable
empty = make_table 4 remainder_4

abbrev two_keys : InsertTable
two_keys = (insert (insert empty 5 80).2 9 96).2

-- The keys 5 and 9 share a bucket chain.
collision : (get two_keys 5 ≡ 80) × (get two_keys 9 ≡ 96) × (get two_keys 13 ≡ 0)
unfolding get insert hash
collision = (refl, refl, refl)

-- A removed bucket is claimed again by its own key alone.
reclaim :
    (get (remove two_keys 5 80).2 9 ≡ 96) × (get (insert (remove two_keys 5 80).2 5 112).2 5 ≡ 112)
unfolding get insert remove hash
reclaim = (refl, refl)

empty-IsValid : IsValid empty
empty-IsValid = make_table-IsValid 4 remainder_4 (omega arith)

insert_free_example :
    let r = insert empty 5 80 in
    (r.0 ≡ true) × (r.1 ≡ none) × Lookups (λ k. if k == 5 then 80 else get empty k) r
insert_free_example =
    insert_free empty 5 80 0 empty-IsValid (omega arith) (get-make_table 4 remainder_4 5)
      (omega arith) refl

abbrev one_key : InsertTable
one_key = (insert empty 5 80).2

one_key-IsValid : IsValid one_key
one_key-IsValid = insert_free_example.2.0

get-one_key : get one_key 5 ≡ 80
unfolding get insert hash
get-one_key = refl

insert_present_example : insert one_key 5 96 ≡ (false, some (get one_key 5), one_key)
unfolding get insert hash
insert_present_example = insert_present one_key 5 96 one_key-IsValid (omega arith)

update_entry_present_example :
    let r = update_entry one_key 5 80 96 in
    (r.0 ≡ true) × (r.1 ≡ none) × Lookups (λ k. if k == 5 then 96 else get one_key k) r
update_entry_present_example =
    update_entry_present one_key 5 80 96 one_key-IsValid get-one_key (omega arith) (omega arith)

remove_present_example :
    let r = remove one_key 5 80 in
    (r.0 ≡ true) × (r.1 ≡ none) × Lookups (λ k. if k == 5 then 0 else get one_key k) r
remove_present_example = remove_present one_key 5 80 one_key-IsValid get-one_key (omega arith)

stale_pointer_example :
    let miss : Outcome =
      (false, (if get one_key 5 == 0 then none else some (get one_key 5)), one_key) in
    (update_entry one_key 5 64 96 ≡ miss) × (remove one_key 5 64 ≡ miss)
unfolding get insert hash
stale_pointer_example = stale_pointer one_key 5 64 96 (omega arith) (omega arith)
