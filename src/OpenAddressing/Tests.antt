-- ===== src/OpenAddressing/Tests.antt =====
-- `OpenAddressingTable` at concrete keys.
use tellstore.Prelude.{
  ◌-◌, ◌+◌, ◌^◌, ◌≡◌, ◌≢◌, ◌⊎◌, refl, true, false, none, some, arith, if◌then◌else◌, inl,
}
use tellstore.HashFunction.{HashFunction, hash}
use tellstore.OpenAddressing.{
  OpenAddressingTable, make_table, get, insert, update_entry, erase, calculate_hash,
}
use tellstore.OpenAddressing.Lookups.{Lookups, same_key}
use tellstore.OpenAddressing.Inserts.{insert_lem, insert_untaken, insert_taken}
use tellstore.OpenAddressing.Overflow.{wrapped_key}
use tellstore.OpenAddressing.Updates.{update_entry_lem, erase_lem}
use tellstore.OpenAddressing.Valid.{IsValid, make_table-IsValid}

-- The hash of a key is its remainder modulo 4, whatever the table.
abbrev remainder_4 : HashFunction
remainder_4 = record { salt = 2 ^ 62; w_m = 62 }

abbrev empty : OpenAddressingTable
empty = make_table 4 remainder_4 remainder_4 (λ a b. b)

empty-IsValid : IsValid empty
empty-IsValid = make_table-IsValid 4 remainder_4 remainder_4 (λ a b. b) (omega arith) (omega arith)

get-empty : get empty 1 5 ≡ 0
unfolding get hash
get-empty = refl

insert_lem_example :
    let r = insert empty 1 5 80 in
    ((get empty 1 5 ≡ 0)
      × (r.0 ≡ true)
      × (r.1 ≡ none)
      × Lookups (λ a b. if same_key 1 5 a b then 80 else get empty a b) r)
    ⊎ ((get empty 1 5 ≢ 0) × (r.0 ≡ false) × (r.1 ≡ some (get empty 1 5)) × Lookups (get empty) r)
unfolding calculate_hash hash
insert_lem_example =
    insert_lem empty 1 5 80 0 empty-IsValid (omega arith) (omega arith) (omega arith) (omega arith)
      (inl refl)

abbrev one_key : OpenAddressingTable
one_key = (insert empty 1 5 80).2

one_key-IsValid : IsValid one_key
unfolding calculate_hash hash
one_key-IsValid =
    (insert_untaken empty 1 5 80 0 empty-IsValid (omega arith) (omega arith) (omega arith)
      (omega arith) (inl refl) get-empty).2.0

get-one_key : get one_key 1 5 ≡ 80
unfolding get insert hash
get-one_key = refl

insert_taken_test :
    let r = insert one_key 1 5 96 in
    (r.0 ≡ false) × (r.1 ≡ some (get one_key 1 5)) × Lookups (get one_key) r
unfolding get insert hash
insert_taken_test =
    insert_taken one_key 1 5 96 0 one_key-IsValid (omega arith) (omega arith) (inl refl)
      (omega arith)

update_entry_lem_example :
    let r = update_entry one_key 1 5 80 96 in
    (r.0 ≡ true)
    × (r.1 ≡ none)
    × Lookups (λ a b. if same_key 1 5 a b then 96 else get one_key a b) r
update_entry_lem_example =
    update_entry_lem one_key 1 5 80 96 one_key-IsValid get-one_key (omega arith) (omega arith)

erase_lem_example :
    let r = erase one_key 1 5 80 in
    (r.0 ≡ true) × (r.1 ≡ none) × Lookups (λ a b. if same_key 1 5 a b then 0 else get one_key a b) r
erase_lem_example = erase_lem one_key 1 5 80 one_key-IsValid get-one_key (omega arith)

-- An empty table whose hash combination ends near 2^64.
abbrev high : OpenAddressingTable
high = make_table 4 remainder_4 remainder_4 (λ a b. 2 ^ 64 + b - 3)

wrapped_key_example :
    (get high 1 2 ≡ 0)
    × (insert high 1 2 80 ≡ (false, none, high))
    × (erase high 1 2 80 ≡ (true, none, high))
unfolding calculate_hash hash
wrapped_key_example = wrapped_key high 1 2 80 (omega arith) (omega arith)
