-- ===== src/OpenAddressing.antt =====
-- util/OpenAddressingHash: `OpenAddressingTable`, from a table and a key to a pointer. One thread at a
-- time: an operation runs from its first access to its last, so a value that it reads again has not
-- changed, and each compare-exchange against a value that it has just read succeeds.
pub mod Probe
pub mod Placed
pub mod Conflict
pub mod Valid
pub mod Lookups
pub mod Inserts
pub mod Updates
pub mod Overflow
mod Tests
use tellstore.Prelude.{
  ℕ, zero, suc, ◌+◌, ◌-◌, ◌/◌, ◌%◌, ◌^◌, Bool, true, false, Option, none, some, ◌==◌, ltb,
  if◌then◌else◌, update, ◌&&◌,
}
use tellstore.HashFunction.{HashFunction, hash}

-- `EntryMarker`: the low three bits of a pointer.
abbrev pub free_marker : ℕ
free_marker = 0

abbrev pub deleted_marker : ℕ
deleted_marker = 1

abbrev pub invalid_marker : ℕ
invalid_marker = 2

abbrev pub inserting_marker : ℕ
inserting_marker = 4

-- `ptr & MARKER_MASK`
abbrev pub markers : ℕ → ℕ
markers ptr = ptr % 8

-- `ptr & INSERTING`
abbrev pub is_inserting : ℕ → Bool
is_inserting ptr = ptr / 4 % 2 == 1

-- `ptr | INSERTING`
abbrev pub mark_inserting : ℕ → ℕ
mark_inserting ptr = if is_inserting ptr then ptr else ptr + inserting_marker

pub record Entry : Type 0 where
  pub table_id : ℕ
  pub key_id : ℕ
  pub ptr : ℕ

-- The hash functions for the two parts of a key, and `boost::hash_combine`, with its 64-bit result.
pub record OpenAddressingTable : Type 0 where
  pub capacity : ℕ
  pub buckets : ℕ → Entry
  pub table_hash : HashFunction
  pub key_hash : HashFunction
  pub combine : ℕ → ℕ → ℕ

abbrev pub make_table : ℕ → HashFunction → HashFunction → (ℕ → ℕ → ℕ) → OpenAddressingTable
make_table capacity table_hash key_hash combine = record {
  capacity = capacity;
  buckets = λ i. record { table_id = 0; key_id = 0; ptr = free_marker };
  table_hash = table_hash;
  key_hash = key_hash;
  combine = combine;
}

-- `calculateHash`
unfoldable pub calculate_hash : OpenAddressingTable → ℕ → ℕ → ℕ
calculate_hash t table key = t.combine (hash t.table_hash table) (hash t.key_hash key) % 2 ^ 64

-- The rounds of `pos = h; pos < h + mCapacity; ++pos`: the sum wraps at 64 bits, `pos` never does.
abbrev pub rounds : OpenAddressingTable → ℕ → ℕ
rounds t h = (h + t.capacity) % 2 ^ 64 - h

abbrev pub store : OpenAddressingTable → ℕ → Entry → OpenAddressingTable
store t i entry = record t { buckets = update t.buckets i entry }

abbrev pub is_entry_of : Entry → ℕ → ℕ → Bool
is_entry_of entry table key = entry.table_id == table && entry.key_id == key

-- What an operation returns, what it stores through `actualData`, and the table.
abbrev pub Outcome : Type 0
Outcome = Bool × Option ℕ × OpenAddressingTable

-- `execOnElement`; the callback gets the index of the bucket and the pointer.
unfoldable pub exec_on_element {ℓ} :
    {T : Type ℓ} → ℕ → OpenAddressingTable → ℕ → ℕ → ℕ → T → (ℕ → ℕ → T) → T
exec_on_element zero t pos table key not_found fun = not_found
exec_on_element (suc n) t pos table key not_found fun =
    let rest = exec_on_element n t (pos + 1) table key not_found fun in
    let entry = t.buckets (pos % t.capacity) in
    if markers entry.ptr == free_marker
    then (if entry.ptr == free_marker
        then not_found
        else if is_entry_of entry table key
        then fun (pos % t.capacity) entry.ptr
        else rest)
    else rest

unfoldable pub get : OpenAddressingTable → ℕ → ℕ → ℕ
unfolding exec_on_element calculate_hash
get t table key =
    let h = calculate_hash t table key in
    exec_on_element (rounds t h) t h table key 0 (λ i ptr. ptr)

-- `deleteEntry`
abbrev pub deleted_entry : Entry
deleted_entry = record { table_id = 0; key_id = 0; ptr = deleted_marker }

-- `hasInsertConflict`
unfoldable pub has_insert_conflict : ℕ → OpenAddressingTable → ℕ → ℕ → ℕ → ℕ → Outcome
has_insert_conflict zero t pos insert_pos table key = (false, none, t)
has_insert_conflict (suc n) t pos insert_pos table key =
    let i = pos % t.capacity in
    let entry = t.buckets i in
    let rest = has_insert_conflict n t (pos + 1) insert_pos table key in
    let invalidated = store t i (record entry { ptr = invalid_marker }) in
    let rest_invalidated = has_insert_conflict n invalidated (pos + 1) insert_pos table key in
    if pos == insert_pos
    then rest
    else if entry.ptr == free_marker
    then (false, none, t)
    else if entry.ptr % 4 == 0
    then (if entry.table_id == 0
        then rest
        else if is_entry_of entry table key
        then (if is_inserting entry.ptr
            then (if ltb pos insert_pos then (true, some 0, t) else rest_invalidated)
            else (true, some entry.ptr, t))
        else rest)
    else rest

-- The end of a round of `insert`, after its conflict scan.
pub finish_insert : ℕ → ℕ → ℕ → Outcome → Outcome
finish_insert i insert_ptr new_data (conflict, actual, t) =
    if conflict
    then (false, actual, store t i deleted_entry)
    else if (t.buckets i).ptr == insert_ptr
    then (true, none, store t i (record (t.buckets i) { ptr = new_data }))
    else (false, some 0, store t i deleted_entry)

-- A round of `insert` after it has claimed the bucket at `pos`.
unfoldable pub insert_claimed : OpenAddressingTable → ℕ → ℕ → ℕ → ℕ → ℕ → Outcome
unfolding has_insert_conflict finish_insert
insert_claimed t h pos table key new_data =
    let i = pos % t.capacity in
    let insert_ptr = mark_inserting new_data in
    let claimed = store t i (record { table_id = table; key_id = key; ptr = insert_ptr }) in
    finish_insert i insert_ptr new_data (has_insert_conflict (rounds t h) claimed h pos table key)

unfoldable pub insert_loop : ℕ → OpenAddressingTable → ℕ → ℕ → ℕ → ℕ → ℕ → Outcome
unfolding insert_claimed
insert_loop zero t h pos table key new_data = (false, none, t)
insert_loop (suc n) t h pos table key new_data =
    let rest = insert_loop n t h (pos + 1) table key new_data in
    let ptr = (t.buckets (pos % t.capacity)).ptr in
    let claimed = insert_claimed t h pos table key new_data in
    if ptr == deleted_marker then claimed else if ptr == free_marker then claimed else rest

unfoldable pub insert : OpenAddressingTable → ℕ → ℕ → ℕ → Outcome
unfolding insert_loop calculate_hash
insert t table key new_data =
    let h = calculate_hash t table key in insert_loop (rounds t h) t h h table key new_data

-- `setActualData` of a pointer that was just read from the entry.
abbrev pub actual_data : Entry → ℕ → ℕ → ℕ
actual_data entry table key =
    if markers entry.ptr == 0 then (if is_entry_of entry table key then entry.ptr else 0) else 0

-- The callback of `update`.
unfoldable pub replace_pointer : OpenAddressingTable → ℕ → ℕ → ℕ → ℕ → ℕ → ℕ → Outcome
replace_pointer t table key old_data new_data i ptr =
    let entry = t.buckets i in
    if entry.ptr == old_data
    then (true, none, store t i (record entry { ptr = new_data }))
    else (false, some (actual_data entry table key), t)

-- `OpenAddressingTable::update`
unfoldable pub update_entry : OpenAddressingTable → ℕ → ℕ → ℕ → ℕ → Outcome
unfolding exec_on_element replace_pointer calculate_hash
update_entry t table key old_data new_data =
    let h = calculate_hash t table key in
    exec_on_element (rounds t h) t h table key (false, none, t)
      (replace_pointer t table key old_data new_data)

-- The callback of `erase`: the pointer is set to invalid, then the entry is deleted.
unfoldable pub erase_pointer : OpenAddressingTable → ℕ → ℕ → ℕ → ℕ → ℕ → Outcome
erase_pointer t table key old_data i ptr =
    let entry = t.buckets i in
    if entry.ptr == old_data
    then (true, none, store t i deleted_entry)
    else (false, some (actual_data entry table key), t)

unfoldable pub erase : OpenAddressingTable → ℕ → ℕ → ℕ → Outcome
unfolding exec_on_element erase_pointer calculate_hash
erase t table key old_data =
    let h = calculate_hash t table key in
    exec_on_element (rounds t h) t h table key (true, none, t) (erase_pointer t table key old_data)
