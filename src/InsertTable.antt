-- ===== src/InsertTable.antt =====
-- deltamain/InsertHash: `InsertTable`, a hash table with open addressing that only grows. A thread
-- runs alone here.
pub mod Probe
pub mod Placed
pub mod Valid
pub mod Operations
pub mod Taken
mod Tests
use tellstore.Prelude.{
  ℕ, zero, suc, ◌+◌, ◌%◌, Bool, true, false, Option, none, some, ◌==◌, if◌then◌else◌, update,
}
use tellstore.HashFunction.{HashFunction, hash}

-- `EntryMarker`: any other value of an entry is a pointer.
abbrev pub free_marker : ℕ
free_marker = 0

abbrev pub deleted_marker : ℕ
deleted_marker = 1

pub record Entry : Type 0 where
  pub key : ℕ
  pub value : ℕ

-- The entry that its default constructor makes.
abbrev pub free_entry : Entry
free_entry = record { key = 0; value = free_marker }

-- `mBuckets` is an array of `capacity` entries, read and written at `pos % capacity` alone.
pub record InsertTable : Type 0 where
  pub capacity : ℕ
  pub buckets : ℕ → Entry
  pub hasher : HashFunction

abbrev pub make_table : ℕ → HashFunction → InsertTable
make_table capacity hasher = record {
  capacity = capacity;
  buckets = λ i. free_entry;
  hasher = hasher;
}

-- `AtomicEntry::compare_exchange_strong`: whether it succeeded, the `expected` that it leaves,
-- and the entry.
pub compare_exchange_strong : Entry → Entry → Entry → Bool × Entry × Entry
compare_exchange_strong entry expected desired =
    if entry.key == expected.key
    then (if entry.value == expected.value
        then (true, expected, desired)
        else (false, entry, entry))
    else (false, entry, entry)

-- `AtomicEntry::updateValue`
pub update_value : Entry → ℕ → ℕ → Bool × ℕ × Entry
update_value entry expected desired =
    if entry.value == expected
    then (true, expected, record entry { value = desired })
    else (false, entry.value, entry)

-- What an operation returns: its result, what it writes through `actualData` (`none` where it
-- writes nothing), and the table.
abbrev pub Outcome : Type 0
Outcome = Bool × Option ℕ × InsertTable

abbrev store : InsertTable → ℕ → Entry → InsertTable
store t i e = record t { buckets = update t.buckets i e }

-- `execOnElement`, with the rounds of its loop that are left. The callback gets the index of the
-- bucket and the pointer.
pub exec_on_element {ℓ} : {T : Type ℓ} → ℕ → InsertTable → ℕ → ℕ → T → (ℕ → ℕ → T) → T
exec_on_element zero t pos key not_found fun = not_found
exec_on_element (suc rounds) t pos key not_found fun =
    let rest = exec_on_element rounds t (pos + 1) key not_found fun in
    let entry = t.buckets (pos % t.capacity) in
    if entry.value == free_marker
    then not_found
    else if entry.key == key
    then (if entry.value == deleted_marker then not_found else fun (pos % t.capacity) entry.value)
    else rest

-- The null pointer is the number 0.
unfoldable pub get : InsertTable → ℕ → ℕ
unfolding exec_on_element
get t key = exec_on_element t.capacity t (hash t.hasher key) key 0 (λ i ptr. ptr)

-- The end of a round of `insert`, at a bucket that holds the key.
claim_deleted : InsertTable → ℕ → ℕ → ℕ → Outcome
unfolding update_value
claim_deleted t i ptr new_data =
    let (done, seen, entry) = update_value (t.buckets i) ptr new_data in
    if ptr == deleted_marker
    then (if done then (true, none, store t i entry) else (false, some seen, t))
    else (false, some ptr, t)

unfoldable pub insert_loop : ℕ → InsertTable → ℕ → ℕ → ℕ → Outcome
unfolding compare_exchange_strong claim_deleted
insert_loop zero t pos key new_data = (false, none, t)
insert_loop (suc rounds) t pos key new_data =
    let rest = insert_loop rounds t (pos + 1) key new_data in
    let i = pos % t.capacity in
    let entry = t.buckets i in
    let (done, old_entry, new_entry) =
      compare_exchange_strong entry free_entry (record { key = key; value = new_data }) in
    if entry.value == free_marker
    then (if done
        then (true, none, store t i new_entry)
        else if old_entry.key == key
        then claim_deleted t i old_entry.value new_data
        else rest)
    else if entry.key == key
    then claim_deleted t i entry.value new_data
    else rest

unfoldable pub insert : InsertTable → ℕ → ℕ → Outcome
unfolding insert_loop
insert t key new_data = insert_loop t.capacity t (hash t.hasher key) key new_data

-- The callback of `internalUpdate`.
replace_value : InsertTable → ℕ → ℕ → ℕ → ℕ → Outcome
unfolding update_value
replace_value t old_data new_data i ptr =
    let (done, expected, entry) = update_value (t.buckets i) old_data new_data in
    if ptr == old_data
    then (if done
        then (true, none, store t i entry)
        else if expected == deleted_marker
        then (false, none, t)
        else (false, some expected, t))
    else (false, some ptr, t)

internal_update : InsertTable → ℕ → ℕ → ℕ → Outcome
unfolding exec_on_element replace_value
internal_update t key old_data new_data =
    exec_on_element t.capacity t (hash t.hasher key) key (false, none, t)
      (replace_value t old_data new_data)

-- `InsertTable::update`
unfoldable pub update_entry : InsertTable → ℕ → ℕ → ℕ → Outcome
unfolding internal_update
update_entry t key old_data new_data = internal_update t key old_data new_data

unfoldable pub remove : InsertTable → ℕ → ℕ → Outcome
unfolding internal_update
remove t key old_data = internal_update t key old_data deleted_marker
