-- ===== src/DynamicInsertTable.antt =====
-- deltamain/InsertHash: `DynamicInsertTable`, a stack of insert tables. Inserts go to the head, which
-- is replaced by one of twice the size when it is three quarters full; lookups go through all.
-- One thread at a time: an operation runs from its first access to its last.
pub mod Lookups
pub mod Removing
mod Tests
use Prim.Native.Nat.{bit_or, max}
use tellstore.Prelude.{
  ℕ, zero, suc, ◌+◌, ◌*◌, ◌/◌, ◌%◌, ◌^◌, Bool, true, false, Option, none, some, List, [], ◌∷◌, ◌==◌,
  leb, if◌then◌else◌,
}
use tellstore.HashFunction.{HashFunction}
use tellstore.InsertTable
use tellstore.InsertTable.{InsertTable, make_table}

-- `nextPowerOf2`, on 64 bits.
abbrev smear : ℕ → ℕ → ℕ
smear v k = bit_or v (v / 2 ^ k)

unfoldable pub next_power_of_2 : ℕ → ℕ
next_power_of_2 v = (smear (smear (smear (smear (smear (smear v 1) 2) 4) 8) 16) 32 + 1) % 2 ^ 64

-- `DynamicInsertTableEntry`. `nextList` is the entry behind it in the list of all entries, and
-- `address` stands for the pointer to it.
pub record ListEntry : Type 0 where
  pub address : ℕ
  pub size : ℕ
  pub maximum_size : ℕ
  pub table : InsertTable

abbrev pub make_list_entry : ℕ → ℕ → HashFunction → ListEntry
make_list_entry address capacity hasher = record {
  address = address;
  size = 0;
  maximum_size = capacity * 3 / 4;
  table = make_table capacity hasher;
}

-- `mHeadList` is the first of `lists`. Every allocation takes a new address, and draws a new hash
-- function from `hashers`.
pub record DynamicInsertTable : Type 0 where
  pub minimum_capacity : ℕ
  pub lists : List ListEntry
  pub allocated : ℕ
  pub hashers : ℕ → ℕ → HashFunction

-- The constructor.
unfoldable pub make_dynamic : ℕ → (ℕ → ℕ → HashFunction) → DynamicInsertTable
make_dynamic minimum_capacity hashers = record {
  minimum_capacity = minimum_capacity;
  lists = make_list_entry 0 minimum_capacity (hashers 0 minimum_capacity) ∷ [];
  allocated = 1;
  hashers = hashers;
}

-- The loop of `get`.
pub get_from : List ListEntry → ℕ → ℕ
get_from [] key = 0
get_from (e ∷ rest) key =
    let ptr = InsertTable.get e.table key in if ptr == 0 then get_from rest key else ptr

unfoldable pub get : DynamicInsertTable → ℕ → ℕ
unfolding get_from
get d key = get_from d.lists key

-- What `get` stores through `headList`; the list of entries is never empty.
abbrev pub head_address : List ListEntry → ℕ
head_address [] = 0
head_address (e ∷ rest) = e.address

-- `allocateHead(headList, capacity)`: the compare-exchange of `mHeadList` fails if the head is
-- another one by now, and the new entry is dropped.
unfoldable pub allocate_head : DynamicInsertTable → ℕ → ℕ → DynamicInsertTable × ℕ
allocate_head d head capacity =
    let fresh = make_list_entry d.allocated capacity (d.hashers d.allocated capacity) in
    if head_address d.lists == head
    then (record d { lists = fresh ∷ d.lists; allocated = d.allocated + 1 }, d.allocated)
    else (record d { allocated = d.allocated + 1 }, head_address d.lists)

-- `allocateHead()`
abbrev pub head_size : List ListEntry → ℕ
head_size [] = 0
head_size (e ∷ rest) = e.size

unfoldable pub allocate_next_head : DynamicInsertTable → DynamicInsertTable × ℕ
unfolding allocate_head
allocate_next_head d =
    let size = head_size d.lists in
    let capacity = max d.minimum_capacity (next_power_of_2 size) in
    allocate_head d (head_address d.lists)
      (if leb (capacity * 3) (size * 4) then capacity * 2 else capacity)

-- Access to the entry at an address.
pub find_list : ℕ → List ListEntry → Option ListEntry
find_list a [] = none
find_list a (e ∷ rest) = if e.address == a then some e else find_list a rest

pub set_list : ListEntry → List ListEntry → List ListEntry
set_list e [] = []
set_list e (f ∷ rest) = if f.address == e.address then e ∷ rest else f ∷ set_list e rest

-- The search of the tables between the new head and the one that the insert went to.
pub found_between : List ListEntry → ℕ → ℕ → Bool
found_between [] head key = false
found_between (e ∷ rest) head key =
    if e.address == head
    then false
    else if InsertTable.get e.table key == 0
    then found_between rest head key
    else true

abbrev pub tail_of : List ListEntry → List ListEntry
tail_of [] = []
tail_of (e ∷ rest) = rest

-- The `while (true)` of `insert`; `none` means that the fuel ran out, or that `headList` dangles.
pub insert_loop : ℕ → DynamicInsertTable → ℕ → ℕ → ℕ → Option (Bool × DynamicInsertTable)
unfolding find_list set_list found_between allocate_head
insert_loop zero d key new_data head = none
insert_loop (suc fuel) d key new_data head = elim (find_list head d.lists) [
  | none ↦ none
  | some e ↦
      let (inserted, actual, table) = InsertTable.insert e.table key new_data in
      let e' = record e { size = e.size + 1; table = table } in
      let d' = record d { lists = set_list e' d.lists } in
      let (grown, next) = allocate_head d' head (e.table.capacity * 2) in
      let retry = insert_loop fuel grown key new_data next in
      let newest = head_address d'.lists in
      let restart = insert_loop fuel d' key new_data newest in
      if inserted
      then (if newest == head
          then (if leb e'.maximum_size e'.size then retry else some (true, d'))
          else if found_between (tail_of d'.lists) head key
          then some (false, d')
          else restart)
      else some (false, record d { lists = set_list (record e { table = table }) d.lists })
]

-- `insert(key, data)`
unfoldable pub insert : ℕ → DynamicInsertTable → ℕ → ℕ → Option (Bool × DynamicInsertTable)
unfolding insert_loop get
insert fuel d key new_data =
    let run = insert_loop fuel d key new_data (head_address d.lists) in
    if get d key == 0 then run else some (false, d)

-- What `remove` comes to.
pub data Removal : Type 0 where
  done : Bool → List ListEntry → Removal
  null_dereference : Removal

pub consed : ListEntry → Removal → Removal
consed e (done b rest) = done b (e ∷ rest)
consed e null_dereference = null_dereference

-- The loop of `remove`. Its condition is `currentList || currentList == endList`, so the end of the
-- list is dereferenced where `endList` is null too.
unfoldable pub remove_from : List ListEntry → Option ℕ → ℕ → ℕ → Removal
unfolding consed
remove_from [] end_list key old_data = elim end_list [
  | none ↦ null_dereference
  | some a ↦ done false []
]
remove_from (e ∷ rest) end_list key old_data =
    let (removed, actual, table) = InsertTable.remove e.table key old_data in
    let e' = record e { table = table } in
    let later = consed e' (remove_from rest end_list key old_data) in
    if removed then done true (e' ∷ rest) else elim actual [
      | none ↦ later
      | some ptr ↦ if ptr == 0 then later else done false (e' ∷ rest)
    ]

-- The address of the entry behind one, which is in the list; `none` is the null pointer.
pub next_list : ℕ → List ListEntry → Option ℕ
next_list a [] = none
next_list a (e ∷ rest) =
    if e.address == a then elim rest [ [] ↦ none | f ∷ _ ↦ some f.address ] else next_list a rest

unfoldable pub remove : DynamicInsertTable → ℕ → ℕ → ℕ → Removal
unfolding remove_from next_list
remove d key old_data tail_list = remove_from d.lists (next_list tail_list d.lists) key old_data

-- `truncate`: the entries behind `endList` are destroyed.
pub keep_until : ℕ → List ListEntry → List ListEntry
keep_until a [] = []
keep_until a (e ∷ rest) = if e.address == a then e ∷ [] else e ∷ keep_until a rest

unfoldable pub truncate : DynamicInsertTable → ℕ → DynamicInsertTable
unfolding keep_until
truncate d end_list = record d { lists = keep_until end_list d.lists }
