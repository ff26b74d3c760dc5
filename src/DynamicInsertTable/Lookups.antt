-- ===== src/DynamicInsertTable/Lookups.antt =====
-- What `DynamicInsertTable.insert` does to lookups, and that it ends.
use native.Mathlib.Decide.{dec_lt}
use tellstore.Prelude.{
  ℕ, suc, ◌+◌, ◌*◌, ◌/◌, ◌≤◌, ◌<◌, ◌≡◌, refl, Bool, true, Option, some, List, ◌∷◌, arith, ◌==◌,
  if◌then◌else◌,
}
use tellstore.HashFunction.{HashFunction}
use tellstore.InsertTable
use tellstore.InsertTable.{InsertTable, make_table}
use tellstore.InsertTable.Operations.{IsPointer, insert_free, get-make_table}
use tellstore.InsertTable.Taken.{taken, free_bucket, taken-make_table, taken-insert}
use tellstore.InsertTable.Valid.{make_table-IsValid}
use tellstore.InsertTable.Valid as TableValid
use tellstore.DynamicInsertTable.{
  ListEntry, make_list_entry, DynamicInsertTable, get_from, get, allocate_head, insert_loop, insert,
}

-- The head has room for one more entry; its load bound is three quarters of its capacity.
pub record IsRoomy (e : ListEntry) : Type 0 where
  pub valid : TableValid.IsValid e.table
  pub counted : taken e.table.capacity e.table.buckets ≤ e.size
  pub room : e.size < e.maximum_size
  pub bound : e.maximum_size ≡ e.table.capacity * 3 / 4
  pub large : 1 < e.table.capacity

pub record IsValid (d : DynamicInsertTable) (e : ListEntry) (rest : List ListEntry) : Type 0 where
  pub shape : d.lists ≡ e ∷ rest
  pub head : IsRoomy e

-- A new head of more than one bucket has room.
make_list_entry-IsRoomy :
    (a capacity : ℕ) (h : HashFunction) → 1 < capacity → IsRoomy (make_list_entry a capacity h)
make_list_entry-IsRoomy a capacity h lt = record {
  valid = make_table-IsValid capacity h (omega arith);
  counted = omega (arith, taken-make_table capacity capacity h);
  room = omega arith;
  bound = refl;
  large = lt;
}

module _ (e : ListEntry) (rest : List ListEntry) (key v : ℕ) (head : IsRoomy e) (ptr : IsPointer v)
    (absent : InsertTable.get e.table key ≡ 0) where
  abbrev after : InsertTable
  after = (InsertTable.insert e.table key v).2

  abbrev entry' : ListEntry
  entry' = record e { size = e.size + 1; table = after }

  inserted :
      ((InsertTable.insert e.table key v).0 ≡ true)
      × TableValid.IsValid after
      × ((k : ℕ) → InsertTable.get after k ≡ (if k == key then v else InsertTable.get e.table k))
  inserted =
      let (i, lt, free) =
        free_bucket e.table.capacity e.table.buckets
          (omega (arith, head.counted, head.room, head.bound)) in
      let (done, actual, (valid, lookups)) =
        insert_free e.table key v i head.valid ptr absent lt free in
      (done, valid, lookups)

  get_from-entry' :
      get_from (e ∷ rest) key ≡ 0
      → (k : ℕ) → get_from (entry' ∷ rest) k ≡ (if k == key then v else get_from (e ∷ rest) k)
  unfolding get_from
  get_from-entry' h k = ground (arith, inserted.2 k)

  entry'-IsRoomy : e.size + 1 < e.maximum_size → IsRoomy entry'
  entry'-IsRoomy lt =
      let (count, cap) = taken-insert e.table key v head.valid in
      record {
        valid = inserted.1;
        counted = ground (arith, head.counted);
        room = lt;
        bound = rw cap head.bound;
        large = rw cap head.large;
      }

  -- Below the load bound the insert ends in the head.
  insert_loop-room :
      (fuel : ℕ) (d : DynamicInsertTable)
      → d.lists ≡ e ∷ rest
      → e.size + 1 < e.maximum_size
      → insert_loop (suc fuel) d key v e.address ≡ some (true, record d { lists = entry' ∷ rest })
  unfolding insert_loop
  insert_loop-room fuel d shape lt = ground (arith, inserted.0)

  -- At the load bound a new head of twice the size is pushed, and the insert is repeated there.
  insert_loop-full :
      (fuel : ℕ) (d : DynamicInsertTable)
      → d.lists ≡ e ∷ rest
      → e.maximum_size ≤ e.size + 1
      → let capacity = e.table.capacity * 2 in
        let fresh = make_list_entry d.allocated capacity (d.hashers d.allocated capacity) in
        insert_loop (suc fuel) d key v e.address
        ≡ insert_loop fuel
            (record d { lists = fresh ∷ entry' ∷ rest; allocated = d.allocated + 1 })
            key
            v
            d.allocated
  unfolding insert_loop allocate_head
  insert_loop-full fuel d shape le = ground (arith, inserted.0)

-- What `insert` has done: it ended with success, the head has room for the next entry, the key maps
-- to the pointer and every other lookup is as before.
pub record Inserted (d : DynamicInsertTable) (key v : ℕ) (r : Option (Bool × DynamicInsertTable))
    : Type 0 where
  pub result : DynamicInsertTable
  pub returned : r ≡ some (true, result)
  pub first : ListEntry
  pub others : List ListEntry
  pub valid : IsValid result first others
  pub lookups : (k : ℕ) → get result k ≡ (if k == key then v else get d k)

module _ (d : DynamicInsertTable) (e : ListEntry) (rest : List ListEntry) (key v : ℕ)
    (valid : IsValid d e rest) (ptr : IsPointer v) (absent : get d key ≡ 0) where
  absent_list : get_from (e ∷ rest) key ≡ 0
  unfolding get
  absent_list = ground (arith, valid.shape)

  absent_head : InsertTable.get e.table key ≡ 0
  unfolding get_from
  absent_head = ground (arith, absent_list)

  abbrev e' : ListEntry
  e' = entry' e rest key v valid.head ptr absent_head

  room : (fuel : ℕ) → e.size + 1 < e.maximum_size → Inserted d key v (insert (suc fuel) d key v)
  unfolding insert get
  room fuel lt =
      let run = insert_loop-room e rest key v valid.head ptr absent_head fuel d valid.shape lt in
      record {
        result = record d { lists = e' ∷ rest };
        returned = ground (arith, valid.shape);
        first = e';
        others = rest;
        valid = record {
          shape = refl;
          head = entry'-IsRoomy e rest key v valid.head ptr absent_head lt;
        };
        lookups = λ k. ground (
          arith,
          valid.shape,
          get_from-entry' e rest key v valid.head ptr absent_head absent_list k,
        );
      }

  abbrev capacity' : ℕ
  capacity' = e.table.capacity * 2

  abbrev fresh : ListEntry
  fresh = make_list_entry d.allocated capacity' (d.hashers d.allocated capacity')

  fresh-IsRoomy : IsRoomy fresh
  fresh-IsRoomy =
      make_list_entry-IsRoomy d.allocated capacity' (d.hashers d.allocated capacity')
        (omega (arith, valid.head.large))

  abbrev grown : DynamicInsertTable
  grown = record d { lists = fresh ∷ e' ∷ rest; allocated = d.allocated + 1 }

  fresh-get : (k : ℕ) → InsertTable.get fresh.table k ≡ 0
  fresh-get k = get-make_table capacity' (d.hashers d.allocated capacity') k

  get_from-fresh :
      (k : ℕ) → get_from (fresh ∷ e' ∷ rest) k ≡ (if k == key then v else get_from (e ∷ rest) k)
  unfolding get_from
  get_from-fresh k =
      ground
        (arith, fresh-get k, get_from-entry' e rest key v valid.head ptr absent_head absent_list k)

  pub full :
      (fuel : ℕ) → e.maximum_size ≤ e.size + 1 → Inserted d key v (insert (suc (suc fuel)) d key v)
  unfolding insert get
  full fuel le =
      let first =
        insert_loop-full e rest key v valid.head ptr absent_head (suc fuel) d valid.shape le in
      let second =
        insert_loop-room fresh (e' ∷ rest) key v fresh-IsRoomy ptr (fresh-get key) fuel grown refl
          (omega (arith, valid.head.large)) in
      let e'' = entry' fresh (e' ∷ rest) key v fresh-IsRoomy ptr (fresh-get key) in
      record {
        result = record grown { lists = e'' ∷ e' ∷ rest };
        returned = ground (arith, valid.shape);
        first = e'';
        others = e' ∷ rest;
        valid = record {
          shape = refl;
          head =
              entry'-IsRoomy fresh (e' ∷ rest) key v fresh-IsRoomy ptr (fresh-get key)
                (omega (arith, valid.head.large));
        };
        lookups = λ k. ground (
          arith,
          valid.shape,
          (inserted fresh (e' ∷ rest) key v fresh-IsRoomy ptr (fresh-get key)).2 k,
          fresh-get k,
          get_from-entry' e rest key v valid.head ptr absent_head absent_list k,
        );
      }

  -- With a valid head, two rounds of its loop end an insert of a pointer under an absent key: it
  -- returns true, the key maps to the pointer, every other lookup through all tables is as before,
  -- and the head (a new one of twice the size, if the load bound was reached) is valid again.
  pub insert_absent : (fuel : ℕ) → Inserted d key v (insert (suc (suc fuel)) d key v)
  insert_absent fuel = elim (dec_lt (e.size + 1) e.maximum_size) [
    | yes lt ↦ room (suc fuel) lt
    | no ge ↦ full fuel (omega arith)
  ]

  -- The table that was the head keeps its copy of the pointer beside that of the new head.
  pub full-others :
      (fuel : ℕ) (le : e.maximum_size ≤ e.size + 1)
      → (old_head : ListEntry) × ((full fuel le).others ≡ old_head ∷ rest)
        × (InsertTable.get old_head.table key ≡ v)
        × TableValid.IsValid old_head.table
        × (InsertTable.get (full fuel le).first.table key ≡ v)
  unfolding full
  full-others fuel le =
      let (gone, ok, lookups) = inserted e rest key v valid.head ptr absent_head in
      let (_, _, again) = inserted fresh (e' ∷ rest) key v fresh-IsRoomy ptr (fresh-get key) in
      (e', refl, ground (arith, lookups key), ok, ground (arith, again key))
