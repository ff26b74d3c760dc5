-- ===== src/DynamicInsertTable/Removing.antt =====
-- What `DynamicInsertTable.remove` returns, and what lookups see afterwards.
use tellstore.Prelude.{
  ℕ, ◌+◌, ◌≤◌, ◌≡◌, refl, true, false, Option, none, some, List, [], ◌∷◌, arith, ◌==◌,
  if◌then◌else◌, Bool-cases, inl, inr,
}
use tellstore.InsertTable
use tellstore.InsertTable.{InsertTable}
use tellstore.InsertTable.Operations.{IsPointer, remove_present as remove_from_table, stale_pointer}
use tellstore.InsertTable.Valid
use tellstore.DynamicInsertTable.{
  ListEntry, DynamicInsertTable, get_from, get, insert, Removal, done, null_dereference,
  remove_from, remove, next_list,
}
use tellstore.DynamicInsertTable.Lookups.{IsValid, full, full-others}

abbrev pub AllValid : List ListEntry → Type 0
AllValid [] = Unit
AllValid (e ∷ rest) = Valid.IsValid e.table × AllValid rest

-- A table that does not map the key is left as it is.
remove_absent :
    (t : InsertTable) (key old : ℕ)
    → InsertTable.get t key ≡ 0
    → IsPointer old
    → InsertTable.remove t key old ≡ (false, none, t)
remove_absent t key old absent ptr =
    ground (arith, (stale_pointer t key old old (λ e. ptr.0 (ground arith)) ptr).1)

-- What `remove` comes to where no table maps the key.
abbrev pub not_found : List ListEntry → Option ℕ → Removal
not_found lists none = null_dereference
not_found lists (some a) = done false lists

remove_from_absent :
    (lists : List ListEntry) (end_list : Option ℕ) (key old : ℕ)
    → get_from lists key ≡ 0
    → IsPointer old
    → remove_from lists end_list key old ≡ not_found lists end_list
unfolding remove_from get_from
remove_from_absent [] none key old absent ptr = refl
remove_from_absent [] (some a) key old absent ptr = refl
remove_from_absent (e ∷ rest) none key old absent ptr =
    ground (arith, remove_absent e.table key old, remove_from_absent rest none key old)
remove_from_absent (e ∷ rest) (some a) key old absent ptr =
    ground (arith, remove_absent e.table key old, remove_from_absent rest (some a) key old)

-- `remove` of a key that no table maps dereferences the null pointer if the given list is the
-- oldest one, and else returns false and changes nothing.
pub remove-not_found :
    (d : DynamicInsertTable) (key old tail_list : ℕ)
    → get d key ≡ 0
    → IsPointer old
    → remove d key old tail_list ≡ not_found d.lists (next_list tail_list d.lists)
unfolding remove get
remove-not_found d key old tail_list absent ptr =
    remove_from_absent d.lists (next_list tail_list d.lists) key old absent ptr

-- A lookup in the tables behind the newest one that maps the key.
pub older : List ListEntry → ℕ → ℕ
older [] key = 0
older (e ∷ rest) key =
    if InsertTable.get e.table key == 0 then older rest key else get_from rest key

-- The removal succeeded and left `lists`.
abbrev Removed : List ListEntry → Option ℕ → ℕ → ℕ → List ListEntry → Type 0
Removed lists end_list key old lists' =
    (remove_from lists end_list key old ≡ done true lists')
    × ((k : ℕ) → get_from lists' k ≡ (if k == key then older lists key else get_from lists k))

remove_from_present :
    (lists : List ListEntry) (end_list : Option ℕ) (key old : ℕ)
    → AllValid lists
    → get_from lists key ≡ old
    → IsPointer old
    → (lists' : List ListEntry) × Removed lists end_list key old lists'
unfolding remove_from get_from older
remove_from_present [] end_list key old valid present ptr = absurd (ptr.0 (ground arith))
remove_from_present (e ∷ rest) end_list key old valid present ptr =
    elim (Bool-cases (InsertTable.get e.table key == 0)) [
      | inl absent ↦
          let (rest', (run, lookups)) =
            remove_from_present rest end_list key old valid.1 (ground arith) ptr in
          let here = remove_absent e.table key old (ground arith) ptr in
          (e ∷ rest', (ground (arith, here), λ k. ground (arith, lookups k)))
      | inr held ↦
          let (gone, actual, (ok, lookups)) =
            remove_from_table e.table key old valid.0 (ground arith) ptr in
          (
            record e { table = (InsertTable.remove e.table key old).2 } ∷ rest,
            (ground (arith, gone), λ k. ground (arith, lookups k)),
          )
    ]

-- If every table is valid and lookups find the pointer, its removal succeeds: the key then maps to
-- what the tables behind the newest one that mapped it hold, and every other lookup is as before.
pub remove_newest :
    (d : DynamicInsertTable) (key old tail_list : ℕ)
    → AllValid d.lists
    → get d key ≡ old
    → IsPointer old
    → (lists : List ListEntry) × (remove d key old tail_list ≡ done true lists)
      × ((k : ℕ)
          → get (record d { lists = lists }) k ≡ (if k == key then older d.lists key else get d k))
unfolding remove get
remove_newest d key old tail_list valid present ptr =
    let (lists, (run, lookups)) =
      remove_from_present d.lists (next_list tail_list d.lists) key old valid present ptr in
    (lists, run, lookups)

older_copy :
    (r : DynamicInsertTable) (e old_head : ListEntry) (rest others : List ListEntry) (key v : ℕ)
    → IsValid r e others
    → others ≡ old_head ∷ rest
    → InsertTable.get old_head.table key ≡ v
    → InsertTable.get e.table key ≡ v
    → IsPointer v
    → older r.lists key ≡ v
unfolding older get_from
older_copy r e old_head rest others key v valid shape held here ptr = ground (arith, valid.shape)

AllValid-shape :
    (r : DynamicInsertTable) (e old_head : ListEntry) (rest others : List ListEntry)
    → IsValid r e others
    → others ≡ old_head ∷ rest
    → Valid.IsValid old_head.table
    → AllValid rest
    → AllValid r.lists
AllValid-shape r e old_head rest others valid shape ok all =
    rw (valid.shape, shape) (valid.head.valid, (ok, all))

-- An insert that reaches the load bound leaves the pointer in two tables: a removal of that pointer
-- returns true, and lookups still find the pointer.
pub remove-insert_at_bound :
    (d : DynamicInsertTable) (e : ListEntry) (rest : List ListEntry) (key v tail_list : ℕ)
    → IsValid d e rest
    → AllValid rest
    → IsPointer v
    → get d key ≡ 0
    → e.maximum_size ≤ e.size + 1
    → (r : DynamicInsertTable) × (lists : List ListEntry) × (insert 2 d key v ≡ some (true, r))
      × (remove r key v tail_list ≡ done true lists)
      × (get (record r { lists = lists }) key ≡ v)
remove-insert_at_bound d e rest key v tail_list valid all ptr absent le =
    let r = full d e rest key v valid ptr absent 0 le in
    let (old_head, shape, held, ok, here) = full-others d e rest key v valid ptr absent 0 le in
    let valid' = AllValid-shape r.result r.first old_head rest r.others r.valid shape ok all in
    let (lists, run, lookups) =
      remove_newest r.result key v tail_list valid' (ground (arith, r.lookups key)) ptr in
    let copy =
      older_copy r.result r.first old_head rest r.others key v r.valid shape held here ptr in
    (r.result, lists, r.returned, run, ground (arith, lookups key))
