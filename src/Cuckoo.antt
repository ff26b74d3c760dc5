-- ===== src/Cuckoo.antt =====
-- util/CuckooHash.hpp and .cpp: `CuckooTable` and `Modifier`, the hash table of the main. A page is an
-- array of entries; `store` has the pages by their addresses. A null pointer is the value 0.
pub mod Pages
pub mod Writes
pub mod Lookups
pub mod Displacing
pub mod Rounds
pub mod Assigning
pub mod Operations
pub mod Tests
use tellstore.Prelude.{
  ℕ, zero, suc, ◌+◌, ◌-◌, ◌*◌, ◌/◌, ◌%◌, ◌^◌, Bool, true, false, List, [], ◌∷◌, Option, none, some,
  ◌==◌, ltb, if◌then◌else◌, not, ◌&&◌, update,
}
use tellstore.HashFunction.{HashFunction, hash}

pub record Entry : Type 0 where
  pub key : ℕ
  pub value : ℕ

-- A modifier of a table. `table_pages` are those of `mTable`, `free_pages` are those that the page
-- manager hands out.
pub record Modifier : Type 0 where
  pub entries_per_page : ℕ
  pub table_pages : ℕ → ℕ
  pub num_pages : ℕ
  pub pages : ℕ → ℕ
  pub page_was_modified : ℕ → Bool
  pub hash1 : HashFunction
  pub hash2 : HashFunction
  pub hash3 : HashFunction
  pub size : ℕ
  pub to_delete : List ℕ
  pub free_pages : List ℕ
  pub store : ℕ → ℕ → Entry

-- The hash functions in their order.
abbrev pub hasher : Modifier → ℕ → ℕ → ℕ
hasher m zero key = hash m.hash1 key
hasher m (suc zero) key = hash m.hash2 key
hasher m (suc (suc c)) key = hash m.hash3 key

-- `at`: the page and the place there of an index of one of the three parts.
abbrev pub page_of : Modifier → ℕ → ℕ → ℕ
page_of m h idx = 3 * (idx / m.entries_per_page) + h

abbrev pub place_of : Modifier → ℕ → ℕ
place_of m idx = idx - idx / m.entries_per_page * m.entries_per_page

abbrev pub entry_at : Modifier → ℕ → ℕ → Entry
entry_at m h idx = m.store (m.pages (page_of m h idx)) (place_of m idx)

-- The entry for a key.
abbrev pub entry_for : Modifier → ℕ → ℕ → Entry
entry_for m h key = entry_at m h (hasher m h key)

-- `get`, with 0 for a null pointer.
unfoldable pub get : Modifier → ℕ → ℕ
get m key =
    if (entry_for m 0 key).key == key
    then (entry_for m 0 key).value
    else if (entry_for m 1 key).key == key
    then (entry_for m 1 key).value
    else if (entry_for m 2 key).key == key
    then (entry_for m 2 key).value
    else 0

-- `cow`; none where the page manager has no page and the program ends.
unfoldable pub copy_page : Modifier → ℕ → List ℕ → Option Modifier
copy_page m page [] = none
copy_page m page (new_page ∷ rest) = some (record m {
  pages = update m.pages page new_page;
  page_was_modified = update m.page_was_modified page true;
  to_delete = m.pages page ∷ m.to_delete;
  free_pages = rest;
  store = update m.store new_page (m.store (m.pages page));
})

unfoldable pub cow : Modifier → ℕ → Option Modifier
unfolding copy_page
cow m page = if m.page_was_modified page then some m else copy_page m page m.free_pages

-- The assignment to an entry, after `cow` of its page.
abbrev pub write_entry : Modifier → ℕ → ℕ → Entry → Modifier
write_entry m page place e = record m {
  store = update m.store (m.pages page) (update (m.store (m.pages page)) place e);
}

unfoldable pub set_entry : Modifier → ℕ → ℕ → Entry → Option Modifier
unfolding cow
set_entry m h idx e = elim (cow m (page_of m h idx)) [
  | none ↦ none
  | some m' ↦ some (write_entry m' (page_of m h idx) (place_of m idx) e)
]

-- What the rounds of an insert have done: the key was placed, or another pair is in hand.
pub data Placing : Type 0 where
  out_of_pages : Placing
  placed : Modifier → Placing
  carried : ℕ → ℕ → Modifier → Placing

-- A key takes its place in one of the parts, and what was there is in hand.
unfoldable pub place_at : ℕ → Placing → Placing
unfolding set_entry
place_at h out_of_pages = out_of_pages
place_at h (placed m) = placed m
place_at h (carried key value m) =
    let e = entry_for m h key in
    elim (set_entry m h (hasher m h key) (record { key = key; value = value })) [
      | none ↦ out_of_pages
      | some m' ↦ if e.value == 0 then placed m' else carried e.key e.value m'
    ]

unfoldable pub place_rounds : ℕ → Placing → Placing
unfolding place_at
place_rounds zero p = p
place_rounds (suc n) p = place_rounds n (place_at 2 (place_at 1 (place_at 0 p)))

-- The part that has a key with a value.
unfoldable pub find_part : Modifier → ℕ → Option ℕ
find_part m key =
    if (entry_for m 0 key).key == key && not ((entry_for m 0 key).value == 0)
    then some 0
    else if (entry_for m 1 key).key == key && not ((entry_for m 1 key).value == 0)
    then some 1
    else if (entry_for m 2 key).key == key && not ((entry_for m 2 key).value == 0)
    then some 2
    else none

-- `insert` up to the call of `rehash`, for which a pair is left in hand.
pub data Inserted : Type 0 where
  terminated : Inserted
  returned : Bool → Modifier → Inserted
  rehashing : ℕ → ℕ → Modifier → Inserted

abbrev pub count_insert : Placing → Inserted
count_insert out_of_pages = terminated
count_insert (placed m) = returned true (record m { size = (m.size + 1) % 2 ^ 64 })
count_insert (carried key value m) = rehashing key value m

unfoldable pub insert : Modifier → ℕ → ℕ → Bool → Inserted
unfolding find_part set_entry place_rounds
insert m key value replace = elim (find_part m key) [
  | some h ↦
      if replace
      then elim (set_entry m h (hasher m h key) (record { key = key; value = value })) [
        | none ↦ terminated
        | some m' ↦ returned true m'
      ]
      else returned false m
  | none ↦
      if replace then returned false m else count_insert (place_rounds 20 (carried key value m))
]

unfoldable pub remove : Modifier → ℕ → Inserted
unfolding find_part set_entry
remove m key = elim (find_part m key) [
  | none ↦ returned false m
  | some h ↦ elim (set_entry m h (hasher m h key) (record { key = key; value = 0 })) [
    | none ↦ terminated
    | some m' ↦ returned true (record m' { size = (m'.size + (2 ^ 64 - 1)) % 2 ^ 64 })
  ]
]
