-- ===== src/Cuckoo/Operations.antt =====
-- `Modifier::insert` and `Modifier::remove`.
use tellstore.Prelude.{
  ℕ, ◌+◌, ◌-◌, ◌^◌, ◌%◌, ◌<◌, ◌≡◌, ◌≢◌, refl, sym, ap, ◌∙◌, Bool, true, false, some, ◌==◌,
  if◌then◌else◌, ◌⊎◌, inl, inr, arith, Bool-cases,
}
use tellstore.Cuckoo.{
  Modifier, hasher, entry_for, get, set_entry, Placing, out_of_pages, placed, carried, place_rounds,
  Inserted, returned, rehashing, count_insert, insert, remove,
}
use tellstore.Cuckoo.Pages.{Paging, with_paging}
use tellstore.Cuckoo.Writes.{set_entry_lem}
use tellstore.Cuckoo.Lookups.{get-live, get-IsAbsent, find_part-cases}
use tellstore.Cuckoo.Assigning.{IsTable-assigned, get-assigned, get-assigned_other}
use tellstore.Cuckoo.Rounds.{
  IsModifier, content, IsGood, hasher-with_paging, place_content, place_rounds_lem,
}

-- A modifier of the same table in which the lookups are those of `m`, with a value for one key.
pub record Stores (m : Modifier) (key value : ℕ) (m' : Modifier) : Type 0 where
  pub modifier : IsModifier m m'
  pub lookups : (k : ℕ) → get m' k ≡ (if k == key then value else get m k)

-- What `insert` does: it keeps or replaces the value of a key that has one, and refuses to replace
-- another; a new key gets its value, or there is a pair in hand for which the table is rehashed.
pub data InsertOutcome (m : Modifier) (key value : ℕ) : Bool → Inserted → Type 0 where
  kept : get m key ≢ 0 → InsertOutcome m key value false (returned false m)
  unknown : get m key ≡ 0 → InsertOutcome m key value true (returned false m)
  replaced :
      {m' : Modifier}
      → get m key ≢ 0
      → m'.size ≡ m.size
      → Stores m key value m'
      → InsertOutcome m key value true (returned true m')
  added :
      {m' : Modifier}
      → get m key ≡ 0
      → m'.size ≡ (m.size + 1) % 2 ^ 64
      → Stores m key value m'
      → InsertOutcome m key value false (returned true m')
  in_hand :
      {k v : ℕ} {m' : Modifier}
      → get m key ≡ 0
      → m'.size ≡ m.size
      → IsModifier m m'
      → v ≢ 0
      → get m' k ≡ 0
      → ((k' : ℕ) → (if k' == k then v else get m' k') ≡ (if k' == key then value else get m k'))
      → InsertOutcome m key value false (rehashing k v m')

-- The number of entries does not matter to the lookups.
abbrev with_size : Modifier → ℕ → Modifier
with_size m n = record m { size = n }

IsModifier-with_size : (m m' : Modifier) (n : ℕ) → IsModifier m m' → IsModifier m (with_size m' n)
IsModifier-with_size m m' n ok = record {
  paged = record {
    some_entries = ok.paged.some_entries;
    in_range = ok.paged.in_range;
    apart = ok.paged.apart;
    fresh = ok.paged.fresh;
    room = ok.paged.room;
    own = ok.paged.own;
  };
  table = record { home = ok.table.home; first = ok.table.first };
  isolated = ok.isolated;
}

get-with_size : (m : Modifier) (n key : ℕ) → get (with_size m n) key ≡ get m key
unfolding get
get-with_size m n key = refl

Stores-with_size :
    (m : Modifier) (key value : ℕ) (m' : Modifier) (n : ℕ)
    → Stores m key value m'
    → Stores m key value (with_size m' n)
Stores-with_size m key value m' n s = record {
  modifier = IsModifier-with_size m m' n s.modifier;
  lookups = λ k. get-with_size m' n k ∙ s.lookups k;
}

-- One assignment to the entry of a key that has a value.
assigned :
    (m : Modifier) (h key value : ℕ)
    → IsModifier m m
    → h < 3
    → (entry_for m h key).key ≡ key
    → (entry_for m h key).value ≢ 0
    → (y : Paging) × (set_entry m h (hasher m h key) (record { key = key; value = value })
        ≡ some (with_paging m y))
      × Stores m key value (with_paging m y)
assigned m h key value ok part own live =
    let (y, run, paged, isolated, here, elsewhere) =
      set_entry_lem m h key (record { key = key; value = value }) ok.paged part in
    let m' : Modifier = with_paging m y in
    let hashes = hasher-with_paging m y in
    (
      y,
      run,
      record {
        modifier = record {
          paged = paged;
          table = IsTable-assigned m m' h key value hashes here elsewhere ok.table part own live;
          isolated = isolated;
        };
        lookups =
            place_content (get m) (get m') key value
              (get-assigned m m' h key value hashes here elsewhere ok.table part own live)
              (get-assigned_other m m' h key value hashes here elsewhere ok.table part own live);
      },
    )

inserted_new :
    (m : Modifier) (key value : ℕ) (p : Placing)
    → get m key ≡ 0
    → IsGood m 0 p
    → ((k : ℕ) → content p k ≡ (if k == key then value else get m k))
    → InsertOutcome m key value false (count_insert p)
unfolding content
inserted_new m key value out_of_pages absent good same = absurd good
inserted_new m key value (placed m') absent (ok, sized) same =
    added absent (ap (λ n. (n + 1) % 2 ^ 64) sized) (
      Stores-with_size m key value m' ((m'.size + 1) % 2 ^ 64)
        (record { modifier = ok; lookups = same }))
inserted_new m key value (carried k v m') absent (ok, some_value, gone, before, sized) same =
    in_hand absent sized ok some_value (get-IsAbsent m' k gone) same

-- For a modifier whose pages are apart and whose entries stand where their keys have their indexes, with
-- a free page for every page that was not copied yet, an insert of a value that is not null ends without
-- a lack of pages. It returns true after it replaced the value of a key that has one, if it is to
-- replace, or gave a new key its value, if it is not; it returns false and changes nothing in the two
-- other cases; or, after twenty rounds, a pair is in hand whose key is not in the table, and the
-- lookups with that pair are those with the new one. All other lookups are as before, the number of
-- entries counts the new keys, and the pages of the table that is modified are never written.
pub insert_outcome :
    (m : Modifier) (key value : ℕ) (replace : Bool)
    → IsModifier m m
    → value ≢ 0
    → InsertOutcome m key value replace (insert m key value replace)
unfolding insert content
insert_outcome m key value replace ok some_value = elim (find_part-cases m key) [
  | inl (h, found, part, own, live) ↦
      let present : get m key ≢ 0 = λ z. live (sym (get-live m h key ok.table part own live) ∙ z) in
      let (y, run, stores) = assigned m h key value ok part own live in
      elim (Bool-cases replace) [
        | inr keep ↦ rw (insert, found, keep) (kept present)
        | inl change ↦ rw (insert, found, run, change) (replaced present refl stores)
      ]
  | inr (found, gone) ↦
      let absent : get m key ≡ 0 = get-IsAbsent m key gone in
      elim (Bool-cases replace) [
        | inl change ↦ rw (insert, found, change) (unknown absent)
        | inr add ↦
            let (good, same) =
              place_rounds_lem m 20 (carried key value m)
                (ok, some_value, gone, λ d l. absurd (omega (arith, l)), refl) in
            rw (insert, found, add)
              (inserted_new m key value (place_rounds 20 (carried key value m)) absent good same)
      ]
]

-- Under the same conditions a removal ends without a lack of pages. For a key without a value it returns
-- false and changes nothing; else it returns true, the key is not found any more, all other lookups are
-- as before, and the pages of the table that is modified are not written.
pub remove_outcome :
    (m : Modifier) (key : ℕ)
    → IsModifier m m
    → ((get m key ≡ 0) × (remove m key ≡ returned false m))
      ⊎ ((get m key ≢ 0)
          × ((m' : Modifier) × (remove m key ≡ returned true m') × Stores m key 0 m'))
unfolding remove
remove_outcome m key ok = elim (find_part-cases m key) [
  | inr (found, gone) ↦ inl (get-IsAbsent m key gone, rw (remove, found) refl)
  | inl (h, found, part, own, live) ↦
      let (y, run, stores) = assigned m h key 0 ok part own live in
      let n : ℕ = (m.size + (2 ^ 64 - 1)) % 2 ^ 64 in
      inr (
        λ z. live (sym (get-live m h key ok.table part own live) ∙ z),
        (
          with_size (with_paging m y) n,
          rw (remove, found, run) refl,
          Stores-with_size m key 0 (with_paging m y) n stores,
        ),
      )
]
