-- ===== src/InsertTable/Operations.antt =====
-- What the operations of a valid `InsertTable` return, and what a lookup sees after each.
use tellstore.Prelude.{
  ℕ, ◌<◌, ◌≡◌, ◌≢◌, refl, inl, inr, true, false, Option, none, some, arith, ap, ◌∙◌, ◌==◌,
  if◌then◌else◌, Option-cases,
}
use tellstore.HashFunction.{HashFunction, hash}
use tellstore.InsertTable.{
  free_marker, deleted_marker, Entry, InsertTable, Outcome, store, make_table, get, insert,
  update_entry, remove, replace_value, internal_update, update_value,
}
use tellstore.InsertTable.Probe.{
  find, pointer, pointer_at, or_not_found, insert_at, exec_on_element-find, insert_loop-find,
}
use tellstore.InsertTable.Placed.{read-store_other, find-store_self}
use tellstore.InsertTable.Valid.{IsValid, find-Stop, find-ne-none, store-IsValid}

-- A value that is no marker.
abbrev pub IsPointer : ℕ → Type 0
IsPointer v = (v ≢ free_marker) × (v ≢ deleted_marker)

abbrev pub or_null : Option ℕ → ℕ
or_null none = 0
or_null (some p) = p

abbrev pub stop_of : InsertTable → ℕ → Option ℕ
stop_of t key = find t.capacity t (hash t.hasher key) key

pub get-pointer : (t : InsertTable) (key : ℕ) → get t key ≡ or_null (pointer_at t (stop_of t key))
unfolding get
get-pointer t key =
    exec_on_element-find t.capacity t (hash t.hasher key) key 0 (λ i ptr. ptr) ∙ go (stop_of t key)
  where
    go : (s : Option ℕ) → or_not_found t 0 (λ i ptr. ptr) s ≡ or_null (pointer_at t s)
    go none = refl
    go (some i) = ground arith

pub insert-stop :
    (t : InsertTable) (key v : ℕ) → IsValid t → insert t key v ≡ insert_at t key v (stop_of t key)
unfolding insert
insert-stop t key v valid = insert_loop-find t.capacity t (hash t.hasher key) key v valid.clean

-- A lookup after a write where the loop for `entry.key` stopped.
get-store :
    (t : InsertTable) (entry : Entry) (i k : ℕ)
    → IsValid t
    → entry.value ≢ free_marker
    → stop_of t entry.key ≡ some i
    → get (store t i entry) k ≡ (if k == entry.key then or_null (pointer entry) else get t k)
get-store t entry i k valid taken h = ground (
  arith,
  get-pointer (store t i entry) k,
  get-pointer t k,
  find-store_self t.capacity t (hash t.hasher entry.key) i entry h,
  read-store_other t.capacity t (hash t.hasher k) i entry k (valid.placed k) taken,
  (find-Stop t.capacity t (hash t.hasher entry.key) entry.key i h).stops,
)

-- `insert` of an absent key claims the bucket where the loop stopped; a lookup of that key then
-- finds the new pointer, and every other lookup is as before.
insert_absent :
    (t : InsertTable) (key v i : ℕ)
    → IsValid t
    → IsPointer v
    → stop_of t key ≡ some i
    → get t key ≡ 0
    → let t' = store t i (record { key = key; value = v }) in
      (insert t key v ≡ (true, none, t'))
      × IsValid t'
      × ((k : ℕ) → get t' k ≡ (if k == key then v else get t k))
insert_absent t key v i valid ptr h absent =
    let entry : Entry = record { key = key; value = v } in
    (
      ground (arith, insert-stop t key v valid, get-pointer t key),
      store-IsValid t entry i valid ptr.0 h,
      λ k. ground (arith, get-store t entry i k valid ptr.0 h),
    )

insert_full :
    (t : InsertTable) (key v : ℕ)
    → IsValid t
    → stop_of t key ≡ none
    → insert t key v ≡ (false, none, t)
insert_full t key v valid h = insert-stop t key v valid ∙ ap (insert_at t key v) h

-- In a valid table `insert` of a key that has a pointer returns false, hands that pointer out and
-- changes nothing.
pub insert_present :
    (t : InsertTable) (key v : ℕ)
    → IsValid t
    → get t key ≢ 0
    → insert t key v ≡ (false, some (get t key), t)
insert_present t key v valid present = ground (arith, insert-stop t key v valid, get-pointer t key)

-- What a lookup sees after an operation that returned `r`.
abbrev pub Lookups : (ℕ → ℕ) → Outcome → Type 0
Lookups f r = IsValid r.2 × ((k : ℕ) → get r.2 k ≡ f k)

-- In a valid table with a free bucket `insert` of a pointer under an absent key succeeds: the table
-- stays valid, the key maps to the pointer and every other lookup is as before.
pub insert_free :
    (t : InsertTable) (key v i : ℕ)
    → IsValid t
    → IsPointer v
    → get t key ≡ 0
    → i < t.capacity
    → (t.buckets i).value ≡ free_marker
    → let r = insert t key v in
      (r.0 ≡ true) × (r.1 ≡ none) × Lookups (λ k. if k == key then v else get t k) r
insert_free t key v i valid ptr absent lt free = elim (Option-cases (stop_of t key)) [
  | inl full ↦ absurd (find-ne-none t key i lt free full)
  | inr (j, h) ↦
      let (e, valid', lookups) = insert_absent t key v j valid ptr h absent in
      rw e (refl, refl, (valid', lookups))
]

internal_update-stop :
    (t : InsertTable) (key old new : ℕ)
    → internal_update t key old new
      ≡ or_not_found t (false, none, t) (replace_value t old new) (stop_of t key)
unfolding internal_update
internal_update-stop t key old new =
    exec_on_element-find t.capacity t (hash t.hasher key) key (false, none, t)
      (replace_value t old new)

-- `internalUpdate` of the pointer that the key has stores the new value and keeps the key.
internal_update-hit :
    (t : InsertTable) (key old new i : ℕ)
    → stop_of t key ≡ some i
    → get t key ≡ old
    → IsPointer old
    → (internal_update t key old new ≡ (true, none, store t i (record { key = key; value = new })))
      × (stop_of t key ≡ some i)
unfolding replace_value update_value
internal_update-hit t key old new i h e ptr =
    let stops = (find-Stop t.capacity t (hash t.hasher key) key i h).stops in
    (ground (arith, internal_update-stop t key old new, get-pointer t key, stops), h)

internal_update_hit :
    (t : InsertTable) (key old new : ℕ)
    → IsValid t
    → get t key ≡ old
    → IsPointer old
    → new ≢ free_marker
    → let r = internal_update t key old new in
      (r.0 ≡ true)
      × (r.1 ≡ none)
      × Lookups
          (λ k. if k == key then or_null (pointer (record { key = key; value = new })) else get t k)
          r
internal_update_hit t key old new valid e ptr taken = elim (Option-cases (stop_of t key)) [
  | inl full ↦ absurd (ptr.0 (ground (arith, get-pointer t key)))
  | inr (i, h) ↦
      let entry : Entry = record { key = key; value = new } in
      let run = internal_update-hit t key old new i h e ptr in
      rw run.0 (
        refl,
        refl,
        (store-IsValid t entry i valid taken h, λ k. get-store t entry i k valid taken h),
      )
]

-- `internalUpdate` against another pointer than the key has returns false, hands out the pointer
-- that the key has, if any, and changes nothing.
internal_update_miss :
    (t : InsertTable) (key old new : ℕ)
    → get t key ≢ old
    → IsPointer old
    → internal_update t key old new
      ≡ (false, (if get t key == 0 then none else some (get t key)), t)
unfolding replace_value update_value
internal_update_miss t key old new ne ptr =
    ground (arith, internal_update-stop t key old new, get-pointer t key)

-- In a valid table `update` from the pointer that the key has to another pointer succeeds: the
-- table stays valid, the key maps to the new pointer and every other lookup is as before.
pub update_entry_present :
    (t : InsertTable) (key old new : ℕ)
    → IsValid t
    → get t key ≡ old
    → IsPointer old
    → IsPointer new
    → let r = update_entry t key old new in
      (r.0 ≡ true) × (r.1 ≡ none) × Lookups (λ k. if k == key then new else get t k) r
unfolding update_entry
update_entry_present t key old new valid e po pn =
    let (d, w, (v, l)) = internal_update_hit t key old new valid e po pn.0 in
    (d, w, (v, λ k. ground (arith, l k)))

-- In a valid table `remove` of the pointer that the key has succeeds: the table stays valid, the
-- key is not found any more and every other lookup is as before.
pub remove_present :
    (t : InsertTable) (key old : ℕ)
    → IsValid t
    → get t key ≡ old
    → IsPointer old
    → let r = remove t key old in
      (r.0 ≡ true) × (r.1 ≡ none) × Lookups (λ k. if k == key then 0 else get t k) r
unfolding remove
remove_present t key old valid e po =
    internal_update_hit t key old deleted_marker valid e po (omega arith)

-- `update` and `remove` against a pointer that the key does not have return false, hand out the
-- pointer that the key has, if any, and change nothing.
pub stale_pointer :
    (t : InsertTable) (key old new : ℕ)
    → get t key ≢ old
    → IsPointer old
    → let miss : Outcome = (false, (if get t key == 0 then none else some (get t key)), t) in
      (update_entry t key old new ≡ miss) × (remove t key old ≡ miss)
unfolding update_entry remove
stale_pointer t key old new ne ptr = (
  internal_update_miss t key old new ne ptr,
  internal_update_miss t key old deleted_marker ne ptr,
)

-- A new table maps no key.
pub get-make_table :
    (capacity : ℕ) (h : HashFunction) (key : ℕ) → get (make_table capacity h) key ≡ 0
get-make_table capacity h key = get-pointer t key ∙ go (stop_of t key)
  where
    t : InsertTable
    t = make_table capacity h

    go : (s : Option ℕ) → or_null (pointer_at t s) ≡ 0
    go none = refl
    go (some i) = refl
