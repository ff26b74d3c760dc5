-- ===== src/OpenAddressing/Updates.antt =====
-- What `update` and `erase` return, and what lookups see afterwards.
use native.Mathlib.Decide.{ℕ_discrete, dec_lt}
use tellstore.Prelude.{
  ℕ, zero, suc, ◌+◌, ◌%◌, ◌<◌, ◌≡◌, ◌≢◌, refl, true, none, some, arith, ap, if◌then◌else◌,
  Bool-cases, Option-cases, inl, inr, ◌∙◌, sym, update-cases, ==_iff, false,
}
use tellstore.OpenAddressing.{
  deleted_entry, Entry, OpenAddressingTable, store, rounds, calculate_hash, get, update_entry,
  erase, replace_pointer, erase_pointer,
}
use tellstore.OpenAddressing.Probe.{find_live, at_found, exec_on_element-find}
use tellstore.OpenAddressing.Placed.{IsAbsent, bucket_at, find-store_self, find_absent}
use tellstore.OpenAddressing.Valid.{IsValid, delete-IsValid, replace-IsValid}
use tellstore.OpenAddressing.Lookups.{
  IsPointer, found_in, pointer_of, get-found, found-IsHeld, get-store_other, get-store, same_key,
  not_before, Lookups,
}

-- A present key, and the bucket that holds it.
found_some :
    (t : OpenAddressingTable) (table key v : ℕ)
    → get t table key ≡ v
    → v ≢ 0
    → (i : ℕ) × (found_in t table key ≡ some i) × ((t.buckets i).ptr ≡ v)
found_some t table key v e ne = elim (Option-cases (found_in t table key)) [
  | inl absent ↦ absurd (ne (sym e ∙ get-found t table key ∙ ap (pointer_of t) absent))
  | inr (i, found) ↦ (i, found, sym (get-found t table key ∙ ap (pointer_of t) found) ∙ e)
]

update-found :
    (t : OpenAddressingTable) (table key old new i : ℕ)
    → found_in t table key ≡ some i
    → update_entry t table key old new ≡ replace_pointer t table key old new i (t.buckets i).ptr
unfolding update_entry
update-found t table key old new i e =
    let h = calculate_hash t table key in
    let fun = replace_pointer t table key old new in
    exec_on_element-find (rounds t h) t h table key (false, none, t) fun
    ∙ ap (at_found t (false, none, t) fun) e

erase-found :
    (t : OpenAddressingTable) (table key old i : ℕ)
    → found_in t table key ≡ some i
    → erase t table key old ≡ erase_pointer t table key old i (t.buckets i).ptr
unfolding erase
erase-found t table key old i e =
    let h = calculate_hash t table key in
    let fun = erase_pointer t table key old in
    exec_on_element-find (rounds t h) t h table key (true, none, t) fun
    ∙ ap (at_found t (true, none, t) fun) e

-- In a valid table an update from the pointer that the key has to another pointer succeeds: the
-- table stays valid, the key maps to the new pointer and every other lookup is as before.
pub update_entry_lem :
    (t : OpenAddressingTable) (table key old new : ℕ)
    → IsValid t
    → get t table key ≡ old
    → old ≢ 0
    → IsPointer new
    → let r = update_entry t table key old new in
      (r.0 ≡ true)
      × (r.1 ≡ none)
      × Lookups (λ a b. if same_key table key a b then new else get t a b) r
unfolding replace_pointer
update_entry_lem t table key old new valid e ne ptr =
    let (i, found, at) = found_some t table key old e ne in
    let held = found-IsHeld t table key i found in
    let h = calculate_hash t table key in
    let entry : Entry = record { table_id = table; key_id = key; ptr = new } in
    let same : store t i (record (t.buckets i) { ptr = new }) ≡ store t i entry =
      ground (arith, held) in
    let now = find-store_self (rounds t h) t h i entry found ptr.0 ptr.1 in
    rw (update-found t table key old new i found, replace_pointer, (==_iff _ _).1 at, same)
      (
        refl,
        refl,
        (
          replace-IsValid t i entry valid held ptr.0 ptr.1,
          get-store t i entry valid ptr.1 (inl held) now,
        ),
      )

here :
    (n : ℕ) (t : OpenAddressingTable) (pos table key i : ℕ)
    → find_live (suc n) t pos table key ≡ some i
    → find_live n t (pos + 1) table key ≡ none
    → i ≡ (pos + 0) % t.capacity
unfolding find_live
here n t pos table key i h e = let q : pos + 0 ≡ pos = omega arith in rw q (ground arith)

later :
    (n : ℕ) (t : OpenAddressingTable) (pos table key i : ℕ)
    → find_live (suc n) t pos table key ≡ some i
    → i ≢ pos % t.capacity
    → find_live n t (pos + 1) table key ≡ some i
unfolding find_live
later n t pos table key i h ne = ground arith

strictly :
    (t : OpenAddressingTable) (h d r i : ℕ)
    → i ≡ (h + r) % t.capacity
    → (h + d) % t.capacity ≢ i
    → ¬ (d < r)
    → r < d
strictly t h d r i at ne behind = elim (ℕ_discrete d r) [
  | yes e ↦ absurd (ne (rw e (sym at)))
  | no other ↦ omega arith
]

-- The round in which a key is found.
find-round :
    (n : ℕ) (t : OpenAddressingTable) (pos table key i : ℕ)
    → find_live n t pos table key ≡ some i
    → (d : ℕ) × (d < n) × (i ≡ (pos + d) % t.capacity)
unfolding find_live
find-round zero t pos table key i h = cc
find-round (suc n) t pos table key i h = elim (Option-cases (find_live n t (pos + 1) table key)) [
  | inl e ↦ (0, omega arith, here n t pos table key i h e)
  | inr (j, e) ↦ elim (ℕ_discrete i (pos % t.capacity)) [
    | yes same ↦ (0, omega arith, let q : pos + 0 ≡ pos = omega arith in rw q same)
    | no ne ↦
        let (d, lt, at) = find-round n t (pos + 1) table key i (later n t pos table key i h ne) in
        let q : pos + suc d ≡ pos + 1 + d = omega arith in (suc d, omega arith, rw q at)
  ]
]

-- After the deletion of the bucket that holds a key, no bucket holds it.
erased-IsAbsent :
    (t : OpenAddressingTable) (table key i : ℕ)
    → IsValid t
    → found_in t table key ≡ some i
    → let h = calculate_hash t table key in
      IsAbsent (rounds t h) (store t i deleted_entry) h table key
unfolding bucket_at
erased-IsAbsent t table key i valid found d lt held =
    let h = calculate_hash t table key in
    let (r, lt', at) = find-round (rounds t h) t h table key i found in
    let here = found-IsHeld t table key i found in
    elim (update-cases t.buckets i deleted_entry ((h + d) % t.capacity)) [
      | inl (_, now) ↦ absurd (omega (arith, (rw now at held).0))
      | inr (ne, same) ↦ elim (dec_lt d r) [
        | yes before ↦
            (valid.placed table key r d lt' before (rw (← at, bucket_at) here)).1 (rw same at held)
        | no behind ↦
            (valid.placed table key d r lt (strictly t h d r i at ne behind) (rw same at held)).1
              (rw (← at, bucket_at) here)
      ]
    ]

erased-get :
    (t : OpenAddressingTable) (table key i : ℕ)
    → IsValid t
    → found_in t table key ≡ some i
    → get (store t i deleted_entry) table key ≡ 0
unfolding calculate_hash
erased-get t table key i valid found =
    let h = calculate_hash t table key in
    get-found (store t i deleted_entry) table key
    ∙ ap (pointer_of (store t i deleted_entry)) (
        find_absent (rounds t h) (store t i deleted_entry) h table key
          (erased-IsAbsent t table key i valid found))

-- In a valid table the erasure of the pointer that the key has succeeds: the table stays valid, the
-- key is not found any more and every other lookup is as before.
pub erase_lem :
    (t : OpenAddressingTable) (table key old : ℕ)
    → IsValid t
    → get t table key ≡ old
    → old ≢ 0
    → let r = erase t table key old in
      (r.0 ≡ true)
      × (r.1 ≡ none)
      × Lookups (λ a b. if same_key table key a b then 0 else get t a b) r
unfolding erase_pointer
erase_lem t table key old valid e ne =
    let (i, found, at) = found_some t table key old e ne in
    let held = found-IsHeld t table key i found in
    rw (erase-found t table key old i found, erase_pointer, (==_iff _ _).1 at)
      (
        refl,
        refl,
        (
          delete-IsValid t i valid,
          λ a b. elim (Bool-cases (same_key table key a b)) [
            | inl same ↦
                let p : a ≡ table = ground arith in
                let q : b ≡ key = ground arith in
                rw (same, p, q) (erased-get t table key i valid found)
            | inr other ↦ rw other (
                get-store_other t i deleted_entry a b valid (omega arith)
                  (λ x. absurd (omega (arith, x.0)))
                  (λ x.
                    not_before a b (record { table_id = table; key_id = key; ptr = old })
                      (t.buckets i) other (inl held) x))
          ],
        ),
      )
