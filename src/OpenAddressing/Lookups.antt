-- ===== src/OpenAddressing/Lookups.antt =====
-- What a lookup in a valid `OpenAddressingTable` sees after a write.
use tellstore.Prelude.{
  ℕ, ◌%◌, ◌≡◌, ◌≢◌, refl, Option, none, some, arith, ap, ◌==◌, if◌then◌else◌, ◌&&◌, Bool-cases, inl,
  inr, ◌⊎◌, ◌∙◌, sym, update-cases, update_self, Bool, false,
}
use tellstore.OpenAddressing.{
  Entry, OpenAddressingTable, Outcome, store, rounds, calculate_hash, get,
}
use tellstore.OpenAddressing.Probe.{find_live, at_found, exec_on_element-find}
use tellstore.OpenAddressing.Placed.{IsHeld, find-IsHeld, find-store_other}
use tellstore.OpenAddressing.Conflict.{IsClaimable}
use tellstore.OpenAddressing.Valid.{IsValid}

-- The documented condition on pointers.
abbrev pub IsPointer : ℕ → Type 0
IsPointer v = (v % 8 ≡ 0) × (v ≢ 0)

abbrev pub found_in : OpenAddressingTable → ℕ → ℕ → Option ℕ
found_in t table key = let h = calculate_hash t table key in find_live (rounds t h) t h table key

abbrev pub pointer_of : OpenAddressingTable → Option ℕ → ℕ
pointer_of t none = 0
pointer_of t (some i) = (t.buckets i).ptr

pub get-found :
    (t : OpenAddressingTable) (table key : ℕ)
    → get t table key ≡ pointer_of t (found_in t table key)
unfolding get
get-found t table key =
    let h = calculate_hash t table key in
    exec_on_element-find (rounds t h) t h table key 0 (λ i ptr. ptr) ∙ go (found_in t table key)
  where
    go : (s : Option ℕ) → at_found t 0 (λ i ptr. ptr) s ≡ pointer_of t s
    go none = refl
    go (some i) = refl

-- A present key has an unmarked pointer.
pub found-IsHeld :
    (t : OpenAddressingTable) (table key i : ℕ)
    → found_in t table key ≡ some i
    → IsHeld (t.buckets i) table key
found-IsHeld t table key i e =
    let h = calculate_hash t table key in find-IsHeld (rounds t h) t h table key i e

-- The hash of a key does not depend on the buckets.
hash-store :
    (t : OpenAddressingTable) (i : ℕ) (e : Entry) (table key : ℕ)
    → calculate_hash (store t i e) table key ≡ calculate_hash t table key
unfolding calculate_hash
hash-store t i e table key = refl

pub pointer_of-store :
    (t : OpenAddressingTable) (i : ℕ) (entry : Entry) (table key : ℕ) (s : Option ℕ)
    → ((j : ℕ) → s ≡ some j → IsHeld (t.buckets j) table key)
    → ¬ IsHeld (t.buckets i) table key
    → pointer_of (store t i entry) s ≡ pointer_of t s
pointer_of-store t i entry table key none held was = refl
pointer_of-store t i entry table key (some j) held was = elim (update-cases t.buckets i entry j) [
  | inl (at, now) ↦ absurd (was (rw (← at) (held j refl)))
  | inr (ne, same) ↦ ap (λ (e : Entry). e.ptr) same
]

-- A write that neither holds nor held the key changes no lookup of it.
pub get-store_other :
    (t : OpenAddressingTable) (i : ℕ) (entry : Entry) (table key : ℕ)
    → IsValid t
    → entry.ptr ≢ 0
    → ¬ IsHeld entry table key
    → ¬ IsHeld (t.buckets i) table key
    → get (store t i entry) table key ≡ get t table key
unfolding calculate_hash
get-store_other t i entry table key v live now was =
    let h = calculate_hash t table key in
    let e = find-store_other (rounds t h) t h i entry table key (v.placed table key) live now was in
    get-found (store t i entry) table key
    ∙ ap (pointer_of (store t i entry)) e
    ∙ pointer_of-store t i entry table key (found_in t table key) (found-IsHeld t table key) was
    ∙ sym (get-found t table key)

-- A lookup of the key that is found in bucket `i` after the write there.
get-store_self :
    (t : OpenAddressingTable) (i : ℕ) (entry : Entry)
    → let h = calculate_hash t entry.table_id entry.key_id in
      find_live (rounds t h) (store t i entry) h entry.table_id entry.key_id ≡ some i
      → get (store t i entry) entry.table_id entry.key_id ≡ entry.ptr
unfolding calculate_hash
get-store_self t i entry e =
    get-found (store t i entry) entry.table_id entry.key_id
    ∙ ap (pointer_of (store t i entry)) e
    ∙ ap (λ (x : Entry). x.ptr) (update_self t.buckets i entry)

abbrev pub same_key : ℕ → ℕ → ℕ → ℕ → Bool
same_key table key table' key' = table' == table && key' == key

pub differ :
    (table key : ℕ) (e : Entry)
    → same_key e.table_id e.key_id table key ≡ false
    → IsHeld e table key
    → ⊥
differ table key e other held = ground arith

pub not_before :
    (table key : ℕ) (e old : Entry)
    → same_key e.table_id e.key_id table key ≡ false
    → IsHeld old e.table_id e.key_id ⊎ IsClaimable old
    → IsHeld old table key
    → ⊥
not_before table key e old other was held = ground arith

-- A lookup after a write in bucket `i` of an entry that is found there, where `i` held that key or
-- no key.
pub get-store :
    (t : OpenAddressingTable) (i : ℕ) (entry : Entry)
    → IsValid t
    → entry.ptr ≢ 0
    → IsHeld (t.buckets i) entry.table_id entry.key_id ⊎ IsClaimable (t.buckets i)
    → let h = calculate_hash t entry.table_id entry.key_id in
      find_live (rounds t h) (store t i entry) h entry.table_id entry.key_id ≡ some i
      → (table key : ℕ)
      → get (store t i entry) table key
        ≡ (if same_key entry.table_id entry.key_id table key then entry.ptr else get t table key)
get-store t i entry v live was found table key =
    elim (Bool-cases (same_key entry.table_id entry.key_id table key)) [
      | inl same ↦
          let a : table ≡ entry.table_id = ground arith in
          let b : key ≡ entry.key_id = ground arith in
          rw (same, a, b) (get-store_self t i entry found)
      | inr other ↦ rw other (
          get-store_other t i entry table key v live (λ held. differ table key entry other held)
            (λ held. not_before table key entry (t.buckets i) other was held))
    ]

-- What lookups see after an operation that returned `r`.
abbrev pub Lookups : (ℕ → ℕ → ℕ) → Outcome → Type 0
Lookups f r = IsValid r.2 × ((table key : ℕ) → get r.2 table key ≡ f table key)
