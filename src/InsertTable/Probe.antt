-- ===== src/InsertTable/Probe.antt =====
-- The probe sequence of `InsertTable`: where its loops stop, and what a lookup reads there.
use tellstore.Prelude.{
  ℕ, zero, suc, ◌+◌, ◌%◌, ◌≡◌, refl, true, false, Option, none, some, arith, ◌==◌, if◌then◌else◌,
}
use tellstore.InsertTable.{
  free_marker, deleted_marker, Entry, InsertTable, Outcome, store, exec_on_element, insert_loop,
}

-- The first bucket that is free or holds the key.
unfoldable pub find : ℕ → InsertTable → ℕ → ℕ → Option ℕ
find zero t pos key = none
find (suc rounds) t pos key =
    let rest = find rounds t (pos + 1) key in
    let entry = t.buckets (pos % t.capacity) in
    if entry.value == free_marker
    then some (pos % t.capacity)
    else if entry.key == key
    then some (pos % t.capacity)
    else rest

-- The pointer that an entry holds, if it is one.
abbrev pub pointer : Entry → Option ℕ
pointer entry =
    if entry.value == free_marker
    then none
    else if entry.value == deleted_marker
    then none
    else some entry.value

abbrev pub pointer_at : InsertTable → Option ℕ → Option ℕ
pointer_at t none = none
pointer_at t (some i) = pointer (t.buckets i)

abbrev pub read : ℕ → InsertTable → ℕ → ℕ → Option ℕ
read n t pos key = pointer_at t (find n t pos key)

abbrev pub or_not_found {ℓ} : {T : Type ℓ} → InsertTable → T → (ℕ → ℕ → T) → Option ℕ → T
or_not_found t not_found fun none = not_found
or_not_found t not_found fun (some i) = elim (pointer (t.buckets i)) [
  | none ↦ not_found
  | some ptr ↦ fun i ptr
]

pub exec_on_element-find {ℓ} :
    {T : Type ℓ} (n : ℕ) (t : InsertTable) (pos key : ℕ) (not_found : T) (fun : ℕ → ℕ → T)
    → exec_on_element n t pos key not_found fun ≡ or_not_found t not_found fun (find n t pos key)
unfolding exec_on_element find
exec_on_element-find zero t pos key not_found fun = refl
exec_on_element-find (suc n) t pos key not_found fun =
    ground (arith, exec_on_element-find n t (pos + 1) key not_found fun)

-- What `insert` does at the bucket where its loop stops.
abbrev pub insert_at : InsertTable → ℕ → ℕ → Option ℕ → Outcome
insert_at t key new_data none = (false, none, t)
insert_at t key new_data (some i) = elim (pointer (t.buckets i)) [
  | none ↦ (true, none, store t i (record { key = key; value = new_data }))
  | some ptr ↦ (false, some ptr, t)
]

-- A free bucket has the key that its constructor gave it.
abbrev pub IsClean : InsertTable → Type 0
IsClean t = (i : ℕ) → (t.buckets i).value ≡ free_marker → (t.buckets i).key ≡ 0

pub insert_loop-find :
    (n : ℕ) (t : InsertTable) (pos key new_data : ℕ)
    → IsClean t
    → insert_loop n t pos key new_data ≡ insert_at t key new_data (find n t pos key)
unfolding insert_loop find
insert_loop-find zero t pos key new_data clean = refl
insert_loop-find (suc n) t pos key new_data clean =
    ground (arith, clean (pos % t.capacity), insert_loop-find n t (pos + 1) key new_data clean)
