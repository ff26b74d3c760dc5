-- ===== src/OpenAddressing/Probe.antt =====
-- Where the loops of `OpenAddressingTable` stop.
use tellstore.Prelude.{
  ℕ, zero, suc, ◌+◌, ◌%◌, ◌≡◌, refl, Bool, true, false, Option, none, some, arith, ◌==◌,
  if◌then◌else◌, Bool-cases, inl, inr,
}
use tellstore.OpenAddressing.{
  free_marker, deleted_marker, Entry, OpenAddressingTable, Outcome, exec_on_element, markers,
  is_entry_of, insert_loop, insert_claimed,
}

-- A bucket whose pointer carries no marker.
abbrev pub is_live : Entry → Bool
is_live entry =
    if markers entry.ptr == 0 then (if entry.ptr == free_marker then false else true) else false

-- The first bucket that holds the key, up to the first free one.
unfoldable pub find_live : ℕ → OpenAddressingTable → ℕ → ℕ → ℕ → Option ℕ
find_live zero t pos table key = none
find_live (suc n) t pos table key =
    let rest = find_live n t (pos + 1) table key in
    let entry = t.buckets (pos % t.capacity) in
    if entry.ptr == free_marker
    then none
    else if is_live entry
    then (if is_entry_of entry table key then some (pos % t.capacity) else rest)
    else rest

abbrev pub at_found {ℓ} : {T : Type ℓ} → OpenAddressingTable → T → (ℕ → ℕ → T) → Option ℕ → T
at_found t not_found fun none = not_found
at_found t not_found fun (some i) = fun i (t.buckets i).ptr

free_is_unmarked :
    (entry : Entry) → (entry.ptr == free_marker) ≡ true → (markers entry.ptr == 0) ≡ true
free_is_unmarked entry free = ground arith

pub exec_on_element-find {ℓ} :
    {T : Type ℓ} (n : ℕ) (t : OpenAddressingTable) (pos table key : ℕ) (not_found : T)
    (fun : ℕ → ℕ → T)
    → exec_on_element n t pos table key not_found fun
      ≡ at_found t not_found fun (find_live n t pos table key)
unfolding exec_on_element find_live
exec_on_element-find zero t pos table key not_found fun = refl
exec_on_element-find (suc n) t pos table key not_found fun =
    let entry = t.buckets (pos % t.capacity) in
    let rest = exec_on_element-find n t (pos + 1) table key not_found fun in
    elim (Bool-cases (entry.ptr == free_marker)) [
      | inl free ↦ rw (free_is_unmarked entry free, free)
      | inr taken ↦ elim (Bool-cases (markers entry.ptr == 0)) [
        | inr marked ↦ rw (marked, taken) rest
        | inl live ↦ elim (Bool-cases (is_entry_of entry table key)) [
          | inl same ↦ rw (live, taken, same)
          | inr other ↦ rw (live, taken, other) rest
        ]
      ]
    ]

-- The first round that claims a bucket.
unfoldable pub find_claim : ℕ → OpenAddressingTable → ℕ → Option ℕ
find_claim zero t pos = none
find_claim (suc n) t pos =
    let rest = find_claim n t (pos + 1) in
    let ptr = (t.buckets (pos % t.capacity)).ptr in
    if ptr == deleted_marker then some pos else if ptr == free_marker then some pos else rest

abbrev pub insert_at : OpenAddressingTable → ℕ → ℕ → ℕ → ℕ → Option ℕ → Outcome
insert_at t h table key v none = (false, none, t)
insert_at t h table key v (some pos) = insert_claimed t h pos table key v

pub insert_loop-find :
    (n : ℕ) (t : OpenAddressingTable) (h pos table key v : ℕ)
    → insert_loop n t h pos table key v ≡ insert_at t h table key v (find_claim n t pos)
unfolding insert_loop find_claim
insert_loop-find zero t h pos table key v = refl
insert_loop-find (suc n) t h pos table key v =
    elim (Bool-cases ((t.buckets (pos % t.capacity)).ptr == deleted_marker)) [
      | inl deleted ↦ rw (deleted)
      | inr other ↦ elim (Bool-cases ((t.buckets (pos % t.capacity)).ptr == free_marker)) [
        | inl free ↦ rw (other, free)
        | inr taken ↦ rw (other, taken) (insert_loop-find n t h (pos + 1) table key v)
      ]
    ]
