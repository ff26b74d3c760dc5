-- ===== src/OpenAddressing/Conflict.antt =====
-- The conflict scan of `OpenAddressingTable`, where no other insert is under way.
use tellstore.Prelude.{
  ℕ, zero, suc, ◌+◌, ◌%◌, ◌<◌, ◌≡◌, ◌≢◌, refl, true, false, Option, none, some, arith, ap, ◌==◌,
  Bool-cases, inl, inr, ◌⊎◌, update_ne, update_self, update_twice, ==_ne, ==_refl,
}
use native.Mathlib.Decide.{ℕ_discrete}
use tellstore.OpenAddressing.{
  free_marker, deleted_marker, deleted_entry, Entry, OpenAddressingTable, Outcome, store,
  is_entry_of, mark_inserting, has_insert_conflict, insert_claimed, finish_insert, rounds,
}
use tellstore.OpenAddressing.Probe.{find_live}
use tellstore.OpenAddressing.Placed.{IsPlaced, IsPlaced-suc, find_behind_free}

-- No insert is under way: every bucket is free, deleted, or holds a pointer for a table.
abbrev pub IsQuiet : OpenAddressingTable → Type 0
IsQuiet t =
    (i : ℕ)
    → ((t.buckets i).ptr ≡ free_marker)
      ⊎ ((t.buckets i).ptr ≡ deleted_marker)
      ⊎ (((t.buckets i).ptr % 8 ≡ 0) × ((t.buckets i).table_id ≢ 0))

abbrev pub IsClaimable : Entry → Type 0
IsClaimable e = (e.ptr ≡ free_marker) ⊎ (e.ptr ≡ deleted_marker)

-- The outcome of the scan: a conflict with the bucket that holds the key.
abbrev pub conflict_at : OpenAddressingTable → OpenAddressingTable → Option ℕ → Outcome
conflict_at t claimed none = (false, none, claimed)
conflict_at t claimed (some i) = (true, some (t.buckets i).ptr, claimed)

-- What an insert comes to at the bucket that it has claimed.
abbrev pub claim_outcome : OpenAddressingTable → ℕ → ℕ → ℕ → ℕ → Option ℕ → Outcome
claim_outcome t table key v i none =
    (true, none, store t i (record { table_id = table; key_id = key; ptr = v }))
claim_outcome t table key v i (some j) = (false, some (t.buckets j).ptr, store t i deleted_entry)

module _ (t : OpenAddressingTable) (quiet : IsQuiet t) (c table key v : ℕ) where
  abbrev claimed : OpenAddressingTable
  claimed =
      store t (c % t.capacity) (record { table_id = table; key_id = key; ptr = mark_inserting v })

  -- The bucket of the insert itself is met at its own position alone.
  abbrev pub MeetsOnce : ℕ → ℕ → Type 0
  MeetsOnce n pos = (d : ℕ) → d < n → pos + d ≢ c → (pos + d) % t.capacity ≢ c % t.capacity

  MeetsOnce-suc : (n pos : ℕ) → MeetsOnce (suc n) pos → MeetsOnce n (pos + 1)
  MeetsOnce-suc n pos once d lt ne e =
      let q : pos + 1 + d ≡ pos + suc d = omega arith in
      once (suc d) (omega arith) (λ x. ne (omega arith)) (rw (← q) e)

  -- One round elsewhere.
  conflict-other :
      (n pos : ℕ)
      → pos ≢ c
      → pos % t.capacity ≢ c % t.capacity
      → has_insert_conflict n claimed (pos + 1) c table key
        ≡ conflict_at t claimed (find_live n t (pos + 1) table key)
      → has_insert_conflict (suc n) claimed pos c table key
        ≡ conflict_at t claimed (find_live (suc n) t pos table key)
  unfolding has_insert_conflict find_live
  conflict-other n pos away ne rest =
      let e =
        update_ne t.buckets (c % t.capacity) (pos % t.capacity)
          (record { table_id = table; key_id = key; ptr = mark_inserting v }) ne in
      let b = t.buckets (pos % t.capacity) in
      rw (==_ne pos c away, e)
        (elim (ℕ_discrete b.ptr 0) [
          | yes free ↦ ground arith
          | no taken ↦ elim (ℕ_discrete b.ptr 1) [
            | yes deleted ↦ ground arith
            | no live ↦ elim (Bool-cases (is_entry_of b table key)) [
              | inl same ↦ ground (arith, quiet (pos % t.capacity))
              | inr other ↦ ground (arith, quiet (pos % t.capacity))
            ]
          ]
        ])

  -- The round at the bucket of the insert itself.
  conflict-own :
      (n pos : ℕ)
      → pos ≡ c
      → IsPlaced (suc n) t pos table key
      → IsClaimable (t.buckets (c % t.capacity))
      → has_insert_conflict n claimed (pos + 1) c table key
        ≡ conflict_at t claimed (find_live n t (pos + 1) table key)
      → has_insert_conflict (suc n) claimed pos c table key
        ≡ conflict_at t claimed (find_live (suc n) t pos table key)
  unfolding has_insert_conflict find_live
  conflict-own n pos own placed claimable rest =
      let e : (pos == c) ≡ true = ground arith in
      let i : pos % t.capacity ≡ c % t.capacity = ap (λ x. x % t.capacity) own in
      rw e (ground (arith, rest, find_behind_free n t pos table key placed))

  -- With no insert under way, the scan of an insert that has claimed a bucket reports a conflict
  -- exactly if the table held the key before, and changes nothing.
  pub conflict-find :
      (n pos : ℕ)
      → IsPlaced n t pos table key
      → IsClaimable (t.buckets (c % t.capacity))
      → MeetsOnce n pos
      → has_insert_conflict n claimed pos c table key
        ≡ conflict_at t claimed (find_live n t pos table key)
  unfolding has_insert_conflict find_live
  conflict-find zero pos placed claimable once = refl
  conflict-find (suc n) pos placed claimable once =
      let rest =
        conflict-find n (pos + 1) (IsPlaced-suc n t pos table key placed) claimable
          (MeetsOnce-suc n pos once) in
      elim (ℕ_discrete pos c) [
        | no away ↦
            let q : pos + 0 ≡ pos = omega arith in
            conflict-other n pos away (λ e. once 0 (omega arith) (λ x. away (omega arith)) (rw q e))
              rest
        | yes own ↦ conflict-own n pos own placed claimable rest
      ]

  finish-conflict :
      (s : Option ℕ)
      → finish_insert (c % t.capacity) (mark_inserting v) v (conflict_at t claimed s)
        ≡ claim_outcome t table key v (c % t.capacity) s
  unfolding finish_insert
  finish-conflict none =
      let i = c % t.capacity in
      let e : Entry = record { table_id = table; key_id = key; ptr = mark_inserting v } in
      let e' : Entry = record { table_id = table; key_id = key; ptr = v } in
      rw (update_self t.buckets i e, ==_refl (mark_inserting v), update_twice t.buckets i e e')
  finish-conflict (some j) =
      let i = c % t.capacity in
      let e : Entry = record { table_id = table; key_id = key; ptr = mark_inserting v } in
      rw (update_twice t.buckets i e deleted_entry)

  -- An insert that has claimed a bucket succeeds there exactly if the table did not hold the key.
  pub insert_claimed-find :
      (h : ℕ)
      → IsPlaced (rounds t h) t h table key
      → IsClaimable (t.buckets (c % t.capacity))
      → MeetsOnce (rounds t h) h
      → insert_claimed t h c table key v
        ≡ claim_outcome t table key v (c % t.capacity) (find_live (rounds t h) t h table key)
  unfolding insert_claimed
  insert_claimed-find h placed claimable once =
      rw (conflict-find (rounds t h) h placed claimable once)
        (finish-conflict (find_live (rounds t h) t h table key))
