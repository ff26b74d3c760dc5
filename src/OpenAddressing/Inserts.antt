-- ===== src/OpenAddressing/Inserts.antt =====
-- What `insert` returns, and what lookups see afterwards.
use native.Mathlib.Decide.{ℕ_discrete}
use tellstore.Prelude.{
  ◌⊎◌, ℕ, zero, suc, ◌+◌, ◌%◌, ◌^◌, ◌<◌, ◌≡◌, ◌≢◌, refl, true, Option, none, some, arith, ap,
  if◌then◌else◌, Option-cases, inl, inr, ◌∙◌, sym, add-mod_surjective, add-mod_injective, Bool,
  false,
}
use tellstore.OpenAddressing.{
  deleted_entry, Entry, OpenAddressingTable, store, rounds, calculate_hash, get, insert,
}
use tellstore.OpenAddressing.Probe.{find_claim, insert_at, insert_loop-find}
use tellstore.OpenAddressing.Placed.{IsHeld, bucket_at, shift, start, find-store_claim}
use tellstore.OpenAddressing.Conflict.{IsClaimable, insert_claimed-find, claim_outcome, MeetsOnce}
use tellstore.OpenAddressing.Valid.{
  IsValid, rounds-le, find_claim-Claim, delete-IsValid, claim-IsValid,
}
use tellstore.OpenAddressing.Lookups.{
  IsPointer, found_in, pointer_of, get-found, found-IsHeld, get-store_other, get-store, same_key,
  Lookups,
}

abbrev claim_of : OpenAddressingTable → ℕ → ℕ → Option ℕ
claim_of t table key = let h = calculate_hash t table key in find_claim (rounds t h) t h

-- The loop of `insert` ends at the first bucket that it may claim.
insert-claim :
    (t : OpenAddressingTable) (table key v c : ℕ)
    → IsValid t
    → claim_of t table key ≡ some c
    → insert t table key v ≡ claim_outcome t table key v (c % t.capacity) (found_in t table key)
unfolding insert
insert-claim t table key v c valid e =
    let h = calculate_hash t table key in
    let n = rounds t h in
    let claim = find_claim-Claim n t h c e in
    let le = rounds-le t h valid.small in
    let once : MeetsOnce t valid.quiet c table key v n h = λ d lt ne at. ne (
      omega (
        arith,
        claim.index,
        add-mod_injective t.capacity h d claim.round (omega arith) (omega (arith, claim.round-lt))
            (at ∙ ap (λ x. x % t.capacity) claim.index),
      )) in
    insert_loop-find n t h h table key v
    ∙ ap (insert_at t h table key v) e
    ∙ insert_claimed-find t valid.quiet c table key v h (valid.placed table key) claim.claimable
        once

insert_new :
    (t : OpenAddressingTable) (table key v c : ℕ)
    → IsValid t
    → table ≢ 0
    → IsPointer v
    → claim_of t table key ≡ some c
    → found_in t table key ≡ none
    → let t' = store t (c % t.capacity) (record { table_id = table; key_id = key; ptr = v }) in
      Lookups (λ a b. if same_key table key a b then v else get t a b) (true, none, t')
insert_new t table key v c valid named ptr e absent =
    let h = calculate_hash t table key in
    let entry : Entry = record { table_id = table; key_id = key; ptr = v } in
    let claim = find_claim-Claim (rounds t h) t h c e in
    (
      claim-IsValid t c entry valid claim absent named ptr.0 ptr.1,
      get-store t (c % t.capacity) entry valid ptr.1 (inr claim.claimable)
          (find-store_claim (rounds t h) t h c entry e absent ptr.0 ptr.1),
    )

-- Some bucket can be claimed within the rounds of the loop.
find_claim-ne-none :
    (n : ℕ) (t : OpenAddressingTable) (pos d : ℕ)
    → d < n
    → IsClaimable (bucket_at t pos d)
    → find_claim n t pos ≢ none
unfolding find_claim
find_claim-ne-none zero t pos d lt h = absurd (omega arith)
find_claim-ne-none (suc n) t pos zero lt h = ground (arith, start pos t)
find_claim-ne-none (suc n) t pos (suc d) lt h =
    ground (arith, find_claim-ne-none n t (pos + 1) d (omega arith) (rw shift h))

-- The probe sequence of the key does not wrap at 64 bits.
abbrev pub HasRounds : OpenAddressingTable → ℕ → ℕ → Type 0
HasRounds t table key = calculate_hash t table key + t.capacity < 2 ^ 64

claim-ne-none :
    (t : OpenAddressingTable) (table key i : ℕ)
    → HasRounds t table key
    → i < t.capacity
    → IsClaimable (t.buckets i)
    → claim_of t table key ≢ none
unfolding bucket_at
claim-ne-none t table key i fits lt h =
    let pos = calculate_hash t table key in
    let (d, lt', at) = add-mod_surjective t.capacity pos i lt in
    find_claim-ne-none (rounds t pos) t pos d (omega arith) (rw (at, bucket_at) h)

found_none :
    (t : OpenAddressingTable) (table key : ℕ) → get t table key ≡ 0 → found_in t table key ≡ none
found_none t table key h = elim (Option-cases (found_in t table key)) [
  | inl e ↦ e
  | inr (i, e) ↦ absurd (
      (found-IsHeld t table key i e).1
        (sym (ap (pointer_of t) e) ∙ sym (get-found t table key) ∙ h))
]

-- An absent key.
pub insert_untaken :
    (t : OpenAddressingTable) (table key v i : ℕ)
    → IsValid t
    → table ≢ 0
    → IsPointer v
    → HasRounds t table key
    → i < t.capacity
    → IsClaimable (t.buckets i)
    → get t table key ≡ 0
    → let r = insert t table key v in
      (r.0 ≡ true)
      × (r.1 ≡ none)
      × Lookups (λ a b. if same_key table key a b then v else get t a b) r
insert_untaken t table key v i valid named ptr fits lt claimable absent =
    elim (Option-cases (claim_of t table key)) [
      | inl e ↦ absurd (claim-ne-none t table key i fits lt claimable e)
      | inr (c, e) ↦
          let none_found = found_none t table key absent in
          let run =
            insert-claim t table key v c valid e
            ∙ ap (claim_outcome t table key v (c % t.capacity)) none_found in
          rw run (refl, refl, insert_new t table key v c valid named ptr e none_found)
    ]

claimable-unheld : (e : Entry) (table key : ℕ) → IsClaimable e → IsHeld e table key → ⊥
claimable-unheld e table key claimable held = ground arith

delete_unheld-Lookups :
    (t : OpenAddressingTable) (i : ℕ) (b : Bool) (a : Option ℕ)
    → IsValid t
    → IsClaimable (t.buckets i)
    → Lookups (get t) (b, a, store t i deleted_entry)
delete_unheld-Lookups t i b a valid claimable = (
  delete-IsValid t i valid,
  λ table key.
      get-store_other t i deleted_entry table key valid (omega arith)
        (λ held. absurd (omega (arith, held.0)))
        (λ held. claimable-unheld (t.buckets i) table key claimable held),
)

-- A key that has a pointer.
pub insert_taken :
    (t : OpenAddressingTable) (table key v i : ℕ)
    → IsValid t
    → HasRounds t table key
    → i < t.capacity
    → IsClaimable (t.buckets i)
    → get t table key ≢ 0
    → let r = insert t table key v in
      (r.0 ≡ false) × (r.1 ≡ some (get t table key)) × Lookups (get t) r
insert_taken t table key v i valid fits lt claimable present =
    elim (Option-cases (claim_of t table key)) [
      | inl e ↦ absurd (claim-ne-none t table key i fits lt claimable e)
      | inr (c, e) ↦ elim (Option-cases (found_in t table key)) [
        | inl absent ↦ absurd (present (get-found t table key ∙ ap (pointer_of t) absent))
        | inr (j, found) ↦
            let h = calculate_hash t table key in
            let claim = find_claim-Claim (rounds t h) t h c e in
            let run =
              insert-claim t table key v c valid e
              ∙ ap (claim_outcome t table key v (c % t.capacity)) found in
            rw run (
              refl,
              ap some (sym (get-found t table key ∙ ap (pointer_of t) found)),
              delete_unheld-Lookups t (c % t.capacity) false (some (t.buckets j).ptr) valid
                  claim.claimable,
            )
      ]
    ]

-- In a valid table with a bucket that is free or deleted, if the hash of the key plus the capacity does
-- not wrap at 64 bits, an insert of a pointer under an absent key succeeds: the table stays valid, the
-- key maps to the pointer and every other lookup is as before. Under a key that has a pointer it
-- returns false and hands that pointer out, the table stays valid, and no lookup changes.
pub insert_lem :
    (t : OpenAddressingTable) (table key v i : ℕ)
    → IsValid t
    → table ≢ 0
    → IsPointer v
    → HasRounds t table key
    → i < t.capacity
    → IsClaimable (t.buckets i)
    → let r = insert t table key v in
      ((get t table key ≡ 0)
        × (r.0 ≡ true)
        × (r.1 ≡ none)
        × Lookups (λ a b. if same_key table key a b then v else get t a b) r)
      ⊎ ((get t table key ≢ 0) × (r.0 ≡ false) × (r.1 ≡ some (get t table key)) × Lookups (get t) r)
insert_lem t table key v i valid named ptr fits lt claimable =
    elim (ℕ_discrete (get t table key) 0) [
      | yes absent ↦
          let (done, handed, lookups) =
            insert_untaken t table key v i valid named ptr fits lt claimable absent in
          inl (absent, done, handed, lookups)
      | no present ↦
          let (refused, handed, lookups) =
            insert_taken t table key v i valid fits lt claimable present in
          inr (present, refused, handed, lookups)
    ]
