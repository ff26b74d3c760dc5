-- ===== src/Cuckoo/Rounds.antt =====
-- The rounds of an insert keep what the table has with the pair in hand.
use tellstore.Prelude.{
  ℕ, zero, suc, ◌<◌, ◌≡◌, ◌≢◌, refl, sym, ◌∙◌, ◌==◌, if◌then◌else◌, inl, inr, arith, ==_refl, ==_ne,
  Bool-cases,
}
use native.Mathlib.Decide.{ℕ_discrete}
use tellstore.Cuckoo.{
  Modifier, hasher, entry_for, get, Placing, out_of_pages, placed, carried, place_at, place_rounds,
}
use tellstore.Cuckoo.Pages.{Paging, with_paging, IsPaged, Isolated}
use tellstore.Cuckoo.Writes.{set_entry_lem}
use tellstore.Cuckoo.Lookups.{IsTable, IsAbsent}
use tellstore.Cuckoo.Displacing.{
  IsTable-placed, get-placed, get-other, carried_key_other, IsAbsent-carried, before_carried,
  get-carried,
}

pub hasher-with_paging :
    (m : Modifier) (y : Paging) (d key : ℕ) → hasher (with_paging m y) d key ≡ hasher m d key
hasher-with_paging m y zero key = refl
hasher-with_paging m y (suc zero) key = refl
hasher-with_paging m y (suc (suc d)) key = refl

-- A modifier whose pages and entries are as they have to be, and that left the pages of its table alone.
pub record IsModifier (original m : Modifier) : Type 0 where
  pub paged : IsPaged m
  pub table : IsTable m
  pub isolated : Isolated original m

-- What a key finds, with the pair in hand.
unfoldable pub content : Placing → ℕ → ℕ
content out_of_pages key = 0
content (placed m) key = get m key
content (carried k v m) key = if key == k then v else get m key

-- Before the step of a part.
abbrev pub IsGood : Modifier → ℕ → Placing → Type 0
IsGood original h out_of_pages = ⊥
IsGood original h (placed m) = IsModifier original m × (m.size ≡ original.size)
IsGood original h (carried k v m) =
    IsModifier original m
    × (v ≢ 0)
    × IsAbsent m k
    × ((d : ℕ) → d < h → (entry_for m d k).key ≢ k)
    × (m.size ≡ original.size)

swap_content :
    (g g' : ℕ → ℕ) (k v old_key old : ℕ)
    → old_key ≢ k
    → g' k ≡ v
    → g old_key ≡ old
    → ((o : ℕ) → o ≢ k → o ≢ old_key → g' o ≡ g o)
    → (key : ℕ) → (if key == old_key then old else g' key) ≡ (if key == k then v else g key)
swap_content g g' k v old_key old ne at_k at_old others key = elim (ℕ_discrete key k) [
  | yes same ↦ rw (same, ==_refl k, ==_ne k old_key (λ e. ne (sym e))) at_k
  | no off ↦ elim (ℕ_discrete key old_key) [
    | yes same ↦ rw (same, ==_refl old_key, ==_ne old_key k ne) (sym at_old)
    | no off' ↦ rw (==_ne key k off, ==_ne key old_key off') (others key off off')
  ]
]

pub place_content :
    (g g' : ℕ → ℕ) (k v : ℕ)
    → g' k ≡ v
    → ((o : ℕ) → o ≢ k → g' o ≡ g o)
    → (key : ℕ) → g' key ≡ (if key == k then v else g key)
place_content g g' k v at_k others key = elim (ℕ_discrete key k) [
  | yes same ↦ rw (same, ==_refl k) at_k
  | no off ↦ rw (==_ne key k off) (others key off)
]

place_at-carried :
    (original : Modifier) (h k v : ℕ) (m : Modifier)
    → h < 3
    → IsGood original h (carried k v m)
    → IsGood original (suc h) (place_at h (carried k v m))
      × ((key : ℕ) → content (place_at h (carried k v m)) key ≡ content (carried k v m) key)
unfolding place_at content
place_at-carried original h k v m part (ok, some_value, absent, before, sized) =
    let (y, run, paged, isolated, here, elsewhere) =
      set_entry_lem m h k (record { key = k; value = v }) ok.paged part in
    let m' : Modifier = with_paging m y in
    let hashes = hasher-with_paging m y in
    let table : IsTable m' =
      IsTable-placed m m' h k v hashes here elsewhere ok.table part absent before some_value in
    let good : IsModifier original m' = record {
      paged = paged;
      table = table;
      isolated = λ q. isolated q ∙ ok.isolated q;
    } in
    elim (Bool-cases ((entry_for m h k).value == 0)) [
      | inl empty ↦
          rw (place_at, run, empty)
            (
              (good, sized),
              place_content (get m) (get m') k v
                  (get-placed m m' h k v hashes here elsewhere ok.table part absent before
                    some_value)
                  (λ o ne.
                    get-other m m' h k v hashes here elsewhere ok.table part absent before
                      some_value o ne (λ e. ground (arith, empty))),
            )
      | inr live ↦
          rw (place_at, run, live)
            (let some_old : (entry_for m h k).value ≢ 0 = ground (arith, live) in
              (
                (
                  good,
                  some_old,
                  IsAbsent-carried m m' h k v hashes here elsewhere ok.table part absent before
                      some_value some_old,
                  before_carried m m' h k v hashes here elsewhere ok.table part absent before
                      some_value some_old,
                  sized,
                ),
                swap_content (get m) (get m') k v (entry_for m h k).key (entry_for m h k).value
                    (carried_key_other m m' h k v hashes here elsewhere ok.table part absent before
                      some_value some_old)
                    (get-placed m m' h k v hashes here elsewhere ok.table part absent before
                      some_value)
                    (get-carried m m' h k v hashes here elsewhere ok.table part absent before
                      some_value some_old)
                    (λ o ne ne'.
                      get-other m m' h k v hashes here elsewhere ok.table part absent before
                        some_value o ne (λ e. absurd (ne' (sym e)))),
              ))
    ]

place_at_lem :
    (original : Modifier) (h : ℕ) (p : Placing)
    → h < 3
    → IsGood original h p
    → IsGood original (suc h) (place_at h p)
      × ((key : ℕ) → content (place_at h p) key ≡ content p key)
unfolding place_at
place_at_lem original h out_of_pages part good = absurd good
place_at_lem original h (placed m) part good = (good, λ key. refl)
place_at_lem original h (carried k v m) part good = place_at-carried original h k v m part good

-- A round starts anew with the first part.
IsGood-start :
    (original : Modifier) (h : ℕ) (p : Placing) → IsGood original h p → IsGood original 0 p
IsGood-start original h out_of_pages good = good
IsGood-start original h (placed m) good = good
IsGood-start original h (carried k v m) (ok, some_value, absent, before, sized) =
    (ok, some_value, absent, λ d l. absurd (omega (arith, l)), sized)

-- Any number of rounds ends with the key placed or with a pair in hand, and keeps the contents.
pub place_rounds_lem :
    (original : Modifier) (n : ℕ) (p : Placing)
    → IsGood original 0 p
    → IsGood original 0 (place_rounds n p)
      × ((key : ℕ) → content (place_rounds n p) key ≡ content p key)
unfolding place_rounds
place_rounds_lem original zero p good = (good, λ key. refl)
place_rounds_lem original (suc n) p good =
    let (good1, same1) = place_at_lem original 0 p (omega arith) good in
    let (good2, same2) = place_at_lem original 1 (place_at 0 p) (omega arith) good1 in
    let (good3, same3) = place_at_lem original 2 (place_at 1 (place_at 0 p)) (omega arith) good2 in
    let p' : Placing = place_at 2 (place_at 1 (place_at 0 p)) in
    let (good', same') = place_rounds_lem original n p' (IsGood-start original 3 p' good3) in
    (good', λ key. same' key ∙ same3 key ∙ same2 key ∙ same1 key)
