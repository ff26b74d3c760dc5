-- ===== src/Cuckoo/Lookups.antt =====
-- The invariant of the entries of a `Modifier`, and what `get` finds.
use native.Mathlib.Decide.{ℕ_discrete}
use tellstore.Prelude.{
  ℕ, zero, suc, ◌<◌, ◌≡◌, ◌≢◌, refl, Bool, true, false, none, some, ◌==◌, ◌⊎◌, inl, inr, arith,
  ==_refl, ==_ne, not, ◌&&◌, ltb, Bool-cases,
}
use tellstore.Cuckoo.{Modifier, hasher, entry_for, get, find_part}

-- An entry with a value is where its key has its index, and a key that has a value in one part is in
-- none of the parts before.
pub record IsTable (m : Modifier) : Type 0 where
  pub home :
      (h key : ℕ)
      → h < 3
      → (entry_for m h key).value ≢ 0
      → hasher m h (entry_for m h key).key ≡ hasher m h key
  pub first :
      (h h' key : ℕ)
      → h' < h
      → h < 3
      → (entry_for m h key).key ≡ key
      → (entry_for m h key).value ≢ 0
      → (entry_for m h' key).key ≢ key

-- No part has a value for the key.
abbrev pub IsAbsent : Modifier → ℕ → Type 0
IsAbsent m key = (h : ℕ) → h < 3 → (entry_for m h key).key ≡ key → (entry_for m h key).value ≡ 0

pub get-live :
    (m : Modifier) (h key : ℕ)
    → IsTable m
    → h < 3
    → (entry_for m h key).key ≡ key
    → (entry_for m h key).value ≢ 0
    → get m key ≡ (entry_for m h key).value
unfolding get
get-live m zero key ok l e live = rw (get, e, ==_refl key) refl
get-live m (suc zero) key ok l e live =
    rw
      (
        get,
        ==_ne (entry_for m 0 key).key key (ok.first 1 0 key (omega arith) l e live),
        e,
        ==_refl key,
      )
      refl
get-live m (suc (suc zero)) key ok l e live =
    rw
      (
        get,
        ==_ne (entry_for m 0 key).key key (ok.first 2 0 key (omega arith) l e live),
        ==_ne (entry_for m 1 key).key key (ok.first 2 1 key (omega arith) l e live),
        e,
        ==_refl key,
      )
      refl
get-live m (suc (suc (suc h))) key ok l e live = absurd (omega (arith, l))

pub get-IsAbsent : (m : Modifier) (key : ℕ) → IsAbsent m key → get m key ≡ 0
unfolding get
get-IsAbsent m key absent =
    ground (arith, absent 0 (omega arith), absent 1 (omega arith), absent 2 (omega arith))

-- A key has a value in one part only.
pub value-other_part :
    (m : Modifier) (h d key : ℕ)
    → IsTable m
    → h < 3
    → d < 3
    → d ≢ h
    → (entry_for m h key).key ≡ key
    → (entry_for m h key).value ≢ 0
    → (entry_for m d key).key ≡ key
    → (entry_for m d key).value ≡ 0
value-other_part m h d key ok l l' ne e live e' = elim (ℕ_discrete (entry_for m d key).value 0) [
  | yes z ↦ z
  | no live' ↦ elim (Bool-cases (ltb d h)) [
    | inl below ↦ absurd (ok.first h d key (ground (arith, below)) l e live e')
    | inr behind ↦ absurd (ok.first d h key (ground (arith, behind, ne)) l' e' live' e)
  ]
]

-- Whether one part has a value for the key.
abbrev has_value : Modifier → ℕ → ℕ → Bool
has_value m h key = (entry_for m h key).key == key && not ((entry_for m h key).value == 0)

has_value-true :
    (m : Modifier) (h key : ℕ)
    → has_value m h key ≡ true
    → ((entry_for m h key).key ≡ key) × ((entry_for m h key).value ≢ 0)
has_value-true m h key e = (ground (arith, e), ground (arith, e))

has_value-false :
    (m : Modifier) (h key : ℕ)
    → has_value m h key ≡ false
    → (entry_for m h key).key ≡ key
    → (entry_for m h key).value ≡ 0
has_value-false m h key e same = ground (arith, e, same)

IsAbsent-parts :
    (m : Modifier) (key : ℕ)
    → has_value m 0 key ≡ false
    → has_value m 1 key ≡ false
    → has_value m 2 key ≡ false
    → IsAbsent m key
IsAbsent-parts m key e0 e1 e2 zero l same = has_value-false m 0 key e0 same
IsAbsent-parts m key e0 e1 e2 (suc zero) l same = has_value-false m 1 key e1 same
IsAbsent-parts m key e0 e1 e2 (suc (suc zero)) l same = has_value-false m 2 key e2 same
IsAbsent-parts m key e0 e1 e2 (suc (suc (suc h))) l same = absurd (omega (arith, l))

-- A part has a value for the key, or none has.
pub find_part-cases :
    (m : Modifier) (key : ℕ)
    → ((h : ℕ) × (find_part m key ≡ some h)
        × (h < 3)
        × ((entry_for m h key).key ≡ key)
        × ((entry_for m h key).value ≢ 0))
      ⊎ ((find_part m key ≡ none) × IsAbsent m key)
unfolding find_part
find_part-cases m key = elim (Bool-cases (has_value m 0 key)) [
  | inl e0 ↦ inl (
    0,
    rw (find_part, e0) refl,
    omega arith,
    (has_value-true m 0 key e0).0,
    (has_value-true m 0 key e0).1,
  )
  | inr e0 ↦ elim (Bool-cases (has_value m 1 key)) [
    | inl e1 ↦ inl (
      1,
      rw (find_part, e0, e1) refl,
      omega arith,
      (has_value-true m 1 key e1).0,
      (has_value-true m 1 key e1).1,
    )
    | inr e1 ↦ elim (Bool-cases (has_value m 2 key)) [
      | inl e2 ↦ inl (
        2,
        rw (find_part, e0, e1, e2) refl,
        omega arith,
        (has_value-true m 2 key e2).0,
        (has_value-true m 2 key e2).1,
      )
      | inr e2 ↦ inr (rw (find_part, e0, e1, e2) refl, IsAbsent-parts m key e0 e1 e2)
    ]
  ]
]
