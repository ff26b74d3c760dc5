-- ===== src/Cuckoo/Displacing.antt =====
-- One step of an insert: a key takes its place, and what was there is in hand.
use native.Mathlib.Decide.{ℕ_discrete}
use tellstore.Prelude.{ℕ, suc, ◌<◌, ◌≡◌, ◌≢◌, refl, sym, ap, ◌∙◌, ◌⊎◌, inl, inr, arith}
use tellstore.Cuckoo.{Entry, Modifier, hasher, entry_at, entry_for, get}
use tellstore.Cuckoo.Lookups.{
  IsTable, IsAbsent, get-live, get-IsAbsent, find_part-cases, value-other_part,
}

abbrev pub key_of : Entry → ℕ
key_of e = e.key

abbrev pub value_of : Entry → ℕ
value_of e = e.value

-- A table with its entries after the entry for a key of one part was assigned.
module _ (m m' : Modifier) (h key value : ℕ)
    (same_hash : (d other : ℕ) → hasher m' d other ≡ hasher m d other)
    (here : (other : ℕ)
      → hasher m h other ≡ hasher m h key
      → entry_for m' h other ≡ record { key = key; value = value })
    (elsewhere : (d other : ℕ)
      → d < 3
      → ((d ≡ h) × (hasher m d other ≡ hasher m h key) → ⊥)
      → entry_for m' d other ≡ entry_for m d other) where
  abbrev pub pair : Entry
  pair = record { key = key; value = value }

  -- An entry is the new pair, where the old one stood, or it is as before.
  pub entry-cases :
      (d other : ℕ)
      → d < 3
      → ((d ≡ h)
          × (entry_for m' d other ≡ pair)
          × (entry_for m d other ≡ entry_for m h key)
          × (hasher m d other ≡ hasher m h key))
        ⊎ (entry_for m' d other ≡ entry_for m d other)
  entry-cases d other l = elim (ℕ_discrete d h) [
    | no ne ↦ inr (elsewhere d other l (λ s. ne s.0))
    | yes same ↦ elim (ℕ_discrete (hasher m d other) (hasher m h key)) [
      | no ne ↦ inr (elsewhere d other l (λ s. ne s.1))
      | yes at ↦ inl (
        same,
        ap (λ x. entry_for m' x other) same
            ∙ here other (sym (ap (λ x. hasher m x other) same) ∙ at),
        ap (λ x. entry_at m x (hasher m d other)) same ∙ ap (entry_at m h) at,
        at,
      )
    ]
  ]

  module _ (ok : IsTable m) (part : h < 3) (absent : IsAbsent m key)
      (before : (d : ℕ) → d < h → (entry_for m d key).key ≢ key) (some_value : value ≢ 0) where
    -- Another key with a value is not the new one.
    other_key :
        (d other : ℕ)
        → d < 3
        → (entry_for m d other).key ≡ other
        → (entry_for m d other).value ≢ 0
        → key ≢ other
    other_key d other l e live same = live (
        ap (λ x. (entry_for m d x).value) (sym same)
        ∙ absent d l (ap (λ x. (entry_for m d x).key) same ∙ e ∙ sym same))

    pub IsTable-placed : IsTable m'
    IsTable-placed = record {
      home = λ d other l live. elim (entry-cases d other l) [
        | inl (at, new, old, index) ↦
            same_hash d (entry_for m' d other).key
            ∙ ap (λ x. hasher m d (key_of x)) new
            ∙ ap (λ x. hasher m x key) at
            ∙ sym index
            ∙ sym (same_hash d other)
        | inr same ↦
            same_hash d (entry_for m' d other).key
            ∙ ap (λ x. hasher m d (key_of x)) same
            ∙ ok.home d other l (λ z. live (ap value_of same ∙ z))
            ∙ sym (same_hash d other)
      ];
      first = λ d d' other l' l e live s. elim (entry-cases d other l) [
        | inl (at, new, old, index) ↦
            let k : key ≡ other = sym (ap key_of new) ∙ e in
            elim (entry-cases d' other (omega (arith, l', l))) [
              | inl (at', new', old', index') ↦ omega (arith, at, at', l')
              | inr same' ↦
                  before d' (omega (arith, l', at))
                    (ap (λ x. (entry_for m d' x).key) k ∙ sym (ap key_of same') ∙ s ∙ sym k)
            ]
        | inr same ↦
            let e0 : (entry_for m d other).key ≡ other = sym (ap key_of same) ∙ e in
            let live0 : (entry_for m d other).value ≢ 0 = λ z. live (ap value_of same ∙ z) in
            elim (entry-cases d' other (omega (arith, l', l))) [
              | inl (at', new', old', index') ↦
                  other_key d other l e0 live0 (sym (ap key_of new') ∙ s)
              | inr same' ↦ ok.first d d' other l' l e0 live0 (sym (ap key_of same') ∙ s)
            ]
      ];
    }

    -- The new key is found with its value.
    pub get-placed : get m' key ≡ value
    get-placed =
        let new : entry_for m' h key ≡ pair = here key refl in
        get-live m' h key IsTable-placed part (ap key_of new)
          (λ z. some_value (sym (ap value_of new) ∙ z))
        ∙ ap value_of new

    -- Another key is found as before, unless the old entry is its own.
    pub get-other :
        (other : ℕ)
        → other ≢ key
        → ((entry_for m h key).key ≡ other → (entry_for m h key).value ≡ 0)
        → get m' other ≡ get m other
    get-other other ne gone = elim (find_part-cases m other) [
      | inl (d, found, l, e, live) ↦ elim (entry-cases d other l) [
        | inl (at, new, old, index) ↦
            absurd (live (ap value_of old ∙ gone (sym (ap key_of old) ∙ e)))
        | inr same ↦
            get-live m' d other IsTable-placed l (ap key_of same ∙ e)
              (λ z. live (sym (ap value_of same) ∙ z))
            ∙ ap value_of same
            ∙ sym (get-live m d other ok l e live)
      ]
      | inr (found, none_live) ↦
          get-IsAbsent m' other (λ d l e. elim (entry-cases d other l) [
            | inl (at, new, old, index) ↦ absurd (ne (sym e ∙ ap key_of new))
            | inr same ↦ ap value_of same ∙ none_live d l (sym (ap key_of same) ∙ e)
          ])
          ∙ sym (get-IsAbsent m other none_live)
    ]

    -- The old entry with a value has another key, which is found nowhere any more.
    module _ (live : (entry_for m h key).value ≢ 0) where
      abbrev pub carried_key : ℕ
      carried_key = (entry_for m h key).key

      carried_at : entry_for m h carried_key ≡ entry_for m h key
      carried_at = ap (entry_at m h) (ok.home h key part live)

      pub carried_key_other : carried_key ≢ key
      carried_key_other e = live (absent h part e)

      carried_gone : entry_for m' h carried_key ≡ pair
      carried_gone = here carried_key (ok.home h key part live)

      pub IsAbsent-carried : IsAbsent m' carried_key
      IsAbsent-carried d l e = elim (ℕ_discrete d h) [
        | yes at ↦ absurd (
            carried_key_other (
              sym (
                sym (ap key_of carried_gone)
                ∙ ap (λ x. (entry_for m' x carried_key).key) (sym at)
                ∙ e)))
        | no ne ↦
            let same = elsewhere d carried_key l (λ s. ne s.0) in
            let e0 : (entry_for m d carried_key).key ≡ carried_key = sym (ap key_of same) ∙ e in
            ap value_of same
            ∙ value-other_part m h d carried_key ok part l ne (ap key_of carried_at)
                (λ z. live (sym (ap value_of carried_at) ∙ z)) e0
      ]

      pub before_carried : (d : ℕ) → d < suc h → (entry_for m' d carried_key).key ≢ carried_key
      before_carried d l e = elim (ℕ_discrete d h) [
        | yes at ↦ carried_key_other (
            sym (
              sym (ap key_of carried_gone)
              ∙ ap (λ x. (entry_for m' x carried_key).key) (sym at)
              ∙ e))
        | no ne ↦
            let l' : d < h = omega (arith, l, ne) in
            let same = elsewhere d carried_key (omega (arith, l', part)) (λ s. ne s.0) in
            ok.first h d carried_key l' part (ap key_of carried_at)
              (λ z. live (sym (ap value_of carried_at) ∙ z)) (sym (ap key_of same) ∙ e)
      ]

      pub get-carried : get m carried_key ≡ (entry_for m h key).value
      get-carried =
          get-live m h carried_key ok part (ap key_of carried_at)
            (λ z. live (sym (ap value_of carried_at) ∙ z))
          ∙ ap value_of carried_at
