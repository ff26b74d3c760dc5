-- ===== src/Cuckoo/Assigning.antt =====
-- A new value for a key that has one.
use native.Mathlib.Decide.{ℕ_discrete}
use tellstore.Prelude.{ℕ, ◌<◌, ◌≡◌, ◌≢◌, refl, sym, ap, ◌∙◌, inl, inr, arith}
use tellstore.Cuckoo.{Modifier, hasher, entry_for, get}
use tellstore.Cuckoo.Lookups.{IsTable, get-live, get-IsAbsent, find_part-cases, value-other_part}
use tellstore.Cuckoo.Displacing.{pair, key_of, value_of, entry-cases}

module _ (m m' : Modifier) (h key value : ℕ)
    (same_hash : (d other : ℕ) → hasher m' d other ≡ hasher m d other)
    (here : (other : ℕ)
      → hasher m h other ≡ hasher m h key
      → entry_for m' h other ≡ record { key = key; value = value })
    (elsewhere : (d other : ℕ)
      → d < 3
      → ((d ≡ h) × (hasher m d other ≡ hasher m h key) → ⊥)
      → entry_for m' d other ≡ entry_for m d other)
    (ok : IsTable m) (part : h < 3) (own : (entry_for m h key).key ≡ key)
    (live : (entry_for m h key).value ≢ 0) where
  pub IsTable-assigned : IsTable m'
  IsTable-assigned = record {
    home = λ d other l some_value.
        elim (entry-cases m m' h key value same_hash here elsewhere d other l) [
          | inl (at, new, old, index) ↦
              same_hash d (entry_for m' d other).key
              ∙ ap (λ x. hasher m d (key_of x)) new
              ∙ ap (λ x. hasher m x key) at
              ∙ sym index
              ∙ sym (same_hash d other)
          | inr same ↦
              same_hash d (entry_for m' d other).key
              ∙ ap (λ x. hasher m d (key_of x)) same
              ∙ ok.home d other l (λ z. some_value (ap value_of same ∙ z))
              ∙ sym (same_hash d other)
        ];
    first = λ d d' other l' l e some_value s.
        elim (entry-cases m m' h key value same_hash here elsewhere d other l) [
          | inl (at, new, old, index) ↦
              let k : key ≡ other = sym (ap key_of new) ∙ e in
              elim (entry-cases m m' h key value same_hash here elsewhere d' other
                (omega (arith, l', l))) [
                  | inl (at', new', old', index') ↦ omega (arith, at, at', l')
                  | inr same' ↦
                      ok.first h d' key (omega (arith, l', at)) part own live
                        (ap (λ x. (entry_for m d' x).key) k ∙ sym (ap key_of same') ∙ s ∙ sym k)
                ]
          | inr same ↦
              let e0 : (entry_for m d other).key ≡ other = sym (ap key_of same) ∙ e in
              let live0 : (entry_for m d other).value ≢ 0 =
                λ z. some_value (ap value_of same ∙ z) in
              elim (entry-cases m m' h key value same_hash here elsewhere d' other
                (omega (arith, l', l))) [
                  | inl (at', new', old', index') ↦
                      ok.first d d' other l' l e0 live0
                        (ap key_of old' ∙ own ∙ sym (ap key_of new') ∙ s)
                  | inr same' ↦ ok.first d d' other l' l e0 live0 (sym (ap key_of same') ∙ s)
                ]
        ];
  }

  pub get-assigned_other : (other : ℕ) → other ≢ key → get m' other ≡ get m other
  get-assigned_other other ne = elim (find_part-cases m other) [
    | inl (d, found, l, e, some_value) ↦
        elim (entry-cases m m' h key value same_hash here elsewhere d other l) [
          | inl (at, new, old, index) ↦ absurd (ne (sym e ∙ ap key_of old ∙ own))
          | inr same ↦
              get-live m' d other IsTable-assigned l (ap key_of same ∙ e)
                (λ z. some_value (sym (ap value_of same) ∙ z))
              ∙ ap value_of same
              ∙ sym (get-live m d other ok l e some_value)
        ]
    | inr (found, none_live) ↦
        get-IsAbsent m' other (λ d l e.
          elim (entry-cases m m' h key value same_hash here elsewhere d other l) [
            | inl (at, new, old, index) ↦ absurd (ne (sym e ∙ ap key_of new))
            | inr same ↦ ap value_of same ∙ none_live d l (sym (ap key_of same) ∙ e)
          ])
        ∙ sym (get-IsAbsent m other none_live)
  ]

  pub get-assigned : get m' key ≡ value
  get-assigned =
      let new : entry_for m' h key ≡ pair m m' h key value same_hash here elsewhere =
        here key refl in
      elim (ℕ_discrete value 0) [
        | no some_value ↦
            get-live m' h key IsTable-assigned part (ap key_of new)
              (λ z. some_value (sym (ap value_of new) ∙ z))
            ∙ ap value_of new
        | yes gone ↦
            get-IsAbsent m' key (λ d l e. elim (ℕ_discrete d h) [
              | yes at ↦ ap (λ x. (entry_for m' x key).value) at ∙ ap value_of new ∙ gone
              | no ne ↦
                  let same = elsewhere d key l (λ s. ne s.0) in
                  ap value_of same
                  ∙ value-other_part m h d key ok part l ne own live (sym (ap key_of same) ∙ e)
            ])
            ∙ sym gone
      ]
