-- ===== src/Prelude/Lists.antt =====
-- Lists with native indices, and arrays of a fixed size as functions of the index.
use Prim.Native.Nat.{ℕ, zero, suc, ◌+◌}
use mathlib.Core.Path.{◌≡◌, fun_ext}
use mathlib.Core.Logic.{◌≢◌, ◌⊎◌, inl, inr}
use native.Mathlib.Decide.{ℕ_discrete}
use mathlib.Core.Option.{Option, none, some}
use mathlib.Core.List.{List, [], ◌∷◌, ◌++◌}
use native.Mathlib.Omega.{arith}
use tellstore.Prelude.Tests.{◌==◌, if◌then◌else◌, ==_refl, ==_ne}

module _ {ℓ} {A : Type ℓ} where
  abbrev pub length : List A → ℕ
  length [] = 0
  length (x ∷ xs) = suc (length xs)

  abbrev pub get_elem? : List A → ℕ → Option A
  get_elem? [] i = none
  get_elem? (x ∷ xs) zero = some x
  get_elem? (x ∷ xs) (suc i) = get_elem? xs i

  pub length-append : (xs ys : List A) → length (xs ++ ys) ≡ length xs + length ys
  length-append [] ys = omega arith
  length-append (x ∷ xs) ys = omega (arith, length-append xs ys)

  -- `a[i] = v` on an array that is a function of its index.
  abbrev pub update : (ℕ → A) → ℕ → A → ℕ → A
  update a i v j = if j == i then v else a j

  pub update_self : (a : ℕ → A) (i : ℕ) (v : A) → update a i v i ≡ v
  update_self a i v = ground (arith, ==_refl i)

  pub update_ne : (a : ℕ → A) (i j : ℕ) (v : A) → j ≢ i → update a i v j ≡ a j
  update_ne a i j v h = ground (arith, ==_ne j i h)

  pub update-cases :
      (a : ℕ → A) (i : ℕ) (v : A) (j : ℕ)
      → ((j ≡ i) × (update a i v j ≡ v)) ⊎ ((j ≢ i) × (update a i v j ≡ a j))
  update-cases a i v j = elim (ℕ_discrete j i) [
    | yes e ↦ inl (e, ground (arith, ==_refl i))
    | no ne ↦ inr (ne, update_ne a i j v ne)
  ]

  pub update_twice : (a : ℕ → A) (i : ℕ) (v w : A) → update (update a i v) i w ≡ update a i w
  update_twice a i v w = fun_ext (λ j. ground arith)
