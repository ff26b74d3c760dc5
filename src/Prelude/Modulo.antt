-- ===== src/Prelude/Modulo.antt =====
-- Indices that go round an array.
use Prim.Native.Nat.{ℕ, ◌+◌, ◌-◌, ◌*◌, ◌/◌, ◌%◌, ◌<◌}
use mathlib.Core.Path.{◌≡◌, ◌∙◌}
use native.Mathlib.Nat.{div-add-mod, mod-lt, add-mod-mod, mul-add-mod_self_left, mod-eq_of_lt}
use native.Mathlib.Omega.{arith}

-- Two steps round an array that are at most its size apart end at different places.
add-mod_ne : (c p d e : ℕ) → e < d → d < c → (p + d) % c ≡ (p + e) % c → ⊥
add-mod_ne c p d e lt le h = grind (arith, div-add-mod (p + d) c, div-add-mod (p + e) c)

pub add-mod_injective : (c p d e : ℕ) → d < c → e < c → (p + d) % c ≡ (p + e) % c → d ≡ e
add-mod_injective c p d e ld le h = ground (arith, add-mod_ne c p d e, add-mod_ne c p e d)

-- Every place of the array is reached within one round.
pub add-mod_surjective : (c p i : ℕ) → i < c → (d : ℕ) × (d < c) × ((p + d) % c ≡ i)
add-mod_surjective c p i h =
    let x = i + c - p % c in
    let e : p + x ≡ c * (p / c + 1) + i = grind (arith, div-add-mod p c, mod-lt) in
    (
      x % c,
      mod-lt x (omega arith),
      add-mod-mod p x c ∙ rw e (mul-add-mod_self_left c (p / c + 1) i ∙ mod-eq_of_lt h),
    )
