-- ===== src/Align/Rounding.antt =====
-- Rounding up by a division has the behaviour that the code relies on.
use native.Mathlib.Nat.{div-add-mod', mod-lt, mul-mod_left}
use tellstore.Prelude.{ℕ, ◌+◌, ◌-◌, ◌*◌, ◌/◌, ◌%◌, ◌≤◌, ◌<◌, ◌≡◌, arith}
use tellstore.Align.{Aligner}

unfoldable pub round : ℕ → ℕ → ℕ
round x a = (x + (a - 1)) / a * a

pub round-ge : (x a : ℕ) → 0 < a → x ≤ round x a
unfolding round
round-ge x a h = omega (arith, div-add-mod' (x + (a - 1)) a, mod-lt (x + (a - 1)) {m = a} h)

pub round-lt : (x a : ℕ) → 0 < a → round x a < x + a
unfolding round
round-lt x a h = omega (arith, div-add-mod' (x + (a - 1)) a)

pub round-mod : (x a : ℕ) → 0 < a → round x a % a ≡ 0
unfolding round
round-mod x a h = mul-mod_left ((x + (a - 1)) / a) a

abbrev pub rounding : Aligner
rounding = record { align = round; align-ge = round-ge; align-lt = round-lt; align-mod = round-mod }
