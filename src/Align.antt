-- ===== src/Align.antt =====
-- `crossbow::align`, which the log and the record layout call: a parameter with its documented
-- behaviour, the smallest multiple of the alignment that is not below the value.
pub mod Rounding
use tellstore.Prelude.{ℕ, ◌+◌, ◌%◌, ◌≤◌, ◌<◌, ◌≡◌}

pub record Aligner : Type 0 where
  pub align : ℕ → ℕ → ℕ
  pub align-ge : (x a : ℕ) → 0 < a → x ≤ align x a
  pub align-lt : (x a : ℕ) → 0 < a → align x a < x + a
  pub align-mod : (x a : ℕ) → 0 < a → align x a % a ≡ 0
