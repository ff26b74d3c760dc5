-- ===== src/HashFunction.antt =====
-- util/functional.hpp: the multiplicative hash function that all hash tables share.
pub mod Bounds
pub mod Tests
use tellstore.Prelude.{
  ℕ, zero, suc, ◌+◌, ◌-◌, ◌*◌, ◌/◌, ◌%◌, ◌^◌, Option, none, some, ◌==◌, if◌then◌else◌,
}

-- `log2Of`. Sixty-four rounds halve every positive 64-bit number down to one; `none` is the
-- call at zero, which does not return.
pub log2_of : ℕ → ℕ → ℕ → Option ℕ
log2_of zero x tmp = none
log2_of (suc fuel) x tmp =
    let rest = log2_of fuel (x / 2) (tmp + 1) in if x == 1 then some tmp else rest

-- `cuckoo_hash_function`. The constructor draws `salt` at random until it is not zero.
pub record HashFunction : Type 0 where
  pub salt : ℕ
  pub w_m : ℕ

unfoldable pub make : ℕ → ℕ → Option HashFunction
unfolding log2_of
make salt table_size = elim (log2_of 64 table_size 0) [
  | none ↦ none
  | some m ↦ some (record { salt = salt; w_m = 64 - m })
]

-- `operator()`: the product wraps at 64 bits, and its high bits are the index. For a table of size 1
-- the shift is by 64 bits, which C++ leaves undefined; here, as on x86, the count of a shift is taken
-- modulo 64, so that the product is not shifted at all.
unfoldable pub hash : HashFunction → ℕ → ℕ
hash h k = (h.salt * k) % 2 ^ 64 / 2 ^ (h.w_m % 64)
