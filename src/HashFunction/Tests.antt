-- ===== src/HashFunction/Tests.antt =====
-- Hashing at concrete keys.
use tellstore.Prelude.{◌<◌, ◌≡◌, arith, refl, some}
use tellstore.HashFunction.{HashFunction, make, hash}
use tellstore.HashFunction.Bounds.{hash-lt_size}

-- A table of eight buckets with the salt 2^61 + 1.
abbrev pub eight : HashFunction
eight = record { salt = 0x2000_0000_0000_0001; w_m = 61 }

pub make-eight : make 0x2000_0000_0000_0001 8 ≡ some eight
unfolding make
make-eight = refl

-- The product wraps at 64 bits.
hash_wraps : hash eight 13 ≡ 5
unfolding hash
hash_wraps = refl

hash-lt_size_example : hash eight 13 < 8
hash-lt_size_example = hash-lt_size 0x2000_0000_0000_0001 8 13 eight (omega arith) make-eight

-- In a table of size 1 the product itself is the result.
hash_of_size_1_test : hash (record { salt = 3; w_m = 64 }) 5 ≡ 15
unfolding hash
hash_of_size_1_test = refl
