-- ===== src/HashFunction/Bounds.antt =====
-- The index that a hash is, in a table of more than one bucket.
use native.Mathlib.Nat.{pow-suc, div-lt_iff_lt-mul, add-zero}
use tellstore.Prelude.{
  ℕ, zero, suc, ◌+◌, ◌-◌, ◌*◌, ◌/◌, ◌%◌, ◌^◌, ◌≤◌, ◌<◌, ◌≡◌, none, some, arith, ◌==◌, sym, inl, inr,
  Bool-cases, Option-cases, ap, ◌∙◌,
}
use tellstore.HashFunction.{HashFunction, log2_of, make, hash}

pow-add : (a b : ℕ) → 2 ^ (a + b) ≡ 2 ^ a * 2 ^ b
pow-add a zero = rw (add-zero) (omega arith)
pow-add a (suc b) =
    let e : a + suc b ≡ suc (a + b) = omega arith in
    rw (e, pow-suc, pow-suc) (omega (arith, ap (λ (t : ℕ). t * 2) (pow-add a b)))

-- The loop counts the halvings: the result is the logarithm, rounded down.
log2_of_bounds :
    (f x tmp m : ℕ)
    → log2_of f x tmp ≡ some m
    → (d : ℕ) × (m ≡ tmp + d) × (2 ^ d ≤ x) × (x < 2 ^ suc d) × (d < f)
unfolding log2_of
log2_of_bounds zero x tmp m h = cc
log2_of_bounds (suc f) x tmp m h = elim (Bool-cases (x == 1)) [
  | inl e ↦ (0, ground arith, ground arith, ground arith, omega arith)
  | inr e ↦
      let (d, eq, le, above, lt) = log2_of_bounds f (x / 2) (tmp + 1) m (ground arith) in
      (suc d, omega arith, rw pow-suc (omega arith), rw pow-suc (omega (arith, above)), omega arith)
]

log2-pos : (d x : ℕ) → 1 < x → x < 2 ^ suc d → 0 < d
log2-pos zero x h above = omega arith
log2-pos (suc d) x h above = omega arith

pow-pos : (n : ℕ) → 0 < 2 ^ n
pow-pos zero = omega arith
pow-pos (suc n) = rw pow-suc (omega (arith, pow-pos n))

hash-lt-pow : (h : HashFunction) (m k : ℕ) → 0 < m → m < 64 → h.w_m ≡ 64 - m → hash h k < 2 ^ m
unfolding hash
hash-lt-pow h m k pos lt e =
    let w : m + (64 - m) ≡ 64 = omega arith in
    let count : h.w_m % 64 ≡ 64 - m = omega arith in
    let q : 2 ^ m * 2 ^ (64 - m) ≡ 2 ^ 64 = sym (pow-add m (64 - m)) ∙ ap (λ (t : ℕ). 2 ^ t) w in
    rw count ((div-lt_iff_lt-mul (pow-pos (64 - m))).1 (rw q (omega arith)))

-- Every positive number below 2^f is halved down to one within f rounds.
log2_of_total : (f x tmp : ℕ) → 0 < x → x < 2 ^ f → (m : ℕ) × (log2_of f x tmp ≡ some m)
unfolding log2_of
log2_of_total zero x tmp pos lt = absurd (omega arith)
log2_of_total (suc f) x tmp pos lt = elim (Bool-cases (x == 1)) [
  | inl e ↦ (tmp, rw e)
  | inr e ↦
      let below : x < 2 ^ f * 2 = rw (← pow-suc) lt in
      rw e (log2_of_total f (x / 2) (tmp + 1) (ground arith) (omega arith))
]

make_w :
    (salt size m : ℕ) (h : HashFunction)
    → log2_of 64 size 0 ≡ some m
    → make salt size ≡ some h
    → h.w_m ≡ 64 - m
unfolding make
make_w salt size m h s e = ground arith

make_fails : (salt size : ℕ) → log2_of 64 size 0 ≡ none → make salt size ≡ none
unfolding make
make_fails salt size s = rw (s, make)

make-some :
    (salt size m : ℕ) → log2_of 64 size 0 ≡ some m → (h : HashFunction) × (make salt size ≡ some h)
unfolding make
make-some salt size m s = (record { salt = salt; w_m = 64 - m }, rw (s, make))

pub make_total :
    (salt size : ℕ) → 0 < size → size < 2 ^ 64 → (h : HashFunction) × (make salt size ≡ some h)
make_total salt size pos lt = let (m, s) = log2_of_total 64 size 0 pos lt in make-some salt size m s

-- Every hash of a function that was made for a table size above one is an index below that size,
-- whether or not the size is a power of two.
pub hash-lt_size :
    (salt size k : ℕ) (h : HashFunction) → 1 < size → make salt size ≡ some h → hash h k < size
hash-lt_size salt size k h above e = elim (Option-cases (log2_of 64 size 0)) [
  | inl n ↦ cc (make_fails salt size n)
  | inr (m, s) ↦
      let (d, eq, le, over, lt) = log2_of_bounds 64 size 0 m s in
      let pos : 0 < d = log2-pos d size above over in
      let eq' : m ≡ d = omega arith in
      let below : hash h k < 2 ^ d =
        hash-lt-pow h d k pos lt (rw (← eq') (make_w salt size m h s e)) in
      omega arith
]
