-- ===== src/Record/Memory.antt =====
-- Reads and writes of a memory of bytes.
use native.Mathlib.Nat.{div-add-mod}
use native.Mathlib.Decide.{ℕ_discrete}
use tellstore.Prelude.{
  ℕ, zero, suc, ◌+◌, ◌/◌, ◌^◌, ◌≤◌, ◌<◌, ◌≡◌, refl, sym, ap, ◌∙◌, List, [], ◌∷◌, length, arith,
  update, update_self, update_ne, ◌⊎◌, inl, inr,
}
use tellstore.Record.{
  Memory, fill_zero, copy, word_bytes, read_bytes, word_of, read_word32, write_word32,
}

-- A write changes the bytes that it writes.
pub copy_frame :
    (m : Memory) (a : ℕ) (xs : List ℕ) (b : ℕ) → (b < a) ⊎ (a + length xs ≤ b) → copy m a xs b ≡ m b
unfolding copy
copy_frame m a [] b h = refl
copy_frame m a (x ∷ xs) b (inl h) =
    copy_frame (update m a x) (a + 1) xs b (inl (omega (arith, h)))
    ∙ update_ne m a b x (omega (arith, h))
copy_frame m a (x ∷ xs) b (inr h) =
    copy_frame (update m a x) (a + 1) xs b (inr (omega (arith, h)))
    ∙ update_ne m a b x (omega (arith, h))

pub fill_zero_frame : (m : Memory) (a n b : ℕ) → (b < a) ⊎ (a + n ≤ b) → fill_zero m a n b ≡ m b
unfolding fill_zero
fill_zero_frame m a zero b h = refl
fill_zero_frame m a (suc n) b (inl h) =
    fill_zero_frame (update m a 0) (a + 1) n b (inl (omega (arith, h)))
    ∙ update_ne m a b 0 (omega (arith, h))
fill_zero_frame m a (suc n) b (inr h) =
    fill_zero_frame (update m a 0) (a + 1) n b (inr (omega (arith, h)))
    ∙ update_ne m a b 0 (omega (arith, h))

pub fill_zero_inside : (m : Memory) (a n b : ℕ) → a ≤ b → b < a + n → fill_zero m a n b ≡ 0
unfolding fill_zero
fill_zero_inside m a zero b h h' = absurd (omega (arith, h, h'))
fill_zero_inside m a (suc n) b h h' = elim (ℕ_discrete b a) [
  | yes e ↦
      rw e (fill_zero_frame (update m a 0) (a + 1) n a (inl (omega arith)) ∙ update_self m a 0)
  | no ne ↦ fill_zero_inside (update m a 0) (a + 1) n b (omega (arith, h, ne)) (omega (arith, h'))
]

-- Two memories agree on some bytes.
abbrev pub Agree : Memory → Memory → ℕ → ℕ → Type 0
Agree m m' a n = (b : ℕ) → a ≤ b → b < a + n → m b ≡ m' b

pub read_bytes-Agree :
    (m m' : Memory) (a n : ℕ) → Agree m m' a n → read_bytes m a n ≡ read_bytes m' a n
unfolding read_bytes
read_bytes-Agree m m' a zero h = refl
read_bytes-Agree m m' a (suc n) h =
    rw
      (
        h a (omega arith) (omega arith),
        read_bytes-Agree m m' (a + 1) n (λ b l u. h b (omega (arith, l)) (omega (arith, u))),
      )
      refl

pub read_word32-Agree :
    (m m' : Memory) (a : ℕ) → Agree m m' a 4 → read_word32 m a ≡ read_word32 m' a
unfolding read_word32
read_word32-Agree m m' a h = ap word_of (read_bytes-Agree m m' a 4 h)

pub read_bytes-copy :
    (m : Memory) (a : ℕ) (xs : List ℕ) → read_bytes (copy m a xs) a (length xs) ≡ xs
unfolding read_bytes copy
read_bytes-copy m a [] = refl
read_bytes-copy m a (x ∷ xs) =
    rw
      (
        copy_frame (update m a x) (a + 1) xs a (inl (omega arith)),
        update_self m a x,
        read_bytes-copy (update m a x) (a + 1) xs,
      )
      refl

pub length-word_bytes : (k n : ℕ) → length (word_bytes k n) ≡ k
unfolding word_bytes
length-word_bytes zero n = refl
length-word_bytes (suc k) n = ap suc (length-word_bytes k (n / 256))

pub read_bytes-word_bytes :
    (m : Memory) (a k n : ℕ) → read_bytes (copy m a (word_bytes k n)) a k ≡ word_bytes k n
read_bytes-word_bytes m a k n =
    ap (read_bytes (copy m a (word_bytes k n)) a) (sym (length-word_bytes k n))
    ∙ read_bytes-copy m a (word_bytes k n)

-- The words of 16, 32 and 64 bits.
pub word_of-word_bytes2 : (n : ℕ) → n < 2 ^ 16 → word_of (word_bytes 2 n) ≡ n
unfolding word_of word_bytes
word_of-word_bytes2 n h = omega (arith, div-add-mod n 256, div-add-mod (n / 256) 256)

pub word_of-word_bytes4 : (n : ℕ) → n < 2 ^ 32 → word_of (word_bytes 4 n) ≡ n
unfolding word_of word_bytes
word_of-word_bytes4 n h = omega (arith, h)

pub word_of-word_bytes8 : (n : ℕ) → n < 2 ^ 64 → word_of (word_bytes 8 n) ≡ n
unfolding word_of word_bytes
word_of-word_bytes8 n h = omega (arith, h)

pub read_word32-write_word32 :
    (m : Memory) (a n : ℕ) → n < 2 ^ 32 → read_word32 (write_word32 m a n) a ≡ n
unfolding read_word32 write_word32 word_of word_bytes
read_word32-write_word32 m a n h =
    ap word_of (read_bytes-word_bytes m a 4 n) ∙ word_of-word_bytes4 n h

pub write_word32_frame :
    (m : Memory) (a n b : ℕ) → (b < a) ⊎ (a + 4 ≤ b) → write_word32 m a n b ≡ m b
unfolding write_word32
write_word32_frame m a n b h = copy_frame m a (word_bytes 4 n) b (rw (length-word_bytes 4 n) h)

pub word_of-zeros :
    (m : Memory) (a n : ℕ)
    → ((b : ℕ) → a ≤ b → b < a + n → m b ≡ 0)
    → word_of (read_bytes m a n) ≡ 0
unfolding word_of read_bytes
word_of-zeros m a zero h = refl
word_of-zeros m a (suc n) h =
    rw
      (
        h a (omega arith) (omega arith),
        word_of-zeros m (a + 1) n (λ b l u. h b (omega (arith, l)) (omega (arith, u))),
      )
      refl
