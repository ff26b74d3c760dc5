-- ===== src/Record/Steps.antt =====
-- What `Record::create` writes for one field.
use native.Mathlib.Nat.{mod-eq_of_lt}
use tellstore.Prelude.{
  ℕ, ◌+◌, ◌^◌, ◌≤◌, ◌<◌, ◌≡◌, ◌≢◌, refl, ap, ◌∙◌, true, false, List, Option, none, some, length,
  arith, update, update_self, update_ne, ◌⊎◌, inl, inr,
}
use tellstore.Schema.{Text, is_fixed_sized, Field}
use tellstore.Record.{
  Value, Memory, copy, fill_zero, word_bytes, word_of, read_bytes, read_word32, write_word32,
  filled, fill_field, fixed_width,
}
use tellstore.Record.Memory.{
  copy_frame, fill_zero_frame, fill_zero_inside, write_word32_frame, word_of-zeros,
  length-word_bytes, read_bytes-word_bytes, read_bytes-copy, read_word32-write_word32,
  read_word32-Agree,
}
use tellstore.Record.Layout.{null_width, meta_of}
use tellstore.Record.Values.{
  IsGiven, missing, given, number_of, text_of, null_bit, write_value-number, write_value-string,
}

-- A byte that the fields with the offsets from `lo` to `hi`, the null bytes from `nlo` to `nhi` and a
-- heap from `heap` on leave alone.
pub data Untouched (lo hi nlo nhi heap b : ℕ) : Type 0 where
  below : b < nlo → Untouched lo hi nlo nhi heap b
  between : nhi ≤ b → b < lo → Untouched lo hi nlo nhi heap b
  above : hi ≤ b → b < heap → Untouched lo hi nlo nhi heap b

abbrev pub Frame : Memory → Memory → ℕ → ℕ → ℕ → ℕ → ℕ → Type 0
Frame m m' lo hi nlo nhi heap = (b : ℕ) → Untouched lo hi nlo nhi heap b → m' b ≡ m b

pub outside :
    (lo hi nlo nhi heap b : ℕ)
    → nlo ≤ nhi
    → nhi ≤ lo
    → lo ≤ hi
    → Untouched lo hi nlo nhi heap b
    → (b < lo) ⊎ (hi ≤ b)
outside lo hi nlo nhi heap b h h' h'' (below u) = inl (omega (arith, h, h', u))
outside lo hi nlo nhi heap b h h' h'' (between u u') = inl u'
outside lo hi nlo nhi heap b h h' h'' (above u u') = inr u

off_index :
    (lo hi nlo nhi heap b : ℕ)
    → nlo < nhi
    → nhi ≤ lo
    → lo ≤ hi
    → Untouched lo hi nlo nhi heap b
    → b ≢ nlo
off_index lo hi nlo nhi heap b h h' h'' (below u) = omega (arith, u)
off_index lo hi nlo nhi heap b h h' h'' (between u u') = omega (arith, u, h)
off_index lo hi nlo nhi heap b h h' h'' (above u u') = omega (arith, u, h, h', h'')

within_heap :
    (lo hi nlo nhi heap b : ℕ)
    → nlo ≤ nhi
    → nhi ≤ lo
    → lo ≤ hi
    → hi ≤ heap
    → Untouched lo hi nlo nhi heap b
    → b < heap
within_heap lo hi nlo nhi heap b h h' h'' k (below u) = omega (arith, u, h, h', h'', k)
within_heap lo hi nlo nhi heap b h h' h'' k (between u u') = omega (arith, u', h'', k)
within_heap lo hi nlo nhi heap b h h' h'' k (above u u') = u'

-- What all fields leave alone is left alone by the first of them and by the others.
pub Untouched_first :
    (lo w hi nlo k nhi heap b : ℕ)
    → lo + w ≤ hi
    → nlo + k ≤ nhi
    → Untouched lo hi nlo nhi heap b
    → Untouched lo (lo + w) nlo (nlo + k) heap b
Untouched_first lo w hi nlo k nhi heap b h h' (below u) = below u
Untouched_first lo w hi nlo k nhi heap b h h' (between u u') = between (omega (arith, h', u)) u'
Untouched_first lo w hi nlo k nhi heap b h h' (above u u') = above (omega (arith, h, u)) u'

pub Untouched_rest :
    (lo w hi nlo k nhi heap heap' b : ℕ)
    → heap ≤ heap'
    → Untouched lo hi nlo nhi heap b
    → Untouched (lo + w) hi (nlo + k) nhi heap' b
Untouched_rest lo w hi nlo k nhi heap heap' b h (below u) = below (omega (arith, u))
Untouched_rest lo w hi nlo k nhi heap heap' b h (between u u') = between u (omega (arith, u'))
Untouched_rest lo w hi nlo k nhi heap heap' b h (above u u') = above u (omega (arith, u', h))

-- A nullable field has a null byte of its own.
pub null_width-nullable : (f : Field) → f.not_null ≡ false → null_width f ≡ 1
null_width-nullable f e = rw e refl

module _ (f : Field) (lo nlo heap : ℕ) (apart : nlo + null_width f ≤ lo) where
  -- A number, or zeros in its place.
  pub fill_field-fixed :
      (o : Option Value) (m : Memory)
      → is_fixed_sized f.type ≡ true
      → IsGiven f o
      → (f.not_null ≡ false → m nlo ≡ 0)
      → (m' : Memory) × (fill_field o (meta_of f lo nlo) m heap ≡ filled m' heap)
        × (f.not_null ≡ false → m' nlo ≡ null_bit o)
        × (word_of (read_bytes m' lo (fixed_width f)) ≡ number_of o)
        × Frame m m' lo (lo + fixed_width f) nlo (nlo + null_width f) heap
  unfolding fill_field
  fill_field-fixed (some v) m fixed (given fits) cleared =
      let number = write_value-number f.type v lo m heap fixed fits in
      let bytes : List ℕ = word_bytes (fixed_width f) (number_of (some v)) in
      let size : length bytes ≡ fixed_width f =
        length-word_bytes (fixed_width f) (number_of (some v)) in
      (
        copy m lo bytes,
        number.0,
        λ e. copy_frame m lo bytes nlo (inl (omega (arith, null_width-nullable f e))) ∙ cleared e,
        ap word_of (read_bytes-word_bytes m lo (fixed_width f) (number_of (some v))) ∙ number.1,
        λ b u. copy_frame m lo bytes b (
            rw size (
              outside lo (lo + fixed_width f) nlo (nlo + null_width f) heap b (omega arith) apart
                (omega arith) u)),
      )
  fill_field-fixed none m fixed (missing nullable) cleared =
      let m' : Memory = update m nlo 1 in
      (
        fill_zero m' lo (fixed_width f),
        rw (nullable, fixed) refl,
        λ e.
            fill_zero_frame m' lo (fixed_width f) nlo (inl (omega (arith, null_width-nullable f e)))
            ∙ update_self m nlo 1,
        word_of-zeros (fill_zero m' lo (fixed_width f)) lo (fixed_width f)
            (λ b l u. fill_zero_inside m' lo (fixed_width f) b l u),
        λ b u.
            fill_zero_frame m' lo (fixed_width f) b (
              outside lo (lo + fixed_width f) nlo (nlo + null_width f) heap b (omega arith) apart
                (omega arith) u)
            ∙ update_ne m nlo b 1 (
                off_index lo (lo + fixed_width f) nlo (nlo + null_width f) heap b
                  (omega (arith, null_width-nullable f nullable)) apart (omega arith) u),
      )

  -- The offset of the heap, and a string there.
  pub fill_field-variable :
      (o : Option Value) (m : Memory)
      → is_fixed_sized f.type ≡ false
      → IsGiven f o
      → (f.not_null ≡ false → m nlo ≡ 0)
      → lo + 4 ≤ heap
      → heap + length (text_of o) < 2 ^ 32
      → (m' : Memory) × (fill_field o (meta_of f lo nlo) m heap
          ≡ filled m' (heap + length (text_of o)))
        × (f.not_null ≡ false → m' nlo ≡ null_bit o)
        × (read_word32 m' lo ≡ heap)
        × (read_bytes m' heap (length (text_of o)) ≡ text_of o)
        × Frame m m' lo (lo + 4) nlo (nlo + null_width f) heap
  unfolding fill_field
  fill_field-variable (some v) m variable (given fits) cleared room small =
      let d : Text = text_of (some v) in
      let m1 : Memory = write_word32 m lo heap in
      (
        copy m1 heap d,
        write_value-string f.type v lo m heap variable fits
            ∙ ap (filled (copy m1 heap d)) (mod-eq_of_lt small),
        λ e.
            copy_frame m1 heap d nlo (inl (omega (arith, null_width-nullable f e)))
            ∙ write_word32_frame m lo heap nlo (inl (omega (arith, null_width-nullable f e)))
            ∙ cleared e,
        read_word32-Agree (copy m1 heap d) m1 lo
              (λ b l u. copy_frame m1 heap d b (inl (omega (arith, u, room))))
            ∙ read_word32-write_word32 m lo heap (omega (arith, small)),
        read_bytes-copy m1 heap d,
        λ b u.
            copy_frame m1 heap d b (
              inl (
                within_heap lo (lo + 4) nlo (nlo + null_width f) heap b (omega arith) apart
                  (omega arith) room u))
            ∙ write_word32_frame m lo heap b (
                outside lo (lo + 4) nlo (nlo + null_width f) heap b (omega arith) apart
                  (omega arith) u),
      )
  fill_field-variable none m variable (missing nullable) cleared room small =
      let m1 : Memory = update m nlo 1 in
      let same : heap + 0 ≡ heap = omega arith in
      (
        write_word32 m1 lo heap,
        rw (nullable, variable, same) refl,
        λ e.
            write_word32_frame m1 lo heap nlo (inl (omega (arith, null_width-nullable f e)))
            ∙ update_self m nlo 1,
        read_word32-write_word32 m1 lo heap (omega (arith, small)),
        unfold read_bytes in refl,
        λ b u.
            write_word32_frame m1 lo heap b (
              outside lo (lo + 4) nlo (nlo + null_width f) heap b (omega arith) apart (omega arith)
                u)
            ∙ update_ne m nlo b 1 (
                off_index lo (lo + 4) nlo (nlo + null_width f) heap b
                  (omega (arith, null_width-nullable f nullable)) apart (omega arith) u),
      )
