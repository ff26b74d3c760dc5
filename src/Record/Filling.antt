-- ===== src/Record/Filling.antt =====
-- What the loop of `Record::create` leaves in memory for the fields of a fixed and of a variable size.
use tellstore.Prelude.{
  ℕ, ◌+◌, ◌^◌, ◌≤◌, ◌<◌, ◌≡◌, refl, sym, ap, ◌∙◌, true, false, List, [], ◌∷◌, length, arith,
}
use tellstore.Schema.{Text, Field}
use tellstore.Schema.Fields.{AllSized, nullable}
use tellstore.Record.{
  FieldMetaData, GenericTuple, Memory, word_of, read_bytes, read_word32, write_word32, Filled,
  filled, refused, undefined, fill_field, fill_fields, fixed_width, offset_width,
}
use tellstore.Record.Memory.{
  write_word32_frame, read_word32-write_word32, read_word32-Agree, read_bytes-Agree,
}
use tellstore.Record.Layout.{total, null_width, meta_of, placed}
use tellstore.Record.Values.{AllGiven, number_of, text_of, null_bit}
use tellstore.Record.Steps.{
  Untouched, below, between, above, Frame, outside, Untouched_first, Untouched_rest,
  null_width-nullable, fill_field-fixed, fill_field-variable,
}

-- The offset behind the last field is set to the end of the heap.
abbrev pub finish : ℕ → Filled → Filled
finish hi (filled m heap) = filled (write_word32 m hi heap) heap
finish hi (refused m) = refused m
finish hi undefined = undefined

pub add_assoc : (a b c : ℕ) → a + b + c ≡ a + (b + c)
add_assoc a b c = omega arith

-- The rest of the loop, from what the first field leaves.
abbrev pub continue : GenericTuple → List FieldMetaData → Filled → Filled
continue t rest (filled m heap) = fill_fields t rest m heap
continue t rest (refused m) = refused m
continue t rest undefined = undefined

fill_fields-step :
    (t : GenericTuple) (f : FieldMetaData) (rest : List FieldMetaData) (m : Memory) (heap : ℕ)
    {m' : Memory} {heap' : ℕ}
    → fill_field (t f.field.name) f m heap ≡ filled m' heap'
    → fill_fields t (f ∷ rest) m heap ≡ fill_fields t rest m' heap'
unfolding fill_fields
fill_fields-step t f rest m heap run = ap (continue t rest) run

module _ (t : GenericTuple) where
  -- Every field holds its number, and its null byte says whether it has one.
  abbrev pub StoredFixed : List Field → ℕ → ℕ → Memory → Type 0
  StoredFixed [] lo nlo m = Unit
  StoredFixed (f ∷ fs) lo nlo m =
      (f.not_null ≡ false → m nlo ≡ null_bit (t f.name))
      × (word_of (read_bytes m lo (fixed_width f)) ≡ number_of (t f.name))
      × StoredFixed fs (lo + fixed_width f) (nlo + null_width f) m

  pub fill_fields-fixed :
      (fs : List Field) (m : Memory) (lo nlo heap : ℕ)
      → AllSized true fs
      → AllGiven t fs
      → nlo + nullable fs ≤ lo
      → lo + total fixed_width fs ≤ heap
      → ((b : ℕ) → nlo ≤ b → b < nlo + nullable fs → m b ≡ 0)
      → (m' : Memory) × (fill_fields t (placed fixed_width fs lo nlo) m heap ≡ filled m' heap)
        × StoredFixed fs lo nlo m'
        × Frame m m' lo (lo + total fixed_width fs) nlo (nlo + nullable fs) heap
  unfolding fill_fields placed total nullable
  fill_fields-fixed [] m lo nlo heap sized all apart room cleared = (m, refl, tt, λ b u. refl)
  fill_fields-fixed (f ∷ fs) m lo nlo heap sized all apart room cleared =
      let w : ℕ = fixed_width f in
      let n : ℕ = nlo + null_width f in
      let W : ℕ = total fixed_width fs in
      let N : ℕ = nullable fs in
      let rest_untouched : (b : ℕ)
          → Untouched lo (lo + (w + W)) nlo (nlo + (null_width f + N)) heap b
          → Untouched (lo + w) (lo + w + W) n (n + N) heap b =
        λ b u.
          rw (add_assoc lo w W, add_assoc nlo (null_width f) N)
            (Untouched_rest lo w (lo + (w + W)) nlo (null_width f) (nlo + (null_width f + N)) heap
              heap b (omega arith) u) in
      let (m1, run, bit, word, frame) =
        fill_field-fixed f lo nlo heap (omega (arith, apart)) (t f.name) m sized.0 all.0
          (λ e. cleared nlo (omega arith) (omega (arith, null_width-nullable f e))) in
      let (m', run', stored, frame') =
        fill_fields-fixed fs m1 (lo + w) n heap sized.1 all.1 (omega (arith, apart))
          (omega (arith, room))
          (λ b l u.
            frame b (between l (omega (arith, u, apart)))
            ∙ cleared b (omega (arith, l)) (omega (arith, u))) in
      (
        m',
        fill_fields-step t (meta_of f lo nlo) (placed fixed_width fs (lo + w) n) m heap run ∙ run',
        (
          λ e. frame' nlo (below (omega (arith, null_width-nullable f e))) ∙ bit e,
          ap word_of (
                read_bytes-Agree m' m1 lo w
                  (λ b l u. frame' b (between (omega (arith, l, apart)) u)))
              ∙ word,
          stored,
        ),
        λ b u.
            frame' b (rest_untouched b u)
            ∙ frame b (
                Untouched_first lo w (lo + total fixed_width (f ∷ fs)) nlo (null_width f)
                  (nlo + nullable (f ∷ fs)) heap b (omega arith) (omega arith) u),
      )

  -- The bytes of the strings.
  unfoldable pub heap_bytes : List Field → ℕ
  heap_bytes [] = 0
  heap_bytes (f ∷ fs) = length (text_of (t f.name)) + heap_bytes fs

  -- Every field holds the offset of its string, behind which the next offset is that of its end.
  abbrev pub StoredVariable : List Field → ℕ → ℕ → ℕ → Memory → Type 0
  StoredVariable [] lo nlo heap m = Unit
  StoredVariable (f ∷ fs) lo nlo heap m =
      let d = text_of (t f.name) in
      (f.not_null ≡ false → m nlo ≡ null_bit (t f.name))
      × (read_word32 m lo ≡ heap)
      × (read_word32 m (lo + 4) ≡ heap + length d)
      × (read_bytes m heap (length d) ≡ d)
      × StoredVariable fs (lo + 4) (nlo + null_width f) (heap + length d) m

  pub fill_fields-variable :
      (fs : List Field) (m : Memory) (lo nlo heap : ℕ)
      → AllSized false fs
      → AllGiven t fs
      → nlo + nullable fs ≤ lo
      → lo + total offset_width fs + 4 ≤ heap
      → heap + heap_bytes fs < 2 ^ 32
      → ((b : ℕ) → nlo ≤ b → b < nlo + nullable fs → m b ≡ 0)
      → (m' : Memory) × (finish
            (lo + total offset_width fs)
            (fill_fields t (placed offset_width fs lo nlo) m heap)
          ≡ filled m' (heap + heap_bytes fs))
        × (read_word32 m' lo ≡ heap)
        × (read_word32 m' (lo + total offset_width fs) ≡ heap + heap_bytes fs)
        × StoredVariable fs lo nlo heap m'
        × Frame m m' lo (lo + total offset_width fs + 4) nlo (nlo + nullable fs) heap
  unfolding fill_fields placed total nullable heap_bytes
  fill_fields-variable [] m lo nlo heap sized all apart room small cleared =
      let last : lo + 0 ≡ lo = omega arith in
      let same : heap + 0 ≡ heap = omega arith in
      let none_left : nlo + 0 ≡ nlo = omega arith in
      let small' : heap < 2 ^ 32 = omega (arith, small) in
      rw (last, same, none_left)
        (
          write_word32 m lo heap,
          refl,
          read_word32-write_word32 m lo heap small',
          read_word32-write_word32 m lo heap small',
          tt,
          λ b u. write_word32_frame m lo heap b (
              outside lo (lo + 4) nlo nlo heap b (omega arith) (omega (arith, apart)) (omega arith)
                u),
        )
  fill_fields-variable (f ∷ fs) m lo nlo heap sized all apart room small cleared =
      let n : ℕ = nlo + null_width f in
      let d : Text = text_of (t f.name) in
      let W : ℕ = total offset_width fs in
      let N : ℕ = nullable fs in
      let (m1, run, bit, word, bytes, frame) =
        fill_field-variable f lo nlo heap (omega (arith, apart)) (t f.name) m sized.0 all.0
          (λ e. cleared nlo (omega arith) (omega (arith, null_width-nullable f e)))
          (omega (arith, room)) (omega (arith, small)) in
      let (m', run', first, last, stored, frame') =
        fill_fields-variable fs m1 (lo + 4) n (heap + length d) sized.1 all.1 (omega (arith, apart))
          (omega (arith, room)) (omega (arith, small))
          (λ b l u.
            frame b (between l (omega (arith, u, apart)))
            ∙ cleared b (omega (arith, l)) (omega (arith, u))) in
      rw
        (
          sym (add_assoc lo 4 W),
          sym (add_assoc nlo (null_width f) N),
          sym (add_assoc heap (length d) (heap_bytes fs)),
        )
        (
          m',
          ap (finish (lo + 4 + W)) (
                fill_fields-step t (meta_of f lo nlo) (placed offset_width fs (lo + 4) n) m heap
                  run)
              ∙ run',
          read_word32-Agree m' m1 lo (λ b l u. frame' b (between (omega (arith, l, apart)) u))
              ∙ word,
          last,
          (
            λ e. frame' nlo (below (omega (arith, null_width-nullable f e))) ∙ bit e,
            read_word32-Agree m' m1 lo (λ b l u. frame' b (between (omega (arith, l, apart)) u))
                ∙ word,
            first,
            read_bytes-Agree m' m1 heap (length d)
                  (λ b l u. frame' b (above (omega (arith, l, room)) u))
                ∙ bytes,
            stored,
          ),
          λ b u.
              frame' b (
                Untouched_rest lo 4 (lo + 4 + W + 4) nlo (null_width f) (n + N) heap
                  (heap + length d) b (omega arith) u)
              ∙ frame b (
                  Untouched_first lo 4 (lo + 4 + W + 4) nlo (null_width f) (n + N) heap b
                    (omega arith) (omega arith) u),
        )
