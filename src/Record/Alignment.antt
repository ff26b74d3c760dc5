-- ===== src/Record/Alignment.antt =====
-- The offsets of the constructor of `Record` are multiples of the alignments.
use mathlib.Core.Path.{subst}
use mathlib.Core.Option.{none-ne-some, some-injective}
use tellstore.Prelude.{
  ℕ, zero, suc, ◌+◌, ◌%◌, ◌≤◌, ◌<◌, ◌≡◌, true, false, List, [], ◌∷◌, some, if◌then◌else◌, arith,
  get_elem?,
}
use tellstore.Schema.{
  FieldType, no_type, null_type, small_int, int, big_int, float, double, text, blob, unknown_type,
  is_fixed_sized, static_size, align_of, Field,
}
use tellstore.Schema.Fields.{AllAtMost, AreDescending, AllSized}
use tellstore.Record.{FieldMetaData, fixed_width, offset_width}
use tellstore.Record.Layout.{null_width, placed}

-- A position for fields with at most some alignment.
abbrev pub Divides : ℕ → ℕ → Type 0
Divides bound p = (8 ≤ bound → p % 8 ≡ 0) × (4 ≤ bound → p % 4 ≡ 0) × (2 ≤ bound → p % 2 ≡ 0)

-- The position of a field is aligned, and so is the one behind it for a smaller alignment.
Divides-step :
    (type : FieldType) (bound p : ℕ)
    → is_fixed_sized type ≡ true
    → align_of type ≤ bound
    → Divides bound p
    → (0 < align_of type → p % align_of type ≡ 0) × Divides (align_of type) (p + static_size type)
Divides-step null_type bound p fixed h d = (
  λ k. absurd (omega (arith, k)),
  (λ k. absurd (omega (arith, k)), λ k. absurd (omega (arith, k)), λ k. absurd (omega (arith, k))),
)
Divides-step small_int bound p fixed h d = (
  λ k. d.2 h,
  (λ k. absurd (omega (arith, k)), λ k. absurd (omega (arith, k)), λ k. omega (arith, d.2 h)),
)
Divides-step int bound p fixed h d = (
  λ k. d.1 h,
  (λ k. absurd (omega (arith, k)), λ k. omega (arith, d.1 h), λ k. omega (arith, d.1 h)),
)
Divides-step big_int bound p fixed h d =
    (λ k. d.0 h, (λ k. omega (arith, d.0 h), λ k. omega (arith, d.0 h), λ k. omega (arith, d.0 h)))
Divides-step float bound p fixed h d = (
  λ k. d.1 h,
  (λ k. absurd (omega (arith, k)), λ k. omega (arith, d.1 h), λ k. omega (arith, d.1 h)),
)
Divides-step double bound p fixed h d =
    (λ k. d.0 h, (λ k. omega (arith, d.0 h), λ k. omega (arith, d.0 h), λ k. omega (arith, d.0 h)))
Divides-step text bound p fixed h d = ground (arith, fixed)
Divides-step blob bound p fixed h d = ground (arith, fixed)
Divides-step no_type bound p fixed h d = ground (arith, fixed)
Divides-step (unknown_type n) bound p fixed h d = ground (arith, fixed)

-- A number at a multiple of its alignment, or the offset of a string at a multiple of 4.
abbrev pub IsAligned : FieldMetaData → Type 0
IsAligned f =
    let alignment = if is_fixed_sized f.field.type then align_of f.field.type else 4 in
    0 < alignment → f.offset % alignment ≡ 0

pub fixed-IsAligned :
    (fs : List Field) (bound lo nlo id : ℕ) (f : FieldMetaData)
    → AllAtMost bound fs
    → AreDescending fs
    → AllSized true fs
    → Divides bound lo
    → get_elem? (placed fixed_width fs lo nlo) id ≡ some f
    → IsAligned f
unfolding placed
fixed-IsAligned [] bound lo nlo id f most down sized d e = absurd (none-ne-some _ e)
fixed-IsAligned (g ∷ fs) bound lo nlo zero f most down sized d e =
    subst IsAligned (some-injective _ _ e)
      (rw sized.0 (Divides-step g.type bound lo sized.0 most.0 d).0)
fixed-IsAligned (g ∷ fs) bound lo nlo (suc id) f most down sized d e =
    fixed-IsAligned fs (align_of g.type) (lo + fixed_width g) (nlo + null_width g) id f down.0
      down.1 sized.1 (Divides-step g.type bound lo sized.0 most.0 d).1 e

pub variable-IsAligned :
    (fs : List Field) (lo nlo id : ℕ) (f : FieldMetaData)
    → AllSized false fs
    → lo % 4 ≡ 0
    → get_elem? (placed offset_width fs lo nlo) id ≡ some f
    → IsAligned f
unfolding placed
variable-IsAligned [] lo nlo id f sized d e = absurd (none-ne-some _ e)
variable-IsAligned (g ∷ fs) lo nlo zero f sized d e =
    subst IsAligned (some-injective _ _ e) (rw sized.0 (λ h. d))
variable-IsAligned (g ∷ fs) lo nlo (suc id) f sized d e =
    variable-IsAligned fs (lo + 4) (nlo + null_width g) id f sized.1 (omega (arith, d)) e

align_of_le : (type : FieldType) → is_fixed_sized type ≡ true → align_of type ≤ 8
align_of_le null_type h = omega arith
align_of_le small_int h = omega arith
align_of_le int h = omega arith
align_of_le big_int h = omega arith
align_of_le float h = omega arith
align_of_le double h = omega arith
align_of_le text h = omega arith
align_of_le blob h = omega arith
align_of_le no_type h = ground (arith, h)
align_of_le (unknown_type n) h = ground (arith, h)

pub AllAtMost-fixed : (fs : List Field) → AllSized true fs → AllAtMost 8 fs
AllAtMost-fixed [] sized = tt
AllAtMost-fixed (f ∷ fs) sized = (align_of_le f.type sized.0, AllAtMost-fixed fs sized.1)
