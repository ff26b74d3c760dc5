-- ===== src/Schema/Buffers.antt =====
-- Buffers of bytes, least byte first, behave as the code of `Schema` relies on.
use native.Mathlib.Nat.{div-add-mod}
use tellstore.Prelude.{
  ℕ, zero, suc, ◌+◌, ◌-◌, ◌%◌, ◌/◌, ◌*◌, ◌≤◌, ◌≡◌, refl, ap, List, [], ◌∷◌, ◌++◌, length, arith,
}
use tellstore.Align.Rounding.{rounding}
use tellstore.Schema.Wire.{Write, word8, word16, word32, bytes, align, take, ByteBuffer}

abbrev pub padding : ℕ → List ℕ → List ℕ
padding zero t = t
padding (suc n) t = 0 ∷ padding n t

abbrev pub drop : ℕ → List ℕ → List ℕ
drop zero t = t
drop (suc n) [] = []
drop (suc n) (x ∷ t) = drop n t

pub drop-padding : (n : ℕ) (t : List ℕ) → drop n (padding n t) ≡ t
drop-padding zero t = refl
drop-padding (suc n) t = drop-padding n t

pub drop-append : (t u : List ℕ) → drop (length t) (t ++ u) ≡ u
drop-append [] u = refl
drop-append (x ∷ t) u = drop-append t u

pub take-append : (n : ℕ) (t u : List ℕ) → n ≤ length t → take n (t ++ u) ≡ take n t
take-append zero t u h = refl
take-append (suc n) [] u h = absurd (omega (arith, h))
take-append (suc n) (x ∷ t) u h = ap (λ l. x ∷ l) (take-append n t u (omega (arith, h)))

-- The bytes of the calls from a position on.
abbrev pub encode : ℕ → List Write → List ℕ
encode p [] = []
encode p (word8 n ∷ rest) = n ∷ encode (p + 1) rest
encode p (word16 n ∷ rest) = n % 256 ∷ n / 256 ∷ encode (p + 2) rest
encode p (word32 n ∷ rest) =
    n % 256 ∷ n / 256 % 256 ∷ n / 256 / 256 % 256 ∷ n / 256 / 256 / 256 ∷ encode (p + 4) rest
encode p (bytes t ∷ rest) = t ++ encode (p + length t) rest
encode p (align n ∷ rest) = padding (rounding.align p n - p) (encode (rounding.align p n) rest)

pub record Cursor : Type 0 where
  pub position : ℕ
  pub rest : List ℕ

abbrev pub cursor : ℕ → List ℕ → Cursor
cursor p t = record { position = p; rest = t }

abbrev pub nth : List ℕ → ℕ → ℕ
nth [] n = 0
nth (x ∷ t) zero = x
nth (x ∷ t) (suc n) = nth t n

abbrev pub skip : Cursor → ℕ → Cursor
skip c n = cursor (c.position + n) (drop n c.rest)

abbrev pub byte_buffer : ByteBuffer
byte_buffer = record {
  aligner = rounding;
  Reader = Cursor;
  reader_of = λ p ws. cursor p (encode p ws);
  read8 = λ c. (nth c.rest 0, skip c 1);
  read16 = λ c. (nth c.rest 0 + 256 * nth c.rest 1, skip c 2);
  read32 = λ c.
      (nth c.rest 0 + 256 * (nth c.rest 1 + 256 * (nth c.rest 2 + 256 * nth c.rest 3)), skip c 4);
  peek = λ c n. take n c.rest;
  advance = skip;
  align_to = λ c n.
      cursor (rounding.align c.position n) (drop (rounding.align c.position n - c.position) c.rest);
  read8-word8 = λ p n rest h. refl;
  read16-word16 = λ p n rest h.
      ap (λ x. (x, cursor (p + 2) (encode (p + 2) rest))) (omega (arith, div-add-mod n 256));
  read32-word32 = λ p n rest h.
      ap (λ x. (x, cursor (p + 4) (encode (p + 4) rest)))
        (omega
          (arith, div-add-mod n 256, div-add-mod (n / 256) 256, div-add-mod (n / 256 / 256) 256));
  peek-bytes = λ p n t rest h. take-append n t (encode (p + length t) rest) h;
  advance-word8 = λ p n rest. refl;
  advance-bytes =
      λ p t rest. ap (cursor (p + length t)) (drop-append t (encode (p + length t) rest));
  align_to-align = λ p n rest.
      ap (cursor (rounding.align p n))
        (drop-padding (rounding.align p n - p) (encode (rounding.align p n) rest));
}
