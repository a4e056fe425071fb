-- ===== src/Bitmap/Bits.antt =====
-- proj-pregame/src/lib/kernel/bitmap.c: single bits.
use os_tools_and_features.Prelude.{
  ℕ, zero, suc, ◌/◌, ◌%◌, ◌<◌, ◌≡◌, ◌∙◌, ap, refl, some, Bool, true, false, not, ◌&&◌, ◌==◌, ltb,
  lt→ltb, arith, if◌then◌else◌, Bool-cases, inl, inr,
}
use os_tools_and_features.Bitmap.{
  Bitmap, Elem, elem_bits, elem_idx, nonzero, put_elem, bitmap_mark, bitmap_reset, bitmap_flip,
  bitmap_test,
}

-- The abstract view: a bitmap is a sequence of bits.
abbrev pub bit : Bitmap → ℕ → Bool
bit b i = b.bits (elem_idx i) (i % elem_bits)

nonzero-mask : (n : ℕ) (e : Elem) (q : ℕ) → nonzero n (λ p. e p && (p == q)) ≡ (ltb q n && e q)
nonzero-mask zero e q = ground arith
nonzero-mask (suc n) e q = ground (arith, nonzero-mask n e q)

pub bitmap_test-bit : (b : Bitmap) (i : ℕ) → i < b.bit_cnt → bitmap_test b i ≡ some (bit b i)
unfolding bitmap_test
bitmap_test-bit b i h =
    rw
      (
        lt→ltb i b.bit_cnt h,
        nonzero-mask elem_bits (b.bits (elem_idx i)) (i % elem_bits),
        lt→ltb (i % elem_bits) elem_bits (omega arith),
      )
      refl

-- The word and the position in it give the bit.
place : (i j : ℕ) → i / 32 ≡ j / 32 → i % 32 ≡ j % 32 → i ≡ j
place i j e f = omega arith

bit-put :
    (b : Bitmap) (f : Elem) (i j : ℕ)
    → bit (put_elem (elem_idx i) f b) j
      ≡ (if elem_idx i == elem_idx j then f (j % elem_bits) else bit b j)
bit-put b f i j = elim (Bool-cases (elem_idx i == elem_idx j)) [
  | inl e ↦ rw e refl
  | inr n ↦ rw n refl
]

pub bit-mark : (b : Bitmap) (i j : ℕ) → bit (bitmap_mark b i) j ≡ (if i == j then true else bit b j)
unfolding bitmap_mark
bit-mark b i j = bit-put b _ i j ∙ ground (arith, place i j)

pub bit-reset :
    (b : Bitmap) (i j : ℕ) → bit (bitmap_reset b i) j ≡ (if i == j then false else bit b j)
unfolding bitmap_reset
bit-reset b i j = bit-put b _ i j ∙ ground (arith, place i j)

pub bit-flip :
    (b : Bitmap) (i j : ℕ) → bit (bitmap_flip b i) j ≡ (if i == j then not (bit b i) else bit b j)
unfolding bitmap_flip
bit-flip b i j = bit-put b _ i j ∙ ground (arith, place i j)

flip_size : (b : Bitmap) (i j : ℕ) → j < b.bit_cnt → j < (bitmap_flip b i).bit_cnt
unfolding bitmap_flip
flip_size b i j h = h

-- After bitmap_flip() of the bit `i`, bitmap_test() of that bit gives the opposite of what it was, and
-- of any other bit what it was, in the same word or not.
pub bitmap_test-bitmap_flip :
    (b : Bitmap) (i j : ℕ)
    → j < b.bit_cnt
    → bitmap_test (bitmap_flip b i) j ≡ some (if i == j then not (bit b i) else bit b j)
bitmap_test-bitmap_flip b i j h = test_flipped ∙ ap some (bit-flip b i j)
  where
    test_flipped : bitmap_test (bitmap_flip b i) j ≡ some (bit (bitmap_flip b i) j)
    test_flipped = bitmap_test-bit (bitmap_flip b i) j (flip_size b i j h)
