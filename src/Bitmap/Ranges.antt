-- ===== src/Bitmap/Ranges.antt =====
-- proj-pregame/src/lib/kernel/bitmap.c: ranges of bits.
use os_tools_and_features.Prelude.{
  ℕ, zero, suc, ◌+◌, ◌≤◌, ◌<◌, ◌≡◌, ◌∙◌, ap, subst, refl, Option, some, Bool, true, false, not,
  ◌&&◌, ◌==◌, ltb, leb, lt→ltb, ==_iff, arith, if◌then◌else◌, Bool-cases, inl, inr,
}
use os_tools_and_features.Bitmap.{
  Bitmap, same, bitmap_mark, bitmap_reset, bitmap_set, then_set, set_loop, in_range,
  bitmap_set_multiple, count_loop, bitmap_count, contains_loop, bitmap_contains,
}
use os_tools_and_features.Bitmap.Bits.{bit, bitmap_test-bit, bit-mark, bit-reset}

abbrev pub inside : ℕ → ℕ → ℕ → Bool
inside start cnt j = leb start j && ltb j (start + cnt)

-- The bits of a range are `value`, and the others as before.
abbrev pub Filled : Bitmap → ℕ → ℕ → Bool → Option Bitmap → Type 0
Filled b start cnt value r =
    (g : Bitmap) × (r ≡ some g)
    × (g.bit_cnt ≡ b.bit_cnt)
    × ((j : ℕ) → bit g j ≡ (if inside start cnt j then value else bit b j))

abbrev written : Bitmap → ℕ → Bool → Bitmap
written b i value = if value then bitmap_mark b i else bitmap_reset b i

bit-written :
    (b : Bitmap) (i : ℕ) (value : Bool) (j : ℕ)
    → bit (written b i value) j ≡ (if i == j then value else bit b j)
bit-written b i true j = bit-mark b i j
bit-written b i false j = bit-reset b i j

written_bit_cnt : (b : Bitmap) (i : ℕ) (value : Bool) → (written b i value).bit_cnt ≡ b.bit_cnt
unfolding bitmap_mark bitmap_reset
written_bit_cnt b i true = refl
written_bit_cnt b i false = refl

bitmap_set-written :
    (b : Bitmap) (i : ℕ) (value : Bool)
    → i < b.bit_cnt
    → bitmap_set b i value ≡ some (written b i value)
unfolding bitmap_set
bitmap_set-written b i value h = rw (lt→ltb i b.bit_cnt h) refl

set_loop-Filled :
    (n i : ℕ) (value : Bool) (b : Bitmap)
    → i + n ≤ b.bit_cnt
    → Filled b i n value (set_loop n i value b)
unfolding set_loop
set_loop-Filled zero i value b h = (b, refl, refl, λ j. ground arith)
set_loop-Filled (suc n) i value b h =
    let c = written b i value in
    let (g, e, f, s) =
      set_loop-Filled n (suc i) value c (omega (arith, written_bit_cnt b i value)) in
    (
      g,
      ap (then_set (set_loop n (suc i) value)) (bitmap_set-written b i value (omega arith)) ∙ e,
      f ∙ written_bit_cnt b i value,
      λ j. s j ∙ ground (arith, bit-written b i value j),
    )

in_range-true : (b : Bitmap) (start cnt : ℕ) → start + cnt ≤ b.bit_cnt → in_range b start cnt ≡ true
in_range-true b start cnt h = ground arith

-- bitmap_set_multiple() of a range within the bitmap fails no assertion, gives each bit of the range the
-- value, and leaves the other bits and the size.
pub bitmap_set_multiple-Filled :
    (b : Bitmap) (start cnt : ℕ) (value : Bool)
    → start + cnt ≤ b.bit_cnt
    → Filled b start cnt value (bitmap_set_multiple b start cnt value)
unfolding bitmap_set_multiple
bitmap_set_multiple-Filled b start cnt value h =
    rw (in_range-true b start cnt h) (set_loop-Filled cnt start value b h)

-- Each bit of the range is `value`.
abbrev pub Group : Bitmap → ℕ → ℕ → Bool → Type 0
Group b start cnt value = (j : ℕ) → inside start cnt j ≡ true → bit b j ≡ value

-- The answer of bitmap_contains(): no bit of the range is `value`, or one is.
abbrev pub Contains : Bitmap → ℕ → ℕ → Bool → Option Bool → Type 0
Contains b start cnt value r =
    (c : Bool) × (r ≡ some c)
    × (c ≡ false → Group b start cnt (not value))
    × (c ≡ true → ¬ Group b start cnt (not value))

contains_loop-Contains :
    (b : Bitmap) (n i : ℕ) (value : Bool)
    → i + n ≤ b.bit_cnt
    → Contains b i n value (contains_loop b n i value)
unfolding contains_loop
contains_loop-Contains b zero i value h = (false, refl, (λ e j k. ground arith), λ e. cc)
contains_loop-Contains b (suc n) i value h =
    let (c, e, f, g) = contains_loop-Contains b n (suc i) value (omega arith) in
    rw (bitmap_test-bit b i (omega arith), e)
      (elim (Bool-cases (same (bit b i) value)) [
        | inl here ↦ rw here (true, refl, (λ x. cc), λ x k. ground (arith, k i))
        | inr other ↦ rw other (
          c,
          refl,
          (λ x j k. elim (Bool-cases (i == j)) [
            | inl p ↦ subst (λ j. bit b j ≡ not value) ((==_iff i j).0 p) (ground arith)
            | inr q ↦ f x j (ground arith)
          ]),
          λ x k. g x (λ j y. k j (ground arith)),
        )
      ])

pub bitmap_contains-Contains :
    (b : Bitmap) (start cnt : ℕ) (value : Bool)
    → start + cnt ≤ b.bit_cnt
    → Contains b start cnt value (bitmap_contains b start cnt value)
unfolding bitmap_contains
bitmap_contains-Contains b start cnt value h =
    rw (in_range-true b start cnt h) (contains_loop-Contains b cnt start value h)

-- The two counts of a range.
abbrev pub Counted : ℕ → Option ℕ → Option ℕ → Type 0
Counted n r r' = (t : ℕ) × (f : ℕ) × (r ≡ some t) × (r' ≡ some f) × (t + f ≡ n)

count_loop-Counted :
    (b : Bitmap) (n i : ℕ)
    → i + n ≤ b.bit_cnt
    → Counted n (count_loop b n i true) (count_loop b n i false)
unfolding count_loop
count_loop-Counted b zero i h = (0, 0, refl, refl, refl)
count_loop-Counted b (suc n) i h =
    let (t, f, e, e', s) = count_loop-Counted b n (suc i) (omega arith) in
    rw (bitmap_test-bit b i (omega arith), e, e')
      (elim (Bool-cases (bit b i)) [
        | inl set ↦ rw set (suc t, f, refl, refl, omega arith)
        | inr clear ↦ rw clear (t, suc f, refl, refl, omega arith)
      ])

-- Of a range within the bitmap bitmap_count() counts each bit once: the number of its ones and the
-- number of its zeros add up to its length.
pub bitmap_count-Counted :
    (b : Bitmap) (start cnt : ℕ)
    → start + cnt ≤ b.bit_cnt
    → Counted cnt (bitmap_count b start cnt true) (bitmap_count b start cnt false)
unfolding bitmap_count
bitmap_count-Counted b start cnt h =
    rw (in_range-true b start cnt h) (count_loop-Counted b cnt start h)
