-- ===== src/Bitmap.antt =====
-- proj-pregame/src/lib/kernel/bitmap.c: a bitmap in an array of words of 32 bits. A word is its bits
-- by position; a failed ASSERT is `none`.
pub mod Bits
pub mod Ranges
pub mod Scan
pub mod Tests
use os_tools_and_features.Prelude.{
  ℕ, zero, suc, ◌+◌, ◌-◌, ◌/◌, ◌%◌, Option, none, some, Bool, true, false, not, ◌&&◌, ◌||◌, ◌==◌,
  ltb, leb, if◌then◌else◌,
}

abbrev pub Elem : Type 0
Elem = ℕ → Bool

abbrev pub elem_bits : ℕ
elem_bits = 32

pub record Bitmap : Type 0 where
  pub bit_cnt : ℕ
  pub bits : ℕ → Elem

abbrev pub elem_idx : ℕ → ℕ
elem_idx bit_idx = bit_idx / elem_bits

abbrev pub bit_mask : ℕ → Elem
bit_mask bit_idx p = p == bit_idx % elem_bits

-- Some bit of the `n` lowest ones is set.
abbrev pub nonzero : ℕ → Elem → Bool
nonzero zero e = false
nonzero (suc n) e = e n || nonzero n e

abbrev pub same : Bool → Bool → Bool
same true b = b
same false b = not b

-- b->bits[idx] = e
abbrev pub put_elem : ℕ → Elem → Bitmap → Bitmap
put_elem idx e b = record b { bits = λ j. if idx == j then e else b.bits j }

pub bitmap_mark : Bitmap → ℕ → Bitmap
bitmap_mark b bit_idx =
    put_elem (elem_idx bit_idx) (λ p. b.bits (elem_idx bit_idx) p || bit_mask bit_idx p) b

pub bitmap_reset : Bitmap → ℕ → Bitmap
bitmap_reset b bit_idx =
    put_elem (elem_idx bit_idx) (λ p. b.bits (elem_idx bit_idx) p && not (bit_mask bit_idx p)) b

pub bitmap_flip : Bitmap → ℕ → Bitmap
bitmap_flip b bit_idx =
    put_elem (elem_idx bit_idx) (λ p. not (same (b.bits (elem_idx bit_idx) p) (bit_mask bit_idx p)))
      b

pub bitmap_set : Bitmap → ℕ → Bool → Option Bitmap
bitmap_set b idx value =
    if ltb idx b.bit_cnt
    then some (if value then bitmap_mark b idx else bitmap_reset b idx)
    else none

pub bitmap_test : Bitmap → ℕ → Option Bool
bitmap_test b idx =
    if ltb idx b.bit_cnt
    then some (nonzero elem_bits (λ p. b.bits (elem_idx idx) p && bit_mask idx p))
    else none

-- The loops have `n` rounds left, the next one for the bit `i`.
abbrev pub then_set : (Bitmap → Option Bitmap) → Option Bitmap → Option Bitmap
then_set f none = none
then_set f (some b) = f b

pub set_loop : ℕ → ℕ → Bool → Bitmap → Option Bitmap
set_loop zero i value b = some b
set_loop (suc n) i value b = then_set (set_loop n (suc i) value) (bitmap_set b i value)

abbrev pub in_range : Bitmap → ℕ → ℕ → Bool
in_range b start cnt = leb start b.bit_cnt && leb (start + cnt) b.bit_cnt

pub bitmap_set_multiple : Bitmap → ℕ → ℕ → Bool → Option Bitmap
unfolding set_loop
bitmap_set_multiple b start cnt value =
    if in_range b start cnt then set_loop cnt start value b else none

pub bitmap_set_all : Bitmap → Bool → Option Bitmap
unfolding bitmap_set_multiple
bitmap_set_all b value = bitmap_set_multiple b 0 b.bit_cnt value

-- bitmap_create(), when malloc() has given it the words `bits`.
pub bitmap_create : (ℕ → Elem) → ℕ → Option Bitmap
unfolding bitmap_set_all
bitmap_create bits bit_cnt = bitmap_set_all (record { bit_cnt = bit_cnt; bits = bits }) false

abbrev pub count_one : Bool → Option Bool → Option ℕ → Option ℕ
count_one value none rest = none
count_one value (some t) none = none
count_one value (some t) (some n) = some (if same t value then suc n else n)

pub count_loop : Bitmap → ℕ → ℕ → Bool → Option ℕ
count_loop b zero i value = some 0
count_loop b (suc n) i value = count_one value (bitmap_test b i) (count_loop b n (suc i) value)

pub bitmap_count : Bitmap → ℕ → ℕ → Bool → Option ℕ
unfolding count_loop
bitmap_count b start cnt value = if in_range b start cnt then count_loop b cnt start value else none

abbrev pub found_one : Bool → Option Bool → Option Bool → Option Bool
found_one value none rest = none
found_one value (some t) rest = if same t value then some true else rest

pub contains_loop : Bitmap → ℕ → ℕ → Bool → Option Bool
contains_loop b zero i value = some false
contains_loop b (suc n) i value =
    found_one value (bitmap_test b i) (contains_loop b n (suc i) value)

pub bitmap_contains : Bitmap → ℕ → ℕ → Bool → Option Bool
unfolding contains_loop
bitmap_contains b start cnt value =
    if in_range b start cnt then contains_loop b cnt start value else none

-- The outer option is for assertions; the inner `none` is BITMAP_ERROR.
abbrev pub scan_one : ℕ → Option Bool → Option (Option ℕ) → Option (Option ℕ)
scan_one i none rest = none
scan_one i (some true) rest = rest
scan_one i (some false) rest = some (some i)

pub scan_loop : Bitmap → ℕ → ℕ → ℕ → Bool → Option (Option ℕ)
scan_loop b zero i cnt value = some none
scan_loop b (suc n) i cnt value =
    scan_one i (bitmap_contains b i cnt (not value)) (scan_loop b n (suc i) cnt value)

pub bitmap_scan : Bitmap → ℕ → ℕ → Bool → Option (Option ℕ)
unfolding scan_loop
bitmap_scan b start cnt value =
    if leb start b.bit_cnt
    then if leb cnt b.bit_cnt
      then scan_loop b (suc (b.bit_cnt - cnt) - start) start cnt value
      else some none
    else none

abbrev pub flip_group : Option ℕ → Option Bitmap → Option (Option ℕ × Bitmap)
flip_group idx none = none
flip_group idx (some b) = some (idx, b)

abbrev pub flip_found : Bitmap → ℕ → Bool → Option (Option ℕ) → Option (Option ℕ × Bitmap)
flip_found b cnt value none = none
flip_found b cnt value (some none) = some (none, b)
flip_found b cnt value (some (some i)) =
    flip_group (some i) (bitmap_set_multiple b i cnt (not value))

pub bitmap_scan_and_flip : Bitmap → ℕ → ℕ → Bool → Option (Option ℕ × Bitmap)
unfolding bitmap_scan
bitmap_scan_and_flip b start cnt value = flip_found b cnt value (bitmap_scan b start cnt value)
