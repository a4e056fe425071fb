-- ===== src/Bitmap/Tests.antt =====
-- Bitmaps of 40 bits, in two words.
use os_tools_and_features.Prelude.{
  ℕ, ◌≡◌, refl, Option, some, false, ◌==◌, ltb, if◌then◌else◌, arith,
}
use os_tools_and_features.Bitmap.{
  Bitmap, bitmap_test, bitmap_contains, contains_loop, bitmap_scan, scan_loop, bitmap_scan_and_flip,
}
use os_tools_and_features.Bitmap.Scan.{
  First, Flipped, bitmap_scan-First, bitmap_scan_and_flip-Flipped,
}

-- The bits 0, 1 and 33 are set.
abbrev forty : Bitmap
forty = record {
  bit_cnt = 40;
  bits = λ j p. if j == 0 then ltb p 2 else if j == 1 then p == 1 else false;
}

bitmap_scan-First_example :
    (r : Option ℕ) × (bitmap_scan forty 0 6 false ≡ some r) × First forty 0 35 6 false r
bitmap_scan-First_example = bitmap_scan-First forty 0 6 false (omega arith)

bitmap_scan_and_flip-Flipped_example :
    (r : Option ℕ) × First forty 0 35 6 false r
    × Flipped forty 6 false r (bitmap_scan_and_flip forty 0 6 false)
bitmap_scan_and_flip-Flipped_example = bitmap_scan_and_flip-Flipped forty 0 6 false (omega arith)

scan_late : bitmap_scan forty 29 6 false ≡ some (some 34)
unfolding bitmap_scan scan_loop bitmap_contains contains_loop bitmap_test
scan_late = refl

-- A group of no bits is found where the search starts.
scan_nothing : bitmap_scan forty 7 0 false ≡ some (some 7)
unfolding bitmap_scan scan_loop bitmap_contains contains_loop bitmap_test
scan_nothing = refl
