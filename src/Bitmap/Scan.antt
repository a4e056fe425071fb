-- ===== src/Bitmap/Scan.antt =====
-- proj-pregame/src/lib/kernel/bitmap.c: the search for a group of bits.
use os_tools_and_features.Prelude.{
  ℕ, zero, suc, ◌+◌, ◌-◌, ◌≤◌, ◌<◌, ◌≡◌, ap, subst, refl, Option, none, some, Bool, true, false,
  not, ◌==◌, leb, le→leb, ==_iff, arith, if◌then◌else◌, Bool-cases, inl, inr,
}
use os_tools_and_features.Bitmap.{
  Bitmap, scan_loop, bitmap_scan, bitmap_scan_and_flip, flip_found, flip_group,
}
use os_tools_and_features.Bitmap.Bits.{bit}
use os_tools_and_features.Bitmap.Ranges.{
  Group, bitmap_contains-Contains, bitmap_set_multiple-Filled, inside,
}

-- The first group of `cnt` bits with the value, of those that start in [from, until), or none.
abbrev pub First : Bitmap → ℕ → ℕ → ℕ → Bool → Option ℕ → Type 0
First b from until cnt value none = (i : ℕ) → from ≤ i → i < until → ¬ Group b i cnt value
First b from until cnt value (some k) =
    (from ≤ k)
    × (k < until)
    × Group b k cnt value
    × ((i : ℕ) → from ≤ i → i < k → ¬ Group b i cnt value)

not-not : (v : Bool) → not (not v) ≡ v
not-not true = refl
not-not false = refl

First-next :
    (b : Bitmap) (i until cnt : ℕ) (value : Bool) (r : Option ℕ)
    → ¬ Group b i cnt value
    → First b (suc i) until cnt value r
    → First b i until cnt value r
First-next b i until cnt value none n f = λ j l u. elim (Bool-cases (i == j)) [
  | inl e ↦ subst (λ j. ¬ Group b j cnt value) ((==_iff i j).0 e) n
  | inr ne ↦ f j (ground arith) u
]
First-next b i until cnt value (some k) n (l, u, g, f) = (
  omega arith,
  u,
  g,
  λ j a c. elim (Bool-cases (i == j)) [
    | inl e ↦ subst (λ j. ¬ Group b j cnt value) ((==_iff i j).0 e) n
    | inr ne ↦ f j (ground arith) c
  ],
)

scan_loop-First :
    (b : Bitmap) (n i cnt : ℕ) (value : Bool)
    → i + n + cnt ≤ suc b.bit_cnt
    → (r : Option ℕ) × (scan_loop b n i cnt value ≡ some r) × First b i (i + n) cnt value r
unfolding scan_loop
scan_loop-First b zero i cnt value h = (none, refl, λ j l u. absurd (omega arith))
scan_loop-First b (suc n) i cnt value h =
    let (r, e, f) = scan_loop-First b n (suc i) cnt value (omega arith) in
    let (c, d, absent, present) = bitmap_contains-Contains b i cnt (not value) (omega arith) in
    elim (Bool-cases c) [
      | inl other ↦ (
        r,
        rw (d, other) e,
        First-next b i (i + suc n) cnt value r
            (subst (λ v. ¬ Group b i cnt v) (not-not value) (present other))
            (subst (λ u. First b (suc i) u cnt value r) (omega arith) f),
      )
      | inr here ↦ (
        some i,
        rw (d, here) refl,
        (
          omega arith,
          omega arith,
          subst (λ v. Group b i cnt v) (not-not value) (absent here),
          λ j l u. absurd (omega arith),
        ),
      )
    ]

-- bitmap_scan() from within the bitmap fails no assertion. It returns the first index from `start` at
-- which `cnt` bits fit that all have the value, or BITMAP_ERROR when there is none.
pub bitmap_scan-First :
    (b : Bitmap) (start cnt : ℕ) (value : Bool)
    → start ≤ b.bit_cnt
    → (r : Option ℕ) × (bitmap_scan b start cnt value ≡ some r)
      × First b start (suc b.bit_cnt - cnt) cnt value r
unfolding bitmap_scan
bitmap_scan-First b start cnt value h = elim (Bool-cases (leb cnt b.bit_cnt)) [
  | inl small ↦
      rw (le→leb start b.bit_cnt h, small)
        (elim (Bool-cases (leb start (b.bit_cnt - cnt))) [
          | inl fits ↦
              let (r, e, f) =
                scan_loop-First b (suc (b.bit_cnt - cnt) - start) start cnt value (ground arith) in
              (r, e, subst (λ u. First b start u cnt value r) (ground arith) f)
          | inr out ↦ (
            none,
            subst (λ n. scan_loop b n start cnt value ≡ some none) {x = 0} (ground arith) refl,
            λ i l u. absurd (ground arith),
          )
        ])
  | inr large ↦ rw (le→leb start b.bit_cnt h, large) (none, refl, λ i l u. absurd (ground arith))
]

-- What bitmap_scan_and_flip() did: the group found is flipped, or nothing is.
abbrev pub Flipped : Bitmap → ℕ → Bool → Option ℕ → Option (Option ℕ × Bitmap) → Type 0
Flipped b cnt value none r = r ≡ some (none, b)
Flipped b cnt value (some k) r =
    (g : Bitmap) × (r ≡ some (some k, g))
    × (g.bit_cnt ≡ b.bit_cnt)
    × ((j : ℕ) → bit g j ≡ (if inside k cnt j then not value else bit b j))

-- bitmap_scan_and_flip() finds the same group as bitmap_scan() and inverts its bits, and no other bit;
-- without a group it returns BITMAP_ERROR and leaves the bitmap.
pub bitmap_scan_and_flip-Flipped :
    (b : Bitmap) (start cnt : ℕ) (value : Bool)
    → start ≤ b.bit_cnt
    → (r : Option ℕ) × First b start (suc b.bit_cnt - cnt) cnt value r
      × Flipped b cnt value r (bitmap_scan_and_flip b start cnt value)
unfolding bitmap_scan_and_flip
bitmap_scan_and_flip-Flipped b start cnt value h =
    let (r, e, f) = bitmap_scan-First b start cnt value h in (r, f, rw e (flipped r f))
  where
    flipped :
        (r : Option ℕ)
        → First b start (suc b.bit_cnt - cnt) cnt value r
        → Flipped b cnt value r (flip_found b cnt value (some r))
    flipped none f = refl
    flipped (some k) f =
        let (g, e, n, s) = bitmap_set_multiple-Filled b k cnt (not value) (ground arith) in
        (g, ap (flip_group (some k)) e, n, s)
