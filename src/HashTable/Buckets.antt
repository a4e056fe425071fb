-- ===== src/HashTable/Buckets.antt =====
-- proj-pregame/src/lib/kernel/hash.c: the numbers of buckets, and the elements that rehash() moves.
use os_tools_and_features.Prelude.{
  ℕ, zero, suc, ◌+◌, ◌-◌, ◌/◌, ◌%◌, ◌≤◌, ◌<◌, ◌≡◌, refl, sym, ap, subst, ◌∙◌, inl, inr, List, [],
  ◌∷◌, Bool, true, false, false≢true, ◌&&◌, ◌||◌, ◌==◌, ltb, leb, arith, Bool-cases, ==_iff,
}
use os_tools_and_features.Threads.{Ptr}
use os_tools_and_features.Threads.Invariant.{has, Distinct}
use os_tools_and_features.HashTable.{
  bits_and, power_loop, turn_off_least_1bit, is_power_of_2, best_bucket_cnt, push_front,
  find_bucket, move_bucket, move_all,
}

pub bits_and_le : (w a b : ℕ) → bits_and w a b ≤ b
unfolding bits_and
bits_and_le zero a b = omega arith
bits_and_le (suc w) a b =
    let h = bits_and_le w (a / 2) (b / 2) in
    elim (Bool-cases (a % 2 == 0)) [
      | inl e ↦ let z : a % 2 ≡ 0 = ground arith in rw z (omega arith)
      | inr e ↦ let z : a % 2 ≡ 1 = ground arith in rw z (omega arith)
    ]

turned_off :
    (n : ℕ)
    → 0 < n
    → is_power_of_2 n ≡ false
    → (0 < turn_off_least_1bit n) × (turn_off_least_1bit n < n)
turned_off n h e = (ground (arith, e), omega (arith, bits_and_le 32 n (n - 1)))

-- The loop ends with a power of 2.
pub power_loop_ends :
    (k n : ℕ) → 0 < n → n ≤ k → (is_power_of_2 (power_loop k n) ≡ true) × (0 < power_loop k n)
unfolding power_loop
power_loop_ends zero n h l = absurd (omega arith)
power_loop_ends (suc k) n h l = elim (Bool-cases (is_power_of_2 n)) [
  | inl e ↦ rw e (e, h)
  | inr e ↦
      let (a, b) = turned_off n h e in
      rw e (power_loop_ends k (turn_off_least_1bit n) a (omega arith))
]

pub best_bucket_cnt_pos : (n : ℕ) → 0 < best_bucket_cnt n
best_bucket_cnt_pos n = elim (Bool-cases (ltb (n / 2) 4)) [
  | inl e ↦ rw e (power_loop_ends (n + 4) 4 (omega arith) (omega arith)).1
  | inr e ↦ rw e (power_loop_ends (n + 4) (n / 2) (ground arith) (omega arith)).1
]

different : (w y : Ptr) (xs : List Ptr) → has w xs ≡ false → has y xs ≡ true → (w == y) ≡ false
different w y xs n h = elim (Bool-cases (w == y)) [
  | inl e ↦ absurd (false≢true (sym n ∙ subst (λ v. has v xs ≡ true) (sym ((==_iff w y).0 e)) h))
  | inr e ↦ e
]

module _ (hash : Ptr → ℕ) (less : Ptr → Ptr → Bool) (cnt : ℕ) where
  abbrev to : Ptr → ℕ
  to e = find_bucket hash less cnt e

  pub find_bucket_lt : (e : Ptr) → 0 < cnt → to e < cnt
  find_bucket_lt e h = omega (arith, bits_and_le 32 (hash e) (cnt - 1))

  -- The elements of the list `es` go to their buckets.
  move_bucket-has :
      (es : List Ptr) (new : ℕ → List Ptr) (x : Ptr) (j : ℕ)
      → has x (move_bucket hash less cnt es new j) ≡ (has x (new j) || (has x es && to x == j))
  move_bucket-has [] new x j = ground arith
  move_bucket-has (e ∷ es) new x j =
      move_bucket-has es (push_front new (to e) e) x j ∙ elim (Bool-cases (e == x)) [
        | inl u ↦
            let v : to e ≡ to x = ap to ((==_iff e x).0 u) in
            elim (Bool-cases (j == to e)) [
              | inl w ↦ rw w (ground (arith, u, v))
              | inr w ↦ rw w (ground (arith, u, v))
            ]
        | inr u ↦ elim (Bool-cases (j == to e)) [
          | inl w ↦ rw w (ground (arith, u))
          | inr w ↦ rw w (ground (arith, u))
        ]
      ]

  -- Whether an element is in one of `n` buckets, from `i` on.
  abbrev some_has : Ptr → ℕ → ℕ → (ℕ → List Ptr) → Bool
  some_has x zero i old = false
  some_has x (suc n) i old = has x (old i) || some_has x n (suc i) old

  move_all-has :
      (n : ℕ) (old : ℕ → List Ptr) (i : ℕ) (new : ℕ → List Ptr) (x : Ptr) (j : ℕ)
      → has x (move_all hash less cnt n old i new j)
        ≡ (has x (new j) || (some_has x n i old && to x == j))
  move_all-has zero old i new x j = ground arith
  move_all-has (suc n) old i new x j =
      move_all-has n old (suc i) (move_bucket hash less cnt (old i) new) x j
      ∙ ground (arith, move_bucket-has (old i) new x j)

  -- No element is moved twice.
  move_bucket-Distinct :
      (es : List Ptr) (new : ℕ → List Ptr)
      → Distinct es
      → ((j : ℕ) → Distinct (new j))
      → ((x : Ptr) → has x es ≡ true → (j : ℕ) → has x (new j) ≡ false)
      → (j : ℕ) → Distinct (move_bucket hash less cnt es new j)
  move_bucket-Distinct [] new d n f j = n j
  move_bucket-Distinct (e ∷ es) new d n f j =
      move_bucket-Distinct es (push_front new (to e) e) d.1
        (λ j. elim (Bool-cases (j == to e)) [
          | inl w ↦ rw w (f e (ground arith) j, n j)
          | inr w ↦ rw w (n j)
        ])
        (λ x h j. elim (Bool-cases (j == to e)) [
          | inl w ↦ rw w (
              let y = different e x es d.0 (ground arith) in
              ground (arith, y, f x (ground arith) j))
          | inr w ↦ rw w (f x (ground arith) j)
        ])
        j

  move_all-Distinct :
      (n : ℕ) (old : ℕ → List Ptr) (i : ℕ) (new : ℕ → List Ptr)
      → ((a : ℕ) → Distinct (old a))
      → ((a b : ℕ) (x : Ptr) → has x (old a) ≡ true → has x (old b) ≡ true → a ≡ b)
      → ((a : ℕ) → Distinct (new a))
      → ((a : ℕ) (x : Ptr) → i ≤ a → has x (old a) ≡ true → (j : ℕ) → has x (new j) ≡ false)
      → (j : ℕ) → Distinct (move_all hash less cnt n old i new j)
  move_all-Distinct zero old i new d p n f j = n j
  move_all-Distinct (suc k) old i new d p n f j =
      move_all-Distinct k old (suc i) (move_bucket hash less cnt (old i) new) d p
        (move_bucket-Distinct (old i) new (d i) n (λ x h. f i x (omega arith) h))
        (λ a x l h q.
          let e : has x (old i) ≡ false = elim (Bool-cases (has x (old i))) [
            | inl u ↦ absurd (let w = p a i x h u in omega arith)
            | inr u ↦ u
          ] in
          move_bucket-has (old i) new x q ∙ ground (arith, e, f a x (omega arith) h q))
        j

  some_has-at :
      (x : Ptr) (n i at : ℕ) (old : ℕ → List Ptr)
      → ((a : ℕ) → has x (old a) ≡ true → at ≡ a)
      → some_has x n i old ≡ (leb i at && ltb at (i + n) && has x (old at))
  some_has-at x zero i at old p = ground arith
  some_has-at x (suc n) i at old p =
      let h = some_has-at x n (suc i) at old p in
      elim (Bool-cases (i == at)) [
        | inl u ↦
            let w : has x (old i) ≡ has x (old at) = ap (λ a. has x (old a)) ((==_iff i at).0 u) in
            ground (arith, h, w)
        | inr u ↦ ground (arith, h, p i)
      ]

  -- The elements of a table in which each is in its bucket, moved to as many buckets as there are now.
  pub moved-has :
      (n : ℕ) (old : ℕ → List Ptr) (at : Ptr → ℕ) (x : Ptr) (j : ℕ)
      → ((a : ℕ) → has x (old a) ≡ true → at x ≡ a)
      → at x < n
      → has x (move_all hash less cnt n old 0 (λ i. []) j) ≡ (has x (old (at x)) && to x == j)
  moved-has n old at x j p h =
      move_all-has n old 0 (λ i. []) x j ∙ ground (arith, some_has-at x n 0 (at x) old p)

  pub moved-Distinct :
      (n : ℕ) (old : ℕ → List Ptr)
      → ((a : ℕ) → Distinct (old a))
      → ((a b : ℕ) (x : Ptr) → has x (old a) ≡ true → has x (old b) ≡ true → a ≡ b)
      → (j : ℕ) → Distinct (move_all hash less cnt n old 0 (λ i. []) j)
  moved-Distinct n old d p = move_all-Distinct n old 0 (λ i. []) d p (λ a. tt) (λ a x l h j. refl)
