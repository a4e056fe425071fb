-- ===== src/HashTable/Counts.antt =====
-- proj-pregame/src/lib/kernel/hash.c: the number of the elements of a table.
use os_tools_and_features.Prelude.{
  ℕ, zero, suc, ◌+◌, ◌<◌, ◌≡◌, refl, ap, subst, inl, inr, List, [], ◌∷◌, Bool, true, false, ◌==◌,
  ltb, arith, if◌then◌else◌, Bool-cases, ==_iff, length,
}
use os_tools_and_features.Threads.{Ptr}
use os_tools_and_features.Threads.Invariant.{has}
use os_tools_and_features.HashTable.{push_front, without, find_bucket, move_bucket, move_all}
use os_tools_and_features.HashTable.Buckets.{find_bucket_lt}

-- The elements of the buckets before `n`.
abbrev pub total : ℕ → (ℕ → List Ptr) → ℕ
total zero buckets = 0
total (suc k) buckets = length (buckets k) + total k buckets

total-push_front :
    (n : ℕ) (b : ℕ → List Ptr) (i : ℕ) (e : Ptr)
    → total n (push_front b i e) ≡ total n b + (if ltb i n then 1 else 0)
total-push_front zero b i e = ground arith
total-push_front (suc k) b i e =
    let h = total-push_front k b i e in
    elim (Bool-cases (k == i)) [
      | inl u ↦ rw u (ground (arith, h, u))
      | inr u ↦ rw u (ground (arith, h, u))
    ]

without-none : (e : Ptr) (xs : List Ptr) → has e xs ≡ false → without e xs ≡ xs
without-none e [] h = refl
without-none e (x ∷ xs) h =
    let u : (x == e) ≡ false = ground (arith, h) in
    rw u (ap (λ ys. x ∷ ys) (without-none e xs (ground (arith, h, u))))

without-length :
    (e : Ptr) (xs : List Ptr) → has e xs ≡ true → suc (length (without e xs)) ≡ length xs
without-length e [] h = absurd (ground arith)
without-length e (x ∷ xs) h = elim (Bool-cases (x == e)) [
  | inl u ↦ rw u refl
  | inr u ↦ rw u (ap suc (without-length e xs (ground (arith, h, u))))
]

total-same : (n : ℕ) (b c : ℕ → List Ptr) → ((i : ℕ) → i < n → b i ≡ c i) → total n b ≡ total n c
total-same zero b c h = refl
total-same (suc k) b c h =
    omega (arith, ap length (h k (omega arith)), total-same k b c (λ i l. h i (omega arith)))

-- One bucket has the element that is taken out.
pub total-without :
    (n : ℕ) (b : ℕ → List Ptr) (e : Ptr) (at : ℕ)
    → at < n
    → has e (b at) ≡ true
    → ((i : ℕ) → has e (b i) ≡ true → at ≡ i)
    → suc (total n (λ i. without e (b i))) ≡ total n b
total-without zero b e at l h p = absurd (omega arith)
total-without (suc k) b e at l h p = elim (Bool-cases (at == k)) [
  | inl u ↦
      let v : at ≡ k = (==_iff at k).0 u in
      let w = without-length e (b k) (subst (λ i. has e (b i) ≡ true) v h) in
      let z =
        total-same k (λ i. without e (b i)) b
          (λ i m. without-none e (b i) (elim (Bool-cases (has e (b i))) [
            | inl x ↦ absurd (omega (arith, p i x, v, m))
            | inr x ↦ x
          ])) in
      omega (arith, w, z)
  | inr u ↦
      let w : without e (b k) ≡ b k = without-none e (b k) (elim (Bool-cases (has e (b k))) [
        | inl x ↦ absurd (ground (arith, p k x, u))
        | inr x ↦ x
      ]) in
      let z = total-without k b e at (ground (arith, l, u)) h p in omega (arith, ap length w, z)
]

abbrev pub total_from : ℕ → ℕ → (ℕ → List Ptr) → ℕ
total_from zero i b = 0
total_from (suc n) i b = length (b i) + total_from n (suc i) b

total_from-last :
    (n i : ℕ) (b : ℕ → List Ptr) → total_from (suc n) i b ≡ length (b (i + n)) + total_from n i b
total_from-last zero i b = ap (λ k. length (b k) + 0) (omega arith)
total_from-last (suc n) i b =
    let e : length (b (suc i + n)) ≡ length (b (i + suc n)) =
      ap (λ k. length (b k)) (omega arith) in
    omega (arith, total_from-last n (suc i) b, e)

pub total_from-total : (n : ℕ) (b : ℕ → List Ptr) → total_from n 0 b ≡ total n b
total_from-total zero b = refl
total_from-total (suc n) b =
    let e : length (b (0 + n)) ≡ length (b n) = ap (λ k. length (b k)) (omega arith) in
    omega (arith, total_from-last n 0 b, total_from-total n b, e)

module _ (hash : Ptr → ℕ) (less : Ptr → Ptr → Bool) (cnt : ℕ) (pos : 0 < cnt) where
  pub total-insert :
      (b : ℕ → List Ptr) (e : Ptr)
      → total cnt (push_front b (find_bucket hash less cnt e) e) ≡ suc (total cnt b)
  total-insert b e = ground (
    arith,
    total-push_front cnt b (find_bucket hash less cnt e) e,
    find_bucket_lt hash less cnt e pos,
  )

  total-move_bucket :
      (es : List Ptr) (new : ℕ → List Ptr)
      → total cnt (move_bucket hash less cnt es new) ≡ length es + total cnt new
  total-move_bucket [] new = omega arith
  total-move_bucket (e ∷ es) new = omega (
    arith,
    total-move_bucket es (push_front new (find_bucket hash less cnt e) e),
    total-insert new e,
  )

  total-move_all :
      (n i : ℕ) (old new : ℕ → List Ptr)
      → total cnt (move_all hash less cnt n old i new) ≡ total_from n i old + total cnt new
  total-move_all zero i old new = omega arith
  total-move_all (suc n) i old new = omega (
    arith,
    total-move_all n (suc i) old (move_bucket hash less cnt (old i) new),
    total-move_bucket (old i) new,
  )

  total_empty : (n : ℕ) → total n (λ i. []) ≡ 0
  total_empty zero = refl
  total_empty (suc n) = omega (arith, total_empty n)

  pub total-moved :
      (n : ℕ) (old : ℕ → List Ptr)
      → total cnt (move_all hash less cnt n old 0 (λ i. [])) ≡ total n old
  total-moved n old =
      omega (arith, total-move_all n 0 old (λ i. []), total_empty cnt, total_from-total n old)
