-- ===== src/HashTable/Iteration.antt =====
-- proj-pregame/src/lib/kernel/hash.c: hash_apply() and the iterators go through all elements.
use os_tools_and_features.Prelude.{
  ℕ, zero, suc, ◌+◌, ◌-◌, ◌<◌, ◌≡◌, refl, sym, ap, subst, ◌∙◌, inl, inr, List, [], ◌∷◌, ◌++◌, none,
  some, Bool, leb, arith, Bool-cases, length, length-append,
}
use os_tools_and_features.Threads.{Ptr}
use os_tools_and_features.HashTable.{
  Hash, Iterator, apply_loop, hash_apply, hash_size, hash_first, next_loop, hash_next,
}
use os_tools_and_features.HashTable.Table.{Valid}
use os_tools_and_features.HashTable.Counts.{total_from, total_from-total}

length-apply_loop : (n i : ℕ) (b : ℕ → List Ptr) → length (apply_loop n i b) ≡ total_from n i b
length-apply_loop zero i b = refl
length-apply_loop (suc n) i b =
    omega (arith, length-append (b i) (apply_loop n (suc i) b), length-apply_loop n (suc i) b)

-- hash_size() of a valid table is the number of the elements that hash_apply() visits.
pub length-hash_apply :
    (hash : Ptr → ℕ) (less : Ptr → Ptr → Bool) (h : Hash)
    → Valid hash less h
    → length (hash_apply h) ≡ hash_size h
length-hash_apply hash less h v =
    length-apply_loop h.bucket_cnt 0 h.buckets
    ∙ total_from-total h.bucket_cnt h.buckets
    ∙ sym v.counted

-- What an iterator has still to visit.
abbrev left : Hash → ℕ → List Ptr → List Ptr
left h bucket rest = rest ++ apply_loop (h.bucket_cnt - suc bucket) (suc bucket) h.buckets

abbrev Next : Hash → Iterator → List Ptr → Type 0
Next h i [] = i.elem ≡ none
Next h i (x ∷ xs) = (i.elem ≡ some x) × (left h i.bucket i.rest ≡ xs) × (i.bucket < h.bucket_cnt)

next_loop-Next :
    (k : ℕ) (h : Hash) (bucket : ℕ) (rest : List Ptr)
    → bucket < h.bucket_cnt
    → h.bucket_cnt < k + bucket
    → Next h (next_loop k h bucket rest) (left h bucket rest)
unfolding next_loop
next_loop-Next zero h bucket rest l f = absurd (omega arith)
next_loop-Next (suc k) h bucket (x ∷ xs) l f = (refl, refl, l)
next_loop-Next (suc k) h bucket [] l f = elim (Bool-cases (leb h.bucket_cnt (suc bucket))) [
  | inl u ↦ let z : h.bucket_cnt - suc bucket ≡ 0 = ground arith in rw (u, z) refl
  | inr u ↦
      let z : h.bucket_cnt - suc bucket ≡ suc (h.bucket_cnt - suc (suc bucket)) = ground arith in
      rw (u, z)
        (next_loop-Next k h (suc bucket) (h.buckets (suc bucket)) (ground arith) (omega arith))
]

-- The loop of the caller, `while (hash_next (&i))`, for at most `k` calls.
abbrev pub iterate : ℕ → Hash → Iterator → List Ptr
iterate zero h i = []
iterate (suc k) h i = elim (hash_next h i).elem [
  | none ↦ []
  | some x ↦ x ∷ iterate k h (hash_next h i)
]

hash_next-Next :
    (h : Hash) (i : Iterator) (xs : List Ptr)
    → i.bucket < h.bucket_cnt
    → left h i.bucket i.rest ≡ xs
    → Next h (hash_next h i) xs
unfolding hash_next
hash_next-Next h i xs l e =
    subst (Next h (hash_next h i)) e
      (next_loop-Next (suc h.bucket_cnt) h i.bucket i.rest l (omega arith))

iterate-left :
    (k : ℕ) (h : Hash) (i : Iterator) (xs : List Ptr)
    → i.bucket < h.bucket_cnt
    → left h i.bucket i.rest ≡ xs
    → length xs < k
    → iterate k h i ≡ xs
iterate-left zero h i xs l e f = absurd (omega arith)
iterate-left (suc k) h i [] l e f = rw (hash_next-Next h i [] l e, iterate) refl
iterate-left (suc k) h i (x ∷ xs) l e f =
    let (a, b, c) = hash_next-Next h i (x ∷ xs) l e in
    rw (a, iterate) (ap (λ ys. x ∷ ys) (iterate-left k h (hash_next h i) xs c b (omega arith)))

-- In a valid table, hash_first() and then hash_next() until it gives a null pointer visit the elements that
-- hash_apply() visits, in its order; they are as many as hash_size() says, so that one call more than that is enough.
pub iterate-hash_apply :
    (hash : Ptr → ℕ) (less : Ptr → Ptr → Bool) (h : Hash)
    → Valid hash less h
    → (iterate (suc (hash_size h)) h (hash_first h) ≡ hash_apply h)
      × (length (hash_apply h) ≡ hash_size h)
unfolding hash_first
iterate-hash_apply hash less h v =
    let n = length-hash_apply hash less h v in
    let p = v.all_placed.positive in
    let z : h.bucket_cnt ≡ suc (h.bucket_cnt - 1) = omega arith in
    let e : left h 0 (h.buckets 0) ≡ hash_apply h = ap (λ c. apply_loop c 0 h.buckets) (sym z) in
    (iterate-left (suc (hash_size h)) h (hash_first h) (hash_apply h) p e (omega (arith, n)), n)
