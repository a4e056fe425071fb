-- ===== src/HashTable/Table.antt =====
-- proj-pregame/src/lib/kernel/hash.c: what the operations do to the elements of a table.
use os_tools_and_features.Prelude.{
  ℕ, ◌-◌, ◌<◌, ◌≡◌, refl, sym, ap, subst, ◌∙◌, inl, inr, List, [], ◌∷◌, Option, none, some, Bool,
  true, false, not, ◌&&◌, ◌||◌, ◌==◌, arith, Bool-cases, ==_iff, ==_refl,
}
use os_tools_and_features.Threads.{Ptr}
use os_tools_and_features.Threads.Invariant.{has, Distinct}
use os_tools_and_features.HashTable.{
  Hash, best_bucket_cnt, push_front, bits_and, without, same, find_bucket, find_elem, move_all,
  rehash, insert_elem, remove_elem, bucket_of, hash_find,
}
use os_tools_and_features.HashTable.Counts.{total, total-moved}
use os_tools_and_features.HashTable.Buckets.{
  best_bucket_cnt_pos, find_bucket_lt, moved-has, moved-Distinct,
}

abbrev pub is_none : Option Ptr → Bool
is_none none = true
is_none (some x) = false

some_injective : {x y : Ptr} → some x ≡ some y → x ≡ y
some_injective {x} h = ap (λ o. elim o [ none ↦ x | some z ↦ z ]) h

-- What the caller's functions are to do: no element is less than itself, being equal is transitive, and
-- equal elements have the same hash.
pub record Comparison (hash : Ptr → ℕ) (less : Ptr → Ptr → Bool) : Type 0 where
  pub irreflexive : (x : Ptr) → less x x ≡ false
  pub transitive :
      (x y z : Ptr)
      → same hash less x y ≡ true
      → same hash less y z ≡ true
      → same hash less x z ≡ true
  pub hash_same : (x y : Ptr) → same hash less x y ≡ true → hash x ≡ hash y

without-has :
    (e : Ptr) (xs : List Ptr)
    → Distinct xs
    → (x : Ptr) → has x (without e xs) ≡ (has x xs && not (e == x))
without-has e [] d x = refl
without-has e (y ∷ xs) d x = elim (Bool-cases (y == e)) [
  | inl u ↦ rw u (elim (Bool-cases (e == x)) [
    | inl v ↦
        let w : has x xs ≡ false =
          subst (λ z. has z xs ≡ false) ((==_iff y e).0 u ∙ (==_iff e x).0 v) d.0 in
        ground (arith, v, w)
    | inr v ↦ ground (arith, u, v)
  ])
  | inr u ↦ rw u (ground (arith, u, without-has e xs d.1 x))
]

without-Distinct : (e : Ptr) (xs : List Ptr) → Distinct xs → Distinct (without e xs)
without-Distinct e [] d = tt
without-Distinct e (y ∷ xs) d = elim (Bool-cases (y == e)) [
  | inl u ↦ rw u d.1
  | inr u ↦ rw u (without-has e xs d.1 y ∙ ground (arith, d.0), without-Distinct e xs d.1)
]

module _ (hash : Ptr → ℕ) (less : Ptr → Ptr → Bool) where
  -- Each element is in the bucket of its hash, once.
  pub record Placed (h : Hash) : Type 0 where
    pub positive : 0 < h.bucket_cnt
    pub placed : (i : ℕ) (x : Ptr) → has x (h.buckets i) ≡ true → bucket_of hash less h x ≡ i
    pub distinct : (i : ℕ) → Distinct (h.buckets i)

  abbrev pub holds : Hash → Ptr → Bool
  holds h x = has x (h.buckets (bucket_of hash less h x))

  find_elem-some :
      (xs : List Ptr) (e x : Ptr)
      → find_elem hash less xs e ≡ some x
      → (has x xs ≡ true) × (same hash less x e ≡ true)
  find_elem-some [] e x h = absurd (ground arith)
  find_elem-some (y ∷ xs) e x h = elim (Bool-cases (same hash less y e)) [
    | inl u ↦
        let v : y ≡ x = some_injective (sym (rw u refl) ∙ h) in
        (ground (arith, ==_refl x, v), subst (λ w. same hash less w e ≡ true) v u)
    | inr u ↦ let (m, q) = find_elem-some xs e x (sym (rw u refl) ∙ h) in (ground (arith, m), q)
  ]

  find_elem-none :
      (xs : List Ptr) (e x : Ptr)
      → find_elem hash less xs e ≡ none
      → has x xs ≡ true
      → same hash less x e ≡ false
  find_elem-none [] e x h m = absurd (ground arith)
  find_elem-none (y ∷ xs) e x h m = elim (Bool-cases (same hash less y e)) [
    | inl u ↦ absurd (ground (arith, h, u))
    | inr u ↦ elim (Bool-cases (y == x)) [
      | inl v ↦ subst (λ w. same hash less w e ≡ false) ((==_iff y x).0 v) u
      | inr v ↦ find_elem-none xs e x (sym (rw u refl) ∙ h) (ground (arith, m, v))
    ]
  ]

  pub moved :
      (malloc : Bool) (h : Hash)
      → Placed h
      → (x : Ptr)
      → Placed (rehash hash less malloc h) × (holds (rehash hash less malloc h) x ≡ holds h x)
  unfolding rehash
  moved malloc h p x =
      let cnt = best_bucket_cnt h.elem_cnt in
      let pos : 0 < cnt = best_bucket_cnt_pos h.elem_cnt in
      let m : (x : Ptr) (j : ℕ)
          → has x (move_all hash less cnt h.bucket_cnt h.buckets 0 (λ i. []) j)
            ≡ (holds h x && find_bucket hash less cnt x == j) =
        λ x j.
          moved-has hash less cnt h.bucket_cnt h.buckets (bucket_of hash less h) x j
            (λ a. p.placed a x) (find_bucket_lt hash less h.bucket_cnt x p.positive) in
      elim (Bool-cases (cnt == h.bucket_cnt || not malloc)) [
        | inl u ↦ rw u (p, refl)
        | inr u ↦ rw u (
          record {
            positive = pos;
            placed = λ i x t. (==_iff (find_bucket hash less cnt x) i).0 (ground (arith, m x i));
            distinct =
                moved-Distinct hash less cnt h.bucket_cnt h.buckets p.distinct
                  (λ a b x s t. sym (p.placed a x s) ∙ p.placed b x t);
          },
          m x (find_bucket hash less cnt x) ∙ ground (arith, ==_refl (find_bucket hash less cnt x)),
        )
      ]

  pub moved-counted :
      (malloc : Bool) (h : Hash)
      → h.elem_cnt ≡ total h.bucket_cnt h.buckets
      → (rehash hash less malloc h).elem_cnt
        ≡ total (rehash hash less malloc h).bucket_cnt (rehash hash less malloc h).buckets
  unfolding rehash
  moved-counted malloc h p =
      let cnt = best_bucket_cnt h.elem_cnt in
      elim (Bool-cases (cnt == h.bucket_cnt || not malloc)) [
        | inl u ↦ rw u p
        | inr u ↦ rw u (
            p
            ∙ sym
                (total-moved hash less cnt (best_bucket_cnt_pos h.elem_cnt) h.bucket_cnt h.buckets))
      ]

  pub inserted :
      (h : Hash) (e : Ptr)
      → Placed h
      → holds h e ≡ false
      → (Placed (insert_elem hash less (bucket_of hash less h e) e h))
        × ((x : Ptr)
            → holds (insert_elem hash less (bucket_of hash less h e) e h) x ≡ (holds h x || e == x))
  inserted h e p n =
      let b = bucket_of hash less h e in
      let at : (i : ℕ) (x : Ptr)
          → has x (push_front h.buckets b e i) ≡ (has x (h.buckets i) || (i == b && e == x)) =
        λ i x. ground arith in
      (
        record {
          positive = p.positive;
          placed = λ i x t. elim (Bool-cases (has x (h.buckets i))) [
            | inl u ↦ p.placed i x u
            | inr u ↦
                let q : b ≡ i = ground (arith, at i x) in
                ap (bucket_of hash less h) (sym ((==_iff e x).0 (ground (arith, at i x)))) ∙ q
          ];
          distinct = λ i. elim (Bool-cases (i == b)) [
            | inl u ↦ rw u (
                let v : i ≡ b = (==_iff i b).0 u in
                (subst (λ a. has e (h.buckets a) ≡ false) (sym v) n, p.distinct i))
            | inr u ↦ rw u (p.distinct i)
          ];
        },
        λ x. at (bucket_of hash less h x) x ∙ elim (Bool-cases (e == x)) [
          | inl u ↦
              let v : bucket_of hash less h e ≡ bucket_of hash less h x =
                ap (bucket_of hash less h) ((==_iff e x).0 u) in
              ground (arith, u, v)
          | inr u ↦ ground (arith, u)
        ],
      )

  pub removed :
      (h : Hash) (e : Ptr)
      → Placed h
      → (Placed (remove_elem hash less e h))
        × ((x : Ptr) → holds (remove_elem hash less e h) x ≡ (holds h x && not (e == x)))
  removed h e p = (
    record {
      positive = p.positive;
      placed = λ i x t. p.placed i x (ground (arith, without-has e (h.buckets i) (p.distinct i) x));
      distinct = λ i. without-Distinct e (h.buckets i) (p.distinct i);
    },
    λ x.
        without-has e (h.buckets (bucket_of hash less h x)) (p.distinct (bucket_of hash less h x))
          x,
  )

  -- A valid table counts its elements and has no two equal ones.
  pub record Valid (h : Hash) : Type 0 where
    pub all_placed : Placed h
    pub counted : h.elem_cnt ≡ total h.bucket_cnt h.buckets
    pub apart :
        (x y : Ptr) → holds h x ≡ true → holds h y ≡ true → same hash less x y ≡ true → x ≡ y

  pub same_symmetric : (x y : Ptr) → same hash less x y ≡ same hash less y x
  same_symmetric x y = ground arith

  module _ (c : Comparison hash less) where
    pub find_holds :
        (h : Hash) (e x : Ptr)
        → Placed h
        → hash_find hash less h e ≡ some x
        → (holds h x ≡ true) × (same hash less x e ≡ true)
    unfolding hash_find
    find_holds h e x p q =
        let (m, s) = find_elem-some (h.buckets (bucket_of hash less h e)) e x q in
        (
          subst (λ i. has x (h.buckets i) ≡ true) (sym (p.placed (bucket_of hash less h e) x m)) m,
          s,
        )

    pub find_none :
        (h : Hash) (e x : Ptr)
        → Placed h
        → hash_find hash less h e ≡ none
        → holds h x ≡ true
        → same hash less x e ≡ false
    unfolding hash_find
    find_none h e x p q m = elim (Bool-cases (same hash less x e)) [
      | inl u ↦
          let i : bucket_of hash less h x ≡ bucket_of hash less h e =
            ap (λ v. bits_and 32 v (h.bucket_cnt - 1)) (c.hash_same x e u) in
          find_elem-none (h.buckets (bucket_of hash less h e)) e x q
            (subst (λ i. has x (h.buckets i) ≡ true) i m)
      | inr u ↦ u
    ]

    pub self : (e : Ptr) → same hash less e e ≡ true
    self e = ground (arith, c.irreflexive e)
