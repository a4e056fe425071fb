-- ===== src/HashTable/Operations.antt =====
-- proj-pregame/src/lib/kernel/hash.c: hash_insert(), hash_replace() and hash_delete(), with the hash_find()
-- that follows them.
use os_tools_and_features.Prelude.{
  ℕ, suc, ◌≡◌, refl, sym, ap, subst, ◌∙◌, inl, inr, Option, none, some, Bool, true, false,
  false≢true, not, ◌&&◌, ◌||◌, ◌==◌, arith, Bool-cases, ==_iff, ==_refl, Option-cases,
}
use os_tools_and_features.Threads.{Ptr}
use os_tools_and_features.HashTable.{
  Hash, same, rehash, insert_elem, remove_elem, bucket_of, hash_find, hash_insert, hash_replace,
  hash_delete,
}
use os_tools_and_features.HashTable.Buckets.{find_bucket_lt}
use os_tools_and_features.HashTable.Counts.{total-without, total-insert}
use os_tools_and_features.HashTable.Table.{
  moved-counted, Comparison, Valid, holds, moved, inserted, removed, find_holds, find_none,
  same_symmetric, self, is_none,
}

abbrev pub is_elem : Option Ptr → Ptr → Bool
is_elem none x = false
is_elem (some y) x = y == x

abbrev pub elem_or : Option Ptr → Ptr → Ptr
elem_or none x = x
elem_or (some y) x = y

module _ (hash : Ptr → ℕ) (less : Ptr → Ptr → Bool) where
  rehash-Valid :
      (malloc : Bool) (h : Hash)
      → Valid hash less h
      → (Valid hash less (rehash hash less malloc h))
        × ((x : Ptr) → holds hash less (rehash hash less malloc h) x ≡ holds hash less h x)
  rehash-Valid malloc h v =
      let k : (x : Ptr) → holds hash less (rehash hash less malloc h) x ≡ holds hash less h x =
        λ x. (moved hash less malloc h v.all_placed x).1 in
      (
        record {
          all_placed = (moved hash less malloc h v.all_placed 0).0;
          counted = moved-counted hash less malloc h v.counted;
          apart = λ x y a b. v.apart x y (sym (k x) ∙ a) (sym (k y) ∙ b);
        },
        k,
      )

  remove-Valid :
      (h : Hash) (e : Ptr)
      → Valid hash less h
      → holds hash less h e ≡ true
      → (Valid hash less (remove_elem hash less e h))
        × ((x : Ptr)
            → holds hash less (remove_elem hash less e h) x ≡ (holds hash less h x && not (e == x)))
  remove-Valid h e v m =
      let (p, k) = removed hash less h e v.all_placed in
      (
        record {
          all_placed = p;
          counted =
              let z =
                total-without h.bucket_cnt h.buckets e (bucket_of hash less h e)
                  (find_bucket_lt hash less h.bucket_cnt e v.all_placed.positive) m
                  (λ i. v.all_placed.placed i e) in
              omega (arith, v.counted, z);
          apart = λ x y a b. v.apart x y (ground (arith, k x, a)) (ground (arith, k y, b));
        },
        k,
      )

  module _ (c : Comparison hash less) where
    insert-Valid :
        (h : Hash) (e : Ptr)
        → Valid hash less h
        → ((x : Ptr) → holds hash less h x ≡ true → same hash less x e ≡ false)
        → (Valid hash less (insert_elem hash less (bucket_of hash less h e) e h))
          × ((x : Ptr)
              → holds hash less (insert_elem hash less (bucket_of hash less h e) e h) x
                ≡ (holds hash less h x || e == x))
    insert-Valid h e v n =
        let absent : holds hash less h e ≡ false = elim (Bool-cases (holds hash less h e)) [
          | inl u ↦ absurd (false≢true (sym (n e u) ∙ self hash less c e))
          | inr u ↦ u
        ] in
        let (p, k) = inserted hash less h e v.all_placed absent in
        (
          record {
            all_placed = p;
            counted =
                ap suc v.counted
                ∙ sym (total-insert hash less h.bucket_cnt v.all_placed.positive h.buckets e);
            apart = λ x y a b s. elim (Bool-cases (e == x)) [
              | inl i ↦ elim (Bool-cases (e == y)) [
                | inl j ↦ sym ((==_iff e x).0 i) ∙ (==_iff e y).0 j
                | inr j ↦
                    let w = n y (ground (arith, k y, b, j)) in
                    let s' = subst (λ z. same hash less z y ≡ true) (sym ((==_iff e x).0 i)) s in
                    absurd (false≢true (sym w ∙ same_symmetric hash less y e ∙ s'))
              ]
              | inr i ↦ elim (Bool-cases (e == y)) [
                | inl j ↦
                    let w = n x (ground (arith, k x, a, i)) in
                    absurd (
                      false≢true
                        (sym w ∙ subst (λ z. same hash less x z ≡ true) (sym ((==_iff e y).0 j)) s))
                | inr j ↦ v.apart x y (ground (arith, k x, a, i)) (ground (arith, k y, b, j)) s
              ]
            ];
          },
          k,
        )

    find_equal :
        (h : Hash) (e x : Ptr)
        → Valid hash less h
        → holds hash less h x ≡ true
        → same hash less x e ≡ true
        → hash_find hash less h e ≡ some x
    find_equal h e x v m s = elim (Option-cases (hash_find hash less h e)) [
      | inl n ↦ absurd (false≢true (sym (find_none hash less c h e x v.all_placed n m) ∙ s))
      | inr (y, q) ↦
          let (a, b) = find_holds hash less c h e y v.all_placed q in
          q ∙ ap some (v.apart y x a m (c.transitive y e x b (same_symmetric hash less e x ∙ s)))
    ]

    find_no_other :
        (h : Hash) (e : Ptr)
        → Valid hash less h
        → ((x : Ptr) → holds hash less h x ≡ true → same hash less x e ≡ false)
        → hash_find hash less h e ≡ none
    find_no_other h e v n = elim (Option-cases (hash_find hash less h e)) [
      | inl q ↦ q
      | inr (y, q) ↦
          let (a, b) = find_holds hash less c h e y v.all_placed q in
          absurd (false≢true (sym (n y a) ∙ b))
    ]

    -- With the element that hash_find() gives removed, no element equals `e`.
    others_differ :
        (h : Hash) (e x : Ptr)
        → Valid hash less h
        → hash_find hash less h e ≡ some x
        → (y : Ptr) → holds hash less (remove_elem hash less x h) y ≡ true
        → same hash less y e ≡ false
    others_differ h e x v q y m =
        let (a, b) = find_holds hash less c h e x v.all_placed q in
        let (_, k) = remove-Valid h x v a in
        elim (Bool-cases (same hash less y e)) [
          | inl u ↦
              let w : x ≡ y = sym (
                v.apart y x (ground (arith, k y, m)) a
                  (c.transitive y e x u (same_symmetric hash less e x ∙ b))) in
              absurd (ground (arith, k y, m, (==_iff x y).1 w))
          | inr u ↦ u
        ]

    -- A valid table that has the elements `elems`, in which hash_find() of `e` gives `found`.
    abbrev pub Outcome : Hash → (Ptr → Bool) → Ptr → Option Ptr → Type 0
    Outcome t elems e found =
        (Valid hash less t)
        × ((x : Ptr) → holds hash less t x ≡ elems x)
        × (hash_find hash less t e ≡ found)

    insert_outcome :
        (malloc : Bool) (h : Hash) (e : Ptr)
        → Valid hash less h
        → ((x : Ptr) → holds hash less h x ≡ true → same hash less x e ≡ false)
        → Outcome
            (rehash hash less malloc (insert_elem hash less (bucket_of hash less h e) e h))
            (λ x. holds hash less h x || e == x)
            e
            (some e)
    insert_outcome malloc h e v n =
        let (w, k) = insert-Valid h e v n in
        let t = insert_elem hash less (bucket_of hash less h e) e h in
        let (z, l) = rehash-Valid malloc t w in
        (
          z,
          λ x. l x ∙ k x,
          find_equal (rehash hash less malloc t) e e z (l e ∙ k e ∙ ground (arith, ==_refl e))
              (self hash less c e),
        )

    inserts :
        (malloc : Bool) (h : Hash) (new : Ptr) (old : Option Ptr)
        → Valid hash less h
        → hash_find hash less h new ≡ old
        → Outcome
            (rehash hash less malloc (elim old [
              | none ↦ insert_elem hash less (bucket_of hash less h new) new h
              | some x ↦ h
            ]))
            (λ x. holds hash less h x || (is_none old && new == x))
            new
            (some (elem_or old new))
    inserts malloc h new none v q =
        insert_outcome malloc h new v (λ x. find_none hash less c h new x v.all_placed q)
    inserts malloc h new (some y) v q =
        let (z, l) = rehash-Valid malloc h v in
        let (a, b) = find_holds hash less c h new y v.all_placed q in
        (z, λ x. l x ∙ ground arith, find_equal (rehash hash less malloc h) new y z (l y ∙ a) b)

    -- For a comparison and a valid table, hash_insert() returns what hash_find() finds, leaves a valid table,
    -- adds the element `new` when none was found and no other, and a hash_find() of `new` then gives the
    -- element returned, or `new`; with memory for a rehash() or without.
    pub hash_insert-hash_find :
        (malloc : Bool) (h : Hash) (new : Ptr)
        → Valid hash less h
        → let r = hash_insert hash less malloc h new in
          (r.elem ≡ hash_find hash less h new)
          × Outcome r.table
              (λ x. holds hash less h x || (is_none r.elem && new == x))
              new
              (some (elem_or r.elem new))
    unfolding hash_insert hash_find
    hash_insert-hash_find malloc h new v =
        (refl, inserts malloc h new (hash_find hash less h new) v refl)

    replaces :
        (malloc : Bool) (h : Hash) (new : Ptr) (old : Option Ptr)
        → Valid hash less h
        → hash_find hash less h new ≡ old
        → Outcome
            (rehash hash less malloc (
              insert_elem hash less
                (bucket_of hash less h new)
                new
                (elim old [ none ↦ h | some x ↦ remove_elem hash less x h ])))
            (λ x. (holds hash less h x && not (is_elem old x)) || new == x)
            new
            (some new)
    replaces malloc h new none v q =
        let (z, l, f) =
          insert_outcome malloc h new v (λ x. find_none hash less c h new x v.all_placed q) in
        (z, λ x. l x ∙ ground arith, f)
    replaces malloc h new (some y) v q =
        let (w, k) = remove-Valid h y v (find_holds hash less c h new y v.all_placed q).0 in
        let (z, l, f) =
          insert_outcome malloc (remove_elem hash less y h) new w (others_differ h new y v q) in
        (z, λ x. l x ∙ ground (arith, k x), f)

    -- For a comparison and a valid table, hash_replace() returns what hash_find() finds, leaves a valid table,
    -- takes that element out and puts `new` in, changes no other element, and a hash_find() of `new` then
    -- gives `new`; with memory for a rehash() or without.
    pub hash_replace-hash_find :
        (malloc : Bool) (h : Hash) (new : Ptr)
        → Valid hash less h
        → let r = hash_replace hash less malloc h new in
          (r.elem ≡ hash_find hash less h new)
          × Outcome r.table
              (λ x. (holds hash less h x && not (is_elem r.elem x)) || new == x)
              new
              (some new)
    unfolding hash_replace hash_find
    hash_replace-hash_find malloc h new v =
        (refl, replaces malloc h new (hash_find hash less h new) v refl)

    deletes :
        (malloc : Bool) (h : Hash) (e : Ptr) (found : Option Ptr)
        → Valid hash less h
        → hash_find hash less h e ≡ found
        → Outcome
            (elim found [ none ↦ h | some x ↦ rehash hash less malloc (remove_elem hash less x h) ])
            (λ x. holds hash less h x && not (is_elem found x))
            e
            none
    deletes malloc h e none v q = (v, λ x. ground arith, q)
    deletes malloc h e (some y) v q =
        let (w, k) = remove-Valid h y v (find_holds hash less c h e y v.all_placed q).0 in
        let t = remove_elem hash less y h in
        let (z, l) = rehash-Valid malloc t w in
        (
          z,
          λ x. l x ∙ k x,
          find_no_other (rehash hash less malloc t) e z
              (λ x m. others_differ h e y v q x (sym (l x) ∙ m)),
        )

    -- For a comparison and a valid table, hash_delete() returns what hash_find() finds, leaves a valid table,
    -- takes that element out and no other, and a hash_find() of `e` then finds none; with memory for a
    -- rehash() or without.
    pub hash_delete-hash_find :
        (malloc : Bool) (h : Hash) (e : Ptr)
        → Valid hash less h
        → let r = hash_delete hash less malloc h e in
          (r.elem ≡ hash_find hash less h e)
          × Outcome r.table (λ x. holds hash less h x && not (is_elem r.elem x)) e none
    unfolding hash_delete hash_find
    hash_delete-hash_find malloc h e v = (refl, deletes malloc h e (hash_find hash less h e) v refl)
