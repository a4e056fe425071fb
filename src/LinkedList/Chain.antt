-- ===== src/LinkedList/Chain.antt =====
-- proj-pregame/src/lib/kernel/list.c: what a chain of elements is.
use os_tools_and_features.Prelude.{
  ◌≡◌, refl, sym, ap, ◌∙◌, List, [], ◌∷◌, ◌++◌, true, false, ◌==◌, ◌||◌, arith,
}
use os_tools_and_features.Threads.{Ptr, null}
use os_tools_and_features.Threads.Invariant.{has, has-append, Distinct}
use os_tools_and_features.LinkedList.{Memory}

-- Each element of the list is linked with the next one, in both directions.
abbrev pub Linked : Memory → List Ptr → Type 0
Linked m [] = Unit
Linked m (a ∷ []) = Unit
Linked m (a ∷ b ∷ xs) = (m.next a ≡ b) × (m.prev b ≡ a) × Linked m (b ∷ xs)

-- The elements from a header to the other, these included.
pub record Chain (m : Memory) (w : List Ptr) : Type 0 where
  pub linked : Linked m w
  pub distinct : Distinct w
  pub nonnull : has null w ≡ false

abbrev pub first_or : List Ptr → Ptr → Ptr
first_or [] t = t
first_or (x ∷ xs) t = x

abbrev pub last_of : Ptr → List Ptr → Ptr
last_of a [] = a
last_of a (b ∷ xs) = last_of b xs

-- All but the last one, and all but the first one.
abbrev pub init : List Ptr → List Ptr
init [] = []
init (a ∷ []) = []
init (a ∷ b ∷ xs) = a ∷ init (b ∷ xs)

abbrev pub rest : List Ptr → List Ptr
rest [] = []
rest (a ∷ xs) = xs

module _ (m : Memory) where
  pub Linked-left :
      (xs : List Ptr) (y : Ptr) (ys : List Ptr)
      → Linked m (xs ++ (y ∷ ys))
      → Linked m (xs ++ (y ∷ []))
  Linked-left [] y ys l = tt
  Linked-left (x ∷ []) y ys l = (l.0, l.1, tt)
  Linked-left (x ∷ x' ∷ xs) y ys l = (l.0, l.1, Linked-left (x' ∷ xs) y ys l.2)

  pub Linked-right :
      (xs : List Ptr) (y : Ptr) (ys : List Ptr) → Linked m (xs ++ (y ∷ ys)) → Linked m (y ∷ ys)
  Linked-right [] y ys l = l
  Linked-right (x ∷ []) y ys l = l.2
  Linked-right (x ∷ x' ∷ xs) y ys l = Linked-right (x' ∷ xs) y ys l.2

  pub Linked-join :
      (xs : List Ptr) (y : Ptr) (ys : List Ptr)
      → Linked m (xs ++ (y ∷ []))
      → Linked m (y ∷ ys)
      → Linked m (xs ++ (y ∷ ys))
  Linked-join [] y ys l k = k
  Linked-join (x ∷ []) y ys l k = (l.0, l.1, k)
  Linked-join (x ∷ x' ∷ xs) y ys l k = (l.0, l.1, Linked-join (x' ∷ xs) y ys l.2 k)

  pub Linked-snoc :
      (x : Ptr) (xs : List Ptr) (y : Ptr)
      → Linked m (x ∷ xs)
      → m.next (last_of x xs) ≡ y
      → m.prev y ≡ last_of x xs
      → Linked m (x ∷ (xs ++ (y ∷ [])))
  Linked-snoc x [] y l e f = (e, f, tt)
  Linked-snoc x (x' ∷ xs) y l e f = (l.0, l.1, Linked-snoc x' xs y l.2 e f)

  pub Linked-init :
      (x : Ptr) (xs : List Ptr) (y : Ptr)
      → Linked m (x ∷ (xs ++ (y ∷ [])))
      → Linked m (x ∷ xs) × (m.next (last_of x xs) ≡ y) × (m.prev y ≡ last_of x xs)
  Linked-init x [] y l = (tt, l.0, l.1)
  Linked-init x (x' ∷ xs) y l = let (k, e, f) = Linked-init x' xs y l.2 in ((l.0, l.1, k), e, f)

-- The links of a chain are those of its elements, but the outermost two.
pub Linked-frame :
    (m g : Memory) (w : List Ptr)
    → Linked m w
    → ((x : Ptr) → has x (init w) ≡ true → g.next x ≡ m.next x)
    → ((x : Ptr) → has x (rest w) ≡ true → g.prev x ≡ m.prev x)
    → Linked g w
Linked-frame m g [] l h k = tt
Linked-frame m g (a ∷ []) l h k = tt
Linked-frame m g (a ∷ b ∷ xs) l h k = (
  h a (ground arith) ∙ l.0,
  k b (ground arith) ∙ l.1,
  Linked-frame m g (b ∷ xs) l.2 (λ x e. h x (ground arith)) (λ x e. k x (ground arith)),
)

pub has-last_of : (a : Ptr) (xs : List Ptr) → has (last_of a xs) (a ∷ xs) ≡ true
has-last_of a [] = ground arith
has-last_of a (b ∷ xs) = ground (arith, has-last_of b xs)

pub has-init : (x : Ptr) (w : List Ptr) → has x (init w) ≡ true → has x w ≡ true
has-init x [] h = h
has-init x (a ∷ []) h = cc
has-init x (a ∷ b ∷ xs) h = ground (arith, has-init x (b ∷ xs))

-- The elements of two parts of a list without repetition are apart.
pub Distinct-append :
    (xs ys : List Ptr)
    → Distinct (xs ++ ys)
    → Distinct xs × Distinct ys × ((x : Ptr) → has x xs ≡ true → has x ys ≡ false)
Distinct-append [] ys d = (tt, d, λ x h. cc)
Distinct-append (x ∷ xs) ys d =
    let (p, q, r) = Distinct-append xs ys d.1 in
    ((ground (arith, has-append x xs ys), p), q, λ u h. ground (arith, has-append x xs ys, r u))

pub append-Distinct :
    (xs ys : List Ptr)
    → Distinct xs
    → Distinct ys
    → ((x : Ptr) → has x xs ≡ true → has x ys ≡ false)
    → Distinct (xs ++ ys)
append-Distinct [] ys d e h = e
append-Distinct (x ∷ xs) ys d e h = (
  ground (arith, has-append x xs ys, h x),
  append-Distinct xs ys d.1 e (λ u k. h u (ground arith)),
)

pub has-init_snoc : (x : Ptr) (xs : List Ptr) (y : Ptr) → has x (init (xs ++ (y ∷ []))) ≡ has x xs
has-init_snoc x [] y = refl
has-init_snoc x (a ∷ []) y = refl
has-init_snoc x (a ∷ b ∷ xs) y = ground (arith, has-init_snoc x (b ∷ xs) y)

pub has-rest : (x : Ptr) (w : List Ptr) → has x (rest w) ≡ true → has x w ≡ true
has-rest x [] h = h
has-rest x (a ∷ w) h = ground arith

-- A part that ends in `p`, framed: its elements but `p` keep their next, and it keeps its previous.
pub Linked-frame_front :
    (m g : Memory) (xs : List Ptr) (p : Ptr)
    → Linked m (xs ++ (p ∷ []))
    → ((x : Ptr) → has x xs ≡ true → g.next x ≡ m.next x)
    → ((x : Ptr) → has x xs ≡ true → g.prev x ≡ m.prev x)
    → g.prev p ≡ m.prev p
    → Linked g (xs ++ (p ∷ []))
Linked-frame_front m g xs p l h k e =
    Linked-frame m g (xs ++ (p ∷ [])) l (λ x i. h x (sym (has-init_snoc x xs p) ∙ i))
      (λ x i. ground (arith, has-rest x (xs ++ (p ∷ [])), has-append x xs (p ∷ []), k x))

-- A part that begins with `q`: its elements but `q` keep their previous, and all keep their next.
pub Linked-frame_back :
    (m g : Memory) (q : Ptr) (xs : List Ptr)
    → Linked m (q ∷ xs)
    → ((x : Ptr) → has x (q ∷ xs) ≡ true → g.next x ≡ m.next x)
    → ((x : Ptr) → has x xs ≡ true → g.prev x ≡ m.prev x)
    → Linked g (q ∷ xs)
Linked-frame_back m g q xs l h k =
    Linked-frame m g (q ∷ xs) l (λ x i. h x (has-init x (q ∷ xs) i)) k

-- The parts of a chain around the elements `f` to `last_of f fs`.
pub record Parts (m : Memory) (ps : List Ptr) (p f : Ptr) (fs : List Ptr) (q : Ptr) (qs : List Ptr)
    : Type 0 where
  pub front : Linked m (ps ++ (p ∷ []))
  pub middle : Linked m (f ∷ fs)
  pub back : Linked m (q ∷ qs)
  pub next_p : m.next p ≡ f
  pub prev_f : m.prev f ≡ p
  pub next_last : m.next (last_of f fs) ≡ q
  pub prev_q : m.prev q ≡ last_of f fs

pub Chain-Parts :
    (m : Memory) (ps : List Ptr) (p f : Ptr) (fs : List Ptr) (q : Ptr) (qs : List Ptr)
    → Linked m (ps ++ (p ∷ f ∷ (fs ++ (q ∷ qs))))
    → Parts m ps p f fs q qs
Chain-Parts m ps p f fs q qs l =
    let r = Linked-right m ps p (f ∷ (fs ++ (q ∷ qs))) l in
    let (a, e, b) = Linked-init m f fs q (Linked-left m (f ∷ fs) q qs r.2) in
    record {
      front = Linked-left m ps p (f ∷ (fs ++ (q ∷ qs))) l;
      middle = a;
      back = Linked-right m (f ∷ fs) q qs r.2;
      next_p = r.0;
      prev_f = r.1;
      next_last = e;
      prev_q = b;
    }

-- The elements of the parts differ.
pub record Apart (ps : List Ptr) (p : Ptr) (fs : List Ptr) (q : Ptr) (qs : List Ptr) : Type 0 where
  pub distinct_ps : Distinct ps
  pub distinct_fs : Distinct fs
  pub distinct_qs : Distinct qs
  pub p_ps : has p ps ≡ false
  pub q_qs : has q qs ≡ false
  pub p_fs : has p fs ≡ false
  pub q_fs : has q fs ≡ false
  pub p_qs : has p (q ∷ qs) ≡ false
  pub q_ps : has q ps ≡ false
  pub ps_fs : (x : Ptr) → has x ps ≡ true → has x fs ≡ false
  pub ps_qs : (x : Ptr) → has x ps ≡ true → has x qs ≡ false
  pub fs_qs : (x : Ptr) → has x fs ≡ true → has x qs ≡ false

pub Distinct-Apart :
    (ps : List Ptr) (p : Ptr) (fs : List Ptr) (q : Ptr) (qs : List Ptr)
    → Distinct (ps ++ (p ∷ (fs ++ (q ∷ qs))))
    → Apart ps p fs q qs
Distinct-Apart ps p fs q qs d =
    let (a, b, s) = Distinct-append ps (p ∷ (fs ++ (q ∷ qs))) d in
    let (e, f, t) = Distinct-append fs (q ∷ qs) b.1 in
    record {
      distinct_ps = a;
      distinct_fs = e;
      distinct_qs = f.1;
      p_ps = ground (arith, s p);
      q_qs = f.0;
      p_fs = ground (arith, b.0, has-append p fs (q ∷ qs));
      q_fs = ground (arith, t q);
      p_qs = ground (arith, b.0, has-append p fs (q ∷ qs));
      q_ps = ground (arith, s q, has-append q fs (q ∷ qs));
      ps_fs = λ x h. ground (arith, s x, has-append x fs (q ∷ qs));
      ps_qs = λ x h. ground (arith, s x, has-append x fs (q ∷ qs));
      fs_qs = λ x h. ground (arith, t x);
    }

pub Apart-Distinct :
    (ps : List Ptr) (p : Ptr) (fs : List Ptr) (q : Ptr) (qs : List Ptr)
    → Apart ps p fs q qs
    → Distinct (ps ++ (p ∷ (fs ++ (q ∷ qs))))
Apart-Distinct ps p fs q qs a =
    append-Distinct ps (p ∷ (fs ++ (q ∷ qs))) a.distinct_ps
      (
        ground (arith, a.p_fs, a.p_qs, has-append p fs (q ∷ qs)),
        append-Distinct fs (q ∷ qs) a.distinct_fs (a.q_qs, a.distinct_qs)
            (λ x h. ground (arith, a.fs_qs x, a.q_fs)),
      )
      (λ x h. ground (arith, a.ps_fs x, a.ps_qs x, a.p_ps, a.q_ps, has-append x fs (q ∷ qs)))

pub has-parts :
    (x : Ptr) (ps : List Ptr) (p : Ptr) (fs : List Ptr) (q : Ptr) (qs : List Ptr)
    → has x (ps ++ (p ∷ (fs ++ (q ∷ qs))))
      ≡ (has x ps || (p == x) || has x fs || (q == x) || has x qs)
has-parts x ps p fs q qs =
    ground (arith, has-append x ps (p ∷ (fs ++ (q ∷ qs))), has-append x fs (q ∷ qs))

pub init-last_of :
    (x a : Ptr) (xs : List Ptr)
    → Distinct (a ∷ xs)
    → has x (init (a ∷ xs)) ≡ true
    → (last_of a xs == x) ≡ false
init-last_of x a [] d h = cc
init-last_of x a (b ∷ xs) d h = ground (arith, init-last_of x b xs d.1, has-last_of b xs)

pub has-init_append :
    (x : Ptr) (xs : List Ptr) (q : Ptr) (qs : List Ptr)
    → has x xs ≡ true
    → has x (init (xs ++ (q ∷ qs))) ≡ true
has-init_append x [] q qs h = cc
has-init_append x (a ∷ []) q qs h = ground arith
has-init_append x (a ∷ b ∷ xs) q qs h = ground (arith, has-init_append x (b ∷ xs) q qs)

pub has-rest_append :
    (x : Ptr) (ps : List Ptr) (p : Ptr) (xs : List Ptr)
    → has x xs ≡ true
    → has x (rest (ps ++ (p ∷ xs))) ≡ true
has-rest_append x [] p xs h = h
has-rest_append x (a ∷ ps) p xs h = ground (arith, has-append x ps (p ∷ xs))

pub next-nonnull :
    (m : Memory) (x : Ptr) (w : List Ptr)
    → Linked m w
    → has null w ≡ false
    → has x (init w) ≡ true
    → (m.next x == null) ≡ false
next-nonnull m x [] l n h = cc
next-nonnull m x (a ∷ []) l n h = cc
next-nonnull m x (a ∷ b ∷ w) l n h = ground (arith, next-nonnull m x (b ∷ w) l.2)

pub prev-nonnull :
    (m : Memory) (x : Ptr) (w : List Ptr)
    → Linked m w
    → has null w ≡ false
    → has x (rest w) ≡ true
    → (m.prev x == null) ≡ false
prev-nonnull m x [] l n h = cc
prev-nonnull m x (a ∷ []) l n h = cc
prev-nonnull m x (a ∷ b ∷ w) l n h = ground (arith, prev-nonnull m x (b ∷ w) l.2)

-- A list up to its last element.
pub init-last : (x : Ptr) (xs ys : List Ptr) → x ∷ (xs ++ ys) ≡ init (x ∷ xs) ++ (last_of x xs ∷ ys)
init-last x [] ys = refl
init-last x (y ∷ xs) ys = ap (λ z. x ∷ z) (init-last y xs ys)
