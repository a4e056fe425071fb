-- ===== src/Files/Counts.antt =====
-- proj-pregame/src/filesys/file.c: the open files that have an inode, counted.
use os_tools_and_features.Prelude.{
  ℕ, ◌+◌, ◌≤◌, ◌<◌, ◌≡◌, refl, ap, inl, inr, List, [], ◌∷◌, Bool, true, false, ◌==◌, arith,
  Bool-cases, ==_iff,
}
use os_tools_and_features.Threads.{Ptr}
use os_tools_and_features.Threads.Invariant.{has, Distinct}
use os_tools_and_features.Files.{without}

abbrev pub one : Bool → ℕ
one true = 1
one false = 0

abbrev pub count : (Ptr → Bool) → List Ptr → ℕ
count p [] = 0
count p (x ∷ xs) = one (p x) + count p xs

pub one-pos : (b : Bool) → b ≡ true → one b ≡ 1
one-pos b e = ap one e

pub count-same :
    (p q : Ptr → Bool) (f : Ptr) (xs : List Ptr)
    → ((x : Ptr) → (x == f) ≡ false → p x ≡ q x)
    → has f xs ≡ false
    → count p xs ≡ count q xs
count-same p q f [] h n = refl
count-same p q f (x ∷ xs) h n =
    let e = ap one (h x (ground arith)) in omega (arith, count-same p q f xs h (ground arith))

-- A predicate that changes at one element.
pub count-change :
    (p q : Ptr → Bool) (f : Ptr) (xs : List Ptr)
    → ((x : Ptr) → (x == f) ≡ false → p x ≡ q x)
    → Distinct xs
    → has f xs ≡ true
    → count p xs + one (q f) ≡ count q xs + one (p f)
count-change p q f [] h d i = absurd cc
count-change p q f (x ∷ xs) h d i = elim (Bool-cases (x == f)) [
  | inl e ↦
      let a = (==_iff x f).0 e in
      let u : one (p x) ≡ one (p f) = ap (λ z. one (p z)) a in
      let v : one (q x) ≡ one (q f) = ap (λ z. one (q z)) a in
      let w = count-same p q f xs h (ground (arith, d.0)) in omega arith
  | inr e ↦
      let u = ap one (h x e) in let w = count-change p q f xs h d.1 (ground arith) in omega arith
]

pub count-without :
    (p : Ptr → Bool) (f : Ptr) (xs : List Ptr)
    → has f xs ≡ true
    → count p xs ≡ one (p f) + count p (without f xs)
count-without p f [] i = absurd cc
count-without p f (x ∷ xs) i = elim (Bool-cases (x == f)) [
  | inl e ↦
      let u : one (p x) ≡ one (p f) = ap (λ z. one (p z)) ((==_iff x f).0 e) in rw e (omega arith)
  | inr e ↦ let w = count-without p f xs (ground arith) in rw e (omega arith)
]

pub has-without : (x f : Ptr) (xs : List Ptr) → has x xs ≡ false → has x (without f xs) ≡ false
has-without x f [] h = h
has-without x f (y ∷ xs) h = ground (arith, has-without x f xs)

pub without-Distinct : (f : Ptr) (xs : List Ptr) → Distinct xs → Distinct (without f xs)
without-Distinct f [] d = d
without-Distinct f (x ∷ xs) d = elim (Bool-cases (x == f)) [
  | inl e ↦ rw e d.1
  | inr e ↦ rw e (has-without x f xs d.0, without-Distinct f xs d.1)
]

pub without-gone : (f : Ptr) (xs : List Ptr) → Distinct xs → has f (without f xs) ≡ false
without-gone f [] d = refl
without-gone f (x ∷ xs) d = ground (arith, d.0, without-gone f xs)

pub count_le :
    (p q : Ptr → Bool) (xs : List Ptr)
    → ((x : Ptr) → p x ≡ true → q x ≡ true)
    → count p xs ≤ count q xs
count_le p q [] h = omega arith
count_le p q (x ∷ xs) h =
    let w = count_le p q xs h in
    elim (Bool-cases (p x)) [ inl e ↦ rw (e, h x e) (omega arith) | inr e ↦ rw e (omega arith) ]

pub count_some :
    (p : Ptr → Bool) (f : Ptr) (xs : List Ptr) → has f xs ≡ true → p f ≡ true → 0 < count p xs
count_some p f xs i e = omega (arith, count-without p f xs i, one-pos (p f) e)
