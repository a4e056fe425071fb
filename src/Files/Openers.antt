-- ===== src/Files/Openers.antt =====
-- proj-pregame/src/filesys/file.c: file_deny_write(), file_allow_write(), file_reopen() and file_close()
-- keep the counts of the inodes.
use os_tools_and_features.Prelude.{
  ℕ, suc, ◌+◌, ◌-◌, ◌≤◌, ◌<◌, ◌≡◌, refl, sym, ap, subst, ◌∙◌, inl, inr, List, [], ◌∷◌, Bool, true,
  false, false≢true, ◌&&◌, ◌==◌, leb, arith, if◌then◌else◌, Bool-cases, ==_iff, ==_refl, le→leb,
  lt→ltb,
}
use os_tools_and_features.Prelude.Runs.{Run, ok}
use os_tools_and_features.Threads.{Ptr, null}
use os_tools_and_features.Threads.Invariant.{has, Distinct}
use os_tools_and_features.Inode.{Inode}
use os_tools_and_features.Files.{
  File, OpenInode, FileSystem, put, inode_deny_write, inode_allow_write, file_deny_write,
  file_allow_write,
}
use os_tools_and_features.Files.Counts.{one, count, count-change, count_le, count_some}

-- Whether a file has the inode `i`, and whether it denies writes to it.
abbrev pub holds : (Ptr → File) → Ptr → Ptr → Bool
holds file i f = (file f).inode == i

abbrev pub denies : (Ptr → File) → Ptr → Ptr → Bool
denies file i f = (file f).inode == i && (file f).deny_write

abbrev pub open_cnt : FileSystem → Ptr → ℕ
open_cnt s i = (s.inode i).content.open_cnt

abbrev pub deny_write_cnt : FileSystem → Ptr → ℕ
deny_write_cnt s i = (s.inode i).content.deny_write_cnt

-- Each inode counts the open files that deny writes to it, and no fewer openers than it has files.
pub record Counted (s : FileSystem) : Type 0 where
  pub distinct : Distinct s.files
  pub nonnull : has null s.files ≡ false
  pub attached : (f : Ptr) → has f s.files ≡ true → ((s.file f).inode == null) ≡ false
  pub denied : (i : Ptr) → deny_write_cnt s i ≡ count (denies s.file i) s.files
  pub opened : (i : Ptr) → count (holds s.file i) s.files ≤ open_cnt s i

abbrev with_deny : Bool → File → File
with_deny b v = record v { deny_write = b }

module _ (file : Ptr → File) (f : Ptr) (b : Bool) where
  holds-put : (i x : Ptr) → holds (put file f (with_deny b (file f))) i x ≡ holds file i x
  holds-put i x = elim (Bool-cases (x == f)) [
    | inl e ↦ rw e (ap (λ y. (file y).inode == i) (sym ((==_iff x f).0 e)))
    | inr e ↦ rw e refl
  ]

  denies-put :
      (i x : Ptr)
      → (x == f) ≡ false
      → denies file i x ≡ denies (put file f (with_deny b (file f))) i x
  denies-put i x e = rw e refl

  denies_self :
      (i : Ptr) → denies (put file f (with_deny b (file f))) i f ≡ ((file f).inode == i && b)
  denies_self i = rw (==_refl f) refl

  count-holds :
      (i : Ptr) (xs : List Ptr)
      → count (holds (put file f (with_deny b (file f))) i) xs ≡ count (holds file i) xs
  count-holds i [] = refl
  count-holds i (x ∷ xs) = let e = ap one (holds-put i x) in omega (arith, count-holds i xs)

pub deny_le_open : (s : FileSystem) → Counted s → (i : Ptr) → deny_write_cnt s i ≤ open_cnt s i
deny_le_open s c i = omega (
  arith,
  c.denied i,
  c.opened i,
  count_le (denies s.file i) (holds s.file i) s.files (λ x e. ground (arith, e)),
)

-- The content of an inode with other counts.
abbrev pub counts : ℕ → ℕ → Inode → Inode
counts o n d = record d { open_cnt = o; deny_write_cnt = n }

abbrev pub put_counts : FileSystem → Ptr → ℕ → ℕ → Ptr → OpenInode
put_counts s i o n = put s.inode i (record (s.inode i) { content = counts o n (s.inode i).content })

one-and : (b d : Bool) → one (b && d) ≡ (if b then one d else 0)
one-and true d = refl
one-and false d = refl

-- A run that ends with the counts right, and tells whether the file denies writes then.
abbrev pub Denying : FileSystem → Ptr → Bool → Run FileSystem (Unit {0}) → Type 0
Denying s f b r =
    (g : FileSystem) × (r ≡ ok tt g) × Counted g × ((g.file f).deny_write ≡ b) × (g.files ≡ s.files)

module _ (s : FileSystem) (f : Ptr) (c : Counted s) (h : has f s.files ≡ true) where
  pub live : (f == null) ≡ false
  live = elim (Bool-cases (f == null)) [
    | inl e ↦
        absurd
          (false≢true (sym c.nonnull ∙ subst (λ x. has x s.files ≡ true) ((==_iff f null).0 e) h))
    | inr e ↦ e
  ]

  -- The state after a file changes whether it denies writes, and its inode counts it.
  abbrev flipped : Bool → ℕ → FileSystem
  flipped b n = record s {
    file = put s.file f (with_deny b (s.file f));
    inode = put_counts s (s.file f).inode (open_cnt s (s.file f).inode) n;
  }

  flipped-Counted :
      (b : Bool) (n : ℕ)
      → n + one (s.file f).deny_write ≡ deny_write_cnt s (s.file f).inode + one b
      → Counted (flipped b n)
  flipped-Counted b n e = record {
    distinct = c.distinct;
    nonnull = c.nonnull;
    attached = λ x k. holds-put s.file f b null x ∙ c.attached x k;
    denied = λ j.
        let g = put s.file f (with_deny b (s.file f)) in
        let i = (s.file f).inode in
        let w =
          count-change (denies s.file j) (denies g j) f s.files (denies-put s.file f b j) c.distinct
            h in
        let q : one (denies g j f) ≡ (if i == j then one b else 0) =
          ap one (denies_self s.file f b j) ∙ one-and (i == j) b in
        let p = one-and (i == j) (s.file f).deny_write in
        let d = c.denied j in
        elim (Bool-cases (j == i)) [
          | inl u ↦
              let a = ap (deny_write_cnt s) ((==_iff j i).0 u) in
              let v : (i == j) ≡ true = ground arith in
              let p' : one (denies s.file j f) ≡ one (s.file f).deny_write = p ∙ rw v refl in
              let q' : one (denies g j f) ≡ one b = q ∙ rw v refl in
              let r : n ≡ count (denies g j) s.files = omega arith in rw (u, deny_write_cnt) r
          | inr u ↦
              let v : (i == j) ≡ false = ground arith in
              let p' : one (denies s.file j f) ≡ 0 = p ∙ rw v refl in
              let q' : one (denies g j f) ≡ 0 = q ∙ rw v refl in
              let r : deny_write_cnt s j ≡ count (denies g j) s.files = omega arith in
              rw (u, deny_write_cnt) r
        ];
    opened = λ j.
        let d = count-holds s.file f b j s.files in
        let o = c.opened j in
        elim (Bool-cases (j == (s.file f).inode)) [
          | inl u ↦
              let a = ap (open_cnt s) ((==_iff j (s.file f).inode).0 u) in
              rw (u, open_cnt) (omega arith)
          | inr u ↦ rw (u, open_cnt) (omega arith)
        ];
  }

  can_deny : (n : ℕ) → Counted (flipped true n) → leb n (open_cnt s (s.file f).inode) ≡ true
  can_deny n k =
      let i = (s.file f).inode in
      let w = deny_le_open (flipped true n) k i in
      let o : open_cnt (flipped true n) i ≡ open_cnt s i = rw (open_cnt, ==_refl i) refl in
      let d : deny_write_cnt (flipped true n) i ≡ n = rw (deny_write_cnt, ==_refl i) refl in
      le→leb n (open_cnt s i) (omega arith)

  pub file_deny_write-Counted : Denying s f true (file_deny_write f s)
  unfolding file_deny_write inode_deny_write
  file_deny_write-Counted = elim (Bool-cases (s.file f).deny_write) [
    | inl e ↦ (s, rw (live, e) refl, c, e, refl)
    | inr e ↦
        let i = (s.file f).inode in
        let n = suc (deny_write_cnt s i) in
        let k : Counted (flipped true n) =
          flipped-Counted true n (let z = ap one e in omega arith) in
        let b : leb n (open_cnt s i) ≡ true = can_deny n k in
        (flipped true n, rw (live, e) (rw b refl), k, rw (==_refl f) refl, refl)
  ]

  pub file_allow_write-Counted : Denying s f false (file_allow_write f s)
  unfolding file_allow_write inode_allow_write
  file_allow_write-Counted = elim (Bool-cases (s.file f).deny_write) [
    | inr e ↦ (s, rw (live, e) refl, c, e, refl)
    | inl e ↦
        let i = (s.file f).inode in
        let n = deny_write_cnt s i - 1 in
        let t : denies s.file i f ≡ true = rw (==_refl i) e in
        let z : 0 < deny_write_cnt s i =
          omega (arith, c.denied i, count_some (denies s.file i) f s.files h t) in
        let k : Counted (flipped false n) =
          flipped-Counted false n (let y = ap one e in omega arith) in
        let b = lt→ltb 0 (deny_write_cnt s i) z in
        let d = le→leb (deny_write_cnt s i) (open_cnt s i) (deny_le_open s c i) in
        (flipped false n, rw (live, e) (rw (b, d) refl), k, rw (==_refl f) refl, refl)
  ]
