-- ===== src/Files/Closing.antt =====
-- proj-pregame/src/filesys/file.c: file_close() and file_reopen() keep the counts of the inodes.
use os_tools_and_features.Prelude.{
  suc, ◌+◌, ◌-◌, ◌≤◌, ◌<◌, ◌≡◌, refl, sym, ap, subst, ◌∙◌, inl, inr, List, ◌∷◌, none, some, true,
  false, false≢true, ◌==◌, arith, Bool-cases, ==_iff, ==_refl,
}
use os_tools_and_features.Prelude.Runs.{Run, ok, and_then}
use os_tools_and_features.Threads.{Ptr, null}
use os_tools_and_features.Threads.Invariant.{has}
use os_tools_and_features.Files.{
  bytes_to_sectors, Extent, File, FileSystem, put, without, inode_reopen, inode_close, file_open,
  file_reopen, file_deny_write, file_allow_write, file_close,
}
use os_tools_and_features.Files.Counts.{
  one, count, count-same, count-without, has-without, without-Distinct, count_some,
}
use os_tools_and_features.Files.Openers.{
  holds, denies, open_cnt, deny_write_cnt, Counted, put_counts, live, Denying,
  file_allow_write-Counted, file_deny_write-Counted,
}

-- A run that returns `a`, with the counts right and `fs` open.
abbrev pub Opens : {A : Type 0} → A → List Ptr → Run FileSystem A → Type 0
Opens a fs r = (g : FileSystem) × (r ≡ ok a g) × Counted g × (g.files ≡ fs)

module _ (s : FileSystem) (f : Ptr) (c : Counted s) (h : has f s.files ≡ true) where
  -- The state after the file is closed.
  abbrev closed : List Ptr → List Extent → FileSystem
  closed is es = record s {
    files = without f s.files;
    open_inodes = is;
    inode =
        put_counts s (s.file f).inode (open_cnt s (s.file f).inode - 1)
          (deny_write_cnt s (s.file f).inode);
    released = es;
  }

  closed-Counted :
      (is : List Ptr) (es : List Extent) → (s.file f).deny_write ≡ false → Counted (closed is es)
  closed-Counted is es e = record {
    distinct = without-Distinct f s.files c.distinct;
    nonnull = has-without null f s.files c.nonnull;
    attached = λ x k. elim (Bool-cases (has x s.files)) [
      | inl u ↦ c.attached x u
      | inr u ↦ absurd (false≢true (sym (has-without x f s.files u) ∙ k))
    ];
    denied = λ j.
        let w = count-without (denies s.file j) f s.files h in
        let d = c.denied j in
        let n' : denies s.file j f ≡ false = ground (arith, e) in
        let n = ap one n' in
        elim (Bool-cases (j == (s.file f).inode)) [
          | inl u ↦
              let a = ap (deny_write_cnt s) ((==_iff j (s.file f).inode).0 u) in
              rw (u, deny_write_cnt) (omega arith)
          | inr u ↦ rw (u, deny_write_cnt) (omega arith)
        ];
    opened = λ j.
        let w = count-without (holds s.file j) f s.files h in
        let d = c.opened j in
        elim (Bool-cases (j == (s.file f).inode)) [
          | inl u ↦
              let a = ap (open_cnt s) ((==_iff j (s.file f).inode).0 u) in
              let v' : holds s.file j f ≡ true = ground (arith, u) in
              let v = ap one v' in rw (u, open_cnt) (omega arith)
          | inr u ↦ rw (u, open_cnt) (omega arith)
        ];
  }

  close_rest :
      (s.file f).deny_write ≡ false
      → Opens tt (without f s.files) (
          and_then
            (inode_close (s.file f).inode s)
            (λ x s. ok tt (record s { files = without f s.files })))
  unfolding inode_close
  close_rest e =
      let a = c.attached f h in
      let i = (s.file f).inode in
      elim (Bool-cases (open_cnt s i == 1)) [
        | inr u ↦ (
          closed s.open_inodes s.released,
          rw (a, u) refl,
          closed-Counted s.open_inodes s.released e,
          refl,
        )
        | inl u ↦ elim (Bool-cases (s.inode i).removed) [
          | inr v ↦
              let is = without i s.open_inodes in
              (
                closed is s.released,
                rw (a, u) (rw (==_refl i) (rw v refl)),
                closed-Counted is s.released e,
                refl,
              )
          | inl v ↦
              let is = without i s.open_inodes in
              let es : List Extent =
                record {
                  first = (s.inode i).content.start;
                  cnt = bytes_to_sectors (s.inode i).content.length;
                }
                ∷ record { first = (s.inode i).sector; cnt = 1 }
                ∷ s.released in
              (closed is es, rw (a, u) (rw (==_refl i) (rw v refl)), closed-Counted is es e, refl)
        ]
      ]

pub file_close-Counted :
    (s : FileSystem) (f : Ptr)
    → Counted s
    → has f s.files ≡ true
    → Opens tt (without f s.files) (file_close f s)
unfolding file_close
file_close-Counted s f c h =
    let (g, r, k, e, fs) = file_allow_write-Counted s f c h in
    let (g', r', k', fs') = close_rest g f k (subst (λ xs. has f xs ≡ true) (sym fs) h) e in
    (g', rw (live s f c h) (rw r r'), k', fs' ∙ ap (without f) fs)

module _ (s : FileSystem) (f : Ptr) (c : Counted s) (h : has f s.files ≡ true) where
  abbrev i : Ptr
  i = (s.file f).inode

  -- inode_reopen() and, when there is no memory for a file, inode_close().
  abbrev again : FileSystem
  again = record s { inode = put_counts s i (suc (open_cnt s i)) (deny_write_cnt s i) }

  again-open : (j : Ptr) → open_cnt again j ≡ open_cnt s j + one (i == j)
  again-open j = elim (Bool-cases (j == i)) [
    | inl u ↦
        let a = ap (open_cnt s) ((==_iff j i).0 u) in
        let v : (i == j) ≡ true = ground arith in
        let r : suc (open_cnt s i) ≡ open_cnt s j + 1 = omega arith in rw (u, open_cnt) (rw v r)
    | inr u ↦
        let v : (i == j) ≡ false = ground arith in
        let r : open_cnt s j ≡ open_cnt s j + 0 = omega arith in rw (u, open_cnt) (rw v r)
  ]

  again-deny : (j : Ptr) → deny_write_cnt again j ≡ deny_write_cnt s j
  again-deny j = elim (Bool-cases (j == i)) [
    | inl u ↦ rw (u, deny_write_cnt) (ap (deny_write_cnt s) (sym ((==_iff j i).0 u)))
    | inr u ↦ rw (u, deny_write_cnt) refl
  ]

  some_opener : 0 < open_cnt s i
  some_opener = omega (arith, c.opened i, count_some (holds s.file i) f s.files h (==_refl i))

  -- After these two calls.
  abbrev undone : FileSystem
  undone = record again {
    inode = put again.inode i (record (again.inode i) {
      content = record (again.inode i).content { open_cnt = (again.inode i).content.open_cnt - 1 };
    });
  }

  undone-open : (j : Ptr) → open_cnt undone j ≡ open_cnt s j
  undone-open j = elim (Bool-cases (j == i)) [
    | inl u ↦
        let a = ap (open_cnt s) ((==_iff j i).0 u) in
        let v = again-open i ∙ ap (λ b. open_cnt s i + one b) (==_refl i) in
        let r : open_cnt again i - 1 ≡ open_cnt s j = omega arith in rw (u, open_cnt) r
    | inr u ↦ rw (u, open_cnt) refl
  ]

  undone-deny : (j : Ptr) → deny_write_cnt undone j ≡ deny_write_cnt s j
  undone-deny j = elim (Bool-cases (j == i)) [
    | inl u ↦ rw (u, deny_write_cnt) (again-deny i ∙ ap (deny_write_cnt s) (sym ((==_iff j i).0 u)))
    | inr u ↦ rw (u, deny_write_cnt) refl
  ]

  pub file_reopen-Counted_none : Opens null s.files (file_reopen none f s)
  unfolding file_reopen inode_reopen file_open inode_close
  file_reopen-Counted_none =
      let a = c.attached f h in
      let v = again-open i ∙ ap (λ b. open_cnt s i + one b) (==_refl i) in
      let z = some_opener in
      let t : (open_cnt again i == 1) ≡ false = ground arith in
      (
        undone,
        rw a (rw a (rw t refl)),
        record {
          distinct = c.distinct;
          nonnull = c.nonnull;
          attached = c.attached;
          denied = λ j. undone-deny j ∙ c.denied j;
          opened = λ j. omega (arith, undone-open j, c.opened j);
        },
        refl,
      )

  abbrev with_file : Ptr → Ptr → File
  with_file g = put s.file g (record { inode = i; pos = 0; deny_write = false })

  with_file-denies : (g j : Ptr) → denies (with_file g) j g ≡ false
  with_file-denies g j = rw (==_refl g) (ground arith)

  with_file-holds : (g j : Ptr) → holds (with_file g) j g ≡ (i == j)
  with_file-holds g j = rw (==_refl g) refl

  pub file_reopen-Counted :
      (g : Ptr)
      → (g == null) ≡ false
      → has g s.files ≡ false
      → Opens g (g ∷ s.files) (file_reopen (some g) f s)
  unfolding file_reopen inode_reopen file_open
  file_reopen-Counted g z out = (
    record again { files = g ∷ s.files; file = with_file g },
    rw (c.attached f h) (rw (c.attached f h) refl),
    record {
      distinct = (out, c.distinct);
      nonnull = ground (arith, c.nonnull);
      attached = λ x k. elim (Bool-cases (x == g)) [
        | inl e ↦ rw e (c.attached f h)
        | inr e ↦ rw e (c.attached x (ground (arith, k)))
      ];
      denied = λ j.
          let w =
            count-same (denies s.file j) (denies (with_file g) j) g s.files (λ x e. rw e refl)
              out in
          let n = ap one (with_file-denies g j) in
          let d = c.denied j in
          let a = again-deny j in
          let r : deny_write_cnt again j
              ≡ one (denies (with_file g) j g) + count (denies (with_file g) j) s.files =
            omega arith in
          r;
      opened = λ j.
          let w =
            count-same (holds s.file j) (holds (with_file g) j) g s.files (λ x e. rw e refl) out in
          let n = ap one (with_file-holds g j) in
          let d = c.opened j in
          let a = again-open j in
          let r : one (holds (with_file g) j g) + count (holds (with_file g) j) s.files
              ≤ open_cnt again j =
            omega arith in
          r;
    },
    refl,
  )

-- For an open file of a state with its counts right, file_deny_write(), file_allow_write(), file_close()
-- and file_reopen(), with memory at a new address and without, return: no assertion on the counts fails.
-- The counts are right again: each inode counts the open files that deny writes to it, and has no fewer
-- openers than open files. The file then denies writes, does not, is closed, or is open once more.
pub calls-Counted :
    (s : FileSystem) (f g : Ptr)
    → Counted s
    → has f s.files ≡ true
    → (g == null) ≡ false
    → has g s.files ≡ false
    → Denying s f true (file_deny_write f s)
      × Denying s f false (file_allow_write f s)
      × Opens tt (without f s.files) (file_close f s)
      × Opens g (g ∷ s.files) (file_reopen (some g) f s)
      × Opens null s.files (file_reopen none f s)
calls-Counted s f g c h z out = (
  file_deny_write-Counted s f c h,
  file_allow_write-Counted s f c h,
  file_close-Counted s f c h,
  file_reopen-Counted s f c h g z out,
  file_reopen-Counted_none s f c h,
)
