-- ===== src/Files/Tests.antt =====
-- proj-pregame/src/filesys/file.c: two files that have the same inode.
use os_tools_and_features.Prelude.{
  ℕ, ◌+◌, ◌<◌, ◌≡◌, inl, inr, refl, [], ◌∷◌, none, some, Bool, true, false, ◌==◌, if◌then◌else◌,
  arith, Bool-cases,
}
use os_tools_and_features.Prelude.Runs.{ok, ◌>>=◌, ◌>>◌}
use os_tools_and_features.Threads.{null}
use os_tools_and_features.Inode.{Bytes, Reader}
use os_tools_and_features.Inode.Place.{todo}
use os_tools_and_features.Files.{
  FileSystem, without, file_deny_write, file_allow_write, file_close, file_reopen, file_write,
  file_read, file_seek,
}
use os_tools_and_features.Files.Openers.{Counted, Denying}
use os_tools_and_features.Files.Closing.{Opens, calls-Counted}
use os_tools_and_features.Files.Positions.{file_write-denied, file_write-file_read}

-- The files 10 and 11 have the inode 5; `deny` says whether the second denies writes.
abbrev state : Bool → FileSystem
state deny = record {
  files = 10 ∷ 11 ∷ [];
  file = λ f. record { inode = 5; pos = 3; deny_write = if deny then f == 11 else false };
  open_inodes = 5 ∷ [];
  inode = λ i. record {
    sector = i;
    removed = false;
    content = record {
      open_cnt = 2;
      deny_write_cnt = if i == 5 then (if deny then 1 else 0) else 0;
      start = 20;
      length = 1000;
    };
  };
  disk = λ s i. 0;
  released = [];
}

state-Counted : (deny : Bool) → Counted (state deny)
state-Counted true = record {
  distinct = (refl, (refl, tt));
  nonnull = refl;
  attached = λ f h. refl;
  denied = λ i. elim (Bool-cases (i == 5)) [
    | inl e ↦ let v : (5 == i) ≡ true = ground arith in rw (e, v) refl
    | inr e ↦ let v : (5 == i) ≡ false = ground arith in rw (e, v) refl
  ];
  opened =
      λ i. elim (Bool-cases (5 == i)) [ inl e ↦ rw e (omega arith) | inr e ↦ rw e (omega arith) ];
}
state-Counted false = record {
  distinct = (refl, (refl, tt));
  nonnull = refl;
  attached = λ f h. refl;
  denied =
      λ i. elim (Bool-cases (5 == i)) [ inl e ↦ rw e (ground arith) | inr e ↦ rw e (ground arith) ];
  opened =
      λ i. elim (Bool-cases (5 == i)) [ inl e ↦ rw e (omega arith) | inr e ↦ rw e (omega arith) ];
}

calls-Counted_example :
    Denying (state true) 11 true (file_deny_write 11 (state true))
    × Denying (state true) 11 false (file_allow_write 11 (state true))
    × Opens tt (without 11 (10 ∷ 11 ∷ [])) (file_close 11 (state true))
    × Opens 12 (12 ∷ 10 ∷ 11 ∷ []) (file_reopen (some 12) 11 (state true))
    × Opens null (10 ∷ 11 ∷ []) (file_reopen none 11 (state true))
calls-Counted_example = calls-Counted (state true) 11 12 (state-Counted true) refl refl refl

abbrev zeros : Bytes
zeros i = 0

file_write-denied_example :
    (g : FileSystem) × (file_write 9 true 10 zeros 9 (state true) ≡ ok 0 g)
    × (g.disk ≡ (state true).disk)
    × ((g.file 10).pos ≡ 3)
file_write-denied_example =
    file_write-denied (state true) 10 (state-Counted true) refl 11 zeros 9 refl refl

file_write-file_read_example :
    (g : FileSystem) × (r : Reader) × ((file_write 9 true 10 zeros 9 >>= λ n.
    file_seek 10 3 >> file_read 9 true 10 zeros 9)
        (state false)
      ≡ ok r g)
    × (r.bytes_read ≡ todo ((state false).inode 5).content 9 3)
    × ((p : ℕ) → p < r.bytes_read → r.buffer p ≡ zeros p)
    × ((g.file 10).pos ≡ 3 + r.bytes_read)
file_write-file_read_example =
    file_write-file_read (state false) 10 (state-Counted false) refl zeros zeros 9 (λ d h. refl)
