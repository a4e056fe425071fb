-- ===== src/Allocator/Tests.antt =====
-- Runs of the allocator, and its theorems at concrete heaps.
use os_tools_and_features.Prelude.{
  ℕ, ◌+◌, ◌^◌, ◌%◌, ◌≡◌, refl, List, [], ◌∷◌, Option, none, some, true, false, ◌==◌, if◌then◌else◌,
  arith, ltb, inl, inr, ◌<◌,
}
use os_tools_and_features.Allocator.{
  Ptr, null, header_size, Block, block, Heap, Os, Run, ok, fault, ◌>>=◌, ◌>>◌, mm_malloc, mm_free,
  mm_realloc, split, take_whole, first_block, search, append_block, modify, memset, load, grow,
  merge_prev, merge_next, is_free, gain, read_bytes, write_bytes,
}
use os_tools_and_features.Allocator.Cells.{Returns, Cell, cell, Rep, Links, last_addr}
use os_tools_and_features.Allocator.Malloc.{first_fit, Allocated, mm_malloc-first_fit}
use os_tools_and_features.Allocator.Used.{mm_malloc_after_failure}
use os_tools_and_features.Allocator.Free.{release}
use os_tools_and_features.Allocator.FreeList.{stale}
use os_tools_and_features.Allocator.Freed.{mm_free-release, mm_free-stale_end}

abbrev extra : Ptr → ℕ → Option Ptr
extra b n = if ltb n 4096 then some b else none

extra_previous : (b n a : ℕ) → extra b n ≡ some a → a ≡ b
extra_previous b n a e = ground arith

abbrev os : Os
os = record { sbrk = extra; previous_break = extra_previous }

abbrev full_os : Os
full_os = record { sbrk = λ b n. none; previous_break = λ b n a e. cc }

-- Nothing has been asked for yet.
abbrev fresh : Heap
fresh = record { first = 1; base = 0; end = 0; node = λ q. none; byte = λ q. 7; break = 1000 }

abbrev cells : List Cell
cells = cell 1000 64 true ∷ cell 1080 32 false ∷ cell 1128 8 false ∷ []

abbrev nodes : Ptr → Option Block
nodes q =
    if q == 1000
    then some (block 64 1 1080 0)
    else if q == 1080
    then some (block 32 0 1128 1000)
    else if q == 1128
    then some (block 8 0 0 1080)
    else none

abbrev heap : Heap
heap = record { first = 0; base = 1000; end = 1128; node = nodes; byte = λ q. 7; break = 1152 }

heap-Rep : Rep heap cells
heap-Rep = record {
  first = refl;
  base = omega arith;
  head = refl;
  end = refl;
  links = (refl, (refl, (refl, tt)));
  layout = (refl, (refl, (refl, refl)));
}

abbrev pair_cells : List Cell
pair_cells = cell 1000 64 true ∷ cell 1080 32 false ∷ []

abbrev pair_heap : Heap
pair_heap = record {
  first = 0;
  base = 1000;
  end = 1080;
  node = λ q.
      if q == 1000
      then some (block 64 1 1080 0)
      else if q == 1080
      then some (block 32 0 0 1000)
      else none;
  byte = λ q. 7;
  break = 1128;
}

pair_heap-Rep : Rep pair_heap pair_cells
pair_heap-Rep = record {
  first = refl;
  base = omega arith;
  head = refl;
  end = refl;
  links = (refl, (refl, tt));
  layout = (refl, (refl, refl));
}

mm_malloc-first_fit_example :
    Returns
      (Allocated heap 16 (first_fit (os.sbrk heap.break ((16 + header_size) % 2 ^ 32)) 16 cells))
      (mm_malloc os 4 16 heap)
mm_malloc-first_fit_example =
    mm_malloc-first_fit os 4 16 heap cells heap-Rep (omega arith) (omega arith) (omega arith)

mm_malloc_after_failure_example :
    (g : Heap) × (mm_malloc full_os 4 16 fresh ≡ ok null g) × (mm_malloc full_os 5 1 g ≡ fault)
mm_malloc_after_failure_example =
    mm_malloc_after_failure full_os 4 4 16 1 fresh refl (omega arith) (omega arith) refl refl

mm_free-release_example :
    Returns
      (λ u g. Rep g (release 1080 cells) × (g.byte ≡ heap.byte))
      (mm_free (1080 + header_size) heap)
unfolding stale
mm_free-release_example = mm_free-release heap cells 1080 heap-Rep (inr (inl (refl, refl))) refl

mm_free-stale_end_example :
    Returns
      (λ u g.
        Links g.node null (release 1080 pair_cells) null
        × (g.end ≡ pair_heap.end)
        × (last_addr (release 1080 pair_cells) null < 1080)
        × ¬ Rep g (release 1080 pair_cells))
      (mm_free (1080 + header_size) pair_heap)
unfolding stale
mm_free-stale_end_example =
    mm_free-stale_end pair_heap pair_cells 1080 pair_heap-Rep (inr (inl (refl, refl))) refl

-- What a program sees of a run.
abbrev result : {A : Type 0} → Run A → Option A
result (ok a h) = some a
result _ = none

-- Four blocks are carved, freed and joined again, and the next one is taken from the front.
abbrev session : Heap → Run Ptr
session h =
    (do
      a ← mm_malloc os 9 100
      b ← mm_malloc os 9 20
      mm_free a
      c ← mm_malloc os 9 40
      mm_free b
      mm_realloc os 9 c 44)
      h

result-session : result (session fresh) ≡ some 1016
unfolding mm_malloc mm_free mm_realloc first_block search append_block split take_whole modify
    memset load grow merge_prev merge_next is_free gain read_bytes write_bytes
result-session = refl
