-- ===== src/LinkedList/Sorting.antt =====
-- proj-pregame/src/lib/kernel/list.c: the operations that compare elements, list_sort() among them.
-- `less` is the caller's comparison with its AUX; `k` and `n` bound the loops.
use os_tools_and_features.Prelude.{
  ℕ, zero, suc, ltb, Option, none, some, Bool, true, false, not, ◌&&◌, ◌==◌, if◌then◌else◌,
}
use os_tools_and_features.Threads.{Ptr, null}
use os_tools_and_features.LinkedList.{
  list_push_back, Header, running, Cmd, ◌>>=◌, ◌>>◌, pure, assert, list_begin, list_next, list_prev,
  list_empty, list_insert, list_splice, list_remove,
}

unfoldable pub push_duplicate : Option Header → Ptr → Cmd (Unit {0})
push_duplicate none next = pure tt
push_duplicate (some duplicates) next = list_push_back duplicates next

module _ (less : Ptr → Ptr → Bool) where
  unfoldable pub sorted_loop : ℕ → Ptr → Ptr → Cmd Bool
  sorted_loop zero a b = λ _. running
  sorted_loop (suc k) a b = do
    a' ← list_next a
    if a' == b
        then pure true
        else do p ← list_prev a'; if less a' p then pure false else sorted_loop k a' b

  unfoldable pub is_sorted : ℕ → Ptr → Ptr → Cmd Bool
  is_sorted k a b = if a == b then pure true else sorted_loop k a b

  unfoldable pub run_loop : ℕ → Ptr → Ptr → Cmd Ptr
  run_loop zero a b = λ _. running
  run_loop (suc k) a b = do
    a' ← list_next a
    if a' == b
        then pure a'
        else do p ← list_prev a'; if not (less a' p) then run_loop k a' b else pure a'

  unfoldable pub find_end_of_run : ℕ → Ptr → Ptr → Cmd Ptr
  find_end_of_run k a b = do
    assert (not (a == null))
    assert (not (b == null))
    assert (not (a == b))
    run_loop k a b

  unfoldable pub merge_loop : ℕ → Ptr → Ptr → Ptr → Cmd (Unit {0})
  merge_loop zero a0 a1b0 b1 = λ _. running
  merge_loop (suc k) a0 a1b0 b1 =
      if not (a0 == a1b0) && not (a1b0 == b1)
      then (if not (less a1b0 a0) then (do a0' ← list_next a0; merge_loop k a0' a1b0 b1) else (do
        a1b0' ← list_next a1b0
        p ← list_prev a1b0'
        list_splice a0 p a1b0'
        merge_loop k a0 a1b0' b1))
      else pure tt

  unfoldable pub inplace_merge : ℕ → Ptr → Ptr → Ptr → Cmd (Unit {0})
  inplace_merge k a0 a1b0 b1 = do
    assert (not (a0 == null))
    assert (not (a1b0 == null))
    assert (not (b1 == null))
    s ← is_sorted k a0 a1b0
    assert s
    s' ← is_sorted k a1b0 b1
    assert s'
    merge_loop k a0 a1b0 b1

  -- A pass of list_sort() over the list, from `a0` on: it returns output_run_cnt.
  unfoldable pub pass_loop : ℕ → ℕ → Ptr → Ptr → ℕ → Cmd ℕ
  pass_loop n zero end a0 output_run_cnt = λ _. running
  pass_loop n (suc k) end a0 output_run_cnt = if a0 == end then pure output_run_cnt else (do
    a1b0 ← find_end_of_run n a0 end
    if a1b0 == end then pure (suc output_run_cnt) else do
      b1 ← find_end_of_run n a1b0 end
      inplace_merge n a0 a1b0 b1
      pass_loop n k end b1 (suc output_run_cnt))

  unfoldable pub sort_loop : ℕ → ℕ → Header → Cmd (Unit {0})
  sort_loop n zero l = λ _. running
  sort_loop n (suc k) l = do
    a0 ← list_begin l
    output_run_cnt ← pass_loop n n l.tail a0 0
    if ltb 1 output_run_cnt then sort_loop n k l else pure tt

  unfoldable pub list_sort : ℕ → Header → Cmd (Unit {0})
  list_sort n l = do sort_loop n n l; b ← list_begin l; s ← is_sorted n b l.tail; assert s

  unfoldable pub ordered_loop : ℕ → Ptr → Ptr → Ptr → Cmd Ptr
  ordered_loop zero end elem e = λ _. running
  ordered_loop (suc k) end elem e =
      if e == end
      then pure e
      else (if less elem e then pure e else do e' ← list_next e; ordered_loop k end elem e')

  unfoldable pub list_insert_ordered : ℕ → Header → Ptr → Cmd (Unit {0})
  list_insert_ordered k l elem = do
    assert (not (elem == null))
    b ← list_begin l
    e ← ordered_loop k l.tail elem b
    list_insert e elem

  unfoldable pub unique_loop : ℕ → Option Header → Ptr → Ptr → Cmd (Unit {0})
  unique_loop zero duplicates end elem = λ _. running
  unique_loop (suc k) duplicates end elem = do
    next ← list_next elem
    if next == end
        then pure tt
        else (if not (less elem next) && not (less next elem)
            then (do
              r ← list_remove next
              push_duplicate duplicates next
              unique_loop k duplicates end elem)
            else unique_loop k duplicates end next)

  unfoldable pub list_unique : ℕ → Header → Option Header → Cmd (Unit {0})
  list_unique k l duplicates = do
    e ← list_empty l
    if e then pure tt else do b ← list_begin l; unique_loop k duplicates l.tail b

  unfoldable pub max_loop : ℕ → Ptr → Ptr → Ptr → Cmd Ptr
  max_loop zero end e max = λ _. running
  max_loop (suc k) end e max =
      if e == end
      then pure max
      else (do n ← list_next e; max_loop k end n (if less max e then e else max))

  unfoldable pub list_max : ℕ → Header → Cmd Ptr
  list_max k l = do
    max ← list_begin l
    if max == l.tail then pure max else do e ← list_next max; max_loop k l.tail e max

  unfoldable pub min_loop : ℕ → Ptr → Ptr → Ptr → Cmd Ptr
  min_loop zero end e min = λ _. running
  min_loop (suc k) end e min =
      if e == end
      then pure min
      else (do n ← list_next e; min_loop k end n (if less e min then e else min))

  unfoldable pub list_min : ℕ → Header → Cmd Ptr
  list_min k l = do
    min ← list_begin l
    if min == l.tail then pure min else do e ← list_next min; min_loop k l.tail e min
