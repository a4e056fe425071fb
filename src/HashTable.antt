-- ===== src/HashTable.antt =====
-- proj-pregame/src/lib/kernel/hash.c: the hash table. A bucket is the list of its elements, which are
-- addresses (LinkedList.antt has the links), and `hash` and `less` are the functions of the caller with
-- their AUX. Whether malloc() has memory for new buckets is an argument.
pub mod Buckets
pub mod Counts
pub mod Table
pub mod Iteration
pub mod Operations
pub mod Tests
use os_tools_and_features.Prelude.{
  ℕ, zero, suc, ◌+◌, ◌-◌, ◌*◌, ◌/◌, ◌%◌, Option, none, some, List, [], ◌∷◌, ◌++◌, Bool, true, false,
  not, ◌&&◌, ◌||◌, ◌==◌, ltb, leb, if◌then◌else◌,
}
use os_tools_and_features.Threads.{Ptr}

pub record Hash : Type 0 where
  pub elem_cnt : ℕ
  pub bucket_cnt : ℕ
  pub buckets : ℕ → List Ptr

-- `&` of the lowest `w` bits.
unfoldable pub bits_and : ℕ → ℕ → ℕ → ℕ
bits_and zero a b = 0
bits_and (suc w) a b = a % 2 * (b % 2) + 2 * bits_and w (a / 2) (b / 2)

abbrev pub turn_off_least_1bit : ℕ → ℕ
turn_off_least_1bit x = bits_and 32 x (x - 1)

abbrev pub is_power_of_2 : ℕ → Bool
is_power_of_2 x = not (x == 0) && turn_off_least_1bit x == 0

abbrev pub push_front : (ℕ → List Ptr) → ℕ → Ptr → ℕ → List Ptr
push_front buckets i e j = if j == i then e ∷ buckets j else buckets j

abbrev pub without : Ptr → List Ptr → List Ptr
without e [] = []
without e (x ∷ xs) = if x == e then xs else x ∷ without e xs

-- The loop of rehash() that makes the number of buckets a power of 2.
unfoldable pub power_loop : ℕ → ℕ → ℕ
power_loop zero n = n
power_loop (suc k) n =
    let rest = power_loop k (turn_off_least_1bit n) in if is_power_of_2 n then n else rest

abbrev pub best_bucket_cnt : ℕ → ℕ
best_bucket_cnt elem_cnt =
    let n = elem_cnt / 2 in power_loop (elem_cnt + 4) (if ltb n 4 then 4 else n)

module _ (hash : Ptr → ℕ) (less : Ptr → Ptr → Bool) where
  abbrev pub same : Ptr → Ptr → Bool
  same x y = not (less x y) && not (less y x)

  -- find_bucket(): the number of the bucket.
  abbrev pub find_bucket : ℕ → Ptr → ℕ
  find_bucket bucket_cnt e = bits_and 32 (hash e) (bucket_cnt - 1)

  abbrev pub find_elem : List Ptr → Ptr → Option Ptr
  find_elem [] e = none
  find_elem (x ∷ xs) e = if same x e then some x else find_elem xs e

  -- The loops of rehash() that move the elements of one old bucket, and of all from `i` on.
  abbrev pub move_bucket : ℕ → List Ptr → (ℕ → List Ptr) → ℕ → List Ptr
  move_bucket cnt [] new = new
  move_bucket cnt (e ∷ es) new = move_bucket cnt es (push_front new (find_bucket cnt e) e)

  abbrev pub move_all : ℕ → ℕ → (ℕ → List Ptr) → ℕ → (ℕ → List Ptr) → ℕ → List Ptr
  move_all cnt zero old i new = new
  move_all cnt (suc n) old i new = move_all cnt n old (suc i) (move_bucket cnt (old i) new)

  unfoldable pub rehash : Bool → Hash → Hash
  rehash malloc h =
      let cnt = best_bucket_cnt h.elem_cnt in
      if cnt == h.bucket_cnt || not malloc
      then h
      else record h { bucket_cnt = cnt; buckets = move_all cnt h.bucket_cnt h.buckets 0 (λ i. []) }

  abbrev pub insert_elem : ℕ → Ptr → Hash → Hash
  insert_elem bucket e h = record h {
    elem_cnt = suc h.elem_cnt;
    buckets = push_front h.buckets bucket e;
  }

  -- list_remove() of the element `e` from the bucket that has it.
  abbrev pub remove_elem : Ptr → Hash → Hash
  remove_elem e h = record h { elem_cnt = h.elem_cnt - 1; buckets = λ i. without e (h.buckets i) }

  abbrev pub bucket_of : Hash → Ptr → ℕ
  bucket_of h e = find_bucket h.bucket_cnt e

  unfoldable pub hash_find : Hash → Ptr → Option Ptr
  hash_find h e = find_elem (h.buckets (bucket_of h e)) e

  -- An operation returns the element found, if any, and the table.
  pub record Result : Type 0 where
    pub elem : Option Ptr
    pub table : Hash

  unfoldable pub hash_insert : Bool → Hash → Ptr → Result
  hash_insert malloc h new =
      let old = find_elem (h.buckets (bucket_of h new)) new in
      record {
        elem = old;
        table =
            rehash malloc (elim old [ none ↦ insert_elem (bucket_of h new) new h | some x ↦ h ]);
      }

  unfoldable pub hash_replace : Bool → Hash → Ptr → Result
  hash_replace malloc h new =
      let old = find_elem (h.buckets (bucket_of h new)) new in
      record {
        elem = old;
        table =
            rehash malloc (
              insert_elem (bucket_of h new) new (elim old [ none ↦ h | some x ↦ remove_elem x h ]));
      }

  unfoldable pub hash_delete : Bool → Hash → Ptr → Result
  hash_delete malloc h e =
      let found = find_elem (h.buckets (bucket_of h e)) e in
      record {
        elem = found;
        table = elim found [ none ↦ h | some x ↦ rehash malloc (remove_elem x h) ];
      }

  unfoldable pub hash_init : Bool → Option Hash
  hash_init malloc =
      if malloc then some (record { elem_cnt = 0; bucket_cnt = 4; buckets = λ i. [] }) else none

-- The calls of ACTION that hash_apply() makes, from the bucket `i` on.
abbrev pub apply_loop : ℕ → ℕ → (ℕ → List Ptr) → List Ptr
apply_loop zero i buckets = []
apply_loop (suc n) i buckets = buckets i ++ apply_loop n (suc i) buckets

abbrev pub hash_apply : Hash → List Ptr
hash_apply h = apply_loop h.bucket_cnt 0 h.buckets

abbrev pub hash_size : Hash → ℕ
hash_size h = h.elem_cnt

abbrev pub hash_empty : Hash → Bool
hash_empty h = h.elem_cnt == 0

pub record Cleared : Type 0 where
  pub destroyed : List Ptr
  pub table : Hash

-- hash_clear(), with a destructor or without; the destructor takes the elements as they are popped.
unfoldable pub hash_clear : Bool → Hash → Cleared
hash_clear destructor h = record {
  destroyed = if destructor then apply_loop h.bucket_cnt 0 h.buckets else [];
  table = record h { elem_cnt = 0; buckets = λ i. if ltb i h.bucket_cnt then [] else h.buckets i };
}

-- hash_destroy(): the calls of the destructor.
unfoldable pub hash_destroy : Bool → Hash → List Ptr
hash_destroy destructor h = if destructor then (hash_clear destructor h).destroyed else []

-- An iterator: the number of the bucket, the current element, and those behind it in the bucket.
pub record Iterator : Type 0 where
  pub bucket : ℕ
  pub elem : Option Ptr
  pub rest : List Ptr

unfoldable pub hash_first : Hash → Iterator
hash_first h = record { bucket = 0; elem = none; rest = h.buckets 0 }

-- The loop of hash_next(): `rest` starts with the next element, and at the end of a bucket it goes to the
-- next bucket.
unfoldable pub next_loop : ℕ → Hash → ℕ → List Ptr → Iterator
next_loop zero h bucket rest = record { bucket = bucket; elem = none; rest = [] }
next_loop (suc k) h bucket (x ∷ xs) = record { bucket = bucket; elem = some x; rest = xs }
next_loop (suc k) h bucket [] =
    let further = next_loop k h (suc bucket) (h.buckets (suc bucket)) in
    if leb h.bucket_cnt (suc bucket)
    then record { bucket = suc bucket; elem = none; rest = [] }
    else further

unfoldable pub hash_next : Hash → Iterator → Iterator
hash_next h i = next_loop (suc h.bucket_cnt) h i.bucket i.rest
