-- ===== src/Timer/Sorted.antt =====
-- A heap queue that keeps its list in order: what the timer queue takes as its parameter exists.
use pynagle.Common.{
  ◌<◌, ◌≡◌, refl, Bool, true, false, ◌&&◌, ◌||◌, List, [], ◌∷◌, ltb, leb, ◌==◌, if◌then◌else◌,
  arith,
}
use pynagle.Timer.Heapq.{Key, KeyLe, count_if, is_key, HeapQueue}

abbrev key_leb : Key → Key → Bool
key_leb a b = ltb a.0 b.0 || ((a.0 == b.0) && leb a.1 b.1)

abbrev pub insert : List Key → Key → List Key
insert [] k = k ∷ []
insert (x ∷ queue) k = if key_leb k x then k ∷ x ∷ queue else x ∷ insert queue k

abbrev pub behead : List Key → List Key
behead [] = []
behead (x ∷ queue) = queue

pub data IsSorted : List Key → Type 0 where
  sorted_nil : IsSorted []
  sorted_cons :
      (x : Key) (queue : List Key)
      → ((a : Key) → 0 < count_if (is_key a) queue → KeyLe x a)
      → IsSorted queue
      → IsSorted (x ∷ queue)

pub count-insert :
    (test : Key → Bool) (queue : List Key) (k : Key)
    → count_if test (insert queue k) ≡ count_if test (k ∷ queue)
count-insert test [] k = refl
count-insert test (x ∷ queue) k = let h = count-insert test queue k in ground arith

pub insert-IsSorted : (queue : List Key) (k : Key) → IsSorted queue → IsSorted (insert queue k)
insert-IsSorted _ k sorted_nil = sorted_cons k [] (λ a h. absurd (omega arith)) sorted_nil
insert-IsSorted _ k (sorted_cons x queue least s) =
    elim (key_leb k x)
        as (λ b. key_leb k x ≡ b → IsSorted (if b then k ∷ x ∷ queue else x ∷ insert queue k)) [
          | true ↦ λ e.
              sorted_cons k (x ∷ queue) (λ a h. let l = least a in ground arith)
                (sorted_cons x queue least s)
          | false ↦ λ e.
              sorted_cons x (insert queue k)
                (λ a h. let l = least a in let c = count-insert (is_key a) queue k in ground arith)
                (insert-IsSorted queue k s)
        ]
      refl

pub sorted_least :
    (x a : Key) (queue : List Key)
    → IsSorted (x ∷ queue)
    → 0 < count_if (is_key a) (x ∷ queue)
    → KeyLe x a
sorted_least x a queue (sorted_cons _ _ least s) h = let l = least a in ground arith

pub rest-IsSorted : (x : Key) (queue : List Key) → IsSorted (x ∷ queue) → IsSorted queue
rest-IsSorted x queue (sorted_cons _ _ least s) = s

abbrev pub sorted_queue : HeapQueue
sorted_queue = record {
  push = insert;
  pop = behead;
  IsHeap = IsSorted;
  nil_heap = sorted_nil;
  push_heap = insert-IsSorted;
  pop_heap = rest-IsSorted;
  count_push = λ test queue k h. count-insert test queue k;
  count_pop = λ test x queue h. refl;
  least = sorted_least;
}
