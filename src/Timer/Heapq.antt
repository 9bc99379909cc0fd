-- ===== src/Timer/Heapq.antt =====
-- What scales/timer_queue.py relies on in the library heapq, as its documentation states it.
use pynagle.Common.{ℕ, ◌+◌, ◌≤◌, ◌<◌, ◌≡◌, ◌⊎◌, ◌&&◌, Bool, List, [], ◌∷◌, ◌==◌, if◌then◌else◌}

-- An entry by its deadline and its sequence number, the fields that decide a comparison of entries.
abbrev pub Key : Type 0
Key = ℕ × ℕ

-- Lists compare by their first field that differs.
abbrev pub KeyLe : Key → Key → Type 0
KeyLe a b = (a.0 < b.0) ⊎ ((a.0 ≡ b.0) × (a.1 ≤ b.1))

-- How many keys of a list pass a test; the tests for a key and for a sequence number.
abbrev pub count_if : (Key → Bool) → List Key → ℕ
count_if test [] = 0
count_if test (x ∷ queue) = (if test x then 1 else 0) + count_if test queue

abbrev pub is_key : Key → Key → Bool
is_key k x = (x.0 == k.0) && (x.1 == k.1)

abbrev pub has_seq : ℕ → Key → Bool
has_seq s x = x.1 == s

-- heappush and heappop on a list that is a heap: the items stay, but for the one that is added or the
-- one at index 0 that is removed, and the item at index 0 is a least one.
pub record HeapQueue : Type 1 where
  pub push : List Key → Key → List Key
  pub pop : List Key → List Key
  pub IsHeap : List Key → Type 0
  pub nil_heap : IsHeap []
  pub push_heap : (queue : List Key) (k : Key) → IsHeap queue → IsHeap (push queue k)
  pub pop_heap : (x : Key) (queue : List Key) → IsHeap (x ∷ queue) → IsHeap (pop (x ∷ queue))
  pub count_push :
      (test : Key → Bool) (queue : List Key) (k : Key)
      → IsHeap queue
      → count_if test (push queue k) ≡ count_if test (k ∷ queue)
  pub count_pop :
      (test : Key → Bool) (x : Key) (queue : List Key)
      → IsHeap (x ∷ queue)
      → count_if test (x ∷ pop (x ∷ queue)) ≡ count_if test (x ∷ queue)
  pub least :
      (x a : Key) (queue : List Key)
      → IsHeap (x ∷ queue)
      → 0 < count_if (is_key a) (x ∷ queue)
      → KeyLe x a
