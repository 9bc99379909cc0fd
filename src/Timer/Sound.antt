-- ===== src/Timer/Sound.antt =====
-- The invariant of scales/timer_queue.py, class TimerQueue, and what keeps it without the worker.
use pynagle.Common.{
  ℕ, suc, ◌+◌, ◌≤◌, ◌<◌, ◌≡◌, ◌≢◌, inl, inr, refl, ap, sym, subst, ◌∙◌, Bool, true, false, List, [],
  ◌∷◌, length, occ, ◌==◌, if◌then◌else◌, Bool-cases, arith,
}
use pynagle.Timer.{
  Phase, top, peeking, waiting, Timer, new_timer, is_newest, cancel, push_entry, schedule, quantize,
}
use pynagle.Timer.Heapq.{Key, KeyLe, count_if, is_key, has_seq, HeapQueue}

abbrev pub all_keys : Key → Bool
all_keys k = true

pub count-all : (queue : List Key) → count_if all_keys queue ≡ length queue
count-all [] = refl
count-all (k ∷ queue) = omega (arith, count-all queue)

pub count_self : (k : Key) (queue : List Key) → 0 < count_if (is_key k) (k ∷ queue)
count_self k queue = ground arith

-- By phase, event and queue: the worker that wakes from its sleep finds an entry, and one more if the
-- event is set; the one that waits has seen the head, unless the event is set.
unfoldable pub PhaseFits : Phase → Bool → List Key → Type 0
PhaseFits top event queue = Unit
PhaseFits peeking event queue = (0 < length queue) × (event ≡ true → 1 < length queue)
PhaseFits (waiting k) event queue = event ≡ false → (rest : List Key) × (queue ≡ k ∷ rest)

module _ (heapq : HeapQueue) where
  -- Every entry that was not cancelled is in the queue or was run, once; no entry more than once.
  pub record IsSound (t : Timer) : Type 0 where
    pub heap : heapq.IsHeap t.queue
    pub once :
        (s : ℕ)
        → 0 < s
        → s ≤ t.seq
        → t.cancelled s ≡ false
        → count_if (has_seq s) t.queue + occ s t.spawned ≡ 1
    pub most : (s : ℕ) → s ≤ t.seq → count_if (has_seq s) t.queue + occ s t.spawned ≤ 1
    pub unused : (s : ℕ) → t.seq < s → count_if (has_seq s) t.queue + occ s t.spawned ≡ 0
    pub awake : t.event ≡ true → 0 < length t.queue
    pub fits : PhaseFits t.phase t.event t.queue

  pub new_timer-IsSound : IsSound new_timer
  unfolding new_timer PhaseFits
  new_timer-IsSound = record {
    heap = heapq.nil_heap;
    once = λ s h k. absurd (omega arith);
    most = λ s h. omega arith;
    unused = λ s h. refl;
    awake = λ e. absurd (ground arith);
    fits = tt;
  }

  pub cancel-IsSound : (s : ℕ) (t : Timer) → IsSound t → IsSound (cancel s t)
  unfolding cancel
  cancel-IsSound s t h = record {
    heap = h.heap;
    once = λ n lo hi e. h.once n lo hi (ground arith);
    most = h.most;
    unused = h.unused;
    awake = h.awake;
    fits = h.fits;
  }

  length-push :
      (queue : List Key) (k : Key)
      → heapq.IsHeap queue
      → length (heapq.push queue k) ≡ suc (length queue)
  length-push queue k h =
      sym (count-all (heapq.push queue k))
      ∙ (heapq.count_push all_keys queue k h ∙ count-all (k ∷ queue))

  KeyLe-antisym : (a b : Key) → KeyLe a b → KeyLe b a → a ≡ b
  KeyLe-antisym (d, s) (e, r) p q =
      let x : d ≡ e = ground arith in let y : s ≡ r = ground arith in λ i. (x i, y i)

  -- An entry pushed below the head leaves the head.
  kept_head :
      (k n x : Key) (rest queue : List Key)
      → heapq.IsHeap (k ∷ rest)
      → heapq.push (k ∷ rest) n ≡ x ∷ queue
      → x.0 ≢ n.0
      → x ≡ k
  kept_head k n x rest queue h e below =
      let pushed : heapq.IsHeap (x ∷ queue) =
        subst (λ q. heapq.IsHeap q) e (heapq.push_heap (k ∷ rest) n h) in
      let cx : count_if (is_key x) (x ∷ queue) ≡ count_if (is_key x) (n ∷ k ∷ rest) =
        ap (count_if (is_key x)) (sym e) ∙ heapq.count_push (is_key x) (k ∷ rest) n h in
      let ck : count_if (is_key k) (x ∷ queue) ≡ count_if (is_key k) (n ∷ k ∷ rest) =
        ap (count_if (is_key k)) (sym e) ∙ heapq.count_push (is_key k) (k ∷ rest) n h in
      let sx = count_self x queue in
      let sk = count_self k rest in
      let old : 0 < count_if (is_key x) (k ∷ rest) = ground arith in
      let new : 0 < count_if (is_key k) (x ∷ queue) = omega arith in
      KeyLe-antisym x k (heapq.least x k queue pushed new) (heapq.least k x rest h old)

  waits_on :
      (k n : Key) (rest pushed : List Key)
      → heapq.IsHeap (k ∷ rest)
      → heapq.push (k ∷ rest) n ≡ pushed
      → is_newest pushed n.0 ≡ false
      → (rest' : List Key) × (pushed ≡ k ∷ rest')
  unfolding is_newest
  waits_on k n rest [] h e f =
      let l = ap length e in let m = length-push (k ∷ rest) n h in absurd (omega arith)
  waits_on k n rest ((d, s) ∷ queue) h e f =
      (queue, ap (λ x. x ∷ queue) (kept_head k n (d, s) rest queue h e (λ same. ground arith)))

  push-fits :
      (ph : Phase) (event : Bool) (queue : List Key) (n : Key)
      → heapq.IsHeap queue
      → (event ≡ true → 0 < length queue)
      → PhaseFits ph event queue
      → PhaseFits ph
          (if is_newest (heapq.push queue n) n.0 then true else event)
          (heapq.push queue n)
  unfolding PhaseFits
  push-fits top event queue n h a f = tt
  push-fits peeking event queue n h a f =
      let l = length-push queue n h in (omega arith, λ e. omega arith)
  push-fits (waiting k) event queue n h a f = λ e.
      let quiet : event ≡ false = ground arith in
      let older : is_newest (heapq.push queue n) n.0 ≡ false = ground arith in
      let (rest, q) = f quiet in
      waits_on k n rest (heapq.push queue n) (subst (λ q. heapq.IsHeap q) q h)
        (ap (λ q. heapq.push q n) (sym q)) older

  push_entry-IsSound :
      (deadline : ℕ) (t : Timer) → IsSound t → IsSound (push_entry heapq deadline t)
  unfolding push_entry
  push_entry-IsSound deadline t h =
      let n : Key = (deadline, suc t.seq) in
      let l = length-push t.queue n h.heap in
      let counted = λ (s : ℕ). heapq.count_push (has_seq s) t.queue n h.heap in
      record {
        heap = heapq.push_heap t.queue n h.heap;
        once = λ s lo hi e.
            let c = counted s in
            let u = h.unused s in
            let o = h.once s lo in
            elim (Bool-cases (suc t.seq == s)) [
              | inl same ↦ ground arith
              | inr other ↦ let p = o (ground arith) (ground arith) in ground arith
            ];
        most = λ s hi. let c = counted s in let u = h.unused s in let o = h.most s in ground arith;
        unused = λ s hi. let c = counted s in let u = h.unused s (omega arith) in ground arith;
        awake = λ e. omega arith;
        fits = push-fits t.phase t.event t.queue n h.heap h.awake h.fits;
      }

  -- Schedule keeps the invariant.
  pub schedule-IsSound :
      (resolution deadline : ℕ) (t : Timer)
      → IsSound t
      → IsSound (schedule heapq resolution deadline t)
  unfolding schedule
  schedule-IsSound resolution deadline t h = push_entry-IsSound (quantize resolution deadline) t h
