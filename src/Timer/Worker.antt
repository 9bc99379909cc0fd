-- ===== src/Timer/Worker.antt =====
-- The worker of scales/timer_queue.py, class TimerQueue: it never fails, and it runs what is due.
use pynagle.Common.{
  ℕ, ◌+◌, ◌-◌, ◌*◌, ◌/◌, ◌≤◌, ◌<◌, ◌≡◌, ◌⊎◌, inl, inr, refl, ap, sym, subst, ◌∙◌, Bool, true, false,
  List, [], ◌∷◌, length, occ, ltb, ◌==◌, if◌then◌else◌, Bool-cases, arith, Run, ok, Returns,
  returns, Returns-test,
}
use pynagle.Timer.{
  Phase, top, peeking, waiting, Timer, new_timer, cancel, schedule, quantize, pop_run, peek,
  resume_from, resume,
}
use pynagle.Timer.Heapq.{Key, count_if, has_seq, HeapQueue}
use pynagle.Timer.Sound.{
  PhaseFits, IsSound, new_timer-IsSound, cancel-IsSound, schedule-IsSound, count-all, all_keys,
}

module _ (heapq : HeapQueue) where
  -- What one run of the worker at the time `now` leaves: a sound timer with the same entries, where
  -- nothing new is run, or the entry that was the head, was not cancelled and is due.
  pub record Resumed (now : ℕ) (t u : Timer) : Type 0 where
    pub sound : IsSound heapq u
    pub same_seq : u.seq ≡ t.seq
    pub same_cancelled : u.cancelled ≡ t.cancelled
    pub runs :
        (u.spawned ≡ t.spawned)
        ⊎ ((d s : ℕ) × (rest : List Key) × (t.queue ≡ (d, s) ∷ rest)
            × (t.cancelled s ≡ false)
            × (d ≤ now)
            × (u.spawned ≡ s ∷ t.spawned))

  popped :
      (t : Timer) (d s : ℕ) (queue : List Key) (spawned : List ℕ)
      → t.queue ≡ (d, s) ∷ queue
      → IsSound heapq t
      → (t.event ≡ true → 1 < length t.queue)
      → ((n : ℕ)
          → occ n spawned
            ≡ (if (t.cancelled s) then 0 else (if s == n then 1 else 0)) + occ n t.spawned)
      → IsSound heapq (record t { queue = heapq.pop t.queue; phase = top; spawned = spawned })
  unfolding PhaseFits
  popped t d s queue spawned e h more runs =
      let heaped : heapq.IsHeap ((d, s) ∷ queue) = subst (λ q. heapq.IsHeap q) e h.heap in
      let counted = λ (test : Key → Bool). heapq.count_pop test (d, s) queue heaped in
      let same : heapq.pop t.queue ≡ heapq.pop ((d, s) ∷ queue) = ap heapq.pop e in
      let gone = λ (n : ℕ). ap (count_if (has_seq n)) same in
      let was = λ (n : ℕ). ap (count_if (has_seq n)) e in
      let long = ap length e in
      let left = ap length same in
      let all = counted all_keys in
      let a = count-all (heapq.pop ((d, s) ∷ queue)) in
      let b = count-all queue in
      record {
        heap = subst (λ q. heapq.IsHeap q) (sym same) (heapq.pop_heap (d, s) queue heaped);
        once = λ n lo hi k.
            let o = h.once n lo hi k in
            let c = counted (has_seq n) in
            let g = gone n in
            let w = was n in
            let r = runs n in
            elim (Bool-cases (s == n)) [
              | inl x ↦
                  let y : s ≡ n = ground arith in
                  let z : t.cancelled s ≡ false = ap t.cancelled y ∙ k in ground arith
              | inr x ↦ ground arith
            ];
        most = λ n hi.
            let o = h.most n hi in
            let c = counted (has_seq n) in
            let g = gone n in let w = was n in let r = runs n in ground arith;
        unused = λ n hi.
            let o = h.unused n hi in
            let c = counted (has_seq n) in
            let g = gone n in let w = was n in let r = runs n in ground arith;
        awake = λ x. let m = more x in omega arith;
        fits = tt;
      }

  -- The entry at the head is popped, and run if it was not cancelled.
  pop_run-Resumed :
      (now : ℕ) (t : Timer) (d s : ℕ) (queue : List Key)
      → t.queue ≡ (d, s) ∷ queue
      → d ≤ now
      → IsSound heapq t
      → (t.event ≡ true → 1 < length t.queue)
      → Returns (Resumed now t) (pop_run heapq t.queue t)
  unfolding pop_run
  pop_run-Resumed now t d s queue e due h more =
      subst (λ q. Returns (Resumed now t) (pop_run heapq q t)) (sym e)
        (returns (record {
          sound =
              popped t d s queue (if t.cancelled s then t.spawned else s ∷ t.spawned) e h more
                (λ n. ground arith);
          same_seq = refl;
          same_cancelled = refl;
          runs = elim (Bool-cases (t.cancelled s)) [
            | inl c ↦ inl (ap (λ b. if b then t.spawned else s ∷ t.spawned) c)
            | inr c ↦
                inr (d, s, queue, e, c, due, ap (λ b. if b then t.spawned else s ∷ t.spawned) c)
          ];
        }))

  -- A change of the phase alone.
  rephased :
      (now : ℕ) (t : Timer) (event : Bool) (ph : Phase)
      → IsSound heapq t
      → (event ≡ true → 0 < length t.queue)
      → PhaseFits ph event t.queue
      → Resumed now t (record t { event = event; phase = ph })
  rephased now t event ph h awake fits = record {
    sound = record {
      heap = h.heap;
      once = h.once;
      most = h.most;
      unused = h.unused;
      awake = awake;
      fits = fits;
    };
    same_seq = refl;
    same_cancelled = refl;
    runs = inl refl;
  }

  peek-Resumed :
      (now : ℕ) (t : Timer) (queue : List Key)
      → t.queue ≡ queue
      → 0 < length queue
      → IsSound heapq t
      → (t.event ≡ true → 1 < length t.queue)
      → Returns (Resumed now t) (peek heapq now queue t)
  unfolding peek PhaseFits
  peek-Resumed now t [] e some_entry h more = absurd (omega arith)
  peek-Resumed now t ((d, s) ∷ queue) e some_entry h more =
      Returns-test (t.cancelled s)
        (λ c. returns (record {
          sound = popped t d s queue t.spawned e h more (λ n. ground arith);
          same_seq = refl;
          same_cancelled = refl;
          runs = inl refl;
        }))
        (λ c.
          Returns-test (ltb now d)
            (λ l. returns (rephased now t t.event (waiting (d, s)) h h.awake (λ q. (queue, e))))
            (λ l. pop_run-Resumed now t d s queue e (ground arith) h more))

  resume_from-Resumed :
      (now : ℕ) (t : Timer) (ph : Phase)
      → t.phase ≡ ph
      → PhaseFits ph t.event t.queue
      → IsSound heapq t
      → Returns (Resumed now t) (resume_from heapq ph now t)
  unfolding resume_from PhaseFits
  resume_from-Resumed now t peeking e f h = peek-Resumed now t t.queue refl f.0 h f.1
  resume_from-Resumed now t (waiting (d, s)) e f h =
      Returns-test t.event (λ x. returns (rephased now t t.event top h h.awake tt))
        (λ x.
          Returns-test (ltb now d) (λ l. returns (rephased now t t.event t.phase h h.awake h.fits))
            (λ l.
              let (rest, q) = f x in
              pop_run-Resumed now t d s rest q (ground arith) h (λ y. absurd (ground arith))))
  resume_from-Resumed now t top e f h =
      Returns-test t.event
        (λ x. returns (
          rephased now t false peeking h (λ y. absurd (ground arith))
            (h.awake x, λ y. absurd (ground arith))))
        (λ x. at_top now t t.queue refl x h)
    where
      at_top :
          (now : ℕ) (t : Timer) (queue : List Key)
          → t.queue ≡ queue
          → t.event ≡ false
          → IsSound heapq t
          → Returns
              (Resumed now t)
              (elim queue as (λ _. Run Timer) [ [] ↦ ok t | _ ↦ peek heapq now queue t ])
      at_top now t [] e x h = returns (rephased now t t.event t.phase h h.awake h.fits)
      at_top now t (k ∷ queue) e x h =
          peek-Resumed now t (k ∷ queue) e (omega arith) h (λ y. absurd (ground arith))

  -- A run of the worker on a sound timer never looks at an empty queue: it ends without an exception
  -- and leaves a sound timer with the same entries, and what it runs, if anything, is one entry, the
  -- head of the queue, which was not cancelled and is due.
  pub resume-Resumed :
      (now : ℕ) (t : Timer) → IsSound heapq t → Returns (Resumed now t) (resume heapq now t)
  unfolding resume
  resume-Resumed now t h = resume_from-Resumed now t t.phase refl h.fits h

  -- The histories of a timer: calls of Schedule and of the cancels that it returned, and runs of the
  -- worker, in every order and at every time.
  pub data Reachable (resolution : ℕ) : Timer → Type 0 where
    created : Reachable resolution new_timer
    schedules :
        {t : Timer} (deadline : ℕ)
        → Reachable resolution t
        → Reachable resolution (schedule heapq resolution deadline t)
    cancels : {t : Timer} (s : ℕ) → Reachable resolution t → Reachable resolution (cancel s t)
    works :
        {t u : Timer} (now : ℕ)
        → Reachable resolution t
        → resume heapq now t ≡ ok u
        → Reachable resolution u

  worked :
      (now : ℕ) (t u : Timer) (x : Run Timer)
      → Returns (Resumed now t) x
      → x ≡ ok u
      → IsSound heapq u
  worked now t u _ (returns {value = v} r) e =
      let same : v ≡ u = ground arith in subst (λ w. IsSound heapq w) same r.sound

  Reachable-IsSound : (resolution : ℕ) (t : Timer) → Reachable resolution t → IsSound heapq t
  Reachable-IsSound resolution _ created = new_timer-IsSound heapq
  Reachable-IsSound resolution _ (schedules {t = t} deadline past) =
      schedule-IsSound heapq resolution deadline t (Reachable-IsSound resolution t past)
  Reachable-IsSound resolution _ (cancels {t = t} s past) =
      cancel-IsSound heapq s t (Reachable-IsSound resolution t past)
  Reachable-IsSound resolution u (works {t = t} now past e) =
      worked now t u (resume heapq now t)
        (resume-Resumed now t (Reachable-IsSound resolution t past)) e

  -- After every history, a run of the worker at any time ends without an exception, so it never looks
  -- at an empty queue; it keeps the entries and their cancellations, and what it runs, if anything, is
  -- the head of the queue, which was not cancelled and whose deadline has come.
  pub Reachable-resume :
      (resolution now : ℕ) (t : Timer)
      → Reachable resolution t
      → Returns (Resumed now t) (resume heapq now t)
  Reachable-resume resolution now t past =
      resume-Resumed now t (Reachable-IsSound resolution t past)

  -- After every history, each entry that was scheduled stands in the queue or was run, never both and
  -- neither twice, and an entry that was not cancelled is one or the other.
  pub Reachable-once :
      (resolution : ℕ) (t : Timer)
      → Reachable resolution t
      → (s : ℕ) → 0 < s
      → s ≤ t.seq
      → (count_if (has_seq s) t.queue + occ s t.spawned ≤ 1)
        × ((t.cancelled s ≡ true) ⊎ (count_if (has_seq s) t.queue + occ s t.spawned ≡ 1))
  Reachable-once resolution t past s lo hi =
      let h = Reachable-IsSound resolution t past in
      (
        h.most s hi,
        elim (Bool-cases (t.cancelled s)) [ inl c ↦ inl c | inr c ↦ inr (h.once s lo hi c) ],
      )

-- The deadline of an entry is put off by less than the resolution, to a multiple of it, and stays as
-- it is without one.
quantize_bounds :
    (resolution deadline : ℕ)
    → 0 < resolution
    → (deadline ≤ quantize resolution deadline)
      × (quantize resolution deadline < deadline + resolution)
      × ((rounds : ℕ) × (quantize resolution deadline ≡ rounds * resolution))
      × (quantize 0 deadline ≡ deadline)
unfolding quantize
quantize_bounds resolution deadline h =
    (grind arith, grind arith, ((deadline + (resolution - 1)) / resolution, ground arith), refl)
