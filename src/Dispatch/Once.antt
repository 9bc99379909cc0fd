-- ===== src/Dispatch/Once.antt =====
-- A call is answered once, and an answered call does not time out.
use pynagle.Common.{
  ℕ, suc, ◌+◌, ◌≤◌, ◌<◌, ◌≡◌, ◌≢◌, ◌⊎◌, inl, inr, refl, ap, sym, subst, ◌∙◌, Bool, true, false, [],
  ◌∷◌, Option, none, some, length, occ, ltb, ◌==◌, if◌then◌else◌, Bool-cases, arith, Run, ok,
  Returns, returns, Returns-weaken,
}
use pynagle.Timer.{Timer, schedule, cancel, resume}
use pynagle.Timer.Heapq.{HeapQueue}
use pynagle.Timer.Sound.{IsSound, cancel-IsSound, schedule-IsSound}
use pynagle.Timer.Worker.{Resumed, resume-Resumed}
use pynagle.Dispatch.{
  timeout_sink, other_sink, Response, value, error, error_with_stack, timeout_error, other_message,
  Outcome, returned, failed, scales_error, timed_out, internal_error, outcome_of, Call,
  process_frames, process_response, push, dispatch, timeout_helper, timeout_request,
}
use pynagle.Dispatch.Frames.{
  answerers, Guarded, was_cancelled, guards, below, frames-outcomes, frames_grow, frames_answer,
  frames-cancelled, frames-seq, frames-IsSound,
}

-- What the caller is told of a response: its value, its error, wrapped if its stack is known and it is
-- no timeout, and an InternalError for a message that is no MethodReturnMessage.
pub data Tells : Response → Outcome → Type 0 where
  tells_value : {v : ℕ} → Tells (value v) (returned v)
  tells_error : {e : ℕ} → Tells (error e) (failed e)
  tells_wrapped : {e : ℕ} → Tells (error_with_stack e) (scales_error e)
  tells_timeout : Tells timeout_error timed_out
  tells_internal : Tells other_message internal_error

outcome_of-Tells : (r : Response) → Tells r (outcome_of r)
unfolding outcome_of
outcome_of-Tells (value v) = tells_value
outcome_of-Tells (error e) = tells_error
outcome_of-Tells (error_with_stack e) = tells_wrapped
outcome_of-Tells timeout_error = tells_timeout
outcome_of-Tells other_message = tells_internal

module _ (heapq : HeapQueue) where
  -- A call whose deadline has the entry `s`: it is open or answered, never both, and an answered one
  -- has its entry cancelled.
  pub record IsOnce (s : ℕ) (c : Call) : Type 0 where
    pub timer_sound : IsSound heapq c.timer
    pub scheduled : s ≤ c.timer.seq
    pub one : answerers c.stack + length c.outcomes ≡ 1
    pub guarded : Guarded s (c.timer.cancelled s) c.stack
    pub settled : (length c.outcomes ≡ 0) ⊎ (c.timer.cancelled s ≡ true)

  -- What can happen to the call: a response from below, its deadline once the worker has run its
  -- entry, a sink that pushes itself, and the timer queue in the hands of others.
  pub data Step (resolution s : ℕ) (c : Call) : Call → Type 0 where
    answers : (r : Response) → Step resolution s c (process_response r c)
    times_out : 0 < occ s c.timer.spawned → Step resolution s c (timeout_helper c)
    pushes : (i : ℕ) → Step resolution s c (push (other_sink i) c)
    works :
        {t : Timer} (now : ℕ)
        → resume heapq now c.timer ≡ ok t
        → Step resolution s c (record c { timer = t })
    others_schedule :
        (deadline : ℕ)
        → Step resolution s c (record c { timer = schedule heapq resolution deadline c.timer })
    others_cancel : (n : ℕ) → Step resolution s c (record c { timer = cancel n c.timer })

  response-IsOnce : (s : ℕ) (r : Response) (c : Call) → IsOnce s c → IsOnce s (process_response r c)
  unfolding process_response
  response-IsOnce s r c h =
      let done = frames-cancelled s (c.timer.cancelled s) c.stack h.guarded r c refl in
      record {
        timer_sound = frames-IsSound heapq c.stack r c h.timer_sound;
        scheduled = omega (arith, frames-seq c.stack r c, h.scheduled);
        one = frames-outcomes c.stack r c ∙ h.one;
        guarded = was_cancelled done;
        settled = inr done;
      }

  -- The timer may change as long as it keeps the entry's cancellation.
  retimed :
      (s : ℕ) (c : Call) (t : Timer)
      → IsSound heapq t
      → s ≤ t.seq
      → (t.cancelled s ≡ c.timer.cancelled s)
      → IsOnce s c
      → IsOnce s (record c { timer = t })
  retimed s c t sound le same h = record {
    timer_sound = sound;
    scheduled = le;
    one = h.one;
    guarded = subst (λ b. Guarded s b c.stack) (sym same) h.guarded;
    settled = elim h.settled [ inl e ↦ inl e | inr e ↦ inr (same ∙ e) ];
  }

  worked :
      (s now : ℕ) (c : Call) (t : Timer) (x : Run Timer)
      → Returns (Resumed heapq now c.timer) x
      → x ≡ ok t
      → IsOnce s c
      → IsOnce s (record c { timer = t })
  worked s now c t _ (returns {value = v} r) e h =
      let same : v ≡ t = ground arith in
      let q = r.same_seq in
      let l = h.scheduled in
      subst (λ w. IsOnce s (record c { timer = w })) same
        (retimed s c v r.sound (omega arith) (ap (λ f. f s) r.same_cancelled) h)

  scheduled_keeps :
      (resolution deadline s : ℕ) (t : Timer)
      → s ≤ t.seq
      → ((schedule heapq resolution deadline t).cancelled s ≡ t.cancelled s)
        × (s ≤ (schedule heapq resolution deadline t).seq)
  unfolding schedule
  scheduled_keeps resolution deadline s t h = (ground arith, omega arith)

  Step-IsOnce : (resolution s : ℕ) (c d : Call) → Step resolution s c d → IsOnce s c → IsOnce s d
  unfolding timeout_helper push answerers cancel
  Step-IsOnce resolution s c _ (answers r) h = response-IsOnce s r c h
  Step-IsOnce resolution s c _ (times_out due) h =
      response-IsOnce s timeout_error
        (record c {
          event = elim c.event as (λ _. Option Bool) [ none ↦ none | some b ↦ some true ];
        })
        (record {
          timer_sound = h.timer_sound;
          scheduled = h.scheduled;
          one = h.one;
          guarded = h.guarded;
          settled = h.settled;
        })
  Step-IsOnce resolution s c _ (pushes i) h = record {
    timer_sound = h.timer_sound;
    scheduled = h.scheduled;
    one = h.one;
    guarded = below i h.guarded;
    settled = h.settled;
  }
  Step-IsOnce resolution s c _ (works {t = t} now e) h =
      worked s now c t (resume heapq now c.timer) (resume-Resumed heapq now c.timer h.timer_sound) e
        h
  Step-IsOnce resolution s c _ (others_schedule deadline) h =
      let (same, le) = scheduled_keeps resolution deadline s c.timer h.scheduled in
      retimed s c (schedule heapq resolution deadline c.timer)
        (schedule-IsSound heapq resolution deadline c.timer h.timer_sound) le same h
  Step-IsOnce resolution s c _ (others_cancel n) h = elim (Bool-cases (n == s)) [
    | inl same ↦
        let done : (cancel n c.timer).cancelled s ≡ true = ground arith in
        record {
          timer_sound = cancel-IsSound heapq n c.timer h.timer_sound;
          scheduled = h.scheduled;
          one = h.one;
          guarded = was_cancelled done;
          settled = inr done;
        }
    | inr other ↦
        retimed s c (cancel n c.timer) (cancel-IsSound heapq n c.timer h.timer_sound) h.scheduled
          (ground arith) h
  ]

  -- The histories of a call: dispatched on a sound timer at the time `now`, with a deadline that has
  -- not passed, and then any steps.
  pub data Reachable (resolution now deadline : ℕ) (t : Timer) : Call → Type 0 where
    sent_off :
        Reachable resolution now deadline t
          (timeout_request heapq resolution now (some deadline) (dispatch t))
    after :
        {c d : Call}
        → Reachable resolution now deadline t c
        → Step resolution (suc t.seq) c d
        → Reachable resolution now deadline t d

  schedule-seq :
      (resolution deadline : ℕ) (t : Timer) → suc t.seq ≤ (schedule heapq resolution deadline t).seq
  unfolding schedule
  schedule-seq resolution deadline t = omega arith

  sent-IsOnce :
      (resolution now deadline : ℕ) (t : Timer)
      → IsSound heapq t
      → now ≤ deadline
      → IsOnce (suc t.seq) (timeout_request heapq resolution now (some deadline) (dispatch t))
  unfolding timeout_request dispatch push answerers
  sent-IsOnce resolution now deadline t h le =
      let later : false ≡ ltb deadline now = ground arith in
      let c : Call = push (timeout_sink (suc t.seq)) (record (dispatch t) {
        timer = schedule heapq resolution deadline t;
        event = some false;
        sent = true;
      }) in
      subst (λ b. IsOnce (suc t.seq) (if b then timeout_helper (dispatch t) else c)) later
        (record {
          timer_sound = schedule-IsSound heapq resolution deadline t h;
          scheduled = schedule-seq resolution deadline t;
          one = omega arith;
          guarded = guards;
          settled = inl refl;
        })

  Reachable-IsOnce :
      (resolution now deadline : ℕ) (t : Timer) (c : Call)
      → IsSound heapq t
      → now ≤ deadline
      → Reachable resolution now deadline t c
      → IsOnce (suc t.seq) c
  Reachable-IsOnce resolution now deadline t _ h le sent_off =
      sent-IsOnce resolution now deadline t h le
  Reachable-IsOnce resolution now deadline t d h le (after {c = c} past step) =
      Step-IsOnce resolution (suc t.seq) c d step
        (Reachable-IsOnce resolution now deadline t c h le past)

  -- After every history of a call whose deadline had not passed when it was sent, its result is set at
  -- most once; while it is not set, the next response of any kind sets it: to the value of the
  -- response, to its error, wrapped if the stack is known and it is no timeout, or to an InternalError
  -- if the response is no MethodReturnMessage.
  pub answered_once :
      (resolution now deadline : ℕ) (t : Timer) (c : Call)
      → IsSound heapq t
      → now ≤ deadline
      → Reachable resolution now deadline t c
      → (r : Response)
      → (length c.outcomes ≤ 1)
        × (length (process_response r c).outcomes ≡ 1)
        × ((length c.outcomes ≡ 1)
            ⊎ ((o : Outcome) × Tells r o × ((process_response r c).outcomes ≡ o ∷ [])))
  unfolding process_response
  answered_once resolution now deadline t c h le past r =
      let k = Reachable-IsOnce resolution now deadline t c h le past in
      let o = k.one in
      let f = frames-outcomes c.stack r c in
      let g = frames_grow c.stack r c in
      elim (Bool-cases (length c.outcomes == 0)) [
        | inl e ↦
            let none_yet : c.outcomes ≡ [] = ground arith in
            let a : (process_frames c.stack r c).outcomes ≡ outcome_of r ∷ [] =
              frames_answer c.stack r c (ground arith) ∙ ap (λ os. outcome_of r ∷ os) none_yet in
            (ground arith, ap length a, inr (outcome_of r, outcome_of-Tells r, a))
        | inr e ↦ (omega arith, ground arith, inl (ground arith))
      ]

  untouched :
      (s now : ℕ) (t u : Timer)
      → t.cancelled s ≡ true
      → Resumed heapq now t u
      → occ s u.spawned ≡ occ s t.spawned
  untouched s now t u done x = elim x.runs [
    | inl e ↦ ap (occ s) e
    | inr (d, n, rest, q, runs, due, e) ↦
        let other : n ≢ s = λ same.
          let c : t.cancelled s ≡ false = subst (λ m. t.cancelled m ≡ false) same runs in
          ground arith in
        ap (occ s) e ∙ ground arith
  ]

  -- Once its result is set, no run of the worker runs the entry of the deadline of the call.
  answered-resume :
      (resolution now deadline : ℕ) (t : Timer) (c : Call)
      → IsSound heapq t
      → now ≤ deadline
      → Reachable resolution now deadline t c
      → 0 < length c.outcomes
      → (later : ℕ)
      → Returns
          (λ u. occ (suc t.seq) u.spawned ≡ occ (suc t.seq) c.timer.spawned)
          (resume heapq later c.timer)
  answered-resume resolution now deadline t c h le past set later =
      let k = Reachable-IsOnce resolution now deadline t c h le past in
      let done : c.timer.cancelled (suc t.seq) ≡ true = elim k.settled [
        | inl e ↦ absurd (omega arith)
        | inr e ↦ e
      ] in
      Returns-weaken (λ u x. untouched (suc t.seq) later c.timer u done x)
        (resume-Resumed heapq later c.timer k.timer_sound)
