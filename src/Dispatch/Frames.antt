-- ===== src/Dispatch/Frames.antt =====
-- What a response does to the stack of scales/sink.py, class ClientMessageSinkStack.
use pynagle.Common.{ℕ, suc, ◌+◌, ◌≤◌, ◌<◌, ◌≡◌, refl, ◌∙◌, Bool, true, List, [], ◌∷◌, length, arith}
use pynagle.Timer.{cancel}
use pynagle.Timer.Heapq.{HeapQueue}
use pynagle.Timer.Sound.{IsSound, cancel-IsSound}
use pynagle.Dispatch.{
  Frame, response_sink, timeout_sink, other_sink, Response, outcome_of, Call, process_frames,
}

-- How many of the frames answer the call.
unfoldable pub answerers : List Frame → ℕ
answerers [] = 0
answerers (response_sink ∷ stack) = suc (answerers stack)
answerers (timeout_sink s ∷ stack) = answerers stack
answerers (other_sink i ∷ stack) = answerers stack

-- The entry `s` is cancelled, as `done` tells, or its sink stands above the one that answers.
pub data Guarded (s : ℕ) (done : Bool) : List Frame → Type 0 where
  was_cancelled : {stack : List Frame} → done ≡ true → Guarded s done stack
  guards : {stack : List Frame} → Guarded s done (timeout_sink s ∷ stack)
  below :
      {stack : List Frame} (i : ℕ) → Guarded s done stack → Guarded s done (other_sink i ∷ stack)

-- A response takes an answerer off the stack for each outcome that it adds.
pub frames-outcomes :
    (stack : List Frame) (r : Response) (c : Call)
    → answerers (process_frames stack r c).stack + length (process_frames stack r c).outcomes
      ≡ answerers stack + length c.outcomes
unfolding process_frames answerers
frames-outcomes [] r c = refl
frames-outcomes (response_sink ∷ stack) r c = omega arith
frames-outcomes (timeout_sink s ∷ stack) r c =
    frames-outcomes stack r (record c { timer = cancel s c.timer })
frames-outcomes (other_sink i ∷ stack) r c =
    frames-outcomes stack r (record c { passed = i ∷ c.passed })

pub frames_grow :
    (stack : List Frame) (r : Response) (c : Call)
    → length c.outcomes ≤ length (process_frames stack r c).outcomes
unfolding process_frames
frames_grow [] r c = omega arith
frames_grow (response_sink ∷ stack) r c = omega arith
frames_grow (timeout_sink s ∷ stack) r c =
    frames_grow stack r (record c { timer = cancel s c.timer })
frames_grow (other_sink i ∷ stack) r c = frames_grow stack r (record c { passed = i ∷ c.passed })

-- A response that finds an answerer adds its outcome.
pub frames_answer :
    (stack : List Frame) (r : Response) (c : Call)
    → 0 < answerers stack
    → (process_frames stack r c).outcomes ≡ outcome_of r ∷ c.outcomes
unfolding process_frames answerers
frames_answer [] r c h = absurd (omega arith)
frames_answer (response_sink ∷ stack) r c h = refl
frames_answer (timeout_sink s ∷ stack) r c h =
    frames_answer stack r (record c { timer = cancel s c.timer }) h
frames_answer (other_sink i ∷ stack) r c h =
    frames_answer stack r (record c { passed = i ∷ c.passed }) h

cancelled_stays :
    (s : ℕ) (stack : List Frame) (r : Response) (c : Call)
    → c.timer.cancelled s ≡ true
    → (process_frames stack r c).timer.cancelled s ≡ true
unfolding process_frames cancel
cancelled_stays s [] r c h = h
cancelled_stays s (response_sink ∷ stack) r c h = h
cancelled_stays s (timeout_sink n ∷ stack) r c h =
    cancelled_stays s stack r (record c { timer = cancel n c.timer }) (ground arith)
cancelled_stays s (other_sink i ∷ stack) r c h =
    cancelled_stays s stack r (record c { passed = i ∷ c.passed }) h

-- Once a response has come, the entry is cancelled.
pub frames-cancelled :
    (s : ℕ) (done : Bool) (stack : List Frame)
    → Guarded s done stack
    → (r : Response) (c : Call) → c.timer.cancelled s ≡ done
    → (process_frames stack r c).timer.cancelled s ≡ true
unfolding process_frames cancel
frames-cancelled s done stack (was_cancelled d) r c e = cancelled_stays s stack r c (e ∙ d)
frames-cancelled s done _ (guards {stack = stack}) r c e =
    cancelled_stays s stack r (record c { timer = cancel s c.timer }) (ground arith)
frames-cancelled s done _ (below {stack = stack} i g) r c e =
    frames-cancelled s done stack g r (record c { passed = i ∷ c.passed }) e

pub frames-seq :
    (stack : List Frame) (r : Response) (c : Call)
    → (process_frames stack r c).timer.seq ≡ c.timer.seq
unfolding process_frames cancel
frames-seq [] r c = refl
frames-seq (response_sink ∷ stack) r c = refl
frames-seq (timeout_sink s ∷ stack) r c = frames-seq stack r (record c { timer = cancel s c.timer })
frames-seq (other_sink i ∷ stack) r c = frames-seq stack r (record c { passed = i ∷ c.passed })

module _ (heapq : HeapQueue) where
  pub frames-IsSound :
      (stack : List Frame) (r : Response) (c : Call)
      → IsSound heapq c.timer
      → IsSound heapq (process_frames stack r c).timer
  unfolding process_frames
  frames-IsSound [] r c h = h
  frames-IsSound (response_sink ∷ stack) r c h = h
  frames-IsSound (timeout_sink s ∷ stack) r c h =
      frames-IsSound stack r (record c { timer = cancel s c.timer })
        (cancel-IsSound heapq s c.timer h)
  frames-IsSound (other_sink i ∷ stack) r c h =
      frames-IsSound stack r (record c { passed = i ∷ c.passed }) h
