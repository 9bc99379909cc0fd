-- ===== src/Dispatch.antt =====
-- One call from its dispatch to its answer: MessageDispatcher and _AsyncResponseSink of
-- scales/dispatch.py, SinkStack and ClientTimeoutSink of scales/sink.py, over the timer queue. The
-- sinks below the timeout sink are numbers: they push themselves, and pass a response on.
pub mod Frames
pub mod Once
mod Tests
use pynagle.Common.{
  ℕ, suc, ◌+◌, ◌-◌, Bool, true, false, List, [], ◌∷◌, Option, none, some, ltb, ◌==◌, if◌then◌else◌,
  contains, Run, ok, raised,
}
use pynagle.Timer.{Timer, schedule, cancel}
use pynagle.Timer.Heapq.{HeapQueue}

-- What stands on the stack: _AsyncResponseSink, ClientTimeoutSink with the cancel of its entry, and
-- the other sinks.
pub data Frame : Type 0 where
  response_sink : Frame
  timeout_sink : ℕ → Frame
  other_sink : ℕ → Frame

-- A response: a MethodReturnMessage with a value, with an error, with an error and its stack, or with
-- a TimeoutError, or a message of another class.
pub data Response : Type 0 where
  value : ℕ → Response
  error : ℕ → Response
  error_with_stack : ℕ → Response
  timeout_error : Response
  other_message : Response

-- What the AsyncResult of the call is set to: a value, an error as it is, a ScalesError around an
-- error, the TimeoutError, or an InternalError.
pub data Outcome : Type 0 where
  returned : ℕ → Outcome
  failed : ℕ → Outcome
  scales_error : ℕ → Outcome
  timed_out : Outcome
  internal_error : Outcome

-- `event` is the observable of the deadline, if there is one, `sent` whether the next sink was asked.
pub record Call : Type 0 where
  pub timer : Timer
  pub stack : List Frame
  pub event : Option Bool
  pub passed : List ℕ
  pub outcomes : List Outcome
  pub sent : Bool

-- _WrapException, and what _AsyncResponseSink does of a message.
unfoldable pub outcome_of : Response → Outcome
outcome_of (value v) = returned v
outcome_of (error e) = failed e
outcome_of (error_with_stack e) = scales_error e
outcome_of timeout_error = timed_out
outcome_of other_message = internal_error

-- ClientMessageSinkStack.AsyncProcessResponse, which each sink that is popped calls again but
-- _AsyncResponseSink; on an empty stack it does nothing.
unfoldable pub process_frames : List Frame → Response → Call → Call
unfolding outcome_of
process_frames [] r c = record c { stack = [] }
process_frames (response_sink ∷ stack) r c = record c {
  stack = stack;
  outcomes = outcome_of r ∷ c.outcomes;
}
process_frames (timeout_sink s ∷ stack) r c =
    process_frames stack r (record c { timer = cancel s c.timer })
process_frames (other_sink i ∷ stack) r c =
    process_frames stack r (record c { passed = i ∷ c.passed })

unfoldable pub process_response : Response → Call → Call
unfolding process_frames
process_response r c = process_frames c.stack r c

-- Push, of a sink that is not None.
unfoldable pub push : Frame → Call → Call
push f c = record c { stack = f ∷ c.stack }

-- The deadline of _DispatchMethod, for the timeout of the call or of the dispatcher: 0 is no timeout.
unfoldable pub deadline_of : ℕ → ℕ → ℕ → ℕ → Option ℕ
deadline_of timeout default start_time open_time =
    let t = if timeout == 0 then default else timeout in
    if t == 0 then none else some (start_time + t - (open_time - start_time))

-- StaticDispatchMessage, up to the greenlet of the request.
unfoldable pub dispatch : Timer → Call
unfolding push
dispatch timer =
    push response_sink
      (record { timer = timer; stack = []; event = none; passed = []; outcomes = []; sent = false })

-- _TimeoutHelper
unfoldable pub timeout_helper : Call → Call
unfolding process_response
timeout_helper c =
    process_response timeout_error
      (record c { event = elim c.event [ none ↦ none | some b ↦ some true ] })

module _ (heapq : HeapQueue) where
  -- ClientTimeoutSink.AsyncProcessRequest
  unfoldable pub timeout_request : ℕ → ℕ → Option ℕ → Call → Call
  unfolding timeout_helper push
  timeout_request resolution now none c = record c { sent = true }
  timeout_request resolution now (some deadline) c =
      if ltb deadline now
      then timeout_helper c
      else push (timeout_sink (suc c.timer.seq)) (record c {
        timer = schedule heapq resolution deadline c.timer;
        event = some false;
        sent = true;
      })
