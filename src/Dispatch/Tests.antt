-- ===== src/Dispatch/Tests.antt =====
-- The theorems about calls at a small call.
use pynagle.Common.{◌≤◌, ◌≡◌, ◌⊎◌, some, [], ◌∷◌, length, arith}
use pynagle.Timer.{new_timer}
use pynagle.Timer.Sorted.{sorted_queue}
use pynagle.Timer.Sound.{new_timer-IsSound}
use pynagle.Dispatch.{
  Call, value, error, Outcome, dispatch, timeout_request, process_response, push, other_sink,
}
use pynagle.Dispatch.Once.{Reachable, sent_off, after, answers, pushes, answered_once, Tells}

-- Sent at 20 with the deadline 40; the serializer 1 pushed itself.
abbrev pushed_call : Call
pushed_call =
    push (other_sink 1) (timeout_request sorted_queue 10 20 (some 40) (dispatch new_timer))

pushed-Reachable : Reachable sorted_queue 10 20 40 new_timer pushed_call
pushed-Reachable = after sent_off (pushes 1)

answered_once_example :
    (length pushed_call.outcomes ≤ 1)
    × (length (process_response (error 7) pushed_call).outcomes ≡ 1)
    × ((length pushed_call.outcomes ≡ 1)
        ⊎ ((o : Outcome) × Tells (error 7) o
            × ((process_response (error 7) pushed_call).outcomes ≡ o ∷ [])))
answered_once_example =
    answered_once sorted_queue 10 20 40 new_timer pushed_call (new_timer-IsSound sorted_queue)
      (omega arith) pushed-Reachable (error 7)

-- Then the value 5 came.
abbrev answered_call : Call
answered_call = process_response (value 5) pushed_call

answered-Reachable : Reachable sorted_queue 10 20 40 new_timer answered_call
answered-Reachable = after pushed-Reachable (answers (value 5))
