-- ===== src/LoadBalancer/Members/History.antt =====
-- The histories of the members of a balancer.
use pynagle.Common.{
  ℕ, ◌≡◌, refl, Bool, true, false, Option, none, some, List, [], ◌∷◌, ◌++◌, if◌then◌else◌, Run, ok,
  Safely, gives, raises, Safely-ok, raised, arith,
}
use pynagle.Constants.{ChannelState}
use pynagle.LoadBalancer.Members.{
  Change, Notice, Attempt, Members, init, notify, deliver, open_balancer, open_impl,
  on_open_complete, unexpired, request, close,
}
use pynagle.LoadBalancer.Members.Tracking.{
  view, Phase, unopened, initializing, broken, serving, shut, IsTracked,
}
use pynagle.LoadBalancer.Members.Delivery.{deliver-IsTracked, open_impl-IsTracked}

-- What can happen to a balancer. A request or an end of the open that raises changes nothing.
pub data Step (s : Members) : Members → Type 0 where
  opens : Step s (open_balancer s)
  initializes : (attempts : List Attempt) → s.opening ≡ true → Step s (open_impl attempts s)
  notifies : (n : Notice) → Step s (notify n s)
  delivers : Step s (deliver s.notices s)
  completes : {t : Members} (expired : ℕ → Bool) → on_open_complete expired s ≡ ok t → Step s t
  asks : {t : Members} (r : ℕ) → request r s ≡ ok t → Step s t
  closes : Step s (close s)

pub data Reachable (name : Option ℕ) : Members → Type 0 where
  new : Reachable name (init name)
  next : {s t : Members} → Reachable name s → Step s t → Reachable name t

init-IsTracked : (name : Option ℕ) → IsTracked (init name)
unfolding init view
init-IsTracked name = record { phase = unopened; viewed = refl; once = λ e. omega arith }

opened_phase :
    {o : Option Bool} {p i : Bool} {c : ChannelState} {changed : List Change}
    → Phase o p i c changed
    → o ≡ none
    → Phase (some false) true i c changed
opened_phase unopened e = initializing false
opened_phase (initializing ready) e = absurd (ground arith)
opened_phase (broken ready changed) e = absurd (ground arith)
opened_phase (serving ready changed) e = absurd (ground arith)
opened_phase (shut o p changed) e = shut (some false) true changed

opens-IsTracked : (s : Members) → IsTracked s → IsTracked (open_balancer s)
unfolding open_balancer
opens-IsTracked s h =
    elim s.open_result
        as (λ o.
          s.open_result ≡ o
          → IsTracked (elim o as (λ _. Members) [
            | none ↦ record s { open_result = some false; opening = true }
            | some ready ↦ s
          ])) [
            | none ↦
                λ e. record { phase = opened_phase h.phase e; viewed = h.viewed; once = h.once }
            | some ready ↦ λ e. h
          ]
      refl

ready_phase :
    {o : Option Bool} {p i : Bool} {c : ChannelState} {changed : List Change} (ready : Bool)
    → Phase o p i c changed
    → o ≡ some ready
    → Phase (some true) p i c changed
ready_phase ready unopened e = absurd (ground arith)
ready_phase ready (initializing _) e = initializing true
ready_phase ready (broken _ changed) e = broken true changed
ready_phase ready (serving _ changed) e = serving true changed
ready_phase ready (shut o p changed) e = shut (some true) p changed

completes-Safely :
    (expired : ℕ → Bool) (s : Members) → IsTracked s → Safely IsTracked (on_open_complete expired s)
unfolding on_open_complete
completes-Safely expired s h =
    elim s.open_result
        as (λ o.
          s.open_result ≡ o
          → Safely IsTracked (elim o as (λ _. Run Members) [
            | none ↦ raised
            | some ready ↦ ok (record s {
              open_result = some true;
              held = [];
              passed = s.passed ++ unexpired expired s.held;
            })
          ])) [
            | none ↦ λ e. raises
            | some ready ↦ λ e.
                gives
                  (record { phase = ready_phase ready h.phase e; viewed = h.viewed; once = h.once })
          ]
      refl

request-Safely : (r : ℕ) (s : Members) → IsTracked s → Safely IsTracked (request r s)
unfolding request
request-Safely r s h =
    elim s.open_result
      as (λ o. Safely IsTracked (elim o as (λ _. Run Members) [
        | none ↦ raised
        | some ready ↦
            if ready
            then ok (record s { passed = s.passed ++ r ∷ [] })
            else ok (record s { held = s.held ++ r ∷ [] })
      ])) [
        | none ↦ raises
        | some true ↦ gives (record { phase = h.phase; viewed = h.viewed; once = h.once })
        | some false ↦ gives (record { phase = h.phase; viewed = h.viewed; once = h.once })
      ]

Step-IsTracked : (s t : Members) → Step s t → IsTracked s → IsTracked t
unfolding notify close
Step-IsTracked s _ opens h = opens-IsTracked s h
Step-IsTracked s _ (initializes attempts p) h = open_impl-IsTracked attempts s h p
Step-IsTracked s _ (notifies n) h = record { phase = h.phase; viewed = h.viewed; once = h.once }
Step-IsTracked s _ delivers h = deliver-IsTracked s.notices s h
Step-IsTracked s t (completes expired e) h = Safely-ok t (completes-Safely expired s h) e
Step-IsTracked s t (asks r e) h = Safely-ok t (request-Safely r s h) e
Step-IsTracked s _ closes h = record {
  phase = shut none false s.changed;
  viewed = h.viewed;
  once = h.once;
}

-- In every history of a balancer in which its greenlet of an open runs only after an open, whatever
-- endpoints of its instances are missing, a subclass that follows the calls of its hook has just the members, each of which is there once.
pub Reachable-IsTracked : {name : Option ℕ} {s : Members} → Reachable name s → IsTracked s
Reachable-IsTracked {name = name} new = init-IsTracked name
Reachable-IsTracked (next {s = s} {t = t} before step) =
    Step-IsTracked s t step (Reachable-IsTracked before)
