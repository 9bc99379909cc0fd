-- ===== src/Observable/Tests.antt =====
-- An observable on a short history.
use pynagle.Common.{◌≡◌, ◌≤◌, ◌+◌, refl, none, some, true, [], ◌∷◌, ok, occ}
use pynagle.Observable.{
  Observable, init, set_value, subscribe, add_callback, notify, notify_next, call_all,
}
use pynagle.Observable.Once.{
  calls_of, Steps, start, next, sets, notifies, subscribes_once, one_shot-called,
}

abbrev subscribed : Observable
subscribed = record { callbacks = []; one_shot = 4 ∷ []; value = none; spawned = []; calls = [] }

test-subscribe : subscribe (some 4) true init ≡ ok subscribed
unfolding subscribe init add_callback
test-subscribe = refl

-- Both values are notified, and the callback hears of the first.
test-notify_next :
    (let o = set_value (some 2) (set_value (some 1) subscribed) in
      let p = notify_next o.spawned o in (notify_next p.spawned p).calls)
    ≡ (4, some 1) ∷ []
unfolding set_value notify_next notify call_all
test-notify_next = refl

no_callback : occ 4 init.callbacks ≡ 0
unfolding init
no_callback = refl

abbrev notified : Observable
notified = let o = set_value (some 1) subscribed in notify_next o.spawned o

history : Steps 4 init 1 notified
history = next (next (next start (subscribes_once test-subscribe)) (sets (some 1))) notifies

one_shot-called_example :
    calls_of 4 notified.calls ≤ calls_of 4 init.calls + occ 4 init.one_shot + 1
one_shot-called_example = one_shot-called 4 1 init notified no_callback history
