-- ===== src/Observable.antt =====
-- scales/observable.py, class Observable. A callback is a number, and a value is a number or None.
-- None in place of a set of callbacks acts as the empty set. `spawned` are the values that greenlets
-- of __Notify have been started with, the oldest first, and `calls` the calls of callbacks, newest
-- first.
pub mod Once
mod Tests
use pynagle.Common.{
  ℕ, Bool, true, false, Option, none, some, List, [], ◌∷◌, ◌++◌, if◌then◌else◌, contains, erase,
  Run, ok, raised,
}

pub record Observable : Type 0 where
  pub callbacks : List ℕ
  pub one_shot : List ℕ
  pub value : Option ℕ
  pub spawned : List (Option ℕ)
  pub calls : List (ℕ × Option ℕ)

-- __init__
unfoldable pub init : Observable
init = record { callbacks = []; one_shot = []; value = none; spawned = []; calls = [] }

-- set.add
unfoldable pub add_callback : ℕ → List ℕ → List ℕ
add_callback k callbacks = if contains callbacks k then callbacks else k ∷ callbacks

-- Each callback is called with the value.
unfoldable pub call_all : Option ℕ → List ℕ → List (ℕ × Option ℕ) → List (ℕ × Option ℕ)
call_all v [] calls = calls
call_all v (k ∷ callbacks) calls = call_all v callbacks ((k, v) ∷ calls)

-- __Notify: the one shot callbacks go.
unfoldable pub notify : Option ℕ → Observable → Observable
unfolding call_all
notify v o = record o {
  one_shot = [];
  calls = call_all v o.one_shot (call_all v o.callbacks o.calls);
}

-- The oldest greenlet of __Notify.
unfoldable pub notify_next : List (Option ℕ) → Observable → Observable
unfolding notify
notify_next [] o = o
notify_next (v ∷ more) o = notify v (record o { spawned = more })

-- Set
unfoldable pub set_value : Option ℕ → Observable → Observable
set_value v o = record o { value = v; spawned = o.spawned ++ v ∷ [] }

-- Subscribe; what is not callable raises.
unfoldable pub subscribe : Option ℕ → Bool → Observable → Run Observable
unfolding add_callback
subscribe none one_shot o = raised
subscribe (some k) true o = ok (record o { one_shot = add_callback k o.one_shot })
subscribe (some k) false o = ok (record o { callbacks = add_callback k o.callbacks })

-- Unsubscribe
unfoldable pub unsubscribe : ℕ → Observable → Observable
unsubscribe k o = record o { callbacks = erase k o.callbacks; one_shot = erase k o.one_shot }
