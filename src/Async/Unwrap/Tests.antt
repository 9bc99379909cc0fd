-- ===== src/Async/Unwrap/Tests.antt =====
-- The unwrapping of a chain of two results.
use pynagle.Common.{ℕ, ◌≡◌, refl, ◌⊎◌, Option, none, some, update, Returns}
use pynagle.Async.WhenAll.{Outcome, succeeded}
use pynagle.Async.Unwrap.{Content, plain, result, Unwrapping, unwrap, set_result, notify}
use pynagle.Async.Unwrap.Following.{Ends, ends_plain, ends_next}
use pynagle.Async.Unwrap.History.{Reachable, begun, sets, notified, Reachable-resolves}

abbrev nothing_held : ℕ → Option (Outcome Content)
nothing_held a = none

-- The helper waits on 0, which gets the result 1 and then is followed; 1 gets a value.
abbrev waiting : Unwrapping
waiting = record { held = nothing_held; target = none; linked = some 0 }

abbrev followed : Unwrapping
followed = record {
  held = update nothing_held 0 (some (succeeded (result 1)));
  target = none;
  linked = some 1;
}

abbrev all_held : Unwrapping
all_held = set_result 1 (succeeded (plain 9)) followed

all_held-Reachable : Reachable 0 all_held
unfolding unwrap set_result notify
all_held-Reachable =
    sets 1 (succeeded (plain 9)) refl
      (notified 2 0 refl refl (sets 0 (succeeded (result 1)) refl (begun 1 nothing_held refl)))

chain : Ends all_held.held (succeeded 9) 1 0
unfolding set_result
chain = ends_next refl (ends_plain refl refl)

Reachable-resolves_example :
    (all_held.target ≡ some (succeeded 9))
    ⊎ ((a : ℕ) × (all_held.linked ≡ some a)
        × Returns (λ t. t.target ≡ some (succeeded 9)) (notify 2 a all_held))
Reachable-resolves_example = Reachable-resolves 0 all_held (succeeded 9) 1 all_held-Reachable chain
