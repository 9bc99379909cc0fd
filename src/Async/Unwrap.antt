-- ===== src/Async/Unwrap.antt =====
-- AsyncResult.Unwrap of scales/asynchronous.py, with _UnwrapHelper. Results are numbers, and `held`
-- what each holds: nothing yet, an exception, a value, or another result. `target` is what the
-- returned AsyncResult holds, and `linked` the result on which the helper waits. gevent runs a link
-- in a callback of its hub after the result is set, which is the step `notify`. The helper follows
-- results that are ready, with fuel for one more than their number.
pub mod Following
pub mod History
mod Tests
use pynagle.Common.{ℕ, zero, suc, Option, none, some, update, Run, ok, raised, out_of_fuel}
use pynagle.Async.WhenAll.{Outcome, succeeded, failed}

-- What a success is: a value, or another result.
pub data Content : Type 0 where
  plain result : ℕ → Content

pub record Unwrapping : Type 0 where
  pub held : ℕ → Option (Outcome Content)
  pub target : Option (Outcome ℕ)
  pub linked : Option ℕ

unfoldable pub set_target : Outcome ℕ → Unwrapping → Unwrapping
set_target o s = record s { target = some o }

-- _UnwrapHelper of the result `a`.
unfoldable pub unwrap_helper : ℕ → ℕ → Unwrapping → Run Unwrapping
unfolding set_target
unwrap_helper zero a s = out_of_fuel
unwrap_helper (suc n) a s = elim (s.held a) as (λ _. Run Unwrapping) [
  | none ↦ ok (record s { linked = some a })
  | some (failed e) ↦ ok (set_target (failed e) s)
  | some (succeeded (plain v)) ↦ ok (set_target (succeeded v) s)
  | some (succeeded (result b)) ↦ unwrap_helper n b s
]

-- Unwrap
unfoldable pub unwrap : ℕ → ℕ → (ℕ → Option (Outcome Content)) → Run Unwrapping
unfolding unwrap_helper
unwrap fuel a held = unwrap_helper fuel a (record { held = held; target = none; linked = none })

-- A result is set.
unfoldable pub set_result : ℕ → Outcome Content → Unwrapping → Unwrapping
set_result a o s = record s { held = update s.held a (some o) }

-- The link of the result `a` runs.
unfoldable pub notify : ℕ → ℕ → Unwrapping → Run Unwrapping
unfolding unwrap_helper
notify fuel a s = unwrap_helper fuel a (record s { linked = none })
