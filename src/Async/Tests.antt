-- ===== src/Async/Tests.antt =====
-- Runs of the gathering of results, and its theorems at small inputs.
use pynagle.Common.{ℕ, ◌≡◌, List, [], ◌∷◌, ◌++◌, Option, none, some, arith}
use pynagle.Async.WhenAll.{
  Outcome, succeeded, failed, start, run, all_succeed, indices, value_of, run-gathers,
}
use pynagle.Async.WhenAny.{run_race, race, decided, run_race-race}

-- Of three results, the one at index 2 fails before the others succeed.
abbrev one_fails : List (ℕ × Outcome ℕ)
one_fails = (0, succeeded 5) ∷ (2, failed 9) ∷ (1, succeeded 6) ∷ []

-- Two results, the second of which is first.
abbrev two_values : List (ℕ × ℕ)
two_values = (1, 6) ∷ (0, 5) ∷ []

run-gathers_example :
    (f : ℕ → Option ℕ) × ((run (all_succeed two_values) (start 2)).ret ≡ some (succeeded f))
    × ((n : ℕ) → f n ≡ value_of n two_values none)
unfolding indices
run-gathers_example = run-gathers two_values (omega arith) (λ n. ground arith)

abbrev two_done : List (Outcome ℕ)
two_done = succeeded 5 ∷ failed 8 ∷ []

run_race-race_example : (run_race (two_done ++ failed 9 ∷ []) (race 3)).ret ≡ some (failed 9)
unfolding decided
run_race-race_example = run_race-race two_done (failed 9)
