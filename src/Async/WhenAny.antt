-- ===== src/Async/WhenAny.antt =====
-- AsyncResult.WhenAny of scales/asynchronous.py, of results of which none is ready when it is called
-- or one is. The results complete one by one, in any order, and each runs `complete` once. gevent's
-- set_exception replaces what a result holds.
use pynagle.Common.{
  ℕ, suc, ◌-◌, ◌≡◌, refl, sym, ap, ◌∙◌, List, [], ◌∷◌, ◌++◌, Option, none, some, length, ◌==◌,
  if◌then◌else◌, arith,
}
use pynagle.Async.WhenAll.{Outcome, succeeded, failed}

-- `total` is how many have not completed, and `ret` what the returned AsyncResult holds.
pub record Racing {ℓ} (A : Type ℓ) : Type ℓ where
  pub total : ℕ
  pub ret : Option (Outcome A)

module _ {ℓ} {A : Type ℓ} where
  -- What is returned at once: the first result that is ready.
  unfoldable pub first_ready : List (Option (Outcome A)) → Option (Outcome A)
  first_ready [] = none
  first_ready (none ∷ ars) = first_ready ars
  first_ready (some o ∷ ars) = some o

  unfoldable pub race : ℕ → Racing A
  race num_ars = record { total = num_ars; ret = none }

  unfoldable pub set_unless : Option (Outcome A) → A → Option (Outcome A)
  set_unless none value = some (succeeded value)
  set_unless (some held) value = some held

  -- complete
  unfoldable pub finish_one : Outcome A → Racing A → Racing A
  unfolding set_unless
  finish_one (failed e) s =
      let total = s.total - 1 in
      record { total = total; ret = if total == 0 then some (failed e) else s.ret }
  finish_one (succeeded value) s = record { total = s.total - 1; ret = set_unless s.ret value }

  unfoldable pub run_race : List (Outcome A) → Racing A → Racing A
  unfolding finish_one
  run_race [] s = s
  run_race (o ∷ events) s = run_race events (finish_one o s)

  -- The first success, or else another value.
  unfoldable pub first_success : List (Outcome A) → A → A
  first_success [] other = other
  first_success (succeeded value ∷ events) other = value
  first_success (failed e ∷ events) other = first_success events other

  -- What the last completion makes of the others.
  unfoldable pub decided : List (Outcome A) → Outcome A → Outcome A
  unfolding first_success
  decided events (failed e) = failed e
  decided events (succeeded value) = succeeded (first_success events value)

  decided_held :
      (v : A) (o : Outcome A) (events : List (Outcome A)) (last : Outcome A)
      → decided (succeeded v ∷ o ∷ events) last ≡ decided (succeeded v ∷ events) last
  unfolding decided first_success
  decided_held v o events (failed e) = refl
  decided_held v o events (succeeded w) = refl

  decided_failed :
      (e : ℕ) (events : List (Outcome A)) (last : Outcome A)
      → decided (failed e ∷ events) last ≡ decided events last
  unfolding decided first_success
  decided_failed e events (failed f) = refl
  decided_failed e events (succeeded w) = refl

  run_race-held :
      (events : List (Outcome A)) (last : Outcome A) (v : A) (s : Racing A)
      → s.ret ≡ some (succeeded v)
      → s.total ≡ suc (length events)
      → (run_race (events ++ last ∷ []) s).ret ≡ some (decided (succeeded v ∷ events) last)
  unfolding run_race finish_one set_unless decided first_success
  run_race-held [] (failed e) v s h t = ground (arith, h, t)
  run_race-held [] (succeeded w) v s h t = ground (arith, h, t)
  run_race-held (failed e ∷ events) last v s h t =
      run_race-held events last v (finish_one (failed e) s) (ground (arith, h, t))
        (ground (arith, t))
      ∙ ap some (sym (decided_held v (failed e) events last))
  run_race-held (succeeded w ∷ events) last v s h t =
      run_race-held events last v (finish_one (succeeded w) s) (ground (arith, h))
        (ground (arith, t))
      ∙ ap some (sym (decided_held v (succeeded w) events last))

  run_race-decided :
      (events : List (Outcome A)) (last : Outcome A) (s : Racing A)
      → s.ret ≡ none
      → s.total ≡ suc (length events)
      → (run_race (events ++ last ∷ []) s).ret ≡ some (decided events last)
  unfolding run_race finish_one set_unless decided first_success
  run_race-decided [] (failed e) s h t = ground (arith, h, t)
  run_race-decided [] (succeeded w) s h t = ground (arith, h, t)
  run_race-decided (failed e ∷ events) last s h t =
      run_race-decided events last (finish_one (failed e) s) (ground (arith, h, t))
        (ground (arith, t))
      ∙ ap some (sym (decided_failed e events last))
  run_race-decided (succeeded w ∷ events) last s h t =
      run_race-held events last w (finish_one (succeeded w) s) (ground (arith, h))
        (ground (arith, t))

-- When all the results that were passed have completed, in whatever order, the returned result
-- holds the exception of the last of them to complete, if that failed, also after one that
-- succeeded, and else the value of the first that succeeded.
pub run_race-race {ℓ} :
    {A : Type ℓ} (events : List (Outcome A)) (last : Outcome A)
    → (run_race (events ++ last ∷ []) (race (suc (length events)))).ret ≡ some (decided events last)
unfolding race
run_race-race events last = run_race-decided events last (race (suc (length events))) refl refl
