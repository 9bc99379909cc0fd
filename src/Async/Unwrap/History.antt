-- ===== src/Async/Unwrap/History.antt =====
-- The histories of an unwrapping.
use pynagle.Common.{
  ℕ, zero, suc, ◌≡◌, refl, sym, ap, subst, ◌∙◌, Option, none, some, Run, ok, Safely-ok, Returns,
  returns, ◌≤◌, ◌<◌, ◌⊎◌, inl, inr, arith,
}
use pynagle.Async.WhenAll.{Outcome, succeeded, failed}
use pynagle.Async.Unwrap.{
  Content, plain, result, Unwrapping, set_target, unwrap_helper, unwrap, set_result, notify,
}
use pynagle.Async.Unwrap.Following.{
  LeadsTo, here, follow, Ends, ends_failed, ends_plain, ends_next, Progress, waits, ended,
  Progress-update, helper-Safely,
}

-- The states that the unwrapping of `root` reaches: each result is set once, in any order, and the
-- link of the result on which the helper waits runs in between.
pub data Reachable (root : ℕ) : Unwrapping → Type 0 where
  begun :
      {s : Unwrapping} (fuel : ℕ) (held : ℕ → Option (Outcome Content))
      → unwrap fuel root held ≡ ok s
      → Reachable root s
  sets :
      {s : Unwrapping} (a : ℕ) (o : Outcome Content)
      → s.held a ≡ none
      → Reachable root s
      → Reachable root (set_result a o s)
  notified :
      {s t : Unwrapping} (fuel a : ℕ)
      → s.linked ≡ some a
      → notify fuel a s ≡ ok t
      → Reachable root s
      → Reachable root t

waits_alone :
    (held : ℕ → Option (Outcome Content)) (root a : ℕ) (l : Option ℕ) (t : Option (Outcome ℕ))
    → Progress held root l t
    → l ≡ some a
    → (t ≡ none) × LeadsTo held root a
waits_alone held root a l t (waits {b = b} p) e =
    let same : b ≡ a = ground arith in (refl, subst (LeadsTo held root) same p)
waits_alone held root a l t (ended p h) e = absurd (ground arith)

Reachable-Progress :
    (root : ℕ) (s : Unwrapping) → Reachable root s → Progress s.held root s.linked s.target
unfolding unwrap set_result notify
Reachable-Progress root s (begun fuel held e) =
    Safely-ok s
      (helper-Safely root fuel root (record { held = held; target = none; linked = none }) refl refl
        here)
      e
Reachable-Progress root s (sets {s = t} a o e r) =
    Progress-update t.held root a o t.linked t.target e (Reachable-Progress root t r)
Reachable-Progress root s (notified {s = t} fuel a l e r) =
    let (none_yet, path) =
      waits_alone t.held root a t.linked t.target (Reachable-Progress root t r) l in
    Safely-ok s (helper-Safely root fuel a (record t { linked = none }) none_yet refl path) e

module _ (held : ℕ → Option (Outcome Content)) (o : Outcome ℕ) where
  Ends-same : (n a : ℕ) (p : Outcome ℕ) (m : ℕ) → Ends held o n a → Ends held p m a → p ≡ o
  Ends-same n a p m (ends_failed e f) (ends_failed g h) = ground (arith, e, f, g, h)
  Ends-same n a p m (ends_failed e f) (ends_plain g h) = absurd (ground (arith, e, g))
  Ends-same n a p m (ends_failed e f) (ends_next g h) = absurd (ground (arith, e, g))
  Ends-same n a p m (ends_plain e f) (ends_failed g h) = absurd (ground (arith, e, g))
  Ends-same n a p m (ends_plain e f) (ends_plain g h) = ground (arith, e, f, g, h)
  Ends-same n a p m (ends_plain e f) (ends_next g h) = absurd (ground (arith, e, g))
  Ends-same n a p m (ends_next e f) (ends_failed g h) = absurd (ground (arith, e, g))
  Ends-same n a p m (ends_next e f) (ends_plain g h) = absurd (ground (arith, e, g))
  Ends-same n a p m (ends_next {n = k} {b = b} e f) (ends_next {n = j} {b = c} g h) =
      let same : c ≡ b = ground (arith, e, g) in Ends-same k b p j f (subst (Ends held p j) same h)

  Ends-after :
      (n b c : ℕ)
      → held b ≡ some (succeeded (result c))
      → Ends held o n b
      → (m : ℕ) × (m < n) × Ends held o m c
  Ends-after n b c q (ends_failed e f) = absurd (ground (arith, e, q))
  Ends-after n b c q (ends_plain e f) = absurd (ground (arith, e, q))
  Ends-after n b c q (ends_next {n = m} {b = d} e rest) =
      let same : d ≡ c = ground (arith, e, q) in (m, omega arith, subst (Ends held o m) same rest)

  Ends-LeadsTo :
      (n a b : ℕ) → Ends held o n a → LeadsTo held a b → (m : ℕ) × (m ≤ n) × Ends held o m b
  Ends-LeadsTo n a b h here = (n, omega arith, h)
  Ends-LeadsTo n a b h (follow {b = c} p q) =
      let (m, le, at_c) = Ends-LeadsTo n a c h p in
      let (k, less, at_b) = Ends-after m c b q at_c in (k, omega (arith, le, less), at_b)

never :
    (held : ℕ → Option (Outcome Content)) (o : Outcome ℕ) (n a : ℕ) (P : Type 0)
    → held a ≡ none
    → Ends held o n a
    → P
never held o n a P e (ends_failed f g) = absurd (ground (arith, e, f))
never held o n a P e (ends_plain f g) = absurd (ground (arith, e, f))
never held o n a P e (ends_next f g) = absurd (ground (arith, e, f))

-- With enough fuel the helper comes to the end of a chain that is set.
helper-Returns :
    (o : Outcome ℕ) (s : Unwrapping) (fuel m a : ℕ)
    → m < fuel
    → Ends s.held o m a
    → Returns (λ t. t.target ≡ some o) (unwrap_helper fuel a s)
unfolding unwrap_helper set_target
helper-Returns o s zero m a lt h = absurd (omega (arith, lt))
helper-Returns o s (suc n) m a lt h =
    elim (s.held a)
        as (λ x.
          s.held a ≡ x
          → Returns (λ t. t.target ≡ some o)
              (elim x as (λ _. Run Unwrapping) [
                | none ↦ ok (record s { linked = some a })
                | some (failed e) ↦ ok (set_target (failed e) s)
                | some (succeeded (plain v)) ↦ ok (set_target (succeeded v) s)
                | some (succeeded (result b)) ↦ unwrap_helper n b s
              ])) [
                | none ↦ λ q.
                    never s.held o m a
                      (Returns (λ t. t.target ≡ some o) (ok (record s { linked = some a }))) q h
                | some (failed e) ↦ λ q.
                    returns (ap some (Ends-same s.held o m a (failed e) 0 h (ends_failed q refl)))
                | some (succeeded (plain v)) ↦ λ q.
                    returns (ap some (Ends-same s.held o m a (succeeded v) 0 h (ends_plain q refl)))
                | some (succeeded (result b)) ↦ λ q.
                    let (k, less, at_b) = Ends-after s.held o m a b q h in
                    helper-Returns o s n k b (omega (arith, less, lt)) at_b
              ]
      refl

resolved :
    (root : ℕ) (s : Unwrapping) (o : Outcome ℕ) (n : ℕ) (l : Option ℕ) (t : Option (Outcome ℕ))
    → Progress s.held root l t
    → l ≡ s.linked
    → t ≡ s.target
    → Ends s.held o n root
    → (s.target ≡ some o)
      ⊎ ((a : ℕ) × (s.linked ≡ some a) × Returns (λ t. t.target ≡ some o) (notify (suc n) a s))
unfolding notify
resolved root s o n l t (waits {b = b} p) e f h =
    let (m, le, at_b) = Ends-LeadsTo s.held o n root b h p in
    inr
      (b, sym e, helper-Returns o (record s { linked = none }) (suc n) m b (omega (arith, le)) at_b)
resolved root s o n l t (ended {b = b} {n = k} {o = p} path at_p) e f h =
    let (m, le, at_b) = Ends-LeadsTo s.held o n root b h path in
    let same : p ≡ o = Ends-same s.held o m b p k at_b at_p in inl (sym f ∙ ap some same)

-- In every history of the unwrapping of `root`, in which each result is set once and the hub runs
-- the links in any order: once the chain of results from `root` ends with an outcome, after `n`
-- results that hold another, the returned AsyncResult has that outcome, or the helper waits on a
-- result whose link, with fuel for one more than `n`, gives it that outcome.
pub Reachable-resolves :
    (root : ℕ) (s : Unwrapping) (o : Outcome ℕ) (n : ℕ)
    → Reachable root s
    → Ends s.held o n root
    → (s.target ≡ some o)
      ⊎ ((a : ℕ) × (s.linked ≡ some a) × Returns (λ t. t.target ≡ some o) (notify (suc n) a s))
unfolding notify
Reachable-resolves root s o n r h =
    resolved root s o n s.linked s.target (Reachable-Progress root s r) refl refl h
