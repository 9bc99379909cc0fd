-- ===== src/Async/Unwrap/Following.antt =====
-- However the results are set, the target gets what the chain of results ends with.
use pynagle.Common.{
  ℕ, zero, suc, ◌≡◌, refl, sym, subst, true, false, Option, none, some, update, ◌==◌, if◌then◌else◌,
  Run, ok, Safely, gives, runs_out, arith,
}
use pynagle.Async.WhenAll.{Outcome, succeeded, failed}
use pynagle.Async.Unwrap.{Content, plain, result, Unwrapping, set_target, unwrap_helper}

-- The results that hold one another, from one to another, and what they end with after `n` of them.
pub data LeadsTo (held : ℕ → Option (Outcome Content)) : ℕ → ℕ → Type 0 where
  here : {a : ℕ} → LeadsTo held a a
  follow : {a b c : ℕ} → LeadsTo held a b → held b ≡ some (succeeded (result c)) → LeadsTo held a c

pub data Ends (held : ℕ → Option (Outcome Content)) (o : Outcome ℕ) : ℕ → ℕ → Type 0 where
  ends_failed : {a e : ℕ} → held a ≡ some (failed e) → o ≡ failed e → Ends held o zero a
  ends_plain :
      {a v : ℕ} → held a ≡ some (succeeded (plain v)) → o ≡ succeeded v → Ends held o zero a
  ends_next :
      {n a b : ℕ} → held a ≡ some (succeeded (result b)) → Ends held o n b → Ends held o (suc n) a

-- How far the unwrapping of `root` is, in its `linked` and its `target`.
pub data Progress (held : ℕ → Option (Outcome Content)) (root : ℕ)
    : Option ℕ → Option (Outcome ℕ) → Type 0 where
  waits : {b : ℕ} → LeadsTo held root b → Progress held root (some b) none
  ended :
      {b n : ℕ} {o : Outcome ℕ}
      → LeadsTo held root b
      → Ends held o n b
      → Progress held root none (some o)

held_before :
    (held : ℕ → Option (Outcome Content)) (a x : ℕ) (o p : Outcome Content)
    → held a ≡ none
    → held x ≡ some p
    → update held a (some o) x ≡ some p
held_before held a x o p e f =
    elim (a == x) as (λ b. (a == x) ≡ b → (if b then some o else held x) ≡ some p) [
      | true ↦ λ q.
          let same : a ≡ x = ground arith in
          let before : held a ≡ some p = subst (λ y. held y ≡ some p) (sym same) f in
          absurd (ground (arith, e, before))
      | false ↦ λ q. f
    ]
      refl

LeadsTo-update :
    (held : ℕ → Option (Outcome Content)) (a x y : ℕ) (o : Outcome Content)
    → held a ≡ none
    → LeadsTo held x y
    → LeadsTo (update held a (some o)) x y
LeadsTo-update held a x y o e here = here
LeadsTo-update held a x y o e (follow {b = b} p q) =
    follow (LeadsTo-update held a x b o e p) (held_before held a b o (succeeded (result y)) e q)

Ends-update :
    (held : ℕ → Option (Outcome Content)) (a : ℕ) (o : Outcome Content) (end : Outcome ℕ) (n x : ℕ)
    → held a ≡ none
    → Ends held end n x
    → Ends (update held a (some o)) end n x
Ends-update held a o end n x e (ends_failed {e = f} h q) =
    ends_failed (held_before held a x o (failed f) e h) q
Ends-update held a o end n x e (ends_plain {v = v} h q) =
    ends_plain (held_before held a x o (succeeded (plain v)) e h) q
Ends-update held a o end n x e (ends_next {n = m} {b = b} h rest) =
    ends_next (held_before held a x o (succeeded (result b)) e h)
      (Ends-update held a o end m b e rest)

pub Progress-update :
    (held : ℕ → Option (Outcome Content)) (root a : ℕ) (o : Outcome Content) (l : Option ℕ)
    (t : Option (Outcome ℕ))
    → held a ≡ none
    → Progress held root l t
    → Progress (update held a (some o)) root l t
Progress-update held root a o l t e (waits {b = b} p) = waits (LeadsTo-update held a root b o e p)
Progress-update held root a o l t e (ended {b = b} {n = n} {o = end} p h) =
    ended (LeadsTo-update held a root b o e p) (Ends-update held a o end n b e h)

-- The helper, from a result that the root leads to.
pub helper-Safely :
    (root fuel a : ℕ) (s : Unwrapping)
    → s.target ≡ none
    → s.linked ≡ none
    → LeadsTo s.held root a
    → Safely (λ t. Progress t.held root t.linked t.target) (unwrap_helper fuel a s)
unfolding unwrap_helper set_target
helper-Safely root zero a s e f p = runs_out
helper-Safely root (suc n) a s e f p =
    elim (s.held a)
        as (λ h.
          s.held a ≡ h
          → Safely (λ t. Progress t.held root t.linked t.target)
              (elim h as (λ _. Run Unwrapping) [
                | none ↦ ok (record s { linked = some a })
                | some (failed e) ↦ ok (set_target (failed e) s)
                | some (succeeded (plain v)) ↦ ok (set_target (succeeded v) s)
                | some (succeeded (result b)) ↦ unwrap_helper n b s
              ])) [
                | none ↦ λ q. gives (subst (Progress s.held root (some a)) (sym e) (waits p))
                | some (failed x) ↦ λ q. gives (
                    subst (λ l. Progress s.held root l (some (failed x))) (sym f)
                      (ended p (ends_failed q refl)))
                | some (succeeded (plain v)) ↦ λ q. gives (
                    subst (λ l. Progress s.held root l (some (succeeded v))) (sym f)
                      (ended p (ends_plain q refl)))
                | some (succeeded (result b)) ↦ λ q. helper-Safely root n b s e f (follow p q)
              ]
      refl
