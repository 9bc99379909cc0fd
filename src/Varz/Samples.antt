-- ===== src/Varz/Samples.antt =====
-- A reservoir of samples holds the first ones, and is then full.
use pynagle.Common.{
  ℕ, suc, ◌<◌, ◌≡◌, ◌⊎◌, inl, inr, refl, ap, sym, subst, ◌∙◌, Bool, true, false, List, [], ◌∷◌,
  ◌++◌, ltb, if◌then◌else◌, length, drop, length-append, append_nil, arith,
}
use pynagle.Common.Int.{ℤ}
use pynagle.Varz.{SampleSet, new_samples, append_sample, sample}

-- Samples one after the other: the time, what random decides, and the value.
unfoldable pub record_all : List (ℕ × Bool × ℤ) → SampleSet → SampleSet
record_all [] s = s
record_all ((now, drawn, v) ∷ more) s = record_all more (sample now drawn v s)

unfoldable pub values_of : List (ℕ × Bool × ℤ) → List ℤ
values_of [] = []
values_of ((now, drawn, v) ∷ more) = v ∷ values_of more

append_one : (xs : List ℤ) (v : ℤ) (ys : List ℤ) → (xs ++ v ∷ []) ++ ys ≡ xs ++ v ∷ ys
append_one [] v ys = refl
append_one (x ∷ xs) v ys = ap (λ t. x ∷ t) (append_one xs v ys)

-- A reservoir after the values `past`: it is as full as it can be, and holds all of them in order
-- while they fit.
pub record IsReservoir (max_size : ℕ) (past : List ℤ) (s : SampleSet) : Type 0 where
  pub bounded : s.max_size ≡ max_size
  pub counted : s.i ≡ length past
  pub filled : length s.values ≡ (if ltb (length past) max_size then length past else max_size)
  pub first : (max_size < length past) ⊎ (s.values ≡ past)

length-drop1 : (xs : List ℤ) (v : ℤ) → length (drop 1 (xs ++ v ∷ [])) ≡ length xs
length-drop1 [] v = refl
length-drop1 (x ∷ xs) v = omega (arith, length-append xs (v ∷ []))

-- A value that finds room is appended.
sample-room :
    (now : ℕ) (drawn : Bool) (v : ℤ) (s : SampleSet)
    → ltb s.i s.max_size ≡ true
    → ltb (length s.values) s.max_size ≡ true
    → (sample now drawn v s).values ≡ s.values ++ v ∷ []
unfolding sample append_sample
sample-room now drawn v s e f =
    let longer = s.values ++ v ∷ [] in
    ap
      (λ b.
        (if b
          then record s {
            values = if ltb (length s.values) s.max_size then longer else drop 1 longer;
            last_update = now;
            i = suc s.i;
          }
          else (if drawn
              then record s {
                values = if ltb (length s.values) s.max_size then longer else drop 1 longer;
                last_update = now;
                i = suc s.i;
              }
              else record s { i = suc s.i })).values)
      e
    ∙ ap (λ b. if b then longer else drop 1 longer) f

first_values :
    (max_size now : ℕ) (drawn : Bool) (v : ℤ) (past : List ℤ) (s : SampleSet)
    → IsReservoir max_size past s
    → (max_size < length (past ++ v ∷ [])) ⊎ ((sample now drawn v s).values ≡ past ++ v ∷ [])
first_values max_size now drawn v past s h =
    let b = h.bounded in
    let c = h.counted in
    let f = h.filled in
    let l = length-append past (v ∷ []) in
    elim (ltb (length past) max_size)
        as (λ x.
          ltb (length past) max_size ≡ x
          → (max_size < length (past ++ v ∷ []))
            ⊎ ((sample now drawn v s).values ≡ past ++ v ∷ [])) [
              | true ↦ λ e. elim h.first [
                | inl late ↦ inl (ground arith)
                | inr same ↦ inr (
                    sample-room now drawn v s (ground arith) (ground arith)
                    ∙ ap (λ t. t ++ v ∷ []) same)
              ]
              | false ↦ λ e. inl (ground arith)
            ]
      refl

sample-IsReservoir :
    (max_size now : ℕ) (drawn : Bool) (v : ℤ) (past : List ℤ) (s : SampleSet)
    → IsReservoir max_size past s
    → IsReservoir max_size (past ++ v ∷ []) (sample now drawn v s)
unfolding sample append_sample
sample-IsReservoir max_size now drawn v past s h =
    let b = h.bounded in
    let c = h.counted in
    let f = h.filled in
    let l = length-append past (v ∷ []) in
    let l' = length-append s.values (v ∷ []) in
    let d = length-drop1 s.values v in
    record {
      bounded = ground arith;
      counted = ground arith;
      filled = ground arith;
      first = first_values max_size now drawn v past s h;
    }

record_all-IsReservoir :
    (max_size : ℕ) (past : List ℤ) (s : SampleSet) (rounds : List (ℕ × Bool × ℤ))
    → IsReservoir max_size past s
    → IsReservoir max_size (past ++ values_of rounds) (record_all rounds s)
unfolding record_all values_of
record_all-IsReservoir max_size past s [] h =
    subst (λ p. IsReservoir max_size p s) (sym (append_nil past)) h
record_all-IsReservoir max_size past s ((now, drawn, v) ∷ more) h =
    subst (λ p. IsReservoir max_size p (record_all more (sample now drawn v s)))
      (append_one past v (values_of more))
      (record_all-IsReservoir max_size (past ++ v ∷ []) (sample now drawn v s) more
        (sample-IsReservoir max_size now drawn v past s h))

-- However the random draws turn out, a new reservoir has counted all values, holds as many of them
-- as there are but at most its size, and holds all of them in order while they fit.
new_samples-IsReservoir :
    (max_size start : ℕ) (rounds : List (ℕ × Bool × ℤ))
    → IsReservoir max_size (values_of rounds) (record_all rounds (new_samples max_size start))
unfolding new_samples
new_samples-IsReservoir max_size start rounds =
    record_all-IsReservoir max_size [] (new_samples max_size start) rounds
      (record { bounded = refl; counted = refl; filled = ground arith; first = inr refl })
