-- ===== src/Varz/Totals.antt =====
-- The totals of a metric are the sums over the sources of a key.
use pynagle.Common.{
  ℕ, zero, suc, ◌+◌, ◌≡◌, refl, ap, sym, ◌∙◌, subst, true, false, Option, none, some, List, [], ◌∷◌,
  ◌==◌, if◌then◌else◌, Run, ok, Returns, returns, ◌>>=◌, arith,
}
use pynagle.Common.Int.{ℤ, pos, ◌+ℤ◌, +ℤ_parts, eq_of_parts}
use pynagle.Varz.{Datum, number, find, store, sum, Agg, new_agg, add_datum, gather}

-- The sources with numbers.
unfoldable pub numbers : List (ℕ × ℤ) → List (ℕ × Datum)
numbers [] = []
numbers ((source, n) ∷ more) = (source, number n) ∷ numbers more

-- The sum over the sources of a key, and how many there are.
unfoldable pub total_of : (ℕ → ℕ) → ℕ → List (ℕ × ℤ) → ℤ
total_of key k [] = pos 0
total_of key k ((source, n) ∷ more) =
    let rest = total_of key k more in if key source == k then n +ℤ rest else rest

unfoldable pub count_of : (ℕ → ℕ) → ℕ → List (ℕ × ℤ) → ℕ
count_of key k [] = 0
count_of key k ((source, n) ∷ more) =
    let rest = count_of key k more in if key source == k then suc rest else rest

find-store {ℓ} :
    {A : Type ℓ} (k q : ℕ) (x : A) (xs : List (ℕ × A))
    → find k (store q x xs) ≡ (if q == k then some x else find k xs)
unfolding find store
find-store k q x [] = refl
find-store k q x ((r, y) ∷ xs) = ground (arith, find-store k q x xs)

+ℤ_assoc : (a b c : ℤ) → (a +ℤ b) +ℤ c ≡ a +ℤ (b +ℤ c)
+ℤ_assoc a b c =
    eq_of_parts ((a +ℤ b) +ℤ c) (a +ℤ (b +ℤ c))
      (omega (arith, +ℤ_parts a b, +ℤ_parts (a +ℤ b) c, +ℤ_parts b c, +ℤ_parts a (b +ℤ c)))

+ℤ_zero : (a : ℤ) → a +ℤ pos 0 ≡ a
+ℤ_zero a = eq_of_parts (a +ℤ pos 0) a (omega (arith, +ℤ_parts a (pos 0)))

zero_+ℤ : (a : ℤ) → pos 0 +ℤ a ≡ a
zero_+ℤ a = eq_of_parts (pos 0 +ℤ a) a (omega (arith, +ℤ_parts (pos 0) a))

-- Aggregates that are sums, without their records.
abbrev to_agg : ℤ × ℕ → Agg
to_agg (total, n) = record { work = sum total; count = n }

unfoldable sums : List (ℕ × (ℤ × ℕ)) → List (ℕ × Agg)
sums [] = []
sums ((k, x) ∷ more) = (k, to_agg x) ∷ sums more

abbrev sum_before : Option (ℤ × ℕ) → ℤ
sum_before none = pos 0
sum_before (some (total, n)) = total

abbrev count_before : Option (ℤ × ℕ) → ℕ
count_before none = 0
count_before (some (total, n)) = n

abbrev bump : ℤ → Option (ℤ × ℕ) → ℤ × ℕ
bump n o = (sum_before o +ℤ n, suc (count_before o))

unfoldable gather_sums : (ℕ → ℕ) → List (ℕ × ℤ) → List (ℕ × (ℤ × ℕ)) → List (ℕ × (ℤ × ℕ))
gather_sums key [] p = p
gather_sums key ((source, n) ∷ more) p =
    gather_sums key more (store (key source) (bump n (find (key source) p)) p)

find-sums :
    (k : ℕ) (p : List (ℕ × (ℤ × ℕ)))
    → find k (sums p)
      ≡ elim (find k p) as (λ _. Option Agg) [ none ↦ none | some x ↦ some (to_agg x) ]
unfolding find sums
find-sums k [] = refl
find-sums k ((q, x) ∷ p) =
    elim (q == k)
      as (λ b.
        (if b then some (to_agg x) else find k (sums p))
        ≡ elim (if b then some x else find k p) as (λ _. Option Agg) [
          | none ↦ none
          | some y ↦ some (to_agg y)
        ]) [ true ↦ refl | false ↦ find-sums k p ]

store-sums :
    (k : ℕ) (x : ℤ × ℕ) (p : List (ℕ × (ℤ × ℕ))) → store k (to_agg x) (sums p) ≡ sums (store k x p)
unfolding store sums
store-sums k x [] = refl
store-sums k x ((q, y) ∷ p) =
    elim (q == k)
      as (λ b.
        (if b then (q, to_agg x) ∷ sums p else (q, to_agg y) ∷ store k (to_agg x) (sums p))
        ≡ sums (if b then (q, x) ∷ p else (q, y) ∷ store k x p)) [
          | true ↦ refl
          | false ↦ ap (λ t. (q, to_agg y) ∷ t) (store-sums k x p)
        ]

add_datum-bump :
    (now : ℕ) (n : ℤ) (o : Option (ℤ × ℕ))
    → add_datum now
        (number n)
        (elim (elim o as (λ _. Option Agg) [ none ↦ none | some x ↦ some (to_agg x) ])
          as (λ _. Agg) [ none ↦ new_agg (number n) | some a ↦ a ])
      ≡ ok (to_agg (bump n o))
unfolding add_datum new_agg
add_datum-bump now n none = refl
add_datum-bump now n (some (total, m)) = refl

gather-sums :
    (key : ℕ → ℕ) (now : ℕ) (d : List (ℕ × ℤ)) (p : List (ℕ × (ℤ × ℕ)))
    → gather key now (numbers d) (sums p) ≡ ok (sums (gather_sums key d p))
unfolding gather numbers gather_sums
gather-sums key now [] p = refl
gather-sums key now ((source, n) ∷ more) p =
    let k = key source in
    let add : Option Agg → Run Agg = λ o.
      add_datum now (number n) (elim o as (λ _. Agg) [ none ↦ new_agg (number n) | some a ↦ a ]) in
    ap (λ o. add o >>= λ a. gather key now (numbers more) (store k a (sums p))) (find-sums k p)
    ∙ (ap (λ r. r >>= λ a. gather key now (numbers more) (store k a (sums p)))
          (add_datum-bump now n (find k p))
        ∙ (ap (gather key now (numbers more)) (store-sums k (bump n (find k p)) p)
            ∙ gather-sums key now more (store k (bump n (find k p)) p)))

total_none :
    (key : ℕ → ℕ) (k : ℕ) (d : List (ℕ × ℤ)) → count_of key k d ≡ 0 → total_of key k d ≡ pos 0
unfolding count_of total_of
total_none key k [] h = refl
total_none key k ((source, n) ∷ d) h =
    elim (key source == k)
        as (λ b.
          (if b then suc (count_of key k d) else count_of key k d) ≡ 0
          → (if b then n +ℤ total_of key k d else total_of key k d) ≡ pos 0) [
            | true ↦ λ e. absurd (omega arith)
            | false ↦ λ e. total_none key k d e
          ]
      h

-- What was there before, and the sources of a key.
abbrev joined : Option (ℤ × ℕ) → ℤ → ℕ → Option (ℤ × ℕ)
joined o total zero = o
joined o total (suc n) = some (sum_before o +ℤ total, count_before o + suc n)

joined-bump :
    (o : Option (ℤ × ℕ)) (n total : ℤ) (c : ℕ)
    → (c ≡ 0 → total ≡ pos 0)
    → joined (some (bump n o)) total c ≡ joined o (n +ℤ total) (suc c)
joined-bump o n total zero h =
    ap (λ t. some t)
      (ap (λ t. (sum_before o +ℤ t, suc (count_before o)))
          (sym (ap (λ z. n +ℤ z) (h refl) ∙ +ℤ_zero n))
        ∙ ap (λ m. (sum_before o +ℤ (n +ℤ total), m)) (omega arith))
joined-bump o n total (suc c) h =
    ap (λ t. some t)
      (ap (λ t. (t, suc (count_before o) + suc c)) (+ℤ_assoc (sum_before o) n total)
        ∙ ap (λ m. (sum_before o +ℤ (n +ℤ total), m)) (omega arith))

find-gather_sums :
    (key : ℕ → ℕ) (k : ℕ) (d : List (ℕ × ℤ)) (p : List (ℕ × (ℤ × ℕ)))
    → find k (gather_sums key d p) ≡ joined (find k p) (total_of key k d) (count_of key k d)
unfolding gather_sums total_of count_of
find-gather_sums key k [] p = refl
find-gather_sums key k ((source, n) ∷ d) p =
    let x = bump n (find (key source) p) in
    let ih = find-gather_sums key k d (store (key source) x p) in
    let c = count_of key k d in
    let t = total_of key k d in
    ih
    ∙ (ap (λ o. joined o t c) (find-store k (key source) x p)
        ∙ elim (key source == k)
              as (λ b.
                (key source == k) ≡ b
                → joined (if b then some x else find k p) t c
                  ≡ joined (find k p) (if b then n +ℤ t else t) (if b then suc c else c)) [
                    | true ↦ λ e.
                        let same : key source ≡ k = ground arith in
                        ap (λ q. joined (some (bump n (find q p))) t c) same
                        ∙ joined-bump (find k p) n t c (total_none key k d)
                    | false ↦ λ e. refl
                  ]
            refl)

-- What a key has if its sources have these numbers.
abbrev pub expected : ℤ → ℕ → Option Agg
expected total zero = none
expected total (suc n) = some (record { work = sum total; count = suc n })

joined-expected :
    (total : ℤ) (n : ℕ)
    → (elim (joined none total n) as (λ _. Option Agg) [ none ↦ none | some x ↦ some (to_agg x) ])
      ≡ expected total n
joined-expected total zero = refl
joined-expected total (suc n) =
    let e : 0 + suc n ≡ suc n = omega arith in
    ap (λ t. some (record { work = sum t; count = 0 + suc n })) (zero_+ℤ total)
    ∙ ap (λ m. some (record { work = sum total; count = m })) e

-- If all sources of a metric have numbers, the loop of Aggregate ends without an exception, and each
-- key has the sum over its sources and their count, and no aggregate exactly if it has no source.
pub gather-total_of :
    (key : ℕ → ℕ) (now : ℕ) (d : List (ℕ × ℤ))
    → Returns
        (λ aggs. (k : ℕ) → find k aggs ≡ expected (total_of key k d) (count_of key k d))
        (gather key now (numbers d) [])
unfolding sums find
gather-total_of key now d =
    subst (Returns (λ aggs. (k : ℕ) → find k aggs ≡ expected (total_of key k d) (count_of key k d)))
      (sym (gather-sums key now d []))
      (returns (λ k.
        find-sums k (gather_sums key d [])
        ∙ (ap (λ o. elim o as (λ _. Option Agg) [ none ↦ none | some x ↦ some (to_agg x) ])
              (find-gather_sums key k d [])
            ∙ joined-expected (total_of key k d) (count_of key k d))))
