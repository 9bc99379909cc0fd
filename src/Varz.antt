-- ===== src/Varz.antt =====
-- scales/varz.py: the metrics of VarzReceiver and what VarzAggregator makes of them. A metric, a
-- source and the key that a key selector gives are numbers, and so is a measured value, of a fine
-- unit. What random.random decides and the time are arguments.
pub mod Samples
pub mod Totals
mod Tests
use pynagle.Common.{
  ℕ, suc, ◌+◌, ◌-◌, Bool, true, false, Option, none, some, List, [], ◌∷◌, ◌++◌, ltb, ◌==◌,
  if◌then◌else◌, length, drop, Run, ok, raised, ◌>>=◌,
}
use pynagle.Common.Int.{ℤ, pos, negsuc, ◌+ℤ◌, eqb_ℤ}

pub data VarzType : Type 0 where
  gauge rate aggregate_timer counter average_timer average_rate : VarzType

-- _SampleSet, its deque as a list with the oldest value first.
pub record SampleSet : Type 0 where
  pub values : List ℤ
  pub i : ℕ
  pub max_size : ℕ
  pub last_update : ℕ

unfoldable pub new_samples : ℕ → ℕ → SampleSet
new_samples max_size now = record { values = []; i = 0; max_size = max_size; last_update = now }

-- deque.append, which drops the oldest value of a full deque.
unfoldable pub append_sample : ℤ → SampleSet → List ℤ
append_sample v s =
    let longer = s.values ++ v ∷ [] in
    if ltb (length s.values) s.max_size then longer else drop 1 longer

-- Sample; `drawn` is whether random() < p.
unfoldable pub sample : ℕ → Bool → ℤ → SampleSet → SampleSet
unfolding append_sample
sample now drawn v s =
    let taken : SampleSet = record s {
      values = append_sample v s;
      last_update = now;
      i = suc s.i;
    } in
    if ltb s.i s.max_size then taken else (if drawn then taken else record s { i = suc s.i })

-- What VARZ_DATA holds for a metric and a source.
pub data Datum : Type 0 where
  number : ℤ → Datum
  samples : SampleSet → Datum

-- A dict, in the order of its keys, its lookup and its store.
unfoldable pub find {ℓ} : {A : Type ℓ} → ℕ → List (ℕ × A) → Option A
find k [] = none
find k ((q, x) ∷ more) = if q == k then some x else find k more

unfoldable pub store {ℓ} : {A : Type ℓ} → ℕ → A → List (ℕ × A) → List (ℕ × A)
store k x [] = (k, x) ∷ []
store k x ((q, y) ∷ more) = if q == k then (q, x) ∷ more else (q, y) ∷ store k x more

-- The defaultdicts: a source without a datum has 0, a metric without sources has none.
unfoldable pub datum_of : ℕ → List (ℕ × Datum) → Datum
unfolding find
datum_of source data_of = elim (find source data_of) [ none ↦ number (pos 0) | some d ↦ d ]

unfoldable pub sources_of : ℕ → List (ℕ × List (ℕ × Datum)) → List (ℕ × Datum)
unfolding find
sources_of metric varz = elim (find metric varz) [ none ↦ [] | some d ↦ d ]

unfoldable pub store_datum :
    ℕ → ℕ → Datum → List (ℕ × List (ℕ × Datum)) → List (ℕ × List (ℕ × Datum))
unfolding store sources_of
store_datum metric source d varz = store metric (store source d (sources_of metric varz)) varz

-- IncrementVarz
unfoldable pub incremented : ℤ → Datum → Run Datum
incremented amount (number n) = ok (number (n +ℤ amount))
incremented amount (samples s) = raised

unfoldable pub increment_varz :
    ℕ → ℕ → ℤ → List (ℕ × List (ℕ × Datum)) → Run (List (ℕ × List (ℕ × Datum)))
unfolding incremented datum_of sources_of store_datum
increment_varz source metric amount varz =
    incremented amount (datum_of source (sources_of metric varz)) >>= λ d.
    ok (store_datum metric source d varz)

-- SetVarz
unfoldable pub set_varz : ℕ → ℕ → ℤ → List (ℕ × List (ℕ × Datum)) → List (ℕ × List (ℕ × Datum))
unfolding store_datum
set_varz source metric value varz = store_datum metric source (number value) varz

-- RecordPercentileSample: a reservoir takes the place of 0, and a number is none.
unfoldable pub reservoir : ℕ → Datum → Run SampleSet
unfolding new_samples
reservoir now (number n) = if eqb_ℤ n (pos 0) then ok (new_samples 1000 now) else raised
reservoir now (samples s) = ok s

unfoldable pub record_sample :
    ℕ → Bool → ℕ → ℕ → ℤ → List (ℕ × List (ℕ × Datum)) → Run (List (ℕ × List (ℕ × Datum)))
unfolding reservoir sample store_datum
record_sample now drawn source metric value varz =
    reservoir now (datum_of source (sources_of metric varz)) >>= λ s.
    ok (store_datum metric source (samples (sample now drawn value s)) varz)

-- _Agg: its work is a sum or the sample sets so far.
pub data Work : Type 0 where
  sum : ℤ → Work
  sets : List SampleSet → Work

pub record Agg : Type 0 where
  pub work : Work
  pub count : ℕ

unfoldable pub new_agg : Datum → Agg
new_agg (number n) = record { work = sum (pos 0); count = 0 }
new_agg (samples s) = record { work = sets []; count = 0 }

-- What a source adds; a number and a sample set do not go together. A set of 5 minutes ago is left out.
unfoldable pub add_datum : ℕ → Datum → Agg → Run Agg
add_datum now (number n) a = elim a.work [
  | sum w ↦ ok (record { work = sum (w +ℤ n); count = suc a.count })
  | sets ss ↦ raised
]
add_datum now (samples s) a =
    if ltb (now - s.last_update) 300
    then (elim a.work as (λ _. Run Agg) [
      | sum w ↦ raised
      | sets ss ↦ ok (record { work = sets (ss ++ s ∷ []); count = suc a.count })
    ])
    else ok a

-- The loop of Aggregate over the sources of a metric, with the key selector.
unfoldable pub gather : (ℕ → ℕ) → ℕ → List (ℕ × Datum) → List (ℕ × Agg) → Run (List (ℕ × Agg))
unfolding find store new_agg add_datum
gather key now [] aggs = ok aggs
gather key now ((source, d) ∷ more) aggs =
    add_datum now d (elim (find (key source) aggs) [ none ↦ new_agg d | some a ↦ a ]) >>= λ a.
    gather key now more (store (key source) a aggs)

-- Aggregate, up to the percentiles: the work of each key of each metric that has a type.
unfoldable pub aggregate :
    (ℕ → ℕ)
    → ℕ
    → List (ℕ × VarzType)
    → List (ℕ × List (ℕ × Datum))
    → Run (List (ℕ × VarzType × List (ℕ × Agg)))
unfolding gather find
aggregate key now metrics [] = ok []
aggregate key now metrics ((metric, data_of) ∷ varz) =
    let rest = aggregate key now metrics varz in
    elim (find metric metrics) as (λ _. Run (List (ℕ × VarzType × List (ℕ × Agg)))) [
      | none ↦ rest
      | some t ↦
          gather key now data_of [] >>= λ aggs. rest >>= λ more. ok ((metric, t, aggs) ∷ more)
    ]
