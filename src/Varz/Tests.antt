-- ===== src/Varz/Tests.antt =====
-- Metrics on small inputs.
use pynagle.Common.{
  ℕ, ◌≡◌, refl, Bool, true, false, List, [], ◌∷◌, ok, Run, Returns, ◌==◌, if◌then◌else◌,
}
use pynagle.Common.Int.{ℤ, pos, negsuc, ◌+ℤ◌}
use pynagle.Varz.{
  number, increment_varz, incremented, datum_of, sources_of, store_datum, store, find,
  record_sample, reservoir, gather,
}
use pynagle.Varz.Totals.{numbers, total_of, count_of, expected, gather-total_of}

test-increment_varz :
    increment_varz 3 1 (negsuc 0) ((1, (3, number (pos 5)) ∷ []) ∷ [])
    ≡ ok ((1, (3, number (pos 4)) ∷ []) ∷ [])
unfolding increment_varz incremented datum_of sources_of store_datum store find ◌+ℤ◌
test-increment_varz = refl

-- A metric that counts takes no samples.
test-record_sample :
    record_sample 0 true 3 1 (pos 7) ((1, (3, number (pos 5)) ∷ []) ∷ []) ≡ Run.raised
unfolding record_sample reservoir datum_of sources_of find
test-record_sample = refl

abbrev rounds : List (ℕ × Bool × ℤ)
rounds = (0, true, pos 4) ∷ (1, false, pos 5) ∷ (2, true, pos 6) ∷ []

abbrev two_services : ℕ → ℕ
two_services source = if source == 2 then 1 else 0

abbrev by_source : List (ℕ × ℤ)
by_source = (1, pos 4) ∷ (2, pos 9) ∷ (3, negsuc 0) ∷ []

gather-total_of_example :
    Returns
      (λ aggs.
        (k : ℕ)
        → find k aggs
          ≡ expected (total_of two_services k by_source) (count_of two_services k by_source))
      (gather two_services 0 (numbers by_source) [])
gather-total_of_example = gather-total_of two_services 0 by_source
