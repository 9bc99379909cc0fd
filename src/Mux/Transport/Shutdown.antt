-- ===== src/Mux/Transport/Shutdown.antt =====
-- _Shutdown of scales/mux/sink.py answers every request in flight.
use pynagle.Common.{
  ℕ, ◌+◌, ◌≡◌, refl, ap, ◌∙◌, Bool, true, false, List, [], ◌∷◌, ◌++◌, occ, ◌==◌, if◌then◌else◌,
  arith,
}
use pynagle.Mux.Transport.{not_open, reply, shut_down, Answer, Transport, active, shut, shutdown}
use pynagle.Mux.Transport.{shut, fail_all}
use pynagle.Mux.Transport.TagMap.{requests_of}

-- How often `r` was told that the transport is shut down.
unfoldable pub told : ℕ → List (ℕ × Answer) → ℕ
told r [] = 0
told r ((q, shut_down) ∷ answers) = (if q == r then 1 else 0) + told r answers
told r ((q, not_open) ∷ answers) = told r answers
told r ((q, reply stream) ∷ answers) = told r answers

told-append : (r : ℕ) (xs ys : List (ℕ × Answer)) → told r (xs ++ ys) ≡ told r xs + told r ys
unfolding told
told-append r [] ys = omega arith
told-append r ((q, shut_down) ∷ xs) ys = omega (arith, told-append r xs ys)
told-append r ((q, not_open) ∷ xs) ys = told-append r xs ys
told-append r ((q, reply stream) ∷ xs) ys = told-append r xs ys

told-fail_all : (r : ℕ) (rs : List ℕ) → told r (fail_all rs) ≡ occ r rs
unfolding told fail_all
told-fail_all r [] = refl
told-fail_all r (q ∷ rs) = omega (arith, told-fail_all r rs)

shut-twice :
    (b f g : Bool) (p : Transport)
    → active p ≡ b
    → shutdown g (if b then shut f p else p) ≡ (if b then shut f p else p)
unfolding shutdown shut active
shut-twice true f g p e = refl
shut-twice false f g p e = ap (λ b. if b then shut g p else p) e

-- Shutting down a transport that is not shut down tells every request of the map so, once for each
-- tag that it holds, empties the map and the send queue, and sets on_faulted exactly if it is a
-- fault; a second shutdown, of either kind, changes nothing more.
pub shutdown-tells_all :
    (fault again : Bool) (p : Transport)
    → active p ≡ true
    → (shutdown again (shutdown fault p) ≡ shutdown fault p)
      × ((r : ℕ)
          → told r (shutdown fault p).answers ≡ occ r (requests_of p.tag_map) + told r p.answers)
      × ((shutdown fault p).tag_map ≡ [])
      × ((shutdown fault p).send_queue ≡ [])
      × ((shutdown fault p).faults ≡ (if fault then 1 else 0) + p.faults)
unfolding shutdown shut
shutdown-tells_all fault again p a =
    let s : shutdown fault p ≡ shut fault p = ap (λ b. if b then shut fault p else p) a in
    (
      shut-twice (active p) fault again p refl,
      (λ r.
          ap (λ t. told r t.answers) s
          ∙ (told-append r (fail_all (requests_of p.tag_map)) p.answers
              ∙ ap (λ n. n + told r p.answers) (told-fail_all r (requests_of p.tag_map)))),
      ap (λ t. t.tag_map) s,
      ap (λ t. t.send_queue) s,
      ap (λ t. t.faults) s,
    )
