-- ===== src/LoadBalancer/Members/Reopening.antt =====
-- A balancer that was closed does not open again.
use pynagle.Common.{◌≡◌, refl, ℕ, List, [], ◌∷◌, ◌++◌, ok}
use pynagle.Constants.{ChannelState}
use pynagle.LoadBalancer.Members.{
  Attempt, unavailable, found, Members, open_balancer, open_impl, request, close,
}

closed-open_impl :
    (attempts : List Attempt) (s : Members)
    → s.channel ≡ ChannelState.closed
    → open_impl attempts s ≡ s
unfolding open_impl
closed-open_impl [] s h = refl
closed-open_impl (unavailable ∷ more) s h = rw h refl
closed-open_impl (found instances ∷ more) s h = rw h refl

-- If a balancer is closed and opened again, its greenlet does nothing, whatever the provider would
-- give, and a request then waits and is not passed on.
close-reopens_not :
    (attempts : List Attempt) (r : ℕ) (s : Members)
    → (let t = open_balancer (close s) in
        (open_impl attempts t ≡ t)
        × (t.channel ≡ ChannelState.closed)
        × (request r t ≡ ok (record t { held = s.held ++ r ∷ [] }))
        × (t.passed ≡ s.passed))
unfolding close open_balancer request
close-reopens_not attempts r s =
    (closed-open_impl attempts (open_balancer (close s)) refl, refl, refl, refl)
