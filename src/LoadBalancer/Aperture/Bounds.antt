-- ===== src/LoadBalancer/Aperture/Bounds.antt =====
-- The bounds that an adjustment keeps.
use pynagle.Common.{
  ℕ, zero, suc, contains, ◌≤◌, ◌<◌, ◌≡◌, Bool, true, false, not, ◌&&◌, Option, none, some, List, [],
  ◌∷◌, ltb, ◌%◌, length, arith, Returns, returns, Returns-bind, Returns-weaken, Returns-test,
}
use pynagle.Common.Int.{ℤ, ◌+ℤ◌}
use pynagle.Constants.{ChannelState}
use pynagle.LoadBalancer.HeapBalancer.{Balancer}
use pynagle.LoadBalancer.HeapBalancer.Invariant.{IsSound}
use pynagle.LoadBalancer.HeapBalancer.Add.{add_sink-Added}
use pynagle.LoadBalancer.HeapBalancer.Find.{RemoveSink, unknown, removed, remove_sink-RemoveSink}
use pynagle.LoadBalancer.Aperture.{
  Settings, Aperture, choose, expand_from, expand, num_healthy, least_loaded, leave, contract,
  is_high, is_low, adjust,
}

-- The balancer below is sound, and its size changed at most by one, up or down.
pub record Grown (size : ℕ) (a : Aperture) : Type 0 where
  pub sound : IsSound a.balancer
  pub least : size ≤ a.balancer.size
  pub most : a.balancer.size ≤ suc size

pub record Shrunk (size : ℕ) (a : Aperture) : Type 0 where
  pub sound : IsSound a.balancer
  pub least : size ≤ suc a.balancer.size
  pub most : a.balancer.size ≤ size

choose-contains : (pick e : ℕ) (more : List ℕ) → contains (e ∷ more) (choose pick e more) ≡ true
unfolding choose
choose-contains pick e [] = ground arith
choose-contains zero e (x ∷ more) = ground arith
choose-contains (suc pick) e (x ∷ more) =
    let later = choose-contains pick x more in ground (arith, later)

-- Every idle endpoint is a key of _servers.
abbrev pub AreServers : List ℕ → Aperture → Type 0
AreServers idle a = (e : ℕ) → contains idle e ≡ true → contains a.servers e ≡ true

expand_from-Grown :
    (pick channel : ℕ) (idle : List ℕ) (a : Aperture)
    → AreServers idle a
    → IsSound a.balancer
    → Returns (λ (e, b). Grown a.balancer.size b) (expand_from pick channel idle a)
unfolding expand_from
expand_from-Grown pick channel [] a known h =
    returns (record { sound = h; least = omega arith; most = omega arith })
expand_from-Grown pick channel (e ∷ more) a known h =
    let chosen = choose (pick % suc (length more)) e more in
    let is_server = known chosen (choose-contains (pick % suc (length more)) e more) in
    Returns-test (contains a.servers chosen)
      (λ _. Returns-bind (add_sink-Added a.balancer chosen channel h) (λ b m.
        let g = m.grown in
        returns (record { sound = m.sound; least = omega arith; most = omega arith })))
      (λ other. absurd (ground (arith, is_server, other)))

expand-Grown :
    (pick channel : ℕ) (a : Aperture)
    → AreServers a.idle a
    → IsSound a.balancer
    → Returns (λ (e, b). Grown a.balancer.size b) (expand pick channel a)
unfolding expand
expand-Grown pick channel a known h = expand_from-Grown pick channel a.idle a known h

removed-Shrunk :
    (b : Balancer) (e : ℕ) (r : Bool × Balancer)
    → IsSound b
    → RemoveSink b e r
    → IsSound r.1 × (b.size ≤ suc r.1.size) × (r.1.size ≤ b.size)
removed-Shrunk b e _ h (unknown rest) = (h, omega arith, omega arith)
removed-Shrunk b e _ h (removed i p hi s first m) =
    let g = m.shrunk in (m.sound, omega arith, omega arith)

leave-Shrunk :
    (settings : Settings) (state : ℕ → ChannelState) (e : Option ℕ) (a : Aperture)
    → IsSound a.balancer
    → Returns (Shrunk a.balancer.size) (leave settings state e a)
unfolding leave
leave-Shrunk settings state none a h =
    returns (record { sound = h; least = omega arith; most = omega arith })
leave-Shrunk settings state (some e) a h =
    Returns-bind (remove_sink-RemoveSink a.balancer e h) (λ r m.
      let (s, l, g) = removed-Shrunk a.balancer e r h m in
      returns (record { sound = s; least = l; most = g }))

contract-Shrunk :
    (settings : Settings) (state : ℕ → ChannelState) (force : Bool) (a : Aperture)
    → IsSound a.balancer
    → Returns (Shrunk a.balancer.size) (contract settings state force a)
unfolding contract
contract-Shrunk settings state force a h =
    let same : Shrunk a.balancer.size a = record {
      sound = h;
      least = omega arith;
      most = omega arith;
    } in
    Returns-test (ltb 0 (length a.pending) && not force) (λ e. returns same)
      (λ e.
        Returns-test (ltb settings.min_size (num_healthy settings state a))
          (λ f. leave-Shrunk settings state (least_loaded settings state a) a h)
          (λ f. returns same))

-- A sound aperture whose size is within the settings.
pub record IsWithin (settings : Settings) (a : Aperture) : Type 0 where
  pub sound : IsSound a.balancer
  pub least : settings.min_size ≤ a.balancer.size
  pub most : a.balancer.size ≤ settings.max_size

both→right : (a b : Bool) → (a && b) ≡ true → b ≡ true
both→right a b h = ground arith

-- An adjustment of an aperture over a sound balancer, all of whose idle endpoints are servers, for a
-- changed load, whatever the load average, the pending endpoints and the states of channels, ends without an exception, and a size from the
-- minimal to the maximal one stays so.
pub adjust-IsWithin :
    (settings : Settings) (state : ℕ → ChannelState) (pick channel average : ℕ) (amount : ℤ)
    (a : Aperture)
    → AreServers a.idle a
    → IsWithin settings a
    → Returns (IsWithin settings) (adjust settings state pick channel average amount a)
unfolding adjust
adjust-IsWithin settings state pick channel average amount a known h =
    let t : Aperture = record a { total = a.total +ℤ amount } in
    let size = a.balancer.size in
    let lo = h.least in
    let hi = h.most in
    let room = ltb 0 (length a.idle) && ltb size settings.max_size in
    Returns-test (is_high settings state average size && room)
      (λ e.
        let f =
          both→right (ltb 0 (length a.idle)) (ltb size settings.max_size)
            (both→right (is_high settings state average size) room e) in
        let lt : size < settings.max_size = ground arith in
        Returns-bind (expand-Grown pick channel t known h.sound) (λ r g.
          let l = g.least in
          let m = g.most in
          returns (record { sound = g.sound; least = omega arith; most = omega arith })))
      (λ _.
        Returns-test (is_low settings state average size && ltb settings.min_size size)
          (λ e.
            let f =
              both→right (is_low settings state average size) (ltb settings.min_size size) e in
            let lt : settings.min_size < size = ground arith in
            Returns-weaken
              (λ b g.
                let l = g.least in
                let m = g.most in
                record { sound = g.sound; least = omega arith; most = omega arith })
              (contract-Shrunk settings state false t h.sound))
          (λ e. returns (record { sound = h.sound; least = lo; most = hi })))
