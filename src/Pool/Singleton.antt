-- ===== src/Pool/Singleton.antt =====
-- scales/pool/singleton.py, class SingletonPoolSink: at most one sink, which all requests share.
-- Sinks are numbers, and their states an argument.
mod Tests
use pynagle.Common.{
  ℕ, suc, ◌≡◌, ◌⊎◌, inl, inr, refl, ap, sym, subst, ◌∙◌, Bool, true, false, List, [], ◌∷◌, Option,
  none, some, if◌then◌else◌, arith,
}
use pynagle.Common.Int.{ℤ, pos, ◌+ℤ◌, ◌-ℤ◌, leb_ℤ, ltb_ℤ}
use pynagle.Constants.{ChannelState, state_eq}
use pynagle.Sinks.Resurrector.{Call, opens, closes, unwatch}
use pynagle.Sinks.Resurrector.Phases.{unwatch_self}

-- `watched` are the sinks whose on_faulted has __PropagateShutdown.
pub record Single : Type 0 where
  pub next_sink : Option ℕ
  pub ref_count : ℤ
  pub watched : List ℕ
  pub fresh : ℕ
  pub calls : List Call

-- __init__
unfoldable pub new_single : Single
new_single = record { next_sink = none; ref_count = pos 0; watched = []; fresh = 0; calls = [] }

-- _Get without a sink, and the sink that it returns.
unfoldable pub create : Single → ℕ × Single
create p = (
  p.fresh,
  record p {
    next_sink = some p.fresh;
    watched = p.fresh ∷ p.watched;
    fresh = suc p.fresh;
    calls = opens p.fresh ∷ p.calls;
  },
)

-- Close of the sink, once nobody is left.
unfoldable pub drop_sink : Option ℕ → Single → Single
drop_sink none p = p
drop_sink (some s) p = record p {
  next_sink = none;
  watched = unwatch s p.watched;
  calls = closes s ∷ p.calls;
}

-- Close
unfoldable pub close_single : Single → Single
unfolding drop_sink ◌-ℤ◌
close_single p =
    let less = record p { ref_count = p.ref_count -ℤ pos 1 } in
    if leb_ℤ less.ref_count (pos 0) then drop_sink p.next_sink less else less

module _ (state : ℕ → ChannelState) where
  -- _Get
  unfoldable pub get_from : Option ℕ → Single → ℕ × Single
  unfolding create
  get_from none p = create p
  get_from (some s) p =
      if state_eq (state s) ChannelState.idle
      then (s, record p { calls = opens s ∷ p.calls })
      else (if state_eq (state s) ChannelState.closed
          then create (record p { next_sink = none; watched = unwatch s p.watched })
          else (s, p))

  unfoldable pub get_single : Single → ℕ × Single
  unfolding get_from
  get_single p = get_from p.next_sink p

  -- Open
  unfoldable pub open_single : Single → Single
  unfolding get_single ◌+ℤ◌
  open_single p =
      let more = record p { ref_count = p.ref_count +ℤ pos 1 } in
      if ltb_ℤ (pos 1) more.ref_count then more else (get_single more).1

-- The watched sinks are the pool's own, if it has one.
pub data Watches : Option ℕ → List ℕ → Type 0 where
  nothing : Watches none []
  its_own : (s : ℕ) → Watches (some s) (s ∷ [])

abbrev pub IsSingle : Single → Type 0
IsSingle p = Watches p.next_sink p.watched

unwatched : (s : ℕ) → Watches none (unwatch s (s ∷ []))
unwatched s = subst (λ xs. Watches none xs) (sym (unwatch_self s)) nothing

drop_sink-IsSingle :
    (o : Option ℕ) (xs : List ℕ) (p : Single)
    → Watches o xs
    → IsSingle (drop_sink o (record p { next_sink = o; watched = xs }))
unfolding drop_sink
drop_sink-IsSingle _ _ p nothing = nothing
drop_sink-IsSingle _ _ p (its_own s) = unwatched s

close_single-IsSingle : (p : Single) → IsSingle p → IsSingle (close_single p)
unfolding close_single
close_single-IsSingle p h =
    let less : Single = record p { ref_count = p.ref_count -ℤ pos 1 } in
    elim (leb_ℤ less.ref_count (pos 0))
      as (λ b. IsSingle (if b then drop_sink p.next_sink less else less)) [
        | true ↦ drop_sink-IsSingle p.next_sink p.watched less h
        | false ↦ h
      ]

module _ (state : ℕ → ChannelState) where
  -- What _Get gives: the pool's own sink, the only one that it watches, which is new or not closed.
  pub record Got (p : Single) (got : ℕ × Single) : Type 0 where
    pub own : got.1.next_sink ≡ some got.0
    pub single : IsSingle got.1
    pub usable : (got.0 ≡ p.fresh) ⊎ (state_eq (state got.0) ChannelState.closed ≡ false)

  reuse-Got :
      (s : ℕ) (p : Single) (idle closed : Bool)
      → state_eq (state s) ChannelState.idle ≡ idle
      → state_eq (state s) ChannelState.closed ≡ closed
      → let q : Single = record p { next_sink = some s; watched = s ∷ [] } in
        Got q (
          if idle
          then (s, record q { calls = opens s ∷ q.calls })
          else (if closed
              then create (record q { next_sink = none; watched = unwatch s q.watched })
              else (s, q)))
  unfolding create
  reuse-Got s p true closed i c = record {
    own = refl;
    single = its_own s;
    usable = inr (ground (arith, i));
  }
  reuse-Got s p false true i c = record {
    own = refl;
    single =
        subst (λ xs. Watches (some p.fresh) (p.fresh ∷ xs)) (sym (unwatch_self s))
          (its_own p.fresh);
    usable = inl refl;
  }
  reuse-Got s p false false i c = record { own = refl; single = its_own s; usable = inr c }

  get_from-Got :
      (o : Option ℕ) (xs : List ℕ) (p : Single)
      → Watches o xs
      → Got
          (record p { next_sink = o; watched = xs })
          (get_from state o (record p { next_sink = o; watched = xs }))
  unfolding get_from create
  get_from-Got _ _ p nothing = record { own = refl; single = its_own p.fresh; usable = inl refl }
  get_from-Got _ _ p (its_own s) = reuse-Got s p _ _ refl refl

  -- A request to a pool that watches at most its own sink gets the pool's sink, the only one that the
  -- pool watches then, and that sink is a new one or not closed.
  get_single-Got : (p : Single) → IsSingle p → Got p (get_single state p)
  unfolding get_single
  get_single-Got p h = get_from-Got p.next_sink p.watched p h

  -- Opening keeps a pool that watches at most its own sink so, and so does closing.
  open_close-IsSingle :
      (p : Single) → IsSingle p → IsSingle (open_single state p) × IsSingle (close_single p)
  unfolding open_single
  open_close-IsSingle p h =
      let more : Single = record p { ref_count = p.ref_count +ℤ pos 1 } in
      (
        elim (ltb_ℤ (pos 1) more.ref_count)
            as (λ b. IsSingle (if b then more else (get_single state more).1)) [
              | true ↦ h
              | false ↦ (get_single-Got more h).single
            ],
        close_single-IsSingle p h,
      )
