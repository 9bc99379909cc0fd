-- ===== src/LoadBalancer/Members/Delivery.antt =====
-- The callbacks of the server set, and the initialization, keep a subclass and the members together.
use pynagle.Common.{
  ℕ, ◌≤◌, ◌≡◌, refl, ap, sym, ◌∙◌, subst, Bool, true, false, Option, some, List, [], ◌∷◌,
  if◌then◌else◌, occ, erase, Run, ok, raised, out_of_fuel, ◌>>=◌, Returns, Safely, gives, raises,
  runs_out, Safely-bind, returns, arith,
}
use pynagle.Constants.{ChannelState, state_eq}
use pynagle.LoadBalancer.Members.{
  Instance, Change, removed, Notice, joins, leaves, Attempt, unavailable, found, Members,
  endpoint_of, add_endpoint, add_server, remove_server, on_join, on_leave, handle, after_callback,
  deliver, add_all, open_servers, open_impl,
}
use pynagle.LoadBalancer.Members.Tracking.{
  view, Phase, unopened, initializing, broken, serving, shut, IsTracked, Changed,
  add_endpoint-Changed, handle-Changed, removed-Changed,
}

Safely-Returns :
    {A : Type 0} {P Q : A → Type 0} {call : Run A}
    → Returns P call
    → ((value : A) → P value → Q value)
    → Safely Q call
Safely-Returns (returns {value = v} holds) weaker = gives (weaker v holds)

rephase :
    {o : Option Bool} {p i : Bool} {c : ChannelState} {changed : List Change} (after : List Change)
    → Phase o p i c changed
    → i ≡ true
    → Phase o p i c after
rephase after unopened e = absurd (ground arith)
rephase after (initializing ready) e = absurd (ground arith)
rephase after (broken ready changed) e = absurd (ground arith)
rephase after (serving ready changed) e = serving ready after
rephase after (shut o p changed) e = absurd (ground arith)

Changed-IsTracked :
    (count e : ℕ) (s t : Members)
    → count ≤ 1
    → IsTracked s
    → s.init_done ≡ true
    → Changed count e s t
    → IsTracked t
Changed-IsTracked count e s t le h d c = record {
  phase =
      subst (λ o. Phase o t.opening t.init_done t.channel t.changed) (sym c.same_result)
        (subst (λ p. Phase s.open_result p t.init_done t.channel t.changed) (sym c.same_opening)
          (subst (λ i. Phase s.open_result s.opening i t.channel t.changed) (sym c.same_init)
            (subst (λ x. Phase s.open_result s.opening s.init_done x t.changed) (sym c.same_channel)
              (rephase t.changed h.phase d))));
  viewed = c.viewed;
  once = λ x. let n = c.counted x in let o = h.once x in ground arith;
}

-- A first call that gives no value is not looked into.
Safely-first :
    {A B : Type 0} {Q : B → Type 0} (first : Run A) (then_do : A → Run B)
    → ((value : A) → first ≡ ok value → Safely Q (first >>= then_do))
    → Safely Q (first >>= then_do)
Safely-first (ok v) then_do h = h v refl
Safely-first raised then_do h = raises
Safely-first out_of_fuel then_do h = runs_out

handle-Safely :
    (n : Notice) (s : Members) → IsTracked s → s.init_done ≡ true → Safely IsTracked (handle n s)
unfolding handle on_join on_leave add_server remove_server
handle-Safely (joins i) s h d = Safely-first (endpoint_of s.endpoint_name i) _ (λ e q.
    Safely-Returns (handle-Changed i e s h q).0
      (λ t c. Changed-IsTracked 1 e s t (omega arith) h d c))
handle-Safely (leaves i) s h d =
    Safely-bind
      (Safely-first (endpoint_of s.endpoint_name i) _ (λ e q.
        subst
          (λ x. Safely IsTracked (
            x >>= λ c.
            ok (record s { servers = erase c s.servers; changed = removed c ∷ s.changed })))
          (sym q)
          (gives (
            Changed-IsTracked 0 e s
              (record s { servers = erase e s.servers; changed = removed e ∷ s.changed })
              (omega arith) h d (removed-Changed e s h.viewed h.once)))))
      (λ t c.
        Safely-first (endpoint_of t.endpoint_name i) _
          (λ e q. subst (λ x. Safely IsTracked (x >>= λ _. ok t)) (sym q) (gives c)))

after_callback-IsTracked :
    (s : Members) (call : Run Members)
    → IsTracked s
    → Safely IsTracked call
    → IsTracked (after_callback s call)
unfolding after_callback
after_callback-IsTracked s _ h (gives t) = t
after_callback-IsTracked s _ h raises = h
after_callback-IsTracked s _ h runs_out = h

pub deliver-IsTracked :
    (notices : List Notice) (s : Members) → IsTracked s → IsTracked (deliver notices s)
unfolding deliver
deliver-IsTracked [] s h = h
deliver-IsTracked (n ∷ more) s h =
    let t : Members = record s { notices = more } in
    let same : IsTracked t = record { phase = h.phase; viewed = h.viewed; once = h.once } in
    elim s.init_done
        as (λ b. s.init_done ≡ b → IsTracked (if b then after_callback t (handle n t) else s)) [
          | true ↦ λ e. after_callback-IsTracked t (handle n t) same (handle-Safely n t same e)
          | false ↦ λ e. h
        ]
      refl

-- A list of servers that are added one after the other.
record Filled (s t : Members) : Type 0 where
  viewed : view t.changed ≡ t.servers
  once : (e : ℕ) → occ e t.servers ≤ 1
  same_result : t.open_result ≡ s.open_result
  same_channel : t.channel ≡ s.channel
  same_init : t.init_done ≡ s.init_done

added-Filled : (s t : Members) (e : ℕ) → Filled s t → Filled s (add_endpoint e t)
added-Filled s t e h =
    let c = add_endpoint-Changed e t h.viewed h.once in
    record {
      viewed = c.viewed;
      once = λ x. let n = c.counted x in let o = h.once x in ground arith;
      same_result = c.same_result ∙ h.same_result;
      same_channel = c.same_channel ∙ h.same_channel;
      same_init = c.same_init ∙ h.same_init;
    }

add_server-Filled : (i : Instance) (s t : Members) → Filled s t → Safely (Filled s) (add_server i t)
unfolding add_server
add_server-Filled i s t h = Safely-first (endpoint_of t.endpoint_name i) _ (λ e q.
    subst (λ x. Safely (Filled s) (x >>= λ c. ok (add_endpoint c t))) (sym q)
      (gives (added-Filled s t e h)))

Safely-given : {A : Type 0} {P : A → Type 0} (value : A) → Safely P (ok value) → P value
Safely-given value (gives holds) = holds

add_all-Filled :
    (instances : List Instance) (s t : Members) → Filled s t → Filled s (add_all instances t).1
unfolding add_all
add_all-Filled [] s t h = h
add_all-Filled (i ∷ more) s t h =
    elim (add_server i t)
        as (λ call.
          Safely (Filled s) call
          → Filled s
              (elim call as (λ _. Bool × Members) [
                | ok u ↦ add_all more u
                | raised ↦ (false, t)
                | out_of_fuel ↦ (false, t)
              ]).1) [
                | ok u ↦ λ f. add_all-Filled more s u (Safely-given u f)
                | raised ↦ λ f. h
                | out_of_fuel ↦ λ f. h
              ]
      (add_server-Filled i s t h)

-- The balancer that begins to initialize itself has no members and has told of none.
open_servers-IsTracked :
    (instances : List Instance) (s : Members) (ready : Bool)
    → s.open_result ≡ some ready
    → s.changed ≡ []
    → s.channel ≡ ChannelState.idle
    → s.init_done ≡ false
    → IsTracked (open_servers instances s)
unfolding open_servers view
open_servers-IsTracked instances s ready o c idle not_done =
    let (all_added, t) = add_all instances (record s { servers = [] }) in
    let f : Filled s t =
      add_all-Filled instances s (record s { servers = [] })
        (record {
          viewed = ap view c;
          once = λ e. omega arith;
          same_result = refl;
          same_channel = refl;
          same_init = refl;
        }) in
    elim all_added
      as (λ b. IsTracked (
        if b
        then record t { init_done = true; opening = false; channel = ChannelState.opened }
        else record t { opening = false })) [
          | true ↦ record {
            phase =
                subst (λ r. Phase r false true ChannelState.opened t.changed)
                  (sym (f.same_result ∙ o)) (serving ready t.changed);
            viewed = f.viewed;
            once = f.once;
          }
          | false ↦ record {
            phase =
                subst (λ r. Phase r false t.init_done t.channel t.changed) (sym (f.same_result ∙ o))
                  (subst (λ b. Phase (some ready) false b t.channel t.changed)
                    (sym (f.same_init ∙ not_done))
                    (subst (λ x. Phase (some ready) false false x t.changed)
                      (sym (f.same_channel ∙ idle)) (broken ready t.changed)));
            viewed = f.viewed;
            once = f.once;
          }
        ]

-- The greenlet of an open: it goes on as long as the provider is not available, and does nothing
-- once the balancer is closed.
opening_changes :
    {o : Option Bool} {p i : Bool} {c : ChannelState} {changed : List Change}
    → Phase o p i c changed
    → p ≡ true
    → state_eq c ChannelState.closed ≡ false
    → (ready : Bool) × (o ≡ some ready) × (changed ≡ []) × (c ≡ ChannelState.idle) × (i ≡ false)
opening_changes unopened e f = absurd (ground arith)
opening_changes (initializing ready) e f = (ready, refl, refl, refl, refl)
opening_changes (broken ready changed) e f = absurd (ground arith)
opening_changes (serving ready changed) e f = absurd (ground arith)
opening_changes (shut o p changed) e f = absurd (ground arith)

pub open_impl-IsTracked :
    (attempts : List Attempt) (s : Members)
    → IsTracked s
    → s.opening ≡ true
    → IsTracked (open_impl attempts s)
unfolding open_impl
open_impl-IsTracked [] s h p = h
open_impl-IsTracked (unavailable ∷ more) s h p =
    elim (state_eq s.channel ChannelState.closed)
      as (λ b. IsTracked (if b then s else open_impl more s)) [
        | true ↦ h
        | false ↦ open_impl-IsTracked more s h p
      ]
open_impl-IsTracked (found instances ∷ more) s h p =
    elim (state_eq s.channel ChannelState.closed)
        as (λ b.
          state_eq s.channel ChannelState.closed ≡ b
          → IsTracked (if b then s else open_servers instances s)) [
            | true ↦ λ e. h
            | false ↦ λ e.
                let (ready, o, c, idle, not_done) = opening_changes h.phase p e in
                open_servers-IsTracked instances s ready o c idle not_done
          ]
      refl
