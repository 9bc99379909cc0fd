-- ===== src/Sinks/RefCounted/Shared.antt =====
-- Who holds the sink of scales/sink.py, class RefCountedSink, and when the sink below is open.
use pynagle.Common.{
  ℕ, zero, suc, ◌-◌, ◌≡◌, refl, ap, subst, ◌∙◌, Bool, true, false, List, [], ◌∷◌, Option, none,
  some, ◌==◌, if◌then◌else◌, arith,
}
use pynagle.Sinks.RefCounted.{
  Call, opens, closes, RefCounted, init, open_next, open_shared, close_count, close_shared,
}

-- The last call was an Open, each Close follows an Open and each Open but the first a Close.
pub data Alternates : Bool → List Call → Type 0 where
  unused : Alternates false []
  opened : {calls : List Call} → Alternates false calls → Alternates true (opens ∷ calls)
  closed : {calls : List Call} → Alternates true calls → Alternates false (closes ∷ calls)

-- By the count, the result and the calls: the sink below is open, under one result, exactly while
-- someone holds the sink.
pub data Shared : ℕ → Option ℕ → List Call → Type 0 where
  free : {calls : List Call} → Alternates false calls → Shared 0 none calls
  in_use :
      {n result : ℕ} {calls : List Call}
      → Alternates true calls
      → Shared (suc n) (some result) calls

abbrev pub IsShared : RefCounted → Type 0
IsShared s = Shared s.ref_count s.open_ar s.calls

pub data Event : Type 0 where
  user_opens user_closes : Event

unfoldable pub step : RefCounted → Event → RefCounted
unfolding open_shared close_shared
step s user_opens = (open_shared s).1
step s user_closes = close_shared s

unfoldable pub history : RefCounted → List Event → RefCounted
unfolding step
history s [] = s
history s (e ∷ events) = history (step s e) events

-- How many users hold the sink after the events, if a Close that nobody is there for does nothing.
unfoldable pub users : ℕ → List Event → ℕ
users n [] = n
users n (user_opens ∷ events) = users (suc n) events
users n (user_closes ∷ events) = users (n - 1) events

open-IsShared :
    (n : ℕ) (o : Option ℕ) (calls : List Call) (f : ℕ)
    → Shared n o calls
    → IsShared (open_shared (record { ref_count = n; open_ar = o; calls = calls; fresh = f })).1
unfolding open_shared open_next
open-IsShared _ _ calls f (free a) = in_use (opened a)
open-IsShared _ _ calls f (in_use {n = n} {result = r} a) =
    let many : false ≡ (suc (suc n) == 1) = ground arith in
    let s : RefCounted = record {
      ref_count = suc (suc n);
      open_ar = some r;
      calls = calls;
      fresh = f;
    } in
    subst (λ b. IsShared (if b then open_next s else s)) many (in_use a)

close-IsShared :
    (n : ℕ) (o : Option ℕ) (calls : List Call) (f : ℕ)
    → Shared n o calls
    → IsShared (close_shared (record { ref_count = n; open_ar = o; calls = calls; fresh = f }))
unfolding close_shared close_count
close-IsShared _ _ calls f (free a) = free a
close-IsShared _ _ calls f (in_use {n = zero} a) = free (closed a)
close-IsShared _ _ calls f (in_use {n = suc n} a) = in_use a

step-IsShared : (s : RefCounted) (e : Event) → IsShared s → IsShared (step s e)
unfolding step
step-IsShared s user_opens h = open-IsShared s.ref_count s.open_ar s.calls s.fresh h
step-IsShared s user_closes h = close-IsShared s.ref_count s.open_ar s.calls s.fresh h

opened-count : (b : Bool) (s : RefCounted) → (if b then open_next s else s).ref_count ≡ s.ref_count
unfolding open_next
opened-count true s = refl
opened-count false s = refl

closed-count : (n : ℕ) (s : RefCounted) → s.ref_count ≡ n → (close_count n s).ref_count ≡ n - 1
unfolding close_count
closed-count zero s e = e
closed-count (suc zero) s e = refl
closed-count (suc (suc n)) s e = omega arith

history-count :
    (n : ℕ) (s : RefCounted) (events : List Event)
    → s.ref_count ≡ n
    → (history s events).ref_count ≡ users n events
unfolding history users step open_shared close_shared
history-count n s [] e = e
history-count n s (user_opens ∷ events) e =
    let more : RefCounted = record s { ref_count = suc s.ref_count } in
    history-count (suc n) _ events (opened-count (more.ref_count == 1) more ∙ ap (λ m. suc m) e)
history-count n s (user_closes ∷ events) e =
    history-count (n - 1) _ events (closed-count s.ref_count s refl ∙ ap (λ m. m - 1) e)

history-IsShared : (s : RefCounted) (events : List Event) → IsShared s → IsShared (history s events)
unfolding history
history-IsShared s [] h = h
history-IsShared s (e ∷ events) h = history-IsShared (step s e) events (step-IsShared s e h)

-- After every list of opens and closes of a new sink, the count is the number of users, where a
-- close without a user does nothing; the sink below was asked to open and to close in turn, and it is
-- open, with a result to wait for, exactly if there is a user.
pub init-IsShared :
    (events : List Event)
    → ((history init events).ref_count ≡ users 0 events) × IsShared (history init events)
unfolding init
init-IsShared events =
    (history-count 0 init events refl, history-IsShared init events (free unused))
