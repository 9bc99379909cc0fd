-- ===== src/Sinks/RefCounted.antt =====
-- scales/sink.py, class RefCountedSink: a sink that its users open and close together. The lock is
-- left out: each operation is one step.
pub mod Shared
use pynagle.Common.{
  ℕ, zero, suc, Bool, true, false, List, [], ◌∷◌, Option, none, some, ◌==◌, if◌then◌else◌,
}

-- What the sink below is asked to do.
pub data Call : Type 0 where
  opens closes : Call

-- `open_ar` names the result of the Open of the sink below; `fresh` is the next such name.
pub record RefCounted : Type 0 where
  pub ref_count : ℕ
  pub open_ar : Option ℕ
  pub calls : List Call
  pub fresh : ℕ

-- __init__
unfoldable pub init : RefCounted
init = record { ref_count = 0; open_ar = none; calls = []; fresh = 0 }

-- Open, with the result that it returns.
unfoldable pub open_next : RefCounted → RefCounted
open_next s = record s { open_ar = some s.fresh; calls = opens ∷ s.calls; fresh = suc s.fresh }

unfoldable pub open_shared : RefCounted → Option ℕ × RefCounted
unfolding open_next
open_shared s =
    let more = record s { ref_count = suc s.ref_count } in
    let t = if more.ref_count == 1 then open_next more else more in (t.open_ar, t)

-- Close, by the count: the last user's closes the sink below.
unfoldable pub close_count : ℕ → RefCounted → RefCounted
close_count zero s = s
close_count (suc zero) s = record s { ref_count = 0; open_ar = none; calls = closes ∷ s.calls }
close_count (suc (suc n)) s = record s { ref_count = suc n }

unfoldable pub close_shared : RefCounted → RefCounted
unfolding close_count
close_shared s = close_count s.ref_count s
