-- ===== src/Pool/Singleton/Tests.antt =====
-- The theorems of the singleton pool at small pools.
use pynagle.Common.{ℕ, [], ◌∷◌, some}
use pynagle.Common.Int.{pos}
use pynagle.Constants.{ChannelState}
use pynagle.Sinks.Resurrector.{opens}
use pynagle.Pool.Singleton.{Single}

-- Its sink has closed since.
abbrev all_closed : ℕ → ChannelState
all_closed s = ChannelState.closed

abbrev one_user : Single
one_user = record {
  next_sink = some 0;
  ref_count = pos 1;
  watched = 0 ∷ [];
  fresh = 1;
  calls = opens 0 ∷ [];
}
