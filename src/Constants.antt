-- ===== src/Constants.antt =====
-- scales/constants.py: the channel states and the bounds that the sinks use.
use pynagle.Common.{ℕ, Bool, leb, ◌==◌}
use pynagle.Common.Int.{ℤ, pos, negsuc}

-- ChannelState, a closed set of numbers; `opened` is `Open`, which the language reserves.
pub data ChannelState : Type 0 where
  idle opened busy closed : ChannelState

abbrev pub rank : ChannelState → ℕ
rank ChannelState.idle = 1
rank ChannelState.opened = 2
rank ChannelState.busy = 3
rank ChannelState.closed = 4

-- x == y and x <= y on the numbers
abbrev pub state_eq : ChannelState → ChannelState → Bool
state_eq x y = rank x == rank y

abbrev pub state_le : ChannelState → ChannelState → Bool
state_le x y = leb (rank x) (rank y)

-- Int
abbrev pub max_value : ℤ
max_value = pos 2147483647

abbrev pub min_value : ℤ
min_value = negsuc 2147483647
