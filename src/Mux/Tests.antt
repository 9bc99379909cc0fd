-- ===== src/Mux/Tests.antt =====
-- Runs of the mux layer, and its theorems at small inputs.
use pynagle.Common.{
  ℕ, ◌+◌, ◌<◌, ◌≡◌, refl, true, false, List, [], ◌∷◌, ◌++◌, occ, length, drop, ok, some, none, ◌==◌,
  if◌then◌else◌, arith, update,
}
use pynagle.Common.Int.{pos, negsuc}
use pynagle.Constants.{ChannelState}
use pynagle.Mux.Header.{build_header, read_header, read_header-build_header}
use pynagle.Mux.TagPool.{TagPool, new_pool, get}
use pynagle.Mux.TagPool.Partition.{IsPartition, new_pool-IsPartition, Get, get-Get}
use pynagle.Mux.Transport.{
  missing, held, signalled, Transport, init, active, send_ping, open_impl, shutdown,
  process_request, send_one,
}
use pynagle.Mux.Transport.TagMap.{lookup, insert, remove, requests_of, tags}
use pynagle.Mux.Transport.Sound.{IsSound, running, queued}
use pynagle.Mux.Transport.Request.{Requested, process_request-Requested}
use pynagle.Mux.Transport.Send.{Sent, send_one-Sent}
use pynagle.Mux.Transport.History.{
  Reachable, opened, after, requests, pings, opens, Reachable-IsSound,
}
use pynagle.Mux.Transport.Shutdown.{told, shutdown-tells_all}

read_header-build_header_example :
    read_header (drop 4 (build_header 70000 (negsuc 1) 3) ++ 1 ∷ 2 ∷ 3 ∷ []) ≡ ok (negsuc 1, 70000)
read_header-build_header_example =
    read_header-build_header 70000 1 3 (1 ∷ 2 ∷ 3 ∷ []) (omega arith) (omega arith)

-- set.pop as the first of the list.
abbrev first : List ℕ → ℕ
first [] = 0
first (x ∷ xs) = x

first-mem : (xs : List ℕ) → 0 < length xs → 0 < occ (first xs) xs
first-mem [] h = absurd (omega arith)
first-mem (x ∷ xs) h = ground arith

get-Get_example : Get (new_pool 10) [] (get first (new_pool 10))
get-Get_example = get-Get first first-mem (new_pool 10) [] (new_pool-IsPartition 10 (omega arith))

-- Tags 2 and 3 were given out, and 3 came back.
abbrev two_tags : TagPool
two_tags = record { free = 3 ∷ []; next = 3; max_tag = 10 }

two_tags-IsPartition : IsPartition two_tags (2 ∷ [])
two_tags-IsPartition = record {
  once = λ a lo hi. ground arith;
  low = λ a h. ground arith;
  high = λ a h. ground arith;
  count = refl;
  bounded = omega arith;
}

-- Request 7 holds tag 2, and its message is on the wire.
abbrev one_sent : Transport
one_sent = record {
  state = ChannelState.opened;
  open_result = true;
  tag_map = (2, 7) ∷ [];
  tag_pool = two_tags;
  send_queue = [];
  key = λ r. if r == 7 then held 2 else missing;
  subscribed = 7 ∷ [];
  ping = false;
  written = [];
  answers = [];
  faults = 0;
}

one_sent-IsSound : IsSound one_sent
unfolding lookup tags queued
one_sent-IsSound = running (record {
  partition = two_tags-IsPartition;
  owner = λ r t e. ground arith;
  unanswered = λ r h. absurd (omega arith);
})

process_request-Requested_example :
    Requested one_sent (process_request first 8 false (pos 2) (5 ∷ []) one_sent)
process_request-Requested_example =
    process_request-Requested first first-mem 8 false (pos 2) (5 ∷ []) one_sent one_sent-IsSound
      (λ e. ground arith)

-- Request 8 of tag 3 waits behind it, and its deadline has passed.
abbrev one_waits : Transport
one_waits = record one_sent {
  tag_map = (3, 8) ∷ (2, 7) ∷ [];
  tag_pool = record { free = []; next = 3; max_tag = 10 };
  send_queue = (1 ∷ [], some 8) ∷ [];
  key = update one_sent.key 8 (held 3);
}

one_waits-IsSound : IsSound one_waits
unfolding lookup tags queued
one_waits-IsSound = running (record {
  partition = record {
    once = λ a lo hi. ground arith;
    low = λ a h. ground arith;
    high = λ a h. ground arith;
    count = refl;
    bounded = omega arith;
  };
  owner = λ r t e. ground arith;
  unanswered = λ r h e. ground arith;
})

send_one-Sent_example : Sent (send_one (λ r. signalled) true one_waits)
send_one-Sent_example = send_one-Sent (λ r. signalled) true one_waits one_waits-IsSound

shutdown-tells_all_example :
    (shutdown false (shutdown true one_waits) ≡ shutdown true one_waits)
    × ((r : ℕ)
        → told r (shutdown true one_waits).answers
          ≡ occ r (requests_of one_waits.tag_map) + told r one_waits.answers)
    × ((shutdown true one_waits).tag_map ≡ [])
    × ((shutdown true one_waits).send_queue ≡ [])
    × ((shutdown true one_waits).faults ≡ 1 + one_waits.faults)
unfolding active
shutdown-tells_all_example = shutdown-tells_all true false one_waits refl

-- A new transport that sent its first ping, and was then asked by request 7.
abbrev asked : Transport
asked = record {
  state = ChannelState.opened;
  open_result = true;
  tag_map = (2, 7) ∷ [];
  tag_pool = record { free = []; next = 2; max_tag = 16777215 };
  send_queue =
      (0 ∷ 0 ∷ 0 ∷ 4 ∷ 65 ∷ 0 ∷ 0 ∷ 1 ∷ [], none)
      ∷ (0 ∷ 0 ∷ 0 ∷ 5 ∷ 2 ∷ 0 ∷ 0 ∷ 2 ∷ 5 ∷ [], some 7)
      ∷ [];
  key = update (λ r. missing) 7 (held 2);
  subscribed = [];
  ping = true;
  written = [];
  answers = [];
  faults = 0;
}

asked-Reachable : Reachable first asked
unfolding init send_ping open_impl process_request active insert remove
asked-Reachable =
    after (after (after opened pings) (opens true refl))
      (requests 7 false (pos 2) (5 ∷ []) (λ e. ground arith) refl)

Reachable-IsSound_example : IsSound asked
Reachable-IsSound_example = Reachable-IsSound first first-mem asked asked-Reachable
