-- ===== src/Mux/Transport.antt =====
-- scales/mux/sink.py, class MuxSocketTransportSink, as SocketTransportSink of
-- scales/thriftmux/sink.py completes it. A request is a number that names its sink stack and its
-- properties. Greenlets become steps: each takes one message off the send queue, handles one reply
-- or runs one callback. Varz, logs, the ping's result and the times of tag_map are left out.
pub mod TagMap
pub mod Sound
pub mod Request
pub mod Loops
pub mod Send
pub mod History
pub mod Shutdown
use pynagle.Common.{
  ℕ, ◌+◌, Bool, true, false, not, ◌&&◌, ◌||◌, List, [], ◌∷◌, ◌++◌, Option, none, some, length, map,
  update, contains, erase, ◌==◌, if◌then◌else◌, Run, ok, ◌>>=◌,
}
use pynagle.Common.Int.{ℤ, pos, negsuc, eqb_ℤ}
use pynagle.Constants.{ChannelState, state_eq}
use pynagle.Mux.Header.{encode_tag, build_header, read_header}
use pynagle.Mux.TagPool.{TagPool, new_pool, get, release}
use TagMap.{lookup, remove, insert, requests_of}

-- properties[Tag.KEY]: not there, None, or a tag.
pub data TagKey : Type 0 where
  missing cleared : TagKey
  held : ℕ → TagKey

-- properties[Deadline.EVENT_KEY]: not there, not signalled yet, or signalled.
pub data DeadlineEvent : Type 0 where
  absent waiting signalled : DeadlineEvent

-- What a request's sink stack is given.
pub data Answer : Type 0 where
  not_open shut_down : Answer
  reply : List ℕ → Answer

-- The messages of the send queue: the bytes, and the request whose properties go along, if any.
abbrev pub Queue : Type 0
Queue = List (List ℕ × Option ℕ)

-- `open_result` tells whether _open_result is set, `faults` how often on_faulted was.
pub record Transport : Type 0 where
  pub state : ChannelState
  pub open_result : Bool
  pub tag_map : List (ℕ × ℕ)
  pub tag_pool : TagPool
  pub send_queue : Queue
  pub key : ℕ → TagKey
  pub subscribed : List ℕ
  pub ping : Bool
  pub written : List (List ℕ)
  pub answers : List (ℕ × Answer)
  pub faults : ℕ

-- A transport whose Open was called: __init__, then _Init.
unfoldable pub init : Transport
unfolding new_pool
init = record {
  state = ChannelState.idle;
  open_result = true;
  tag_map = [];
  tag_pool = new_pool 16777215;
  send_queue = [];
  key = λ r. missing;
  subscribed = [];
  ping = false;
  written = [];
  answers = [];
  faults = 0;
}

-- isActive
unfoldable pub active : Transport → Bool
active p = not (state_eq p.state ChannelState.closed)

-- The message of _Shutdown to every request of the map.
unfoldable pub fail_all : List ℕ → List (ℕ × Answer)
fail_all [] = []
fail_all (r ∷ rs) = (r, shut_down) ∷ fail_all rs

-- _Shutdown of an active transport, and of any.
unfoldable pub shut : Bool → Transport → Transport
unfolding fail_all requests_of
shut fault p = record p {
  state = ChannelState.closed;
  open_result = false;
  tag_map = [];
  send_queue = [];
  answers = fail_all (requests_of p.tag_map) ++ p.answers;
  faults = (if fault then 1 else 0) + p.faults;
}

unfoldable pub shutdown : Bool → Transport → Transport
unfolding active shut
shutdown fault p = if active p then shut fault p else p

-- _OpenImpl, where the connection and its first ping succeed or fail.
unfoldable pub open_impl : Bool → Transport → Transport
open_impl true p = record p { state = ChannelState.opened }
open_impl false p = shutdown true p

-- Close
unfoldable pub close : Transport → Transport
close p = shutdown false p

-- _ReleaseTag, without the entry that it answers with.
unfoldable pub release_tag : ℕ → Transport → Transport
release_tag tag p = record p { tag_map = remove tag p.tag_map; tag_pool = release tag p.tag_pool }

-- _ProcessTaggedReply, for the entry that was released.
unfoldable pub pass_reply : Option ℕ → List ℕ → Transport → Transport
pass_reply none stream p = p
pass_reply (some r) stream p = record p {
  key = update p.key r cleared;
  answers = (r, reply stream) ∷ p.answers;
}

unfoldable pub process_tagged_reply : ℕ → List ℕ → Transport → Transport
process_tagged_reply tag stream p = pass_reply (lookup tag p.tag_map) stream (release_tag tag p)

-- _ProcessReply by type and tag; Rping is -65.
unfoldable pub dispatch_reply : ℤ × ℕ → List ℕ → Transport → Transport
unfolding process_tagged_reply
dispatch_reply (msg_type, tag) stream p =
    if tag == 1 && eqb_ℤ msg_type (negsuc 64)
    then record p { ping = false }
    else if tag == 0
    then p
    else process_tagged_reply tag stream p

-- _ProcessReply: an exception is logged.
unfoldable pub process_reply : List ℕ → Transport → Transport
process_reply stream p = elim (read_header stream) [ ok h ↦ dispatch_reply h stream p | _ ↦ p ]

-- The test of AsyncProcessRequest that refuses a request, after the wait for an open in progress.
unfoldable pub refuses : Transport → Bool
refuses p =
    (state_eq p.state ChannelState.idle && not p.open_result)
    || state_eq p.state ChannelState.closed

-- The end of AsyncProcessRequest.
unfoldable pub enqueue : ℕ → ℤ → List ℕ → Option ℕ → Transport → Transport
unfolding build_header
enqueue tag msg_type body properties p = record p {
  send_queue = p.send_queue ++ (build_header tag msg_type (length body) ++ body, properties) ∷ [];
}

-- _SendPingMessage: a Tping (65) with tag 1.
unfoldable pub send_ping : Transport → Transport
unfolding enqueue
send_ping p = enqueue 1 (pos 65) [] none (record p { ping = true })

module _ (choose : List ℕ → ℕ) where
  -- AsyncProcessRequest of a request, one-way or not, for a sink stack.
  unfoldable pub process_request : ℕ → Bool → ℤ → List ℕ → Transport → Run Transport
  unfolding refuses enqueue get insert
  process_request r one_way msg_type body p =
      if refuses p
      then ok (record p { answers = (r, not_open) ∷ p.answers })
      else if one_way
      then ok (enqueue 0 msg_type body (some r) p)
      else get choose p.tag_pool >>= λ got. ok (
          enqueue got.0 msg_type body (some r) (record p {
            tag_pool = got.1;
            key = update p.key r (held got.0);
            tag_map = insert got.0 r p.tag_map;
          }))

-- _OnTimeout and _CreateDiscardMessage: a Tdiscarded (66), with no sink stack, of the tag and the
-- reason 'Client timeout'.
abbrev pub reason : List ℕ
reason = 67 ∷ 108 ∷ 105 ∷ 101 ∷ 110 ∷ 116 ∷ 32 ∷ 116 ∷ 105 ∷ 109 ∷ 101 ∷ 111 ∷ 117 ∷ 116 ∷ []

unfoldable pub on_timeout : ℕ → Transport → Transport
unfolding enqueue encode_tag
on_timeout tag p = if tag == 0 then p else enqueue 0 (pos 66) (encode_tag tag ++ reason) none p

-- properties.pop(Tag.KEY, 0) and what _HandleTimeout does of it. `none`: None would go into the
-- pool, which this model does not follow.
unfoldable pub drop_key : TagKey → ℕ → Transport → Option Transport
unfolding release_tag
drop_key missing r p = some p
drop_key cleared r p = none
drop_key (held tag) r p =
    let popped = record p { key = update p.key r missing } in
    some (if tag == 0 then popped else release_tag tag popped)

-- _SendLoop, for the message taken: _HandleTimeout and the write, which succeeds or raises.
unfoldable pub write_out : Bool → List ℕ → Transport → Transport
write_out true payload p = record p { written = payload ∷ p.written }
write_out false payload p = shutdown true p

unfoldable pub send_taken :
    (ℕ → DeadlineEvent) → Bool → List ℕ → Option ℕ → Transport → Option Transport
send_taken event writes payload none p = some (write_out writes payload p)
send_taken event writes payload (some r) p = elim (event r) [
  | absent ↦ some (write_out writes payload p)
  | waiting ↦ some (write_out writes payload (record p { subscribed = r ∷ p.subscribed }))
  | signalled ↦ drop_key (p.key r) r p
]

-- One round of _SendLoop, which waits while the queue is empty.
unfoldable pub send_next : (ℕ → DeadlineEvent) → Bool → Queue → Transport → Option Transport
send_next event writes [] p = some p
send_next event writes ((payload, r) ∷ rest) p =
    send_taken event writes payload r (record p { send_queue = rest })

unfoldable pub send_one : (ℕ → DeadlineEvent) → Bool → Transport → Option Transport
unfolding send_next active
send_one event writes p = if active p then send_next event writes p.send_queue p else some p

-- timeout_proc of _HandleTimeout, which is subscribed for one shot.
unfoldable pub timeout_proc : TagKey → ℕ → Transport → Transport
unfolding on_timeout
timeout_proc (held tag) r p = on_timeout tag (record p { key = update p.key r missing })
timeout_proc _ r p = record p { key = update p.key r missing }

unfoldable pub time_out : ℕ → Transport → Transport
unfolding timeout_proc
time_out r p =
    if contains p.subscribed r
    then timeout_proc (p.key r) r (record p { subscribed = erase r p.subscribed })
    else p
