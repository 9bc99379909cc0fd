-- ===== src/Lib.antt =====
-- scales, a client side RPC stack for Python: a model of its core and what holds of it.
--
-- A client is a chain of sinks. A load balancer (scales/loadbalancer) picks an endpoint and passes a
-- request to that endpoint's channel, which is a resurrector (scales/resurrector.py) above a pool
-- (scales/pool) above a transport (scales/mux, scales/thriftmux). A response goes back up by the stack
-- of the sinks that it passed. gevent's greenlets switch only where the code waits, so an operation
-- between two waits is one step here, and what runs in another greenlet is a step of its own.
--
-- Common passes on what the parts share: the library's names, tests on numbers, lists measured by
-- native numbers, integers (Common/Int), dicts (Common/Dicts) and the results of calls
-- (Common/Outcome): a value, a raised exception, or the model's fuel used up. Constants models
-- scales/constants.py.
--
-- LoadBalancer models scales/loadbalancer/heap.py. LoadBalancer/Heap is class Heap: the array is
-- a function from positions to node names, with its last position, and a store maps names to nodes.
-- FixUp is fix_up and FixDown is fix_down, with fuel i + 1 and j + 1: the position at least halves
-- or doubles in each round, and Heap/Up and Heap/Down prove that the fuel is enough.
-- LoadBalancer/HeapBalancer is class HeapBalancerSink: _AddSink is add_sink, _RemoveSink is
-- remove_sink, __Put is put, __Get is get with its scan of the down queue in scan, and
-- _AsyncProcessRequestImpl is request; get and scan take their fuel as arguments. Its child modules have a proof each for an operation.
-- A channel is a number, its state an argument. random.randint is an argument too, over which the
-- theorems range.
--
-- Pool/Watermark models scales/pool/watermark.py, with the requests of scales/pool/base.py: the pool's
-- deque, its waiters and the greenlets that _Release spawns, which wait in `pending`.
-- Pool/Watermark/Ledger follows the sinks through histories of requests, releases and greenlets.
-- Pool/Singleton is scales/pool/singleton.py.
--
-- Mux models scales/mux/sink.py as scales/thriftmux/sink.py completes it. Mux/Bytes has the shifts
-- and struct formats that the code uses, Mux/Header the header of a message as bytes, and Mux/TagPool
-- class TagPool, where the element that set.pop takes is an argument that takes some element.
-- Mux/Transport is the transport: AsyncProcessRequest is process_request, _SendLoop is send_one for
-- one message, _ProcessReply is process_reply, _HandleTimeout is part of send_taken and time_out, and
-- _Shutdown is shutdown. Mux/Transport/History has its step relation.
--
-- Mux/Serializer is scales/thriftmux/serializer.py on lists of bytes: _WriteContext is write_context,
-- _ReadContext is read_context, and the marshallers and unmarshallers have their names.
--
-- Sinks models RefCountedSink of scales/sink.py and scales/resurrector.py. The power of the
-- backoff is an argument, since it is a float.
--
-- Kafka models scales/binary.py on lists of bytes in Kafka/Binary, and the messages of
-- scales/kafka/protocol.py in Kafka/Request, Kafka/Response and Kafka/Metadata; zlib.crc32 is an
-- argument.
-- Kafka/Router is KafkaRouterSink of scales/kafka/sink.py: _RebuildTopicLoadBalancers is rebuild, over
-- the metadata of Kafka/Cluster, and Kafka/Router/Requests has the requests, the responses and the
-- greenlets that wait for a refresh or for a load balancer to open. A load balancer is a number; one
-- that a rebuild has closed loses the message that send_msg gives it.
--
-- Async models WhenAll, WhenAny and Unwrap of AsyncResult in scales/asynchronous.py; _UnwrapHelper has
-- fuel for one more than the results that it follows.
--
-- Timer models TimerQueue of scales/timer_queue.py: Schedule is schedule, and a run of _TimerWorker from
-- one of its waits to the next is resume. heapq is a parameter, Timer/Heapq, with the laws that its
-- documentation states, and Timer/Sorted is an instance. Times are whole numbers of a fine unit.
--
-- Dispatch follows one call over the timer queue: the stack of scales/sink.py with its
-- AsyncProcessResponse as process_response, ClientTimeoutSink as timeout_request and timeout_helper, and
-- StaticDispatchMessage of scales/dispatch.py as dispatch. Its steps are responses, the call's deadline,
-- sinks that push themselves, and the timer queue in the hands of others.
--
-- Socket models scales/scales_socket.py and VarzSocketWrapper of scales/varz.py: its loops read and
-- write over the segments that the system gives, with rounds for one more than the bytes to read.
--
-- Observable is scales/observable.py: Set is set_value, and __Notify runs in greenlets of its own.
--
-- Thrift/Transport is SocketTransportSink of scales/thrift/sink.py: Open and _OpenImpl are
-- open_channel and open_impl, AsyncProcessRequest is request, the end of _AsyncProcessTransaction is
-- end_transaction, and _ProcessReply is reply_next. Thrift/Transport/History has its step relation.
--
-- Thrift/Json has the contexts of TFastJSONProtocol, scales/thrift/protocol.py: an operation of a
-- context is a function on its record, __init__ is array_init, object_init and map_init, and
-- get_buffer is object_buffer and map_buffer. The order of items() is an argument, and whether it is a
-- list, as on Python 2.
--
-- LoadBalancer/Members is LoadBalancerSink of scales/loadbalancer/base.py: the members of the server
-- set, the opening of the balancer and the requests that wait for it. __AddServer is add_server,
-- __OnServerSetJoin is on_join, _OpenImpl is open_impl over the attempts that the provider answers.
--
-- LoadBalancer/Aperture is ApertureBalancerSink of scales/loadbalancer/aperture.py, over the heap
-- balancer: _TryExpandAperture is expand, _ContractAperture is contract, _AdjustAperture is adjust
-- for a load average that is an argument, and _Jitter is an expand and a jitter_end.
--
-- LoadBalancer/ServerSet is ServerSet of scales/loadbalancer/zookeeper.py: _on_set_changed is
-- on_set_changed, _data_changed is data_changed, and _notification_worker is get_work, ensure_safe
-- and notification_worker, the steps between its waits. What kazoo reads and reports is an argument,
-- and whether keys() is a view, as on Python 3. on_join and on_leave return without waiting.
--
-- Varz is scales/varz.py: VARZ_DATA as lists in the order of their keys, IncrementVarz, SetVarz and
-- RecordPercentileSample as functions on it, and Aggregate up to the percentiles.
--
-- Not modelled: logs, the varz that the sinks record, clocks and percentiles; the providers of server
-- sets, and the members that zookeeper.py parses from json; ContinueWith of async results, and the
-- result of a ping; the redis and http protocols, and the calls of thrift's TJSONProtocol; the
-- builders, which put a chain together.
pub mod Common
pub mod Constants
pub mod LoadBalancer
pub mod Pool
pub mod Mux
pub mod Sinks
pub mod Kafka
pub mod Async
pub mod Timer
pub mod Dispatch
pub mod Socket
pub mod Thrift
pub mod Varz
pub mod Observable
