-- ===== src/Lib.antt =====
-- Verification of the NFD-QoS forwarding daemon: models of its C++ code and theorems about them.
--
-- The daemon receives packets on faces, looks them up in its tables and lets a strategy forward them.
-- A face (daemon/face) cuts packets that exceed the MTU into fragments and joins the fragments that
-- arrive. The forwarder (daemon/fw) keeps a PIT entry per pending Interest (daemon/table) with a
-- record for each face that asked or was asked; the functions of algorithm.cpp and the retransmission
-- suppression read those records to decide whether an Interest is sent again. The QoS strategy
-- (daemon/fw/qos-strategy.cpp) does not send at once: it puts packets into the priority queues of the
-- outgoing face, and prioritySend drains the queues of all faces while the token buckets pay. The
-- content store (daemon/table/cs.cpp) keeps Data as its policy says, and the dead nonce list the nonces of
-- Interests that are gone, so that the forwarder knows one that comes back. The RIB (rib) keeps the routes
-- that the FIB is computed from.
--
-- The files:
--   Base: the names all files share, Boolean tests, lists, integers, association lists.
--   Qos/Queue: QosQueue, daemon/fw/ndn-qos-queue.cpp (enqueue, dequeue, is_empty for Enqueue, Dequeue,
--     IsEmpty, and so on: a name is the C++ name in lower case with underscores).
--   Qos/TxQueue: NdnPriorityTxQueue, daemon/fw/ndn-priority-tx-queue.cpp; children: the contents of
--     the levels, the choice of a level, the effect of an enqueue.
--   Qos/Bucket: TokenBucket, daemon/fw/ndn-token-bucket.cpp; child: the counts of tokens.
--   Qos/Send: QosStrategy::prioritySend, daemon/fw/qos-strategy.cpp: `drain` is the inner loop over one
--     face's queue, `dispatched` its switch, `pass` the loop over the faces; children: what is sent and
--     paid, how many rounds, which faces get no turn.
--   Qos/Stats: the loss rates by prefix and face, daemon/fw/qos-strategy.cpp; child: the prefixes.
--   Qos/Receive: QosStrategy::afterReceiveData there; children: the faces that wait, the map of queues,
--     what is put into them and served, and Data of unknown type.
--   Qos/Float: the arithmetic of `float` and its documented laws, a parameter of the queues.
--   Lp/Packet, Lp/Fragmenter, Lp/Reassembler, Lp/LinkService: daemon/face/lp-fragmenter.cpp,
--     lp-reassembler.cpp and the numbering of fragments in generic-link-service.cpp; children: what the
--     fragmenter returns, the arrival of one fragment and of all in any order, and the round trip.
--   Table/Pit: pit::Entry and its records, daemon/table/pit-entry.cpp, pit-face-record.cpp,
--     pit-in-record.cpp and pit-out-record.cpp, over the searches of Table/Records.
--   Table/DeadNonceList: daemon/table/dead-nonce-list.cpp; children: how long a nonce is kept, the
--     capacity. Table/Fib: fib::Entry, daemon/table/fib-entry.cpp.
--   Fw/FaceTable: daemon/fw/face-table.cpp. Fw/BestRoute: best-route-strategy2.cpp there.
--   Fw/World: the fields of Forwarder, daemon/fw/forwarder.hpp, and what is a parameter of its
--     pipelines. Fw/Forwarder: the pipelines of forwarder.cpp there over one PIT entry; Fw/IncomingData: its
--     onIncomingData; children: loops, the timer after a miss, Nacks, the downstreams of Data and what
--     goes out to them.
--   Fw/Algorithm: daemon/fw/algorithm.cpp. Fw/ProcessNack: daemon/fw/process-nack-traits.cpp.
--   Fw/Retx: daemon/fw/retx-suppression-fixed.cpp and
--     retx-suppression-exponential.cpp.
--   Cs: the content store. Cs/Entry: cs-entry.cpp and cs-entry-impl.cpp of daemon/table; Cs/Policy: the
--     interface of cs-policy.cpp with its laws; Cs/Lru, Cs/PriorityFifo: cs-policy-lru.cpp and
--     cs-policy-priority-fifo.cpp; Cs/Store: the changes of cs.cpp; Cs/Find: its searches.
--   Face/Transport: Transport, daemon/face/transport.cpp; children: its states, its closing.
--   Rib/Entry: RibEntry, rib/rib-entry.cpp; children: the routes, the lowest cost.
--   Qos/Tests, Qos/ReceiveTests, Lp/Tests, Table/Tests, Cs/Tests, Face/Tests, Rib/Tests, Fw/Tests,
--     Fw/PipelineTests: runs on concrete inputs.
--
-- State is passed from argument to result. A result `none` of Option is a fault of the code: an index
-- outside a vector, a missing field, a null pointer that is read, a failed assertion. Faces, compared
-- by address in the code, are numbers. Emitted signals and sent packets are results. Clock readings are arguments.
--
-- Bounds and fuel: the counters of the queues wrap at 2 ^ 32 or 2 ^ 64 as the code's types do, sequence
-- numbers at 2 ^ 64. The inner loop of prioritySend runs on the number of packets for which the device
-- queue has room, 25 less its length, which the loop's own condition counts down. The loop that fills
-- the fragments runs on the length of the payload, since each round takes an octet at least. The loop
-- of evictEntries and that of findRightmost run on the size of the table, since each round takes an entry
-- off the table or off the range.
--
-- Not modelled: input and output (the kinds of transport, channels, sockets, the management protocol, logs, the
-- tools), the encoding of packets by ndn-cxx (sizes are parameters), the name tree and the
-- tables over it, the tree of the RIB with its FIB updates and the other strategies.
pub mod Base
pub mod Qos
pub mod Lp
pub mod Table
pub mod Rib
pub mod Face
pub mod Fw
pub mod Cs
