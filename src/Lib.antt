-- ===== src/Lib.antt =====
-- Verification library of parts of xray-core: the mKCP transport, reliable and ordered streams over UDP
-- packets (source/xray-core/transport/internet/kcp), with the part of the configuration that sets it up
-- (source/xray-core/infra/conf/transport_internet.go); the sessions and the frames of mux
-- (source/xray-core/common/mux); the addresses of the protocols (source/xray-core/common/net and
-- source/xray-core/common/protocol); buffers and the pipe that carries them between goroutines
-- (source/xray-core/common/buf, source/xray-core/transport/pipe); the fake DNS with its cache
-- (source/xray-core/app/dns/fakedns, source/xray-core/common/cache); the groups of domain patterns
-- (source/xray-core/common/strmatcher); and the balancers (source/xray-core/app/router).
--
-- A connection has a sending worker, which numbers the buffers of its user, keeps them in a window and
-- sends them again until they are acknowledged; a receiving worker, which keeps arrived segments in a
-- window by number, hands them to the reader in sequence and queues their acknowledgement; an estimate
-- of the round trip, from which both take their timeouts; and a state, which the user's calls, the
-- peer's segments and the timeouts change. Two updaters call `flush` while there is something to do.
-- What it sends goes through a packet writer, which puts a header in front and may seal it.
-- Mux carries many sessions over one such stream. A manager maps 16-bit IDs to the open sessions, and a
-- frame carries the ID and, at first, the address to connect to, in the format that the protocols share.
-- Data goes between goroutines through pipes, as lists of buffers. The fake DNS hands out addresses of a
-- pool in place of domains, and keeps the pairs in a cache that drops the pair used longest ago.
-- A group of matchers finds which of many patterns a domain matches. A balancer picks an outbound, by an
-- override, by its strategy among those that are alive, or by a fallback.
--
-- Files, and the code they are about:
--   Base            booleans, lists, words and byte slices of Go, with wrap-around and panics
--   Kcp/Segment     kcp/segment.go, and Write of kcp/output.go: DataSegment, AckSegment and
--                   CmdOnlySegment, Serialize and ReadSegment. Layout: the wire format; RoundTrip:
--                   reading what was written; Safety: reading anything
--   Kcp/State       kcp/connection.go, State
--   Kcp/Config      kcp/config.go and KCPConfig.Build. Sizes: their bounds
--   Kcp/RoundTrip   kcp/connection.go, RoundTripInfo. Estimate: exactness and bounds
--   Kcp/AckList     kcp/receiving.go, AckList. Clear, Flush: what is retired and what is sent
--   Kcp/Receiving   kcp/receiving.go, ReceivingWindow and ReceivingWorker. Split and Drain: the loops
--                   of a read; Window: what is accepted; Delivery: the stream
--   Kcp/SendingWindow, Kcp/Sending
--                   kcp/sending.go, SendingWindow and SendingWorker. Order: the window's order; Acks:
--                   acknowledgements; Congestion: push, flush and the congestion window
--   Kcp/Connection  kcp/connection.go, Connection: its state changes, Close, deadlines, Ping
--   Kcp/Transfer    kcp/connection.go: Input, flush, one round of Read, ReadMultiBuffer, Write and of
--                   the updaters
--   Kcp/Lifecycle   which state follows which. Runs: calls one after another;
--                   Races: calls that interleave; Timeouts: one flush; Silence: that a connection
--                   ends
--   Kcp/Packet      kcp/io.go, KCPPacketReader and KCPPacketWriter. Delivery: what is read of a packet
--   Kcp/Crypt       kcp/crypt.go, SimpleAuthenticator, and kcp/xor.go. Undo: opening what was sealed
--   Mux/Sessions    mux/session.go, SessionManager and Session.Close; mux/client.go, IsClosing and
--                   IsFull. Sound: the invariant; Closing, Allocation: single methods
--   Mux/Frame       mux/frame.go, FrameMetadata. Wire: the bytes; Reading, RoundTrip: reading them
--   Net             common/net/address.go and destination.go: Address, ParseAddress, Destination
--   AddressParser   common/protocol/address.go, and isDomainTooLong of headers.go. RoundTrip: addresses
--                   that are written and read; Domains: the lengths of domains
--   Buf             common/buf/buffer.go and multi_buffer.go: Buffer, MultiBuffer. Split, Merge,
--                   Compacting: what becomes of the bytes
--   Pipe            transport/pipe/impl.go and pipe.go. Fifo: the order of bytes; Bounds: the limit
--   Lru             common/cache/lru.go. Sound: the invariant, and Order, PushFront, Evict, Put for it;
--                   Victim: what leaves; Remembers, Update: what can be read
--   FakeDns         app/dns/fakedns/fake.go, Holder. Bytes: the bytes of numbers; Pool: its addresses;
--                   Free: the search; Answers: both calls
--   Strmatcher      common/strmatcher/strmatcher.go, matchers.go, full_matcher.go, domain_matcher.go.
--                   Trie: the tree of domains; Labels: parts of domains; Group: all matchers
--   Balancing       app/router/balancing.go and balancing_override.go, Balancer and RoundRobinStrategy;
--                   strategy_random.go. Rotation: what a round robin picks
--   Kcp/Tests, Kcp/Packet/Tests, Kcp/Crypt/Tests, Mux/Sessions/Tests, and Tests of the others
--                   the theorems at concrete inputs, and runs of the code
--
-- How the code is rendered: a Go function is a function with the same name in lower case; a method
-- returns the changed receiver, and beside it what it hands to the network or to its connection.
-- Fixed width is written out as a remainder. A run-time panic is `none`, or `panics` of Base/Outcome
-- where an error is told apart from it. A linked list, a slice and a map are lists. Each reading of
-- the clock is an argument, those that `SetState` makes beside those of its callers. Pointers to sessions and to elements of the cache are positions in a store, since each
-- is shared. The loop of ReadMultiBuffer has as much fuel as there are segments in the window, since
-- each round takes one out; the loop over a packet as much as there are bytes, since each segment
-- takes some. The search of the fake DNS has one round more than there are addresses in use, and
-- `MergeBytes` as many as there are bytes, since each buffer takes one at least. All other loops are
-- structural, or count their rounds.
--
-- A method is one step, and no other method of the same object runs within it. Locks make it so for
-- the sessions of mux, the pipe, the cache and the workers of a connection. The methods of a connection
-- itself hold no lock: between its reading of the state and `SetState`, another goroutine may change
-- the state. Kcp/Lifecycle/Races has this interleaving of readings and settings; that of the other
-- fields is not modelled, nor are the locks themselves.
--
-- Not modelled: logging, the pool of buffers, the network below
-- `output.Write` and its retries, the waits on channels and timers (a blocking call is one round,
-- which says that it waits), the listener and the dialer, the copying of data in mux, the holder of
-- several pools of the fake DNS, the readers and writers of common/buf, MphMatcherGroup and the
-- Aho-Corasick automaton of common/strmatcher, the other strategies of balancers, and all other
-- packages. The parsing of IP addresses and of CIDR notation is a parameter, and a regular
-- expression is what it matches. The packet header and the cipher are parameters; a theorem that
-- needs their documented behaviour assumes it.
pub mod Base
pub mod Net
pub mod AddressParser
pub mod Buf
pub mod Pipe
pub mod Lru
pub mod FakeDns
pub mod Strmatcher
pub mod Balancing
pub mod Kcp
pub mod Mux
