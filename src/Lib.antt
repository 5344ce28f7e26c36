-- ===== src/Lib.antt =====
-- A model of SCPxy, a proxy for a game's UDP protocol, and what has been proved of it.
--
-- A client sends datagrams of the LiteNetLib protocol. The packet layer (internal/litenetlib) checks
-- each header; a manager finds the peer of the datagram's address, and the peer's channels put its
-- messages in order. A request to connect carries the client's pre-authentication data
-- (internal/preauth). The proxy (internal/proxy) asks the gate (internal/security) whether the address
-- may enter, picks a backend, opens a session and a link to the backend, adds the real address to the
-- data where the configuration says so, and passes the messages of both sides on through the session's
-- queues. All parts log to the event bus (internal/events).
--
-- Files, by the source that they model:
--   Base        names, tests, lists, bytes, little-endian numbers and maps that all parts share
--   Wire        internal/litenetlib/const.go: constants, delivery methods, `relativeSequence`
--   Packet      internal/litenetlib/packet.go: the header's accessors, `verify`
--   Stream      internal/litenetlib/data.go: `Writer` and `Reader`
--   Preauth     internal/preauth/preauth.go: `Parse`, `AppendRealIP`, `MaskedUserID`
--   Bus         internal/events/bus.go: `Log`, `Subscribe`, `Unsubscribe`, `History`
--   Gate        internal/security/gate.go: `Allow`, `Acquire`, `Release`, `Ban`, `Unban`, the sweep
--   Config      internal/config/config.go: `Normalize`, a backend's entry
--   Backend     internal/proxy/backend.go: the pool of backends
--   Channel     internal/litenetlib/channel.go: the reliable and the sequenced channel
--   Peer        internal/litenetlib/peer.go: Connect (how a connection begins and ends), Fragments (large
--               messages), Merge (small packets in one datagram), Discovery (the MTU), Lanes (its
--               channels), Process (`processPacket`), Update (`send`, `update`)
--   Manager     internal/litenetlib/manager.go: `Connect`, `resolveRequest`, `disconnectPeer`; Route has
--               `receive`, `processConnectRequest`, `update`
--   Link        internal/proxy/link.go: a client's socket to the backend, and its lease
--   Session     internal/proxy/session.go: a session's state and its queues
--   Proxy       internal/proxy/proxy.go: how a session begins and ends; Relay has the messages and the
--               pumps, Console the console's calls
-- The modules below each of them prove its properties; its Tests module has runs on small inputs.
--
-- A peer returns what it asks of its manager as a list of calls, and the manager carries them out. A
-- manager reports events and datagrams, and the proxy answers with actions: each list is in the order
-- of the calls. What is shared by pointer in Go goes by a number: a peer by its id, a session by its id,
-- a link by its place in a store. A pointer to a channel in the send queue is its place in the table.
--
-- Conventions. A byte slice and a text are a list of numbers, with `All IsByte` where it matters. An
-- accessor that Go would let panic on an index out of range returns an `Option`, and `none` is the
-- panic. Errors of a reader are a result type. A Go map is an association list. The clock is an
-- argument, in nanoseconds; a float64 of the gate is a value of the parameter `Floats`, of which
-- nothing is assumed. A method with a lock is one step, but for `Log` of the bus, which lets go of its
-- lock before it sends, and for the proxy's `onConnectionRequest`, which lets go of its lock between the
-- maps and the gate: these are two. `expireHandshake` is one step, and its part behind the look at the
-- session's state one of its own too. A choice of Go's, as the order of a map or a `select`, is an
-- argument. What the configuration asks of the network library is a parameter.
--
-- Fuel. The loop over a merged packet has the packet's bytes as fuel: each round passes two bytes at
-- least. `processPacket`, which calls itself on the parts of a merged packet, has the size of the packet
-- and one more: a part is shorter than its packet. The loop that moves the window has the number of its
-- steps on the circle of sequence numbers, the loops over held packets the window's size and two more,
-- and the loop over the send queue as many rounds as the queue has channels.
--
-- Not modelled: sockets and the loops that read them, the interleavings of goroutines but for three
-- races, the byte counters of a manager, logs and traces, the reports of the relay, the terminal console
-- (internal/cli), flags and signals (cmd/scpxy), and the reading of the configuration file.
pub mod Base
pub mod Wire
pub mod Packet
pub mod Stream
pub mod Preauth
pub mod Bus
pub mod Gate
pub mod Config
pub mod Backend
pub mod Channel
pub mod Peer
pub mod Manager
pub mod Link
pub mod Session
pub mod Proxy
