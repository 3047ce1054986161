-- ===== src/Lib.antt =====
-- geminio, an application network library: packets, identifiers, connections, dialogues,
-- streams.
--
-- A connection carries packets between two peers. The packet factory (packet/factory.go) makes them
-- with identifiers from a counter (pkg/id/id.go); the codec (packet/) writes them to bytes and reads
-- them back from a slice or a stream; a connection (conn/) shakes hands over a net.Conn, keeps it
-- alive with heartbeats and moves packets to and from the layers above; a dialogue
-- (multiplexer/dialogue.go) opens, moves data and closes over a connection. Connections and dialogues
-- are loops that call handlers, which make packets with the factory. The dialogue manager
-- (multiplexer/dialogue_mgr.go) hands the packets of one connection to its dialogues. A stream
-- (application/stream.go) calls the user's RPCs for the requests of its dialogue and answers them.
--
-- Files. Go names are in snake_case here: `handleInSessionPacket` is `handle_in_session_packet`.
-- - Common: outcomes of Go code (value, error, panic), Boolean tests, lists, tables.
-- - Wire: Go slices with their spare capacity, big-endian integers, io.ReadFull on a finite stream.
-- - Packet: the structs of packet/packet.go, packet_conn.go, packet_sess.go and packet_data.go, as
--   one type with a constructor for each. Packet/Header, Body and Encode are their Encode methods
--   and the fields' decoding; Packet/Decode is packet/decode.go's Decode with every Decode method,
--   Packet/Reader its DecodeFromReader with every DecodeFromReader method; Packet/Ids has ID and
--   SessionLayer; Packet/Writer is EncodeToWriter. Packet/RoundTrip and Packet/Safety hold what follows.
-- - Packet/Factory: every method of packet/factory.go, over the counter's state.
-- - IdCounter: pkg/id/id.go. A call is `IdCounter -> result and IdCounter`.
-- - Machine: the state machines of yafsm and iodefine.IORet, for connections and dialogues.
-- - Conn: the states, events and transitions of conn/conn_client.go and conn_server.go, and the fields
--   of conn_base.go. Conn/Base has the handlers, Write and Close that both sides share, Conn/Client and
--   Conn/Server those of one side; Conn/Loop has readPkt and writePkt by their turns, handlePkt,
--   fini and the relation `Step`; Conn/Reading is the whole loop of readPkt on a stream. Conn/Opening,
--   Conn/Dismissal and Conn/Heartbeat run the handshakes and a heartbeat between two sides, with
--   Stages, Halves and Partings for their steps; Conn/Turns has the turns of a closing one by one and
--   Conn/Courses every order of them; Conn/Keeping and Kept are lemmas for Conn/Offline.
-- - Dialogue: the states, events and transitions of multiplexer/dialogue.go; Dialogue/Handlers has
--   handleIn, handleOut and all handlers, Dialogue/Closing has Close; Dialogue/Loop has open, handlePkt,
--   fini, the goroutines as tasks, and the relation `Step`; Dialogue/Opening has NewDialogue and the run of
--   an opening between two dialogues.
-- - Manager: the state of multiplexer/dialogue_mgr.go; Manager/Maps has its maps and the store of shared
--   dialogues, Manager/Calls its constructor, OpenDialogue by its critical sections, DialogueOnline and
--   DialogueOffline, Manager/Packets handlePkt, Manager/Ending Close, fini and the relation `Step`;
--   Manager/Lifecycle follows a dialogue through the maps, Manager/Routing, Closed and Cancelled what follows.
-- - Stream: the state of application/stream.go; Stream/Requests has its requests, their cancelling and
--   doRPC, Stream/Handlers handleIn, handleOut and the other handlers, Stream/Ending the turns of
--   readPkt and handlePkt, the drain, Close, fini and the relation `Step`; Stream/Answers follows a request,
--   Stream/Pending and Released the cancel functions that are kept, Stream/Drained what is written
--   before the dialogue of a closed stream is closed.
--
-- Parameters. encoding/json is `Json`, a pair of functions with a round trip on the values that
-- survive it. `byte(math.Pow(x/5, 0.25))` is `fourth_root`, with its defining bounds.
-- github.com/singchia/yafsm is `Fsm`: EmitEvent takes the registered transition of the current
-- state, if no event is registered twice for a state. The clock, crypto/rand, the choice of a
-- `select` that has two ready branches and the delegate's answer are arguments. io.Writer is `Writer`:
-- a call without an error takes at least one byte. Of the synchub only
-- the calls are recorded.
--
-- Bounds. Integers are natural numbers with the wrap-around written out. The loop of the unique mode
-- has the source's own bound of 2^64 - 2 rounds. EncodeToWriter has as many rounds as bytes, since
-- each round without an error writes one. readPkt's fuel is the number of its turns: each takes a
-- header of 14 bytes, so more turns than bytes are enough. Times are below 2^32 seconds where a theorem says so.
--
-- Not modelled: the partly filled packet that a decoder returns with an error, negative heartbeats,
-- the size of channels (a full channel is a sender that waits, but for a connection's channels of
-- heartbeats), logging, and when a timer fires (a step may fire it at any time); the setters of
-- options; the dialogue hub, the rest of application/, client/ and server/.
pub mod Common
pub mod Machine
pub mod Wire
pub mod Packet
pub mod Stream
pub mod Conn
pub mod Dialogue
pub mod Manager
pub mod IdCounter
