-- ===== src/Conn.antt =====
-- conn/conn_base.go, conn_client.go and conn_server.go: the state of a connection, of either side.
-- The machine, the clock, the delegate's answers, the result of a write to the net.Conn and the
-- choice of a `select` are arguments. A full channel makes its sender wait, but for the two
-- channels of heartbeats, whose senders look elsewhere. A `go` statement leaves a task.
pub mod Base
pub mod Server
pub mod Client
pub mod Loop
pub mod Stages
pub mod Opening
pub mod Halves
pub mod Handshake
pub mod Keeping
pub mod Kept
pub mod Offline
pub mod Reading
pub mod Draining
pub mod Dismissal
pub mod Partings
pub mod Turns
pub mod Courses
pub mod Parting
pub mod Heartbeat
mod Examples
use geminio.Common.{ℕ, Bool, List, [], ◌∷◌, ◌++◌, Option}
use geminio.IdCounter.{IdCounter}
use geminio.Packet.{Packet}
use geminio.Machine
pub use geminio.Machine.{
  IoRet, io_success, io_data, io_reconnect, io_new, io_new_active, io_new_passive, io_closed,
  io_closed_active, io_closed_passive, io_err, io_exit, io_discard,
}

pub data State : Type 0 where
  init conn_sent conn_recv conned close_sent close_recv close_half closed fini : State

pub data Event : Type 0 where
  et_conn_sent et_conn_recv et_conn_ack et_error : Event
  et_close_sent et_close_recv et_close_ack et_fini : Event

-- geminio.Side
pub data Side : Type 0 where
  initiator_side recipient_side : Side

abbrev pub event_code : Event → ℕ
event_code et_conn_sent = 0
event_code et_conn_recv = 1
event_code et_conn_ack = 2
event_code et_error = 3
event_code et_close_sent = 4
event_code et_close_recv = 5
event_code et_close_ack = 6
event_code et_fini = 7

abbrev pub state_code : State → ℕ
state_code init = 0
state_code conn_sent = 1
state_code conn_recv = 2
state_code conned = 3
state_code close_sent = 4
state_code close_recv = 5
state_code close_half = 6
state_code closed = 7
state_code fini = 8

abbrev pub Transition : Type 0
Transition = Event × State × State

abbrev client_transitions : List Transition
client_transitions =
    (et_conn_sent, init, conn_sent)
    ∷ (et_conn_ack, conn_sent, conned)
    ∷ (et_close_sent, conn_sent, close_sent)
    ∷ (et_close_sent, conned, close_sent)
    ∷ (et_close_sent, close_recv, close_sent)
    ∷ (et_close_sent, close_half, close_half)
    ∷ (et_close_recv, conn_sent, close_recv)
    ∷ (et_close_recv, conned, close_recv)
    ∷ (et_close_recv, close_sent, close_recv)
    ∷ (et_close_recv, close_half, close_half)
    ∷ (et_close_ack, close_sent, close_half)
    ∷ (et_close_ack, close_recv, close_half)
    ∷ (et_close_ack, close_half, closed)
    ∷ (et_fini, init, fini)
    ∷ (et_fini, conn_sent, fini)
    ∷ (et_fini, conned, fini)
    ∷ (et_fini, close_sent, fini)
    ∷ (et_fini, close_recv, fini)
    ∷ (et_fini, close_half, fini)
    ∷ (et_fini, closed, fini)
    ∷ []

-- The server's variable `closed` is a state of the name FINI, and one call stands there twice.
abbrev server_transitions : List Transition
server_transitions =
    (et_conn_recv, init, conn_recv)
    ∷ (et_conn_ack, conn_recv, conned)
    ∷ (et_error, conn_recv, conn_recv)
    ∷ (et_close_sent, conn_recv, close_sent)
    ∷ (et_close_sent, conned, close_sent)
    ∷ (et_close_sent, close_recv, close_sent)
    ∷ (et_close_sent, close_half, close_half)
    ∷ (et_close_recv, close_sent, close_recv)
    ∷ (et_close_recv, conned, close_recv)
    ∷ (et_close_recv, close_sent, close_recv)
    ∷ (et_close_recv, close_half, close_half)
    ∷ (et_close_ack, close_sent, close_half)
    ∷ (et_close_ack, close_recv, close_half)
    ∷ (et_close_ack, close_half, fini)
    ∷ (et_fini, init, fini)
    ∷ (et_fini, conn_recv, fini)
    ∷ (et_fini, conned, fini)
    ∷ (et_fini, close_sent, fini)
    ∷ (et_fini, close_recv, fini)
    ∷ (et_fini, close_half, fini)
    ∷ (et_fini, fini, fini)
    ∷ []

-- The AddEvent calls of the two initFSM, in their order.
unfoldable pub transitions : Side → List Transition
transitions initiator_side = client_transitions
transitions recipient_side = server_transitions

abbrev pub Fsm : Type 0
Fsm = Machine.Fsm event_code state_code

-- The keys of the synchub: a packet's identifier, or the two addresses of the net.Conn.
pub data HubKey : Type 0 where
  of_packet : ℕ → HubKey
  of_addresses : HubKey

-- The calls on the synchub.
pub data HubCall : Type 0 where
  hub_new hub_done hub_ack hub_error : HubKey → HubCall
  hub_close : HubCall

-- What a step finds outside of the connection: the time, whether a `select` takes the branch of
-- ctx.Done() when it is ready, whether a write to the net.Conn succeeds, whether there is a
-- delegate, and the answers of its ConnOnline and GetClientID.
pub record Moment : Type 0 where
  pub unix : ℕ
  pub takes_done : Bool
  pub write_ok : Bool
  pub has_delegate : Bool
  pub online_error : Option (List ℕ)
  pub given_id : ℕ
  pub given_error : Option (List ℕ)

pub record Conn : Type 0 where
  pub side : Side
  pub state : State
  pub ids : IdCounter  -- of the packet factory
  pub client_ids : Option IdCounter  -- a server's, shared with the others; none is nil
  pub client_id : ℕ
  pub heartbeat : ℕ
  pub meta : List ℕ
  pub onlined : Bool
  pub conn_ok : Bool
  pub cancelled : Bool  -- ctx
  pub net_closed : Bool
  pub writing : Bool  -- writePkt runs
  pub read_closed : Bool  -- readPkt has ended
  pub closing : Bool  -- closeOnce has run
  pub finished : Bool  -- fini has run
  pub tick : Option ℕ  -- hbTick, by its seconds
  pub heartbeat_in : List Packet  -- heartbeatCh
  pub heartbeat_out : List Packet  -- heartbeatWriteCh
  pub read_in : List Packet
  pub write_out : List Packet
  pub read_out : List Packet
  pub write_in : List Packet
  pub wire : List Packet  -- what was written to the net.Conn
  pub failed : Option (List Packet)  -- none is a nil failedCh
  pub tasks : List Packet  -- of the goroutines that call sendToWriteIn
  pub hub : List HubCall
  pub online_calls : ℕ  -- of the delegate
  pub offline_calls : ℕ
  pub heartbeat_calls : ℕ
