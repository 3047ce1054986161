-- ===== src/Dialogue.antt =====
-- multiplexer/dialogue.go: the state machine of one dialogue and the handlers of its packets.
-- The machine of github.com/singchia/yafsm is a parameter, and so are the clock, the delegate's
-- answer and the choice of a `select`. A full channel makes its sender wait until there is room, so
-- a channel is a queue without a bound. A `go` statement leaves a task that runs at some later time.
pub mod Closing
pub mod Handlers
pub mod Loop
pub mod Dismissals
pub mod Single
pub mod Once
pub mod Offline
pub mod Opening
pub mod Handshake
mod Examples
use geminio.Common.{
  ℕ, Bool, true, false, ◌==◌, ◌&&◌, not, List, [], ◌∷◌, Option, none, some, ◌≡◌, if◌then◌else◌,
}
use geminio.IdCounter.{IdCounter}
use geminio.Packet.{Packet}
use geminio.Machine
pub use geminio.Machine.{
  IoRet, io_success, io_data, io_reconnect, io_new, io_new_active, io_new_passive, io_closed,
  io_closed_active, io_closed_passive, io_err, io_exit, io_discard,
}

pub data State : Type 0 where
  init session_sent session_recv sessioned : State
  dismiss_sent dismiss_recv dismiss_half dismissed fini : State

-- ET_SESSIONACK is the same string as ET_SESSIONRECV.
pub data Event : Type 0 where
  et_session_sent et_session_recv et_error et_dismiss_sent et_dismiss_recv : Event
  et_dismiss_ack et_fini : Event

abbrev pub et_session_ack : Event
et_session_ack = et_session_recv

abbrev pub Transition : Type 0
Transition = Event × State × State

-- The AddEvent calls of initFSM, in their order.
abbrev pub transitions : List Transition
transitions =
    (et_session_sent, init, session_sent)
    ∷ (et_session_ack, session_sent, sessioned)
    ∷ (et_session_recv, init, session_recv)
    ∷ (et_session_ack, session_recv, sessioned)
    ∷ (et_error, session_recv, session_recv)
    ∷ (et_dismiss_sent, session_recv, dismiss_sent)
    ∷ (et_dismiss_sent, sessioned, dismiss_sent)
    ∷ (et_dismiss_sent, dismiss_recv, dismiss_sent)
    ∷ (et_dismiss_sent, dismiss_half, dismiss_half)
    ∷ (et_dismiss_recv, session_sent, dismiss_recv)
    ∷ (et_dismiss_recv, sessioned, dismiss_recv)
    ∷ (et_dismiss_recv, dismiss_sent, dismiss_recv)
    ∷ (et_dismiss_recv, dismiss_half, dismiss_half)
    ∷ (et_dismiss_ack, dismiss_sent, dismiss_half)
    ∷ (et_dismiss_ack, dismiss_recv, dismiss_half)
    ∷ (et_dismiss_ack, dismiss_half, dismissed)
    ∷ (et_fini, init, fini)
    ∷ (et_fini, session_sent, fini)
    ∷ (et_fini, session_recv, fini)
    ∷ (et_fini, sessioned, fini)
    ∷ (et_fini, dismiss_sent, fini)
    ∷ (et_fini, dismiss_recv, fini)
    ∷ (et_fini, dismiss_half, fini)
    ∷ (et_fini, dismissed, fini)
    ∷ []

abbrev pub event_code : Event → ℕ
event_code et_session_sent = 0
event_code et_session_recv = 1
event_code et_error = 2
event_code et_dismiss_sent = 3
event_code et_dismiss_recv = 4
event_code et_dismiss_ack = 5
event_code et_fini = 6

abbrev pub state_code : State → ℕ
state_code init = 0
state_code session_sent = 1
state_code session_recv = 2
state_code sessioned = 3
state_code dismiss_sent = 4
state_code dismiss_recv = 5
state_code dismiss_half = 6
state_code dismissed = 7
state_code fini = 8

abbrev pub Fsm : Type 0
Fsm = Machine.Fsm event_code state_code

-- The goroutines that a dialogue starts.
pub data Task : Type 0 where
  send_in : Packet → Task
  close_async : Task

-- The calls on the synchub, with their packet identifiers.
pub data HubCall : Type 0 where
  hub_add hub_done hub_error : ℕ → HubCall
  sync_done : ℕ → HubCall
  hub_close : HubCall

-- What a step finds outside of the dialogue: the time, whether a `select` takes the branch of
-- ctx.Done() when it is ready, whether there is a delegate, and the error of its DialogueOnline.
pub record Moment : Type 0 where
  pub unix : ℕ
  pub takes_done : Bool
  pub has_delegate : Bool
  pub online_error : Option (List ℕ)

pub record Dialogue : Type 0 where
  pub state : State
  pub ids : IdCounter  -- of the packet factory
  pub meta : List ℕ
  pub peer : List ℕ
  pub onlined : Bool
  pub closewait : Option ℕ
  pub negotiating_id : ℕ
  pub peer_negotiating_id : ℕ
  pub peers_call : Bool
  pub dialogue_id : ℕ
  pub cancelled : Bool  -- ctx
  pub closing : Bool  -- closeOnce has run
  pub finished : Bool  -- finiOnce has run
  pub read_in : List Packet
  pub write_out : List Packet
  pub read_out : List Packet
  pub write_in : List Packet
  pub failed : Option (List Packet)  -- none is a nil failedCh
  pub tasks : List Task
  pub hub : List HubCall
  pub offline_calls : ℕ  -- of the delegate's DialogueOffline
