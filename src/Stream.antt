-- ===== src/Stream.antt =====
-- application/stream.go: the calls, messages and data of one stream. Contexts are shared objects:
-- rpcCancels holds their places in a store. The RPCs are user code: what one returns is an argument
-- of the step that runs it.
pub mod Requests
pub mod Handlers
pub mod Ending
pub mod Answers
pub mod Pending
pub mod Released
pub mod Drained
mod Examples
use geminio.Common.{ℕ, Bool, List, Option}
use geminio.Packet.{Packet}
use geminio.Manager.Maps.{Table}

-- The errors of dialogue.Write and WriteWait: io.ErrShortBuffer, or another one with its text.
pub data WriteError : Type 0 where
  short_buffer : WriteError
  other_error : List ℕ → WriteError

-- The calls to the sync hub: Error, Ack of a message, Ack of a response with its data, Done and DoneSub.
-- The errors io.ErrClosedPipe and io.ErrShortBuffer, and the hub's Close, have constructors of their own.
pub data HubCall : Type 0 where
  hub_error : ℕ → List ℕ → HubCall
  hub_closed_pipe hub_short_buffer hub_ack hub_done : ℕ → HubCall
  hub_response : ℕ → List ℕ → HubCall
  hub_done_sub : List ℕ → HubCall
  hub_close : HubCall

-- A context with its deadline, none for context.WithCancel, and whether its cancel function was called.
pub record Context : Type 0 where
  pub deadline : Option ℕ
  pub cancelled : Bool

-- patternRPC; the regular expression is its Match.
pub record PatternRpc : Type 0 where
  pub matching : Bool
  pub pattern : Option (List ℕ → Bool)

-- Which RPC is called.
pub data Rpc : Type 0 where
  hijack_rpc : Rpc
  local_rpc : List ℕ → Rpc

-- The goroutine of a doRPC.
pub record Call : Type 0 where
  pub request_id : ℕ
  pub method : List ℕ
  pub context : ℕ  -- its place
  pub rpc : Rpc

-- The response's data and error as the RPC left them, and the text of a panic.
pub record Ran : Type 0 where
  pub data_set : List ℕ
  pub error_set : Option (List ℕ)
  pub panicked : Option (List ℕ)

-- What one step meets outside: the result of the write to the dialogue, and the branch of a `select`
-- when its dialogue is done.
pub record Moment : Type 0 where
  pub write_error : Option WriteError
  pub dialogue_done : Bool
  pub takes_done : Bool

pub record Stream : Type 0 where
  pub dialogue_id : ℕ
  pub rpc_cancels : Table
  pub contexts : List Context
  pub calls : List Call
  pub local_rpcs : List (List ℕ)
  pub remote_rpcs : List (List ℕ)
  pub hijack : Option PatternRpc
  pub has_delegate : Bool
  pub remote_registrations : List (List ℕ)  -- the delegate's calls
  pub stream_ok : Bool
  pub closing : Bool  -- closeOnce has run
  pub finished : Bool  -- finiOnce has run
  pub close_write : Bool  -- closeWriteCh is closed
  pub channels_closed : Bool  -- messageCh and streamCh
  pub message_ch : List Packet
  pub stream_ch : List Packet
  pub stream_ch_size : ℕ
  pub drained : Bool  -- closeWriteCh was received, and set to nil
  pub dialogue_closes : List (List Packet)  -- for each dg.Close, what was written by then
  pub write_in : List Packet
  pub written : List Packet  -- to the dialogue
  pub hub : List HubCall
  pub end_finished : Bool  -- end.fini was called
  pub end_deleted : List ℕ  -- calls of end.delStream
