-- ===== src/Manager.antt =====
-- multiplexer/dialogue_mgr.go: the dialogues of one connection. Dialogues are shared objects: the
-- maps hold their places in a store. The packet factory's counter that new dialogues find, the clock
-- and the choice of a `select` are arguments.
pub mod Maps
pub mod Calls
pub mod Packets
pub mod Ending
pub mod Routing
pub mod Lifecycle
pub mod Closed
pub mod Cancelled
mod Examples
use geminio.Common.{ℕ, Bool, List, Option}
use geminio.IdCounter.{IdCounter}
use geminio.Conn.{Side}
use geminio.Dialogue.{Dialogue}
use geminio.Manager.Maps.{Table}

-- ErrOperationOnClosedMultiplexer, ErrDialogueNotFound and the error of GetDialogue for another client.
pub data Refusal : Type 0 where
  operation_on_closed_multiplexer dialogue_not_found unfound_client_id : Refusal

-- The calls to the outside, with the place of their dialogue.
pub data Call : Type 0 where
  delegate_online delegate_offline accept_fn accept_ch closed_fn closed_ch : ℕ → Call

pub record Manager : Type 0 where
  pub side : Side  -- of the connection
  pub client_id : ℕ  -- of the connection
  pub ids : Option IdCounter  -- dialogueIDs; none is nil
  pub mgr_ok : Bool
  pub dialogues : Table
  pub negotiating : Table
  pub store : List Dialogue
  pub pf : IdCounter  -- the packet factory's counter
  pub has_delegate : Bool
  pub has_accept_fn : Bool
  pub has_accept_ch : Bool
  pub has_closed_fn : Bool
  pub has_closed_ch : Bool
  pub calls : List Call
  pub close_ch : Bool  -- closed
