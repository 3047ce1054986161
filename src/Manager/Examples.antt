-- ===== src/Manager/Examples.antt =====
-- Runs of managers.
use geminio.Common.{
  ℕ, ◌+◌, ◌*◌, ◌^◌, ◌≡◌, ◌≢◌, refl, true, false, [], ◌∷◌, some, none, ok, panic, inl, inr, arith,
  List,
}
use geminio.Machine.{registered}
use geminio.IdCounter.{IdCounter, inc, get_id}
use geminio.Packet.{
  type_session_ack, session_ack, Packet, dismiss, session, type_dismiss, type_session,
}
use geminio.Packet.Factory.{header, at_least_once, session_data, new_session_flags}
use geminio.Conn.{initiator_side}
use geminio.Dialogue.{Dialogue, sessioned}
use geminio.Dialogue
use geminio.Dialogue.Opening.{new_dialogue}
use geminio.Manager.{Manager, operation_on_closed_multiplexer, dialogue_not_found}
use geminio.Manager.Maps.{lookup}
use geminio.Manager.Calls.{
  dialogue_online, dialogue_offline, open_failed, open_begin, get_dialogue, list_dialogues,
}
use geminio.Manager.Packets.{handle_pkt, session_id}
use geminio.Manager.Ending.{fini_mgr, stay, step, online}
use geminio.Manager.Lifecycle.{waiting, opened, opened-Reaches}
use geminio.Manager.Routing.{Reaches, Makes, handle_pkt-Reaches, handle_pkt-Makes}
use geminio.Manager.Closed.{fini_mgr-Steps}
use geminio.Manager.Cancelled.{IsCancelledAt, fini_mgr-IsCancelledAt}

abbrev table_fsm : Dialogue.Fsm
table_fsm = record {
  emit_event = registered Dialogue.event_code Dialogue.state_code;
  emit_event_registered = λ t e s d. refl;
}

abbrev counting : ℕ → IdCounter
counting n = record { counter = n; once = false; ids = some []; mode = inc }

abbrev main : Dialogue
main = record (new_dialogue (counting 0) [] [] 0 false none) { state = sessioned; dialogue_id = 1 }

abbrev young : Dialogue
young = new_dialogue (counting 0) (104 ∷ []) [] 7 true none

-- One dialogue is ready under 1, another negotiates under 7.
abbrev busy : Manager
busy = record {
  side = initiator_side;
  client_id = 5;
  ids = some (counting 6);
  mgr_ok = true;
  dialogues = (1, 0) ∷ [];
  negotiating = (7, 1) ∷ [];
  store = main ∷ young ∷ [];
  pf = counting 0;
  has_delegate = true;
  has_accept_fn = false;
  has_accept_ch = true;
  has_closed_fn = false;
  has_closed_ch = false;
  calls = [];
  close_ch = false;
}

abbrev farewell : Packet
farewell = dismiss (header type_dismiss 9 at_least_once) 7 (session_data [] [] [])

apart : ◌≢◌ {A = ℕ} 1 0
apart e = absurd (omega arith)

-- A packet for the identifier that the young dialogue has as long as it has none.
abbrev early : Packet
early = dismiss (header type_dismiss 9 at_least_once) 0 (session_data [] [] [])

-- The young dialogue is registered under 8.
opened-Reaches_example :
    let h = header type_session_ack 9 at_least_once in
    let f = new_session_flags false in
    let d = session_data [] [] [] in
    let ack = session_ack h f 8 3 d in
    let known = opened table_fsm 8 1 busy in
    let online = (dialogue_online 1 busy).1 in
    Reaches ack 1 young 0 (waiting 8 1 busy) (handle_pkt 2 true ack (waiting 8 1 busy))
    × (handle_pkt 2 true ack (open_failed 8 (waiting 8 1 busy))
        ≡ ok (open_failed 8 (waiting 8 1 busy)))
    × (handle_pkt 2 true ack known ≡ ok known)
    × Reaches early 1 young 0 known (handle_pkt 2 true early known)
    × (get_dialogue 5 0 known ≡ inr 1)
    × (get_dialogue 5 0 (dialogue_offline 1 known).1 ≡ inl dialogue_not_found)
    × Reaches early 1 young 0 online (handle_pkt 2 true early online)
    × (handle_pkt 2 true (session_ack h f 7 3 d) online ≡ ok online)
unfolding session_id new_dialogue
opened-Reaches_example =
    opened-Reaches table_fsm 2 8 1 0 3 true (header type_session_ack 9 at_least_once)
      (new_session_flags false) (session_data [] [] []) early young busy refl refl refl refl refl
      apart

-- The dialogue under 7 still negotiates.
handle_pkt-Reaches_example : Reaches farewell 1 young 0 busy (handle_pkt 2 true farewell busy)
unfolding session_id new_dialogue lookup
handle_pkt-Reaches_example =
    handle_pkt-Reaches 2 7 1 0 true farewell young busy refl refl (inr (refl, refl)) refl refl apart

abbrev hello : Packet
hello =
    session (header type_session 9 at_least_once) (new_session_flags false) 3
      (session_data (104 ∷ []) [] [])

next_id : get_id 2 (counting 6) ≡ (ok (2 * 2 ^ 32 + 7), counting 7)
unfolding get_id
next_id = refl

handle_pkt-Makes_example :
    Makes hello
      (new_dialogue (counting 0) (104 ∷ []) [] (2 * 2 ^ 32 + 7) true none)
      2
      (2 * 2 ^ 32 + 7)
      1
      (counting 7)
      busy
      (handle_pkt 2 true hello busy)
handle_pkt-Makes_example =
    handle_pkt-Makes 2 (2 * 2 ^ 32 + 7) 1 true (header type_session 9 at_least_once)
      (new_session_flags false) 3 (session_data (104 ∷ []) [] []) (counting 6) (counting 7) busy
      refl next_id (omega arith)

fini_mgr-IsCancelledAt_example :
    IsCancelledAt 1 young (fini_mgr busy).store
    × ((fini_mgr busy).dialogues ≡ [])
    × ((fini_mgr busy).negotiating ≡ [])
    × ((fini_mgr busy).mgr_ok ≡ false)
unfolding lookup
fini_mgr-IsCancelledAt_example = fini_mgr-IsCancelledAt busy 7 1 young (inr refl) refl

-- A dialogue that comes online too late.
abbrev late : Manager
late = (dialogue_online 1 (fini_mgr busy)).1

fini_mgr-Steps_example :
    (list_dialogues late ≡ [])
    × ((id : ℕ) → get_dialogue late.client_id id late ≡ inl dialogue_not_found)
    × ((k : ℕ) → dialogue_online k late ≡ (some operation_on_closed_multiplexer, late))
    × ((unix : ℕ) (meta peer : List ℕ) → open_begin unix meta peer late ≡ panic)
fini_mgr-Steps_example = fini_mgr-Steps table_fsm busy late (step (fini_mgr busy) stay (online 1))
