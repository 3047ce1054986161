-- ===== src/Manager/Closed.antt =====
-- A manager that has ended.
use geminio.Common.{
  ℕ, ◌≡◌, refl, Bool, false, List, [], Option, none, some, panic, Gives, ok-Gives, Bool-cases, inl,
  inr, arith, ap,
}
use geminio.Packet.{
  Packet, conn, conn_ack, dis_conn, dis_conn_ack, heartbeat, heartbeat_ack, session, session_ack,
  dismiss, dismiss_ack, message, message_ack, stream, request, response, request_cancel, register,
  register_ack,
}
use geminio.Dialogue.{Fsm}
use geminio.Manager.{Manager, operation_on_closed_multiplexer, dialogue_not_found}
use geminio.Manager.Maps.{lookup}
use geminio.Manager.Calls.{
  open_begin, draw_negotiating_id, open_register, open_failed, open_done, dialogue_online,
  dialogue_offline, get_dialogue, list_dialogues, places,
}
use geminio.Manager.Packets.{handle_pkt, hand_to, hand_found, session_id, find}
use geminio.Manager.Ending.{
  Step, Steps, stay, step, online, offline, began, registered, failed, opened, handled, ended,
  asked, changed, fini_mgr, close_done,
}

-- Closed, with no ready dialogue and no identifiers.
abbrev pub IsClosed : Manager → Type 0
IsClosed g = (g.mgr_ok ≡ false) × (g.dialogues ≡ []) × (g.ids ≡ none)

online-IsClosed : (k : ℕ) (g : Manager) → IsClosed g → IsClosed (dialogue_online k g).1
unfolding dialogue_online
online-IsClosed k g (c, d, i) = rw c (refl, d, i)

offline-IsClosed : (k : ℕ) (g : Manager) → IsClosed g → IsClosed (dialogue_offline k g).1
unfolding dialogue_offline lookup
offline-IsClosed k g (c, d, i) = rw (d, dialogue_offline) (c, d, i)

done-IsClosed : (fsm : Fsm) (i k : ℕ) (g : Manager) → IsClosed g → IsClosed (open_done fsm i k g).1
unfolding open_done
done-IsClosed fsm i k g (c, d, n) = rw c (refl, d, n)

begin_panics :
    (unix : ℕ) (meta peer : List ℕ) (g : Manager) → IsClosed g → open_begin unix meta peer g ≡ panic
unfolding open_begin draw_negotiating_id
begin_panics unix meta peer g (c, d, n) = rw (n, draw_negotiating_id) refl

hand_found-IsClosed :
    (t : Bool) (p : Packet) (o : Option ℕ) (g : Manager)
    → IsClosed g
    → IsClosed (hand_found t p o g)
unfolding hand_to
hand_found-IsClosed t p none g c = c
hand_found-IsClosed t p (some k) g c = c

handle_pkt-IsClosed :
    (unix : ℕ) (t : Bool) (p : Packet) (g : Manager)
    → IsClosed g
    → Gives IsClosed (handle_pkt unix t p g)
unfolding handle_pkt session_id
handle_pkt-IsClosed unix t (conn h f id d) g e = e
handle_pkt-IsClosed unix t (conn_ack h r id d) g e = e
handle_pkt-IsClosed unix t (dis_conn h) g e = e
handle_pkt-IsClosed unix t (dis_conn_ack h r d) g e = e
handle_pkt-IsClosed unix t (heartbeat h) g e = e
handle_pkt-IsClosed unix t (heartbeat_ack h) g e = e
handle_pkt-IsClosed unix t (session h f id d) g e = rw (begin_panics unix d.meta d.peer g e) tt
handle_pkt-IsClosed unix t (session_ack h f n id d) g e =
    hand_found-IsClosed t (session_ack h f n id d) (lookup n g.negotiating) g e
handle_pkt-IsClosed unix t (dismiss h id d) g e =
    hand_found-IsClosed t (dismiss h id d) (find id g) g e
handle_pkt-IsClosed unix t (dismiss_ack h id d) g e =
    hand_found-IsClosed t (dismiss_ack h id d) (find id g) g e
handle_pkt-IsClosed unix t (message h id d) g e =
    hand_found-IsClosed t (message h id d) (find id g) g e
handle_pkt-IsClosed unix t (message_ack h id d) g e =
    hand_found-IsClosed t (message_ack h id d) (find id g) g e
handle_pkt-IsClosed unix t (stream h id bs) g e =
    hand_found-IsClosed t (stream h id bs) (find id g) g e
handle_pkt-IsClosed unix t (request h id d) g e =
    hand_found-IsClosed t (request h id d) (find id g) g e
handle_pkt-IsClosed unix t (response h id d) g e =
    hand_found-IsClosed t (response h id d) (find id g) g e
handle_pkt-IsClosed unix t (request_cancel h id c) g e =
    hand_found-IsClosed t (request_cancel h id c) (find id g) g e
handle_pkt-IsClosed unix t (register h id d) g e =
    hand_found-IsClosed t (register h id d) (find id g) g e
handle_pkt-IsClosed unix t (register_ack h id d) g e =
    hand_found-IsClosed t (register_ack h id d) (find id g) g e

close_done-IsClosed : (g : Manager) → IsClosed g → Gives IsClosed (close_done g)
unfolding close_done
close_done-IsClosed g c = elim (Bool-cases g.close_ch) [ inl q ↦ rw q tt | inr q ↦ rw q c ]

module _ (fsm : Fsm) where
  Step-IsClosed : (a b : Manager) → Step fsm a b → IsClosed a → IsClosed b
  unfolding open_register open_failed fini_mgr
  Step-IsClosed a b (online k) c = online-IsClosed k a c
  Step-IsClosed a b (offline k) c = offline-IsClosed k a c
  Step-IsClosed a b (began unix i meta peer e) c = cc (e, begin_panics unix meta peer a c)
  Step-IsClosed a b (registered i k l) c = c
  Step-IsClosed a b (failed i) c = c
  Step-IsClosed a b (opened i k) c = done-IsClosed fsm i k a c
  Step-IsClosed a b (handled unix t p e) c =
      ok-Gives IsClosed (handle_pkt unix t p a) b (handle_pkt-IsClosed unix t p a c) e
  Step-IsClosed a b ended c = (refl, refl, refl)
  Step-IsClosed a b (asked e) c = ok-Gives IsClosed (close_done a) b (close_done-IsClosed a c) e
  Step-IsClosed a b (changed k f) c = c

  Steps-IsClosed : (a b : Manager) → Steps fsm a b → IsClosed a → IsClosed b
  Steps-IsClosed a b stay c = c
  Steps-IsClosed a b (step m rest last) c = Step-IsClosed m b last (Steps-IsClosed a m rest c)

  -- In whatever happens after a manager's fini, ListDialogues gives no dialogue, GetDialogue finds none,
  -- DialogueOnline is refused, and an OpenDialogue that has passed the test of mgrOK panics when it asks for
  -- an identifier.
  pub fini_mgr-Steps :
      (a b : Manager)
      → Steps fsm (fini_mgr a) b
      → (list_dialogues b ≡ [])
        × ((id : ℕ) → get_dialogue b.client_id id b ≡ inl dialogue_not_found)
        × ((k : ℕ) → dialogue_online k b ≡ (some operation_on_closed_multiplexer, b))
        × ((unix : ℕ) (meta peer : List ℕ) → open_begin unix meta peer b ≡ panic)
  unfolding fini_mgr list_dialogues get_dialogue dialogue_online lookup
  fini_mgr-Steps a b s =
      let closed = Steps-IsClosed (fini_mgr a) b s (refl, refl, refl) in
      let (c, d, n) = closed in
      (
        ap places d,
        (λ id. rw d (ground arith)),
        (λ k. rw c refl),
        (λ unix meta peer. begin_panics unix meta peer b closed),
      )
