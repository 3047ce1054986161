-- ===== src/Conn/Partings.antt =====
-- conn/conn_base.go: the single steps of the closing handshake, of either side.
use geminio.Common.{ℕ, ◌≡◌, refl, true, false, [], ◌∷◌, ◌++◌, none, some, ok, ◌∙◌}
use geminio.Machine.{registered}
use geminio.IdCounter.{IdCounter, get_id}
use geminio.Packet.{PacketHeader, ConnData, dis_conn, dis_conn_ack}
use geminio.Packet.Factory.{new_dis_conn_packet, new_dis_conn_ack_packet, with_new_id}
use geminio.Conn.{
  Side, initiator_side, recipient_side, State, event_code, state_code, conned, close_sent,
  close_recv, close_half, closed, fini, Event, et_close_sent, et_close_recv, et_close_ack,
  transitions, Fsm, Moment, Conn,
}
use geminio.Conn.Base.{
  emit, stopped_tick, close, close_first, send_to_write_out, handle_in_dis_conn_packet,
  handle_in_dis_conn_ack_packet, handle_out_dis_conn_packet, handle_out_dis_conn_ack_packet,
}
use geminio.Conn.Client
use geminio.Conn.Server
use geminio.Conn.Loop.{handle_in, handle_out, on_read_in, on_write_in, after_handler, end_loop}
use geminio.Conn.Stages.{follows}
use geminio.Conn.Dismissal.{dismissal, closed_state}

module _ (fsm : Fsm) where
  pub moves :
      (side : Side) (e : Event) (s t : State)
      → registered event_code state_code (transitions side) e s ≡ some t
      → fsm.emit_event (transitions side) e s ≡ some t
  moves side e s t r = follows fsm side e s ∙ r

  pub sends_first :
      (side : Side) → fsm.emit_event (transitions side) et_close_sent conned ≡ some close_sent
  unfolding transitions
  sends_first initiator_side = moves initiator_side et_close_sent conned close_sent refl
  sends_first recipient_side = moves recipient_side et_close_sent conned close_sent refl

  pub reads_first :
      (side : Side) → fsm.emit_event (transitions side) et_close_recv conned ≡ some close_recv
  unfolding transitions
  reads_first initiator_side = moves initiator_side et_close_recv conned close_recv refl
  reads_first recipient_side = moves recipient_side et_close_recv conned close_recv refl

  pub acks_first :
      (side : Side) → fsm.emit_event (transitions side) et_close_ack close_recv ≡ some close_half
  unfolding transitions
  acks_first initiator_side = moves initiator_side et_close_ack close_recv close_half refl
  acks_first recipient_side = moves recipient_side et_close_ack close_recv close_half refl

  pub sends_second :
      (side : Side) → fsm.emit_event (transitions side) et_close_sent close_half ≡ some close_half
  unfolding transitions
  sends_second initiator_side = moves initiator_side et_close_sent close_half close_half refl
  sends_second recipient_side = moves recipient_side et_close_sent close_half close_half refl

  pub acked_first :
      (side : Side) → fsm.emit_event (transitions side) et_close_ack close_sent ≡ some close_half
  unfolding transitions
  acked_first initiator_side = moves initiator_side et_close_ack close_sent close_half refl
  acked_first recipient_side = moves recipient_side et_close_ack close_sent close_half refl

  pub reads_second :
      (side : Side) → fsm.emit_event (transitions side) et_close_recv close_half ≡ some close_half
  unfolding transitions
  reads_second initiator_side = moves initiator_side et_close_recv close_half close_half refl
  reads_second recipient_side = moves recipient_side et_close_recv close_half close_half refl

  pub acks_last :
      (side : Side)
      → fsm.emit_event (transitions side) et_close_ack close_half ≡ some (closed_state side)
  unfolding transitions
  acks_last initiator_side = moves initiator_side et_close_ack close_half closed refl
  acks_last recipient_side = moves recipient_side et_close_ack close_half fini refl

  pub handle_out-dis_conn :
      (m : Moment) (h : PacketHeader) (side : Side) (c : Conn)
      → handle_out fsm m (dis_conn h) (record c { side = side })
        ≡ handle_out_dis_conn_packet fsm m (dis_conn h) (record c { side = side })
  unfolding handle_out Client.handle_out Server.handle_out
  handle_out-dis_conn m h initiator_side c = refl
  handle_out-dis_conn m h recipient_side c = refl

  pub handle_out-dis_conn_ack :
      (m : Moment) (h : PacketHeader) (r : ℕ) (d : ConnData) (side : Side) (c : Conn)
      → handle_out fsm m (dis_conn_ack h r d) (record c { side = side })
        ≡ handle_out_dis_conn_ack_packet fsm m (dis_conn_ack h r d) (record c { side = side })
  unfolding handle_out Client.handle_out Server.handle_out
  handle_out-dis_conn_ack m h r d initiator_side c = refl
  handle_out-dis_conn_ack m h r d recipient_side c = refl

  pub handle_in-dis_conn :
      (m : Moment) (h : PacketHeader) (side : Side) (c : Conn)
      → handle_in fsm m (dis_conn h) (record c { side = side })
        ≡ handle_in_dis_conn_packet fsm m h (record c { side = side })
  unfolding handle_in Client.handle_in Server.handle_in
  handle_in-dis_conn m h initiator_side c = refl
  handle_in-dis_conn m h recipient_side c = refl

  pub handle_in-dis_conn_ack :
      (m : Moment) (h : PacketHeader) (r : ℕ) (d : ConnData) (side : Side) (c : Conn)
      → handle_in fsm m (dis_conn_ack h r d) (record c { side = side })
        ≡ handle_in_dis_conn_ack_packet fsm (record c { side = side })
  unfolding handle_in Client.handle_in Server.handle_in
  handle_in-dis_conn_ack m h r d initiator_side c = refl
  handle_in-dis_conn_ack m h r d recipient_side c = refl

  pub writes_dismissal :
      (m : Moment) (h : PacketHeader) (side : Side) (c : Conn)
      → on_write_in fsm m
          (record c { side = side; state = conned; cancelled = false; write_in = dis_conn h ∷ [] })
        ≡ some (
            ok (record c {
              side = side;
              state = close_sent;
              cancelled = false;
              write_in = [];
              write_out = c.write_out ++ dis_conn h ∷ [];
            }))
  unfolding on_write_in after_handler handle_out_dis_conn_packet emit send_to_write_out
  writes_dismissal m h side c =
      rw
        (handle_out-dis_conn m h side
          (record c { state = conned; cancelled = false; write_in = [] }))
        (rw (sends_first side, emit) refl)

  pub reads_dismissal :
      (m : Moment) (h : PacketHeader) (j : ℕ) (ids : IdCounter) (side : Side) (c : Conn)
      → get_id m.unix c.ids ≡ (ok j, ids)
      → on_read_in fsm m (record c {
        side = side;
        state = conned;
        conn_ok = true;
        closing = false;
        read_in = dis_conn h ∷ [];
      })
        ≡ some (
            ok (record c {
              side = side;
              state = close_recv;
              conn_ok = true;
              closing = true;
              read_in = [];
              tick = stopped_tick side c.tick;
              ids = ids;
              tasks =
                  (c.tasks ++ new_dis_conn_ack_packet h.packet_id none ∷ []) ++ dismissal j ∷ [];
            }))
  unfolding on_read_in after_handler handle_in_dis_conn_packet emit close close_first
      new_dis_conn_packet with_new_id
  reads_dismissal m h j ids side c e =
      let b = record c { state = conned; conn_ok = true; closing = false; read_in = [] } in
      rw (handle_in-dis_conn m h side b)
        (rw (reads_first side, emit) (rw (e, close, close_first) refl))

  pub writes_ack :
      (m : Moment) (h : PacketHeader) (r : ℕ) (d : ConnData) (side : Side) (c : Conn)
      → m.write_ok ≡ true
      → on_write_in fsm m
          (record c { side = side; state = close_recv; write_in = dis_conn_ack h r d ∷ [] })
        ≡ some (
            ok (record c {
              side = side;
              state = close_half;
              write_in = [];
              wire = c.wire ++ dis_conn_ack h r d ∷ [];
            }))
  unfolding on_write_in after_handler handle_out_dis_conn_ack_packet emit
  writes_ack m h r d side c w =
      rw (handle_out-dis_conn_ack m h r d side (record c { state = close_recv; write_in = [] }))
        (rw (acks_first side, emit) (rw w refl))

  pub writes_second :
      (m : Moment) (h : PacketHeader) (side : Side) (c : Conn)
      → on_write_in fsm m (record c {
        side = side;
        state = close_half;
        cancelled = false;
        write_in = dis_conn h ∷ [];
      })
        ≡ some (
            ok (record c {
              side = side;
              state = close_half;
              cancelled = false;
              write_in = [];
              write_out = c.write_out ++ dis_conn h ∷ [];
            }))
  unfolding on_write_in after_handler handle_out_dis_conn_packet emit send_to_write_out
  writes_second m h side c =
      rw
        (handle_out-dis_conn m h side
          (record c { state = close_half; cancelled = false; write_in = [] }))
        (rw (sends_second side, emit) refl)

  pub reads_ack :
      (m : Moment) (h : PacketHeader) (r : ℕ) (d : ConnData) (side : Side) (c : Conn)
      → on_read_in fsm m
          (record c { side = side; state = close_sent; read_in = dis_conn_ack h r d ∷ [] })
        ≡ some (ok (record c { side = side; state = close_half; read_in = [] }))
  unfolding on_read_in after_handler handle_in_dis_conn_ack_packet emit
  reads_ack m h r d side c =
      rw (handle_in-dis_conn_ack m h r d side (record c { state = close_sent; read_in = [] }))
        (rw (acked_first side, emit) refl)

  pub reads_second_dismissal :
      (m : Moment) (h : PacketHeader) (side : Side) (c : Conn)
      → on_read_in fsm m
          (record c { side = side; state = close_half; closing = true; read_in = dis_conn h ∷ [] })
        ≡ some (
            ok (record c {
              side = side;
              state = close_half;
              closing = true;
              read_in = [];
              tasks = c.tasks ++ new_dis_conn_ack_packet h.packet_id none ∷ [];
            }))
  unfolding on_read_in after_handler handle_in_dis_conn_packet emit close
  reads_second_dismissal m h side c =
      rw
        (handle_in-dis_conn m h side
          (record c { state = close_half; closing = true; read_in = [] }))
        (rw (reads_second side, emit) refl)

  pub writes_last_ack :
      (m : Moment) (h : PacketHeader) (r : ℕ) (d : ConnData) (side : Side) (c : Conn)
      → m.write_ok ≡ true
      → on_write_in fsm m
          (record c { side = side; state = close_half; write_in = dis_conn_ack h r d ∷ [] })
        ≡ some (
            ok (
              end_loop fsm m (record c {
                side = side;
                state = closed_state side;
                write_in = [];
                wire = c.wire ++ dis_conn_ack h r d ∷ [];
              })))
  unfolding on_write_in after_handler handle_out handle_out_dis_conn_ack_packet emit
      Client.handle_out Server.handle_out
  writes_last_ack m h r d initiator_side c w = rw (acks_last initiator_side, emit) (rw w refl)
  writes_last_ack m h r d recipient_side c w = rw (acks_last recipient_side, emit) (rw w refl)

  pub reads_last_ack :
      (m : Moment) (h : PacketHeader) (r : ℕ) (d : ConnData) (side : Side) (c : Conn)
      → on_read_in fsm m
          (record c { side = side; state = close_half; read_in = dis_conn_ack h r d ∷ [] })
        ≡ some (
            ok (end_loop fsm m (record c { side = side; state = closed_state side; read_in = [] })))
  unfolding on_read_in after_handler handle_in handle_in_dis_conn_ack_packet emit Client.handle_in
      Server.handle_in
  reads_last_ack m h r d initiator_side c = rw (acks_last initiator_side, emit) refl
  reads_last_ack m h r d recipient_side c = rw (acks_last recipient_side, emit) refl
