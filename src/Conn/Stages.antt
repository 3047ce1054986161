-- ===== src/Conn/Stages.antt =====
-- conn/conn_client.go and conn_server.go: the single steps of the opening handshake.
use geminio.Common.{
  ℕ, ◌*◌, ◌≡◌, refl, true, false, List, [], ◌∷◌, ◌++◌, Option, none, some, ok, if◌then◌else◌, ◌+◌,
  Bool-cases, inl, inr,
}
use geminio.Machine.{registered}
use geminio.IdCounter.{IdCounter, get_id}
use geminio.Packet.{PacketHeader, ConnFlags, ConnData, conn, conn_ack, dis_conn, type_dis_conn}
use geminio.Packet.Factory.{
  new_conn_ack_packet, new_dis_conn_packet, with_new_id, header, at_most_once,
}
use geminio.Conn.{
  Side, initiator_side, recipient_side, State, event_code, state_code, init, conn_sent, conn_recv,
  conned, Event, et_conn_sent, et_conn_recv, et_conn_ack, et_error, transitions, Fsm, of_packet,
  of_addresses, hub_done, hub_error, hub_ack, Moment, Conn,
}
use geminio.Conn.Base.{emit, send_to_write_out, close, close_first}
use geminio.Conn.Client
use geminio.Conn.Server
use geminio.Conn.Loop.{handle_in, handle_out, on_read_in, on_write_in, after_handler}

module _ (fsm : Fsm) where
  pub follows :
      (side : Side) (e : Event) (s : State)
      → fsm.emit_event (transitions side) e s
        ≡ registered event_code state_code (transitions side) e s
  unfolding transitions
  follows initiator_side e s = fsm.emit_event_registered (transitions initiator_side) e s refl
  follows recipient_side e s = fsm.emit_event_registered (transitions recipient_side) e s refl

  -- The handlers, one after the other, on connections that have nothing else to do.
  pub writes_conn :
      (m : Moment) (h : PacketHeader) (f : ConnFlags) (id : ℕ) (d : ConnData) (c : Conn)
      → on_write_in fsm m (record c {
        side = initiator_side;
        state = init;
        cancelled = false;
        write_in = conn h f id d ∷ [];
      })
        ≡ some (
            ok (record c {
              side = initiator_side;
              state = conn_sent;
              cancelled = false;
              write_in = [];
              write_out = c.write_out ++ conn h f id d ∷ [];
            }))
  unfolding on_write_in after_handler handle_out Client.handle_out Client.handle_out_conn_packet
      emit send_to_write_out transitions
  writes_conn m h f id d c = rw (follows initiator_side et_conn_sent init, emit) refl

  pub reads_conn :
      (m : Moment) (h : PacketHeader) (f : ConnFlags) (id agreed : ℕ) (ids : Option IdCounter)
      (d : ConnData) (c : Conn)
      → f.client_id_acquire ≡ true
      → (if m.has_delegate then m.online_error else none) ≡ none
      → Server.choose_client_id m (record c {
        side = recipient_side;
        state = conn_recv;
        conn_ok = true;
        read_in = [];
        meta = d.meta;
      })
        ≡ ok (
          none,
          record c {
            side = recipient_side;
            state = conn_recv;
            conn_ok = true;
            read_in = [];
            meta = d.meta;
            client_id = agreed;
            client_ids = ids;
          },
        )
      → on_read_in fsm m (record c {
        side = recipient_side;
        state = init;
        conn_ok = true;
        read_in = conn h f id d ∷ [];
      })
        ≡ some (
            ok (record c {
              side = recipient_side;
              state = conn_recv;
              conn_ok = true;
              read_in = [];
              meta = d.meta;
              client_id = agreed;
              client_ids = ids;
              online_calls = (if m.has_delegate then c.online_calls + 1 else c.online_calls);
              hub = c.hub ++ hub_ack of_addresses ∷ [];
              tasks = c.tasks ++ new_conn_ack_packet h.packet_id agreed none ∷ [];
              heartbeat = f.heartbeat;
              tick = some (f.heartbeat * 2);
            }))
  unfolding on_read_in after_handler handle_in Server.handle_in Server.handle_in_conn_packet
      Server.bring_online Server.reset_heartbeat_timeout emit transitions
  reads_conn m h f id agreed ids d c acquire willing chosen =
      rw (follows recipient_side et_conn_recv init, emit)
        (rw (acquire, chosen)
          (rw (willing, Server.bring_online)
            (elim (Bool-cases m.has_delegate) [ inl q ↦ rw q refl | inr q ↦ rw q refl ])))

  -- The delegate's ConnOnline fails with the error `x`.
  pub reads_unwelcome_conn :
      (m : Moment) (h : PacketHeader) (f : ConnFlags) (id agreed : ℕ) (ids : Option IdCounter)
      (d : ConnData) (c : Conn) (x : List ℕ)
      → f.client_id_acquire ≡ true
      → m.has_delegate ≡ true
      → m.online_error ≡ some x
      → Server.choose_client_id m
          (record c { side = recipient_side; state = conn_recv; read_in = []; meta = d.meta })
        ≡ ok (
          none,
          record c {
            side = recipient_side;
            state = conn_recv;
            read_in = [];
            meta = d.meta;
            client_id = agreed;
            client_ids = ids;
          },
        )
      → on_read_in fsm m
          (record c { side = recipient_side; state = init; read_in = conn h f id d ∷ [] })
        ≡ some (
            ok (record c {
              side = recipient_side;
              state = conn_recv;
              read_in = [];
              meta = d.meta;
              client_id = agreed;
              client_ids = ids;
              online_calls = c.online_calls + 1;
              tasks = c.tasks ++ new_conn_ack_packet h.packet_id agreed (some x) ∷ [];
            }))
  unfolding on_read_in after_handler handle_in Server.handle_in Server.handle_in_conn_packet
      Server.bring_online emit transitions
  reads_unwelcome_conn m h f id agreed ids d c x acquire here unwilling chosen =
      rw (follows recipient_side et_conn_recv init, emit)
        (rw (acquire, chosen) (rw (here, Server.bring_online) (rw unwilling (rw here refl))))

  pub writes_conn_ack :
      (m : Moment) (h : PacketHeader) (id : ℕ) (d : ConnData) (c : Conn)
      → on_write_in fsm m (record c {
        side = recipient_side;
        state = conn_recv;
        cancelled = false;
        write_in = conn_ack h 0 id d ∷ [];
      })
        ≡ some (
            ok (record c {
              side = recipient_side;
              state = conned;
              cancelled = false;
              write_in = [];
              write_out = c.write_out ++ conn_ack h 0 id d ∷ [];
              onlined = true;
            }))
  unfolding on_write_in after_handler handle_out Server.handle_out Server.handle_out_conn_ack_packet
      emit transitions
  writes_conn_ack m h id d c = rw (follows recipient_side et_conn_ack conn_recv, emit) refl

  -- A refusal also closes the server, whose DisConnPacket gets the identifier `l`.
  pub writes_refusal :
      (m : Moment) (h : PacketHeader) (id l : ℕ) (d : ConnData) (c : Conn) (ids : IdCounter)
      → get_id m.unix c.ids ≡ (ok l, ids)
      → on_write_in fsm m (record c {
        side = recipient_side;
        state = conn_recv;
        cancelled = false;
        closing = false;
        conn_ok = true;
        write_in = conn_ack h 1 id d ∷ [];
      })
        ≡ some (
            ok (record c {
              side = recipient_side;
              state = conn_recv;
              cancelled = false;
              closing = true;
              conn_ok = true;
              write_in = [];
              write_out = c.write_out ++ conn_ack h 1 id d ∷ [];
              tasks = c.tasks ++ dis_conn (header type_dis_conn l at_most_once) ∷ [];
              ids = ids;
            }))
  unfolding on_write_in after_handler handle_out Server.handle_out Server.handle_out_conn_ack_packet
      emit transitions close close_first send_to_write_out new_dis_conn_packet with_new_id
  writes_refusal m h id l d c ids e =
      rw (follows recipient_side et_error conn_recv, emit) (rw (e, close) refl)

  pub reads_conn_ack :
      (m : Moment) (h : PacketHeader) (r id : ℕ) (d : ConnData) (c : Conn)
      → d.error ≡ []
      → on_read_in fsm m
          (record c { side = initiator_side; state = conn_sent; read_in = conn_ack h r id d ∷ [] })
        ≡ some (
            ok (record c {
              side = initiator_side;
              state = conned;
              read_in = [];
              client_id = id;
              hub = c.hub ++ hub_done (of_packet h.packet_id) ∷ [];
              onlined = true;
            }))
  unfolding on_read_in after_handler handle_in Client.handle_in Client.handle_in_conn_ack_packet
      Client.conn_acked emit transitions
  reads_conn_ack m h r id d c e =
      rw (follows initiator_side et_conn_ack conn_sent, emit) (rw (e, Client.conn_acked) refl)

  pub reads_refusal :
      (m : Moment) (h : PacketHeader) (r id l y : ℕ) (ys : List ℕ) (d : ConnData) (c : Conn)
      (ids : IdCounter)
      → d.error ≡ y ∷ ys
      → get_id m.unix c.ids ≡ (ok l, ids)
      → on_read_in fsm m
          (record c { side = initiator_side; state = conn_sent; read_in = conn_ack h r id d ∷ [] })
        ≡ some (
            ok (record c {
              side = initiator_side;
              state = conned;
              read_in = [];
              client_id = id;
              hub = c.hub ++ hub_error (of_packet h.packet_id) ∷ [];
              tasks = c.tasks ++ dis_conn (header type_dis_conn l at_most_once) ∷ [];
              ids = ids;
            }))
  unfolding on_read_in after_handler handle_in Client.handle_in Client.handle_in_conn_ack_packet
      Client.conn_acked emit transitions new_dis_conn_packet with_new_id
  reads_refusal m h r id l y ys d c ids e g =
      rw (follows initiator_side et_conn_ack conn_sent, emit)
        (rw (e, Client.conn_acked) (rw (g, Client.conn_acked) refl))
