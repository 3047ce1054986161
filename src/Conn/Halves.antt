-- ===== src/Conn/Halves.antt =====
-- conn/conn_client.go and conn_server.go: either side's half of the opening handshake.
use geminio.Common.{
  ℕ, ◌+◌, ◌*◌, ◌==◌, ◌++◌, ◌≡◌, refl, true, false, List, [], ◌∷◌, Option, none, some, ok,
  if◌then◌else◌, Bool-cases, inl, inr,
}
use geminio.IdCounter.{IdCounter, get_id}
use geminio.Packet.{
  type_conn, type_conn_ack, type_dis_conn, PacketHeader, ConnFlags, ConnData, conn, conn_ack,
  dis_conn,
}
use geminio.Packet.Ids.{packet_id}
use geminio.Packet.Factory.{
  header, at_most_once, new_conn_flags, conn_data, new_conn_packet, new_conn_ack_packet,
  with_new_id,
}
use geminio.Conn.{
  initiator_side, recipient_side, init, conn_sent, conn_recv, conned, of_packet, of_addresses,
  hub_new, hub_done, hub_ack, hub_error, Fsm, Moment, Conn,
}
use geminio.Conn.Base.{send_to_write_in, write_packet}
use geminio.Conn.Client
use geminio.Conn.Server
use geminio.Conn.Loop.{route, write_down}
use geminio.Conn.Opening.{opens, answers, finishes, ◌>>=◌}
use geminio.Conn.Stages.{
  writes_conn, reads_conn, reads_unwelcome_conn, writes_conn_ack, writes_refusal, reads_conn_ack,
  reads_refusal,
}

-- The identifier that a server gives: the delegate's, or without one its own option's, or `j` of
-- the shared counter in place of 0.
abbrev pub wanted_id : Moment → ℕ → ℕ
wanted_id m own = if m.has_delegate then m.given_id else own

abbrev pub agreed_id : Moment → ℕ → ℕ → ℕ
agreed_id m own j = if wanted_id m own == 0 then j else wanted_id m own

pub choose_client_id-agreed :
    (m : Moment) (c : Conn) (j : ℕ) (ids ids' : IdCounter)
    → c.client_ids ≡ some ids
    → get_id m.unix ids ≡ (ok j, ids')
    → (if m.has_delegate then m.given_error else none) ≡ none
    → Server.choose_client_id m c
      ≡ ok (
        none,
        record c {
          client_id = agreed_id m c.client_id j;
          client_ids = (if wanted_id m c.client_id == 0 then some ids' else c.client_ids);
        },
      )
unfolding Server.choose_client_id Server.draw_client_id
choose_client_id-agreed m c j ids ids' own e g = elim (Bool-cases m.has_delegate) [
  | inl d ↦
      let given : m.given_error ≡ none = rw d at g in
      elim (Bool-cases (m.given_id == 0)) [
        | inl z ↦ rw d (rw given (rw z (rw own (rw e refl))))
        | inr z ↦ rw d (rw given (rw z refl))
      ]
  | inr d ↦ elim (Bool-cases (c.client_id == 0)) [
    | inl z ↦ rw d (rw z (rw own (rw e refl)))
    | inr z ↦ rw d (rw z refl)
  ]
]

module _ (fsm : Fsm) where
  pub opens_lem :
      (m : Moment) (i : ℕ) (ids : IdCounter) (c : Conn)
      → get_id m.unix c.ids ≡ (ok i, ids)
      → m.write_ok ≡ true
      → let p =
          conn
            (header type_conn i at_most_once)
            (new_conn_flags true c.heartbeat)
            c.client_id
            (conn_data c.meta none) in
        opens fsm m (record c {
          side = initiator_side;
          state = init;
          cancelled = false;
          writing = true;
          write_in = [];
          write_out = [];
          wire = [];
        })
        ≡ some (
          p,
          record c {
            side = initiator_side;
            state = conn_sent;
            cancelled = false;
            writing = true;
            write_in = [];
            write_out = [];
            wire = p ∷ [];
            ids = ids;
            hub = c.hub ++ hub_new (of_packet i) ∷ [];
          },
        )
  unfolding opens Client.connect send_to_write_in new_conn_packet with_new_id packet_id write_down
      write_packet
  opens_lem m i ids c e w =
      let p =
        conn (header type_conn i at_most_once) (new_conn_flags true c.heartbeat) c.client_id
          (conn_data c.meta none) in
      let a = record c {
        writing = true;
        write_out = [];
        wire = [];
        ids = ids;
        hub = c.hub ++ hub_new (of_packet i) ∷ [];
      } in
      rw e (
        rw
          (
            writes_conn fsm m (header type_conn i at_most_once) (new_conn_flags true c.heartbeat)
                c.client_id (conn_data c.meta none) a,
            ◌>>=◌,
          )
          (rw (w, ◌>>=◌) refl))

  pub answers_lem :
      (m : Moment) (h : PacketHeader) (f : ConnFlags) (id agreed : ℕ) (ids : Option IdCounter)
      (d : ConnData) (c : Conn)
      → f.client_id_acquire ≡ true
      → m.write_ok ≡ true
      → (if m.has_delegate then m.online_error else none) ≡ none
      → let c = record c {
        side = recipient_side;
        state = init;
        conn_ok = true;
        cancelled = false;
        writing = true;
        read_in = [];
        write_in = [];
        write_out = [];
        wire = [];
        tasks = [];
      } in
        let named = record c { state = conn_recv; meta = d.meta } in
        let ack =
          conn_ack (header type_conn_ack h.packet_id at_most_once) 0 agreed (conn_data [] none) in
        Server.choose_client_id m named
          ≡ ok (none, record named { client_id = agreed; client_ids = ids })
        → answers fsm m (conn h f id d) c
          ≡ some (
            ack,
            record c {
              state = conned;
              meta = d.meta;
              onlined = true;
              client_id = agreed;
              client_ids = ids;
              wire = ack ∷ [];
              online_calls = (if m.has_delegate then c.online_calls + 1 else c.online_calls);
              hub = c.hub ++ hub_ack of_addresses ∷ [];
              heartbeat = f.heartbeat;
              tick = some (f.heartbeat * 2);
            },
          )
  unfolding answers route send_to_write_in new_conn_ack_packet write_down write_packet
  answers_lem m h f id agreed ids d c acquire w willing chosen =
      let ack = header type_conn_ack h.packet_id at_most_once in
      let b = record c {
        side = recipient_side;
        conn_ok = true;
        cancelled = false;
        writing = true;
        write_in = [];
        write_out = [];
        wire = [];
        tasks = [];
      } in
      let brought = record b {
        meta = d.meta;
        read_in = [];
        client_id = agreed;
        client_ids = ids;
        online_calls = (if m.has_delegate then c.online_calls + 1 else c.online_calls);
        hub = c.hub ++ hub_ack of_addresses ∷ [];
        heartbeat = f.heartbeat;
        tick = some (f.heartbeat * 2);
      } in
      rw (reads_conn fsm m h f id agreed ids d b acquire willing chosen, ◌>>=◌)
        (rw (writes_conn_ack fsm m ack agreed (conn_data [] none) brought, ◌>>=◌)
          (rw (w, ◌>>=◌) refl))

  pub finishes_lem :
      (m : Moment) (h : PacketHeader) (r id : ℕ) (d : ConnData) (c : Conn)
      → d.error ≡ []
      → finishes fsm m
          (conn_ack h r id d)
          (record c { side = initiator_side; state = conn_sent; read_in = [] })
        ≡ some (record c {
          side = initiator_side;
          state = conned;
          read_in = [];
          client_id = id;
          hub = c.hub ++ hub_done (of_packet h.packet_id) ∷ [];
          onlined = true;
        })
  unfolding finishes route
  finishes_lem m h r id d c e = rw (reads_conn_ack fsm m h r id d c e, ◌>>=◌) refl

  -- The delegate's ConnOnline fails with the error `x`; the server then closes, with a DisConnPacket
  -- of the identifier `l`.
  pub answers_unwelcome :
      (m : Moment) (h : PacketHeader) (f : ConnFlags) (id agreed l : ℕ) (ids : Option IdCounter)
      (own : IdCounter) (d : ConnData) (c : Conn) (x : List ℕ)
      → f.client_id_acquire ≡ true
      → m.write_ok ≡ true
      → m.has_delegate ≡ true
      → m.online_error ≡ some x
      → get_id m.unix c.ids ≡ (ok l, own)
      → let c = record c {
        side = recipient_side;
        state = init;
        conn_ok = true;
        cancelled = false;
        closing = false;
        writing = true;
        read_in = [];
        write_in = [];
        write_out = [];
        wire = [];
        tasks = [];
      } in
        let named = record c { state = conn_recv; meta = d.meta } in
        let ack =
          conn_ack
            (header type_conn_ack h.packet_id at_most_once)
            1
            agreed
            (conn_data [] (some x)) in
        Server.choose_client_id m named
          ≡ ok (none, record named { client_id = agreed; client_ids = ids })
        → answers fsm m (conn h f id d) c
          ≡ some (
            ack,
            record c {
              state = conn_recv;
              meta = d.meta;
              client_id = agreed;
              client_ids = ids;
              wire = ack ∷ [];
              closing = true;
              online_calls = c.online_calls + 1;
              tasks = dis_conn (header type_dis_conn l at_most_once) ∷ [];
              ids = own;
            },
          )
  unfolding answers route send_to_write_in new_conn_ack_packet write_down write_packet
  answers_unwelcome m h f id agreed l ids own d c x acquire w here unwilling e chosen =
      let ack = header type_conn_ack h.packet_id at_most_once in
      let b = record c {
        side = recipient_side;
        conn_ok = true;
        cancelled = false;
        closing = false;
        writing = true;
        write_in = [];
        write_out = [];
        wire = [];
        tasks = [];
      } in
      let brought = record b {
        meta = d.meta;
        read_in = [];
        client_id = agreed;
        client_ids = ids;
        online_calls = c.online_calls + 1;
      } in
      rw (reads_unwelcome_conn fsm m h f id agreed ids d b x acquire here unwilling chosen, ◌>>=◌)
        (rw (writes_refusal fsm m ack agreed l (conn_data [] (some x)) brought own e, ◌>>=◌)
          (rw (w, ◌>>=◌) refl))

  pub finishes_refused :
      (m : Moment) (h : PacketHeader) (r id l y : ℕ) (ys : List ℕ) (d : ConnData) (c : Conn)
      (ids : IdCounter)
      → d.error ≡ y ∷ ys
      → get_id m.unix c.ids ≡ (ok l, ids)
      → finishes fsm m
          (conn_ack h r id d)
          (record c { side = initiator_side; state = conn_sent; read_in = [] })
        ≡ some (record c {
          side = initiator_side;
          state = conned;
          read_in = [];
          client_id = id;
          hub = c.hub ++ hub_error (of_packet h.packet_id) ∷ [];
          tasks = c.tasks ++ dis_conn (header type_dis_conn l at_most_once) ∷ [];
          ids = ids;
        })
  unfolding finishes route
  finishes_refused m h r id l y ys d c ids e g =
      rw (reads_refusal fsm m h r id l y ys d c ids e g, ◌>>=◌) refl
