-- ===== src/Conn/Turns.antt =====
-- conn/conn_base.go: the turns of one side's loop in a closing handshake.
use geminio.Common.{
  ℕ, ◌≡◌, refl, true, false, List, [], ◌∷◌, ◌++◌, append-nil, Option, none, some, Outcome, ok,
  if◌then◌else◌, Bool-cases, ◌⊎◌, inl, inr,
}
use geminio.IdCounter.{IdCounter, get_id}
use geminio.Packet.{PacketHeader, dis_conn, dis_conn_ack}
use geminio.Packet.Factory.{new_dis_conn_packet, new_dis_conn_ack_packet, with_new_id, conn_data}
use geminio.Conn.{
  Side, initiator_side, recipient_side, State, close_half, fini, et_close_sent, et_close_recv,
  et_close_ack, transitions, Fsm, Moment, Conn,
}
use geminio.Conn.Base.{
  emit, stopped_tick, close, close_first, send_to_write_out, handle_in_dis_conn_packet,
  handle_in_dis_conn_ack_packet, handle_out_dis_conn_packet, handle_out_dis_conn_ack_packet,
}
use geminio.Conn.Loop.{on_read_in, on_write_in, after_handler, end_loop}
use geminio.Conn.Dismissal.{dismissal, closed_state}
use geminio.Conn.Parting.{end_loop-fini, end_loop-finished}
use geminio.Conn.Partings.{
  handle_out-dis_conn, handle_out-dis_conn_ack, handle_in-dis_conn, handle_in-dis_conn_ack,
  acks_last,
}

-- The four turns of the loop in a closing handshake: the side's own DisConnPacket goes out, the peer's is read,
-- the acknowledgement of the peer's goes out, and the peer's acknowledgement is read.
pub data Turn : Type 0 where
  sends reads acks acked : Turn

-- A branch was ready, nothing panicked, and the connection after it satisfies `P`.
abbrev pub Then : (Conn → Type 0) → Option (Outcome Conn) → Type 0
Then P (some (ok c)) = P c
Then P _ = ⊥

pub then_lem :
    (P : Conn → Type 0) (o : Option (Outcome Conn)) (c : Conn) → o ≡ some (ok c) → P c → Then P o
then_lem P o c e p = rw e p

-- A connection of a side in a state of the handshake.
abbrev pub at : Side → State → Conn → Conn
at side s c = record c {
  side = side;
  state = s;
  conn_ok = true;
  cancelled = false;
  finished = false;
}

-- Its Close has run, or there is an identifier for the packet that it makes.
abbrev pub IsReady : Moment → Conn → Type 0
IsReady m c =
    (c.closing ≡ true) ⊎ ((i : ℕ) × (ids : IdCounter) × (get_id m.unix c.ids ≡ (ok i, ids)))

module _ (fsm : Fsm) (m : Turn → Moment) (h : Turn → PacketHeader) where
  -- A turn, when its packet stands first in its channel.
  unfoldable pub turn : Turn → Conn → Option (Outcome Conn)
  unfolding on_read_in on_write_in
  turn sends c = on_write_in fsm (m sends) (record c { write_in = dis_conn (h sends) ∷ c.write_in })
  turn reads c = on_read_in fsm (m reads) (record c { read_in = dis_conn (h reads) ∷ c.read_in })
  turn acks c =
      on_write_in fsm (m acks)
        (record c { write_in = dis_conn_ack (h acks) 0 (conn_data [] none) ∷ c.write_in })
  turn acked c =
      on_read_in fsm (m acked)
        (record c { read_in = dis_conn_ack (h acked) 0 (conn_data [] none) ∷ c.read_in })

  -- The loop goes on up to the last of the turns, and ends with it.
  abbrev pub Ends : List Turn → Conn → Type 0
  Ends [] c = (c.finished ≡ true) × (c.state ≡ fini)
  Ends (t ∷ ts) c = (c.finished ≡ false) × Then (Ends ts) (turn t c)

  -- What a turn leaves to be done.
  abbrev pub Goes : Turn → Side → State → State → Conn → Type 0
  Goes t side s s' c =
      (d : Conn) × (turn t (at side s c) ≡ some (ok (at side s' d))) × IsReady (m reads) d

  pub sends_lem :
      (side : Side) (s s' : State) (c : Conn)
      → fsm.emit_event (transitions side) et_close_sent s ≡ some s'
      → IsReady (m reads) c
      → Goes sends side s s' c
  unfolding turn on_write_in after_handler handle_out_dis_conn_packet emit send_to_write_out
  sends_lem side s s' c e r = (
    record c { write_out = c.write_out ++ dis_conn (h sends) ∷ [] },
    rw (handle_out-dis_conn fsm (m sends) (h sends) side (at side s c)) (rw (e, emit) refl),
    r,
  )

  pub acks_lem :
      (side : Side) (s : State) (c : Conn)
      → fsm.emit_event (transitions side) et_close_ack s ≡ some close_half
      → (m acks).write_ok ≡ true
      → IsReady (m reads) c
      → Goes acks side s close_half c
  unfolding turn on_write_in after_handler handle_out_dis_conn_ack_packet emit
  acks_lem side s c e w r = (
    record c { wire = c.wire ++ dis_conn_ack (h acks) 0 (conn_data [] none) ∷ [] },
    rw (handle_out-dis_conn_ack fsm (m acks) (h acks) 0 (conn_data [] none) side (at side s c))
        (rw (e, emit) (rw w refl)),
    r,
  )

  pub acked_lem :
      (side : Side) (s : State) (c : Conn)
      → fsm.emit_event (transitions side) et_close_ack s ≡ some close_half
      → IsReady (m reads) c
      → Goes acked side s close_half c
  unfolding turn on_read_in after_handler handle_in_dis_conn_ack_packet emit
  acked_lem side s c e r = (
    c,
    rw (handle_in-dis_conn_ack fsm (m acked) (h acked) 0 (conn_data [] none) side (at side s c))
        (rw (e, emit) refl),
    r,
  )

  -- The goroutines that a connection has after it read the peer's packet: its old ones, that of the
  -- acknowledgement, and that of its own packet if its Close had not run.
  abbrev pub IsAnswering : Conn → Conn → Type 0
  IsAnswering c b =
      (b.closing ≡ true)
      × ((i : ℕ) × (b.tasks
            ≡ (c.tasks ++ new_dis_conn_ack_packet (h reads).packet_id none ∷ [])
              ++ (if c.closing then [] else dismissal i ∷ [])))

  pub reads_lem :
      (side : Side) (s s' : State) (c : Conn)
      → fsm.emit_event (transitions side) et_close_recv s ≡ some s'
      → IsReady (m reads) c
      → (d : Conn) × (turn reads (at side s c) ≡ some (ok (at side s' d))) × IsAnswering c d
  unfolding turn on_read_in after_handler handle_in_dis_conn_packet emit close close_first
      new_dis_conn_packet with_new_id
  reads_lem side s s' c e r = elim (Bool-cases c.closing) [
    | inl q ↦ (
      record c {
        closing = true;
        tasks = c.tasks ++ new_dis_conn_ack_packet (h reads).packet_id none ∷ [];
      },
      rw (handle_in-dis_conn fsm (m reads) (h reads) side (at side s c))
          (rw (e, emit) (rw (q, close) refl)),
      (
        refl,
        (
          0,
          rw (q, append-nil (c.tasks ++ new_dis_conn_ack_packet (h reads).packet_id none ∷ []))
              refl,
        ),
      ),
    )
    | inr q ↦ elim r [
      | inl y ↦ cc (q, y)
      | inr (i, ids, g) ↦ (
        record c {
          closing = true;
          tick = stopped_tick side c.tick;
          ids = ids;
          tasks =
              (c.tasks ++ new_dis_conn_ack_packet (h reads).packet_id none ∷ [])
              ++ dismissal i ∷ [];
        },
        rw (handle_in-dis_conn fsm (m reads) (h reads) side (at side s c))
            (rw (e, emit) (rw (q, g, close, close_first) refl)),
        (refl, (i, rw q refl)),
      )
    ]
  ]

  pub reads_on :
      (side : Side) (s s' : State) (c : Conn)
      → fsm.emit_event (transitions side) et_close_recv s ≡ some s'
      → IsReady (m reads) c
      → Goes reads side s s' c
  reads_on side s s' c e r = let (d, q, (y, z)) = reads_lem side s s' c e r in (d, q, inl y)

  -- The last turn.
  abbrev pub Last : Turn → Side → Conn → Type 0
  Last t side c =
      (d : Conn) × (turn t (at side close_half c)
        ≡ some (ok (end_loop fsm (m t) (record d { side = side; state = closed_state side }))))

  pub acks_end : (side : Side) (c : Conn) → (m acks).write_ok ≡ true → Last acks side c
  unfolding turn on_write_in after_handler handle_out_dis_conn_ack_packet emit
  acks_end initiator_side c w = (
    record (at initiator_side close_half c) {
      wire = c.wire ++ dis_conn_ack (h acks) 0 (conn_data [] none) ∷ [];
    },
    rw
        (handle_out-dis_conn_ack fsm (m acks) (h acks) 0 (conn_data [] none) initiator_side
          (at initiator_side close_half c))
        (rw (acks_last fsm initiator_side, emit) (rw w refl)),
  )
  acks_end recipient_side c w = (
    record (at recipient_side close_half c) {
      wire = c.wire ++ dis_conn_ack (h acks) 0 (conn_data [] none) ∷ [];
    },
    rw
        (handle_out-dis_conn_ack fsm (m acks) (h acks) 0 (conn_data [] none) recipient_side
          (at recipient_side close_half c))
        (rw (acks_last fsm recipient_side, emit) (rw w refl)),
  )

  pub acked_end : (side : Side) (c : Conn) → Last acked side c
  unfolding turn on_read_in after_handler handle_in_dis_conn_ack_packet emit
  acked_end initiator_side c = (
    at initiator_side close_half c,
    rw
        (handle_in-dis_conn_ack fsm (m acked) (h acked) 0 (conn_data [] none) initiator_side
          (at initiator_side close_half c))
        (rw (acks_last fsm initiator_side, emit) refl),
  )
  acked_end recipient_side c = (
    at recipient_side close_half c,
    rw
        (handle_in-dis_conn_ack fsm (m acked) (h acked) 0 (conn_data [] none) recipient_side
          (at recipient_side close_half c))
        (rw (acks_last fsm recipient_side, emit) refl),
  )

  -- One turn, and then the rest.
  pub Goes-Ends :
      (t : Turn) (ts : List Turn) (side : Side) (s s' : State) (c : Conn)
      → Goes t side s s' c
      → ((d : Conn) → IsReady (m reads) d → Ends ts (at side s' d))
      → Ends (t ∷ ts) (at side s c)
  Goes-Ends t ts side s s' c (d, e, r) f =
      (refl, then_lem (Ends ts) (turn t (at side s c)) (at side s' d) e (f d r))

  pub Last-Ends :
      (t : Turn) (side : Side) (c : Conn) → Last t side c → Ends (t ∷ []) (at side close_half c)
  Last-Ends t side c (d, e) =
      let b = record d { side = side; state = closed_state side } in
      (
        refl,
        then_lem (Ends []) (turn t (at side close_half c)) (end_loop fsm (m t) b) e
            (end_loop-finished fsm (m t) b, end_loop-fini fsm (m t) side d),
      )
