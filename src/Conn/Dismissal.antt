-- ===== src/Conn/Dismissal.antt =====
-- The closing handshake of two connections with a net.Conn between them.
use geminio.Common.{ℕ, [], Option, none, some}
use geminio.Packet.{Packet, dis_conn, dis_conn_ack, type_dis_conn, type_dis_conn_ack}
use geminio.Packet.RoundTrip.Peer.{as_received}
use geminio.Packet.Factory.{header, at_most_once, conn_data}
use geminio.Conn.{Side, initiator_side, recipient_side, State, closed, fini, Fsm, Moment, Conn}
use geminio.Conn.Base.{close}
use geminio.Conn.Loop.{on_read_in, on_write_in, write_down, route}
use geminio.Conn.Opening.{last, result, settled, first_task, ◌>>=◌}

-- A DisConnPacket of the factory, and its answer.
abbrev pub dismissal : ℕ → Packet
dismissal i = dis_conn (header type_dis_conn i at_most_once)

abbrev pub dismissal_ack : ℕ → Packet
dismissal_ack i = dis_conn_ack (header type_dis_conn_ack i at_most_once) 0 (conn_data [] none)

-- The last state of the closing handshake.
abbrev pub closed_state : Side → State
closed_state initiator_side = closed
closed_state recipient_side = fini

module _ (fsm : Fsm) where
  -- One side closes, up to its packet on the net.Conn.
  unfoldable pub closes : Moment → Conn → Option (Packet × Conn)
  closes m a = do
    a ← result (close m a)
    a ← first_task m a.tasks a
    a ← settled (on_write_in fsm m a)
    a ← write_down m a
    p ← last a.wire
    some (p, a)

  -- The other reads it and writes its acknowledgement and a packet of its own.
  unfoldable pub replies : Moment → Packet → Conn → Option (Packet × Packet × Conn)
  replies m p b = do
    b ← settled (on_read_in fsm m (route p b))
    b ← first_task m b.tasks b
    b ← settled (on_write_in fsm m b)
    p ← last b.wire
    b ← first_task m b.tasks b
    b ← settled (on_write_in fsm m b)
    b ← write_down m b
    q ← last b.wire
    some (p, q, b)

  -- The first reads both, and writes its acknowledgement.
  unfoldable pub concludes : Moment → Packet → Packet → Conn → Option (Packet × Conn)
  concludes m p q a = do
    a ← settled (on_read_in fsm m (route p a))
    a ← settled (on_read_in fsm m (route q a))
    a ← first_task m a.tasks a
    a ← settled (on_write_in fsm m a)
    r ← last a.wire
    some (r, a)

  -- `n` bytes stand behind the header of each packet.
  unfoldable pub parting : Moment → Moment → (ℕ → ℕ) → Conn → Conn → Option (Conn × Conn)
  parting at bt n a b = do
    (p, a) ← closes at a
    (q, r, b) ← replies bt (as_received (n 0) p) b
    (s, a) ← concludes at (as_received (n 1) q) (as_received (n 2) r) a
    b ← settled (on_read_in fsm bt (route (as_received (n 3) s) b))
    some (a, b)
