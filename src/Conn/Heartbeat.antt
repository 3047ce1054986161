-- ===== src/Conn/Heartbeat.antt =====
-- A heartbeat of a client and its answer.
use geminio.Common.{
  ℕ, ◌+◌, ◌*◌, ◌≡◌, refl, true, false, [], ◌∷◌, Option, none, some, ok, if◌then◌else◌,
}
use geminio.IdCounter.{IdCounter, get_id}
use geminio.Packet.{
  Packet, PacketHeader, heartbeat, heartbeat_ack, type_heartbeat, type_heartbeat_ack,
}
use geminio.Packet.RoundTrip.Peer.{as_received}
use geminio.Packet.RoundTrip.Headers.{sent}
use geminio.Packet.Factory.{
  header, at_least_once, at_most_once, new_heartbeat_packet, new_heartbeat_ack_packet, with_new_id,
}
use geminio.Conn.{initiator_side, recipient_side, conned, Fsm, Moment, Conn}
use geminio.Conn.Base.{send_to_write_in, write_packet}
use geminio.Conn.Client
use geminio.Conn.Server
use geminio.Conn.Loop.{
  on_heartbeat_in, on_write_in, write_heartbeat, route, handle_in, handle_out, after_handler,
}
use geminio.Conn.Opening.{last, result, settled, ◌>>=◌}

-- A conned connection with nothing to do but for data, on a net.Conn that has carried nothing yet.
abbrev pub quiet : Conn → Conn
quiet c = record c {
  state = conned;
  conn_ok = true;
  cancelled = false;
  writing = true;
  write_in = [];
  heartbeat_in = [];
  heartbeat_out = [];
  wire = [];
}

abbrev pub ping : ℕ → Packet
ping i = heartbeat (header type_heartbeat i at_least_once)

abbrev pub pong : ℕ → Packet
pong i = heartbeat_ack (header type_heartbeat_ack i at_most_once)

-- Both sides after a heartbeat of the identifier `i`; the server was like `d`.
abbrev pub IsAlive : ℕ → Conn → Option (Conn × Conn) → Type 0
IsAlive i d none = ⊥
IsAlive i d (some (a, b)) =
    (a.state ≡ conned)
    × (b.state ≡ conned)
    × (a.wire ≡ ping i ∷ [])
    × (b.wire ≡ pong i ∷ [])
    × (b.tick ≡ some (d.heartbeat * 2))
    × (b.write_out ≡ d.write_out)

module _ (fsm : Fsm) where
  -- The client's tick, up to its heartbeat on the net.Conn.
  unfoldable pub beats : Moment → Conn → Option (Packet × Conn)
  beats m a = do
    a ← result (Client.send_heartbeat m a)
    a ← settled (on_write_in fsm m a)
    a ← write_heartbeat m a
    p ← last a.wire
    some (p, a)

  -- The server reads a heartbeat and writes the answer.
  unfoldable pub echoes : Moment → Packet → Conn → Option (Packet × Conn)
  echoes m p b = do
    b ← settled (on_heartbeat_in fsm m (route p b))
    b ← write_heartbeat m b
    q ← last b.wire
    some (q, b)

  unfoldable pub exchange : Moment → Moment → ℕ → ℕ → Conn → Conn → Option (Conn × Conn)
  exchange at bt n k a b = do
    (p, a) ← beats at a
    (q, b) ← echoes bt (as_received n p) b
    a ← settled (on_heartbeat_in fsm at (route (as_received k q) a))
    some (a, b)

  beats_lem :
      (m : Moment) (i : ℕ) (ids : IdCounter) (c : Conn)
      → get_id m.unix c.ids ≡ (ok i, ids)
      → m.write_ok ≡ true
      → let c = record (quiet c) { side = initiator_side } in
        beats m c ≡ some (ping i, record c { ids = ids; wire = ping i ∷ [] })
  unfolding beats Client.send_heartbeat new_heartbeat_packet with_new_id send_to_write_in
      on_write_in handle_out Client.handle_out Client.handle_out_heartbeat_packet after_handler
      write_heartbeat write_packet
  beats_lem m i ids c e w = rw e (rw w refl)

  reads_ping :
      (m : Moment) (h : PacketHeader) (c : Conn)
      → on_heartbeat_in fsm m (record c {
        side = recipient_side;
        state = conned;
        conn_ok = true;
        heartbeat_in = heartbeat h ∷ [];
        heartbeat_out = [];
      })
        ≡ some (
            ok (record c {
              side = recipient_side;
              state = conned;
              conn_ok = true;
              heartbeat_in = [];
              heartbeat_out = pong h.packet_id ∷ [];
              tick = some (c.heartbeat * 2);
              heartbeat_calls =
                  (if m.has_delegate then c.heartbeat_calls + 1 else c.heartbeat_calls);
            }))
  unfolding on_heartbeat_in handle_in Server.handle_in Server.handle_in_heartbeat_packet
      Server.reset_heartbeat_timeout new_heartbeat_ack_packet after_handler
  reads_ping m h c = refl

  echoes_lem :
      (m : Moment) (h : PacketHeader) (c : Conn)
      → m.write_ok ≡ true
      → let c = record (quiet c) { side = recipient_side } in
        echoes m (heartbeat h) c
        ≡ some (
          pong h.packet_id,
          record c {
            wire = pong h.packet_id ∷ [];
            tick = some (c.heartbeat * 2);
            heartbeat_calls = (if m.has_delegate then c.heartbeat_calls + 1 else c.heartbeat_calls);
          },
        )
  unfolding echoes route write_heartbeat write_packet
  echoes_lem m h c w =
      rw (reads_ping m h (record (quiet c) { side = recipient_side }), ◌>>=◌) (rw (w, ◌>>=◌) refl)

  reads_pong :
      (m : Moment) (h : PacketHeader) (c : Conn)
      → on_heartbeat_in fsm m
          (record c { side = initiator_side; state = conned; heartbeat_in = heartbeat_ack h ∷ [] })
        ≡ some (ok (record c { side = initiator_side; state = conned; heartbeat_in = [] }))
  unfolding on_heartbeat_in handle_in Client.handle_in Client.handle_in_heartbeat_ack_packet
      after_handler
  reads_pong m h c = refl

  -- A client's tick fires on a conned client and a conned server that have no heartbeat to handle, and
  -- no write fails. The heartbeat takes the priority channels to the server, which answers with the same
  -- identifier; both stay conned, and the server waits twice its heartbeat from now on.
  pub exchange-IsAlive :
      (at bt : Moment) (n k i : ℕ) (ids : IdCounter) (c d : Conn)
      → get_id at.unix c.ids ≡ (ok i, ids)
      → at.write_ok ≡ true
      → bt.write_ok ≡ true
      → IsAlive i d (
          exchange at bt n k
            (record (quiet c) { side = initiator_side })
            (record (quiet d) { side = recipient_side }))
  unfolding exchange as_received route
  exchange-IsAlive at bt n k i ids c d e aw bw =
      let a = record (quiet c) { side = initiator_side; ids = ids; wire = ping i ∷ [] } in
      rw (beats_lem at i ids c e aw, ◌>>=◌)
        (rw (echoes_lem bt (sent (header type_heartbeat i at_least_once) n) d bw, ◌>>=◌)
          (rw (reads_pong at (sent (header type_heartbeat_ack i at_most_once) k) a, ◌>>=◌)
            (refl, refl, refl, refl, refl, refl)))
