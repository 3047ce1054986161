-- ===== src/Conn/Parting.antt =====
-- conn/conn_base.go: what the closing handshake of two connections comes to.
use geminio.Common.{
  ℕ, ◌≡◌, refl, true, false, List, [], ◌∷◌, Option, none, some, ok, ◌∙◌, ◌+◌, ◌&&◌, if◌then◌else◌,
  arith, inl, inr,
}
use geminio.IdCounter.{IdCounter, get_id}
use geminio.Packet.{
  Packet, PacketHeader, ConnData, dis_conn, dis_conn_ack, type_dis_conn, type_dis_conn_ack,
}
use geminio.Packet.RoundTrip.Peer.{as_received}
use geminio.Packet.RoundTrip.Headers.{sent}
use geminio.Packet.Factory.{
  header, at_most_once, conn_data, new_dis_conn_packet, new_dis_conn_ack_packet, with_new_id,
}
use geminio.Conn.{
  Side, initiator_side, recipient_side, conned, close_sent, close_half, closed, fini, et_fini,
  transitions, Fsm, Moment, Conn,
}
use geminio.Conn.Base.{stopped_tick, close, close_first, send_to_write_in, write_packet}
use geminio.Conn.Loop.{write_down, route, end_loop, fini_conn}
use geminio.Conn.Loop.{fail_all, take_down, is_known}
use geminio.Conn.Base.{fail}
use geminio.Conn.Keeping.{Side-cases}
use geminio.Conn.Stages.{follows}
use geminio.Conn.Opening.{◌>>=◌}
use geminio.Conn.Dismissal.{
  dismissal, dismissal_ack, closed_state, closes, replies, concludes, parting,
}
use geminio.Conn.Partings.{
  writes_dismissal, reads_dismissal, writes_ack, writes_second, reads_ack, reads_second_dismissal,
  writes_last_ack, reads_last_ack,
}

-- A conned connection that has nothing to do and has written nothing since it opened.
abbrev pub idle : Side → Conn → Conn
idle side c = record c {
  side = side;
  state = conned;
  conn_ok = true;
  cancelled = false;
  closing = false;
  writing = true;
  tasks = [];
  read_in = [];
  write_in = [];
  write_out = [];
  wire = [];
}

-- Both sides after the closing handshake, with the identifiers of their DisConnPackets.
abbrev pub AreFinished : ℕ → ℕ → Option (Conn × Conn) → Type 0
AreFinished i j none = ⊥
AreFinished i j (some (a, b)) =
    (a.finished ≡ true)
    × (b.finished ≡ true)
    × (a.state ≡ fini)
    × (b.state ≡ fini)
    × (a.wire ≡ dismissal i ∷ dismissal_ack j ∷ [])
    × (b.wire ≡ dismissal_ack i ∷ dismissal j ∷ [])

fail-wire : (p : Packet) (c : Conn) → (fail p c).wire ≡ c.wire
unfolding fail
fail-wire p c = ground arith

fail_all-wire : (ps : List Packet) (c : Conn) → (fail_all ps c).wire ≡ c.wire
unfolding fail_all
fail_all-wire [] c = refl
fail_all-wire (p ∷ ps) c = fail_all-wire ps (fail p c) ∙ fail-wire p c

take_down-wire : (c : Conn) → (take_down c).wire ≡ c.wire
unfolding take_down
take_down-wire c = elim (Side-cases c.side) [ inl e ↦ rw e refl | inr e ↦ rw e refl ]

module _ (fsm : Fsm) where
  end_loop-wire : (m : Moment) (c : Conn) → (end_loop fsm m c).wire ≡ c.wire
  unfolding end_loop fini_conn
  end_loop-wire m c =
      let calls = if m.has_delegate && is_known c then c.offline_calls + 1 else c.offline_calls in
      let down = record c { offline_calls = calls } in
      fail_all-wire c.write_out (fail_all c.write_in (take_down down))
      ∙ fail_all-wire c.write_in (take_down down)
      ∙ take_down-wire down

  pub end_loop-fini :
      (m : Moment) (side : Side) (c : Conn)
      → (end_loop fsm m (record c { side = side; state = closed_state side })).state ≡ fini
  unfolding end_loop fini_conn transitions
  end_loop-fini m initiator_side c = rw (follows fsm initiator_side et_fini closed) refl
  end_loop-fini m recipient_side c = rw (follows fsm recipient_side et_fini fini) refl

  pub end_loop-finished : (m : Moment) (c : Conn) → (end_loop fsm m c).finished ≡ true
  unfolding end_loop fini_conn
  end_loop-finished m c = refl

  closes_lem :
      (m : Moment) (side : Side) (i : ℕ) (ids : IdCounter) (c : Conn)
      → get_id m.unix c.ids ≡ (ok i, ids)
      → m.write_ok ≡ true
      → let c = record c {
        side = side;
        state = conned;
        conn_ok = true;
        cancelled = false;
        closing = false;
        writing = true;
        tasks = [];
        write_in = [];
        write_out = [];
        wire = [];
      } in
        closes fsm m c
        ≡ some (
          dismissal i,
          record c {
            state = close_sent;
            closing = true;
            tick = stopped_tick side c.tick;
            ids = ids;
            wire = dismissal i ∷ [];
          },
        )
  unfolding closes close close_first new_dis_conn_packet with_new_id send_to_write_in write_down
      write_packet
  closes_lem m side i ids c e w =
      let b = record c {
        state = conned;
        conn_ok = true;
        cancelled = false;
        closing = true;
        writing = true;
        tasks = [];
        write_in = [];
        write_out = [];
        wire = [];
        tick = stopped_tick side c.tick;
        ids = ids;
      } in
      rw (e, close, close_first)
        (rw (writes_dismissal fsm m (header type_dis_conn i at_most_once) side b, ◌>>=◌)
          (rw (w, ◌>>=◌) refl))

  replies_lem :
      (m : Moment) (h : PacketHeader) (side : Side) (j : ℕ) (ids : IdCounter) (c : Conn)
      → get_id m.unix c.ids ≡ (ok j, ids)
      → m.write_ok ≡ true
      → let c = record c {
        side = side;
        state = conned;
        conn_ok = true;
        cancelled = false;
        closing = false;
        writing = true;
        tasks = [];
        read_in = [];
        write_in = [];
        write_out = [];
        wire = [];
      } in
        replies fsm m (dis_conn h) c
        ≡ some (
          dismissal_ack h.packet_id,
          dismissal j,
          record c {
            state = close_half;
            closing = true;
            tick = stopped_tick side c.tick;
            ids = ids;
            wire = dismissal_ack h.packet_id ∷ dismissal j ∷ [];
          },
        )
  unfolding replies route send_to_write_in write_down write_packet new_dis_conn_ack_packet
  replies_lem m h side j ids c e w =
      let a = record c {
        cancelled = false;
        writing = true;
        tasks = [];
        write_in = [];
        write_out = [];
        wire = [];
      } in
      let b = record a {
        conn_ok = true;
        closing = true;
        read_in = [];
        tick = stopped_tick side c.tick;
        ids = ids;
        tasks = dismissal j ∷ [];
      } in
      let d = record b { tasks = []; wire = dismissal_ack h.packet_id ∷ [] } in
      rw (reads_dismissal fsm m h j ids side a e, ◌>>=◌)
        (rw
          (
            writes_ack fsm m (header type_dis_conn_ack h.packet_id at_most_once) 0
                (conn_data [] none) side b w,
            ◌>>=◌,
          )
          (rw (writes_second fsm m (header type_dis_conn j at_most_once) side d, ◌>>=◌)
            (rw (w, ◌>>=◌) refl)))

  concludes_lem :
      (m : Moment) (h k : PacketHeader) (r : ℕ) (d : ConnData) (side : Side) (w0 : Packet)
      (c : Conn)
      → m.write_ok ≡ true
      → let c = record c {
        side = side;
        state = close_sent;
        cancelled = false;
        closing = true;
        tasks = [];
        read_in = [];
        write_in = [];
        wire = w0 ∷ [];
      } in
        concludes fsm m (dis_conn_ack h r d) (dis_conn k) c
        ≡ some (
          dismissal_ack k.packet_id,
          end_loop fsm m
              (record c { state = closed_state side; wire = w0 ∷ dismissal_ack k.packet_id ∷ [] }),
        )
  unfolding concludes route send_to_write_in new_dis_conn_ack_packet
  concludes_lem m h k r d side w0 c w =
      let a = record c {
        cancelled = false;
        closing = true;
        tasks = [];
        write_in = [];
        wire = w0 ∷ [];
      } in
      let ack = header type_dis_conn_ack k.packet_id at_most_once in
      let b = record a {
        side = side;
        state = closed_state side;
        read_in = [];
        wire = w0 ∷ dismissal_ack k.packet_id ∷ [];
      } in
      rw (reads_ack fsm m h r d side a, ◌>>=◌)
        (rw (reads_second_dismissal fsm m k side a, ◌>>=◌)
          (rw
            (
              writes_last_ack fsm m ack 0 (conn_data [] none) side (record a { read_in = [] }) w,
              ◌>>=◌,
            )
            (rw (end_loop-wire m b, ◌>>=◌) refl)))

  -- Two connections that are conned and have nothing to do, of either sides; one of them closes, and
  -- no write fails. In the run `parting`, where the one that replies writes its acknowledgement before its own
  -- DisConnPacket, both get to their fini: each has sent a DisConnPacket and the acknowledgement of the
  -- other's, and nothing else.
  pub close_finishes :
      (at bt : Moment) (n : ℕ → ℕ) (one other : Side) (i j : ℕ) (ids ids' : IdCounter) (c d : Conn)
      → get_id at.unix c.ids ≡ (ok i, ids)
      → get_id bt.unix d.ids ≡ (ok j, ids')
      → at.write_ok ≡ true
      → bt.write_ok ≡ true
      → AreFinished i j (parting fsm at bt n (idle one c) (idle other d))
  unfolding parting as_received route
  close_finishes at bt n one other i j ids ids' c d e g aw bw =
      let h = header type_dis_conn i at_most_once in
      let k = header type_dis_conn j at_most_once in
      let ack_h = header type_dis_conn_ack i at_most_once in
      let ack_k = header type_dis_conn_ack j at_most_once in
      let a = record (idle one c) { tick = stopped_tick one c.tick; ids = ids } in
      let b = record (idle other d) {
        closing = true;
        tick = stopped_tick other d.tick;
        ids = ids';
        wire = dismissal_ack i ∷ dismissal j ∷ [];
      } in
      let x = record a {
        closing = true;
        state = closed_state one;
        wire = dismissal i ∷ dismissal_ack j ∷ [];
      } in
      let y = record b { state = closed_state other } in
      rw (closes_lem at one i ids (idle one c) e aw, ◌>>=◌)
        (rw (replies_lem bt (sent h (n 0)) other j ids' (idle other d) g bw, ◌>>=◌)
          (rw
            (
              concludes_lem at (sent ack_h (n 1)) (sent k (n 2)) 0 (conn_data [] none) one
                  (dismissal i) a aw,
              ◌>>=◌,
            )
            (rw (reads_last_ack fsm bt (sent ack_k (n 3)) 0 (conn_data [] none) other b, ◌>>=◌)
              (
                end_loop-finished at x,
                end_loop-finished bt y,
                end_loop-fini at one x,
                end_loop-fini bt other y,
                end_loop-wire at x,
                end_loop-wire bt y,
              ))))
