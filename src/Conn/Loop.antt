-- ===== src/Conn/Loop.antt =====
-- conn/conn_base.go, conn_client.go and conn_server.go: readPkt, writePkt, handlePkt and fini, and
-- the steps of a connection, which all of them, the callers and the timers make together.
use geminio.Common.{
  ℕ, ◌+◌, ◌==◌, ltb, ◌*◌, Bool, true, false, not, ◌&&◌, ◌≡◌, List, [], ◌∷◌, ◌++◌, Option, none,
  some, Outcome, ok, ◌>>=◌, if◌then◌else◌, length,
}
use geminio.IdCounter.{IdCounter}
use geminio.Packet.{Packet, heartbeat, heartbeat_ack}
use geminio.Packet.Ids.{packet_length}
use geminio.Conn.{
  initiator_side, recipient_side, State, et_fini, transitions, Fsm, IoRet, io_closed, io_err,
  of_addresses, hub_error, hub_close, Moment, Conn,
}
use geminio.Conn.Base.{
  Handled, stopped_tick, heartbeat_size, send_to_write_in, call_hub, fail, close, write,
  write_packet,
}
use geminio.Conn.Client
use geminio.Conn.Server

-- NewServerConn with the options for the identifier and failedCh, up to wait.
unfoldable pub new_server_conn : IdCounter → IdCounter → ℕ → Option (List Packet) → Conn
unfolding Client.new_conn
new_server_conn ids client_ids client_id failed =
    Client.new_conn recipient_side ids (some client_ids) client_id 0 [] none failed

-- The label ERR of both constructors, after a failed connect or wait.
unfoldable pub abandon : Conn → Conn
abandon c = record c { tick = stopped_tick c.side c.tick; net_closed = true }

-- Read: a packet, or `none` for io.EOF; it waits on an empty channel that is not closed.
unfoldable pub take_out : Conn → Option (Option Packet × Conn)
take_out c = elim c.read_out [
  | [] ↦ if c.finished then some (none, c) else none
  | p ∷ ps ↦ some (some p, record c { read_out = ps })
]

abbrev pub max_packet_size : ℕ
max_packet_size = 10 * 1024 * 1024

abbrev pub is_heartbeat : Packet → Bool
is_heartbeat (heartbeat h) = true
is_heartbeat (heartbeat_ack h) = true
is_heartbeat p = false

-- Where readPkt puts a packet: a heartbeat on the priority channel unless that is full.
unfoldable pub route : Packet → Conn → Conn
route p c =
    if is_heartbeat p && ltb (length c.heartbeat_in) heartbeat_size
    then record c { heartbeat_in = c.heartbeat_in ++ p ∷ [] }
    else record c { read_in = c.read_in ++ p ∷ [] }

-- The loop body of readPkt after DecodeFromReader gave a packet.
unfoldable pub read_packet : Packet → Conn → Conn
unfolding route packet_length
read_packet p c = if ltb max_packet_size (packet_length p) then c else route p c

-- The label FINI of readPkt.
unfoldable pub end_read : Conn → Conn
end_read c = record c { read_closed = true }

-- `case pkt := <-heartbeatWriteCh` and `case pkt := <-writeOutCh` of writePkt.
unfoldable pub write_heartbeat : Moment → Conn → Option Conn
unfolding write_packet
write_heartbeat m c = elim c.heartbeat_out [
  | [] ↦ none
  | p ∷ ps ↦ if c.writing then some (write_packet m p (record c { heartbeat_out = ps })) else none
]

unfoldable pub write_down : Moment → Conn → Option Conn
unfolding write_packet
write_down m c = elim c.write_out [
  | [] ↦ none
  | p ∷ ps ↦ if c.writing then some (write_packet m p (record c { write_out = ps })) else none
]

-- What fini drains, for failedCh.
unfoldable pub fail_all : List Packet → Conn → Conn
unfolding fail
fail_all [] c = c
fail_all (p ∷ ps) c = fail_all ps (fail p c)

-- The call that only the server's fini begins with.
abbrev pub before_fini : Conn → Conn
before_fini c = elim c.side as (λ x. Conn) [
  | initiator_side ↦ c
  | recipient_side ↦ call_hub (hub_error of_addresses) c
]

-- What fini does before it drains the channels.
unfoldable pub take_down : Conn → Conn
take_down c = record (call_hub hub_close (before_fini c)) {
  tick = none;
  net_closed = true;
  conn_ok = false;
  cancelled = true;
  writing = false;
  write_in = [];
  write_out = [];
}

-- Who tells the delegate: a server that came online, a client that has an identifier.
unfoldable pub is_known : Conn → Bool
is_known c = elim c.side as (λ x. Bool) [
  | initiator_side ↦ not (c.client_id == 0)
  | recipient_side ↦ c.onlined
]

module _ (fsm : Fsm) where
  unfoldable pub handle_in : Moment → Packet → Conn → Handled
  unfolding Client.handle_in Server.handle_in
  handle_in m p c = elim c.side [
    | initiator_side ↦ Client.handle_in fsm m p c
    | recipient_side ↦ Server.handle_in fsm m p c
  ]

  unfoldable pub handle_out : Moment → Packet → Conn → Handled
  unfolding Client.handle_out Server.handle_out
  handle_out m p c = elim c.side [
    | initiator_side ↦ Client.handle_out fsm m p c
    | recipient_side ↦ Server.handle_out fsm m p c
  ]

  unfoldable pub fini_conn : Conn → Conn
  unfolding fail_all take_down
  fini_conn c =
      let drained = fail_all c.write_out (fail_all c.write_in (take_down c)) in
      let last : State = elim (fsm.emit_event (transitions c.side) et_fini c.state) [
        | none ↦ c.state
        | some s ↦ s
      ] in
      record drained { state = last; finished = true; client_ids = none }

  -- The label FINI of handlePkt.
  unfoldable pub end_loop : Moment → Conn → Conn
  unfolding fini_conn is_known
  end_loop m c =
      let calls = if m.has_delegate && is_known c then c.offline_calls + 1 else c.offline_calls in
      fini_conn (record c { offline_calls = calls })

  -- What the loop does with a handler's result.
  unfoldable pub after_handler : Moment → IoRet × Conn → Conn
  unfolding end_loop
  after_handler m (io_closed, c) = end_loop m c
  after_handler m (io_err, c) = end_loop m c
  after_handler m (ret, c) = c

  -- The branches of handlePkt's `select`; `none` if a branch is not ready.
  unfoldable pub on_heartbeat_in : Moment → Conn → Option (Outcome Conn)
  unfolding handle_in after_handler
  on_heartbeat_in m c = elim c.heartbeat_in [
    | [] ↦ none
    | p ∷ ps ↦ some (handle_in m p (record c { heartbeat_in = ps }) >>= λ x. ok (after_handler m x))
  ]

  unfoldable pub on_read_in : Moment → Conn → Option (Outcome Conn)
  unfolding handle_in after_handler end_loop
  on_read_in m c = elim c.read_in [
    | [] ↦ if c.read_closed then some (ok (end_loop m c)) else none
    | p ∷ ps ↦ some (handle_in m p (record c { read_in = ps }) >>= λ x. ok (after_handler m x))
  ]

  unfoldable pub on_write_in : Moment → Conn → Option (Outcome Conn)
  unfolding handle_out after_handler
  on_write_in m c = elim c.write_in [
    | [] ↦ none
    | p ∷ ps ↦ some (handle_out m p (record c { write_in = ps }) >>= λ x. ok (after_handler m x))
  ]

  -- One step of a connection.
  pub data Step : Conn → Conn → Type 0 where
    beat :
        {a b : Conn} (m : Moment)
        → a.finished ≡ false
        → on_heartbeat_in m a ≡ some (ok b)
        → Step a b
    read : {a b : Conn} (m : Moment) → a.finished ≡ false → on_read_in m a ≡ some (ok b) → Step a b
    wrote :
        {a b : Conn} (m : Moment) → a.finished ≡ false → on_write_in m a ≡ some (ok b) → Step a b
    arrived : {a : Conn} (p : Packet) → a.read_closed ≡ false → Step a (read_packet p a)
    lost : {a : Conn} → Step a (end_read a)
    flushed : {a b : Conn} (m : Moment) → write_down m a ≡ some b → Step a b
    beaten : {a b : Conn} (m : Moment) → write_heartbeat m a ≡ some b → Step a b
    ran :
        {a : Conn} (m : Moment) (before : List Packet) (p : Packet) (after : List Packet)
        → a.tasks ≡ before ++ p ∷ after
        → Step a (send_to_write_in m p (record a { tasks = before ++ after })).1
    ticked : {a b : Conn} (m : Moment) → Client.send_heartbeat m a ≡ ok b → Step a b
    timed_out :
        {a b : Conn} (m : Moment) (x : Bool) → Server.wait_hb_timeout m x a ≡ ok b → Step a b
    closed : {a b : Conn} (m : Moment) → close m a ≡ ok b → Step a b
    written : {a : Conn} (m : Moment) (p : Packet) → Step a (write m p a).1
    taken : {a b : Conn} (x : Option Packet) → take_out a ≡ some (x, b) → Step a b
    abandoned : {a : Conn} → Step a (abandon a)
    -- Another connection draws from the shared counter.
    drawn : {a : Conn} (ids : Option IdCounter) → Step a (record a { client_ids = ids })

  pub data Steps : Conn → Conn → Type 0 where
    stay : {a : Conn} → Steps a a
    step : {a c : Conn} (b : Conn) → Steps a b → Step b c → Steps a c
