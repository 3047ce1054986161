-- ===== src/Conn/Handshake.antt =====
-- What the opening handshake of a client and a server comes to, accepted and refused.
use geminio.Common.{
  ℕ, ◌*◌, ◌==◌, ◌≡◌, refl, Bool, true, false, List, [], ◌∷◌, Option, none, some, ok, if◌then◌else◌,
}
use geminio.IdCounter.{IdCounter, get_id}
use geminio.Packet.{type_conn, type_conn_ack, type_dis_conn, Packet, conn, dis_conn}
use geminio.Packet.RoundTrip.Peer.{as_received}
use geminio.Packet.RoundTrip.Headers.{sent}
use geminio.Packet.RoundTrip.Flags.{heartbeat_received}
use geminio.Packet.Factory.{header, at_most_once, new_conn_flags, conn_data}
use geminio.Conn.{
  conn_recv, conned, of_packet, of_addresses, hub_new, hub_done, hub_ack, hub_error, Fsm, Moment,
  Conn,
}
use geminio.Conn.Client
use geminio.Conn.Server
use geminio.Conn.Loop.{new_server_conn}
use geminio.Conn.Opening.{handshake, ◌>>=◌}
use geminio.Conn.Halves.{
  wanted_id, agreed_id, choose_client_id-agreed, opens_lem, answers_lem, finishes_lem,
  answers_unwelcome, finishes_refused,
}

-- Both sides after a handshake that the server accepts.
abbrev pub AreConned : ℕ → ℕ → List ℕ → Bool → Option (Conn × Conn) → Type 0
AreConned i agreed meta delegated none = ⊥
AreConned i agreed meta delegated (some (a, b)) =
    (a.state ≡ conned)
    × (b.state ≡ conned)
    × (a.onlined ≡ true)
    × (b.onlined ≡ true)
    × (a.client_id ≡ agreed)
    × (b.client_id ≡ agreed)
    × (a.hub ≡ hub_new (of_packet i) ∷ hub_done (of_packet i) ∷ [])
    × (b.hub ≡ hub_new of_addresses ∷ hub_ack of_addresses ∷ [])
    × (b.meta ≡ meta)
    × (b.heartbeat ≡ a.heartbeat)
    × (b.tick ≡ some (a.heartbeat * 2))
    × (b.online_calls ≡ (if delegated then 1 else 0))

-- Both sides after a handshake that the server's delegate refuses with the error `x`. The
-- DisConnPackets that they still have to send have the identifiers `l` and `r`.
abbrev pub IsRefused : ℕ → ℕ → ℕ → ℕ → Option (Conn × Conn) → Type 0
IsRefused i agreed l r none = ⊥
IsRefused i agreed l r (some (a, b)) =
    (a.state ≡ conned)
    × (b.state ≡ conn_recv)
    × (a.onlined ≡ false)
    × (b.onlined ≡ false)
    × (a.client_id ≡ agreed)
    × (a.hub ≡ hub_new (of_packet i) ∷ hub_error (of_packet i) ∷ [])
    × (b.hub ≡ hub_new of_addresses ∷ [])
    × (a.tasks ≡ dis_conn (header type_dis_conn l at_most_once) ∷ [])
    × (b.tasks ≡ dis_conn (header type_dis_conn r at_most_once) ∷ [])
    × (a.closing ≡ false)
    × (b.closing ≡ true)
    × (b.tick ≡ none)

module _ (fsm : Fsm) where
  -- A new client, which may ask for an identifier, connects to a new server whose delegate, if there is one, gives an identifier and
  -- takes the connection, and no write fails. Both sides get conned and onlined and have the
  -- same identifier: the delegate's, or the server's own without one, or the shared counter's where
  -- that is 0. The client's connect and the server's wait succeed. The server has the client's meta and
  -- heartbeat, its timeout is twice the heartbeat, and a delegate is told once.
  pub connect_accepted :
      (at bt : Moment) (n k i j own : ℕ) (ids c ids' shared shared' : IdCounter) (meta : List ℕ)
      (asked : ℕ) (failed' : Option (List Packet))
      → get_id at.unix ids ≡ (ok i, c)
      → get_id bt.unix shared ≡ (ok j, shared')
      → at.write_ok ≡ true
      → bt.write_ok ≡ true
      → (if bt.has_delegate then bt.given_error else none) ≡ none
      → (if bt.has_delegate then bt.online_error else none) ≡ none
      → AreConned i (agreed_id bt own j) meta bt.has_delegate (
          handshake fsm at bt n k
            (Client.new_client_conn ids asked meta)
            (Server.wait (new_server_conn ids' shared own failed')))
  unfolding handshake Client.new_client_conn Client.new_conn Server.wait new_server_conn as_received
      heartbeat_received
  connect_accepted at bt n k i j own ids c ids' shared shared' meta asked failed' e g aw bw given
        willing =
      let h = header type_conn i at_most_once in
      let f = new_conn_flags true Client.heartbeat_20 in
      let d = conn_data meta none in
      let agreed = agreed_id bt own j in
      let left = if wanted_id bt own == 0 then some shared' else some shared in
      let a = Client.new_client_conn ids asked meta in
      let b = Server.wait (new_server_conn ids' shared own failed') in
      let ready = record b { state = conn_recv; meta = meta } in
      let chosen = choose_client_id-agreed bt ready j shared shared' refl g given in
      let ack = header type_conn_ack i at_most_once in
      let empty = conn_data [] none in
      let a_sent = record a {
        ids = c;
        wire = conn h f asked d ∷ [];
        hub = hub_new (of_packet i) ∷ [];
      } in
      rw (opens_lem fsm at i c a e aw, ◌>>=◌)
        (rw (answers_lem fsm bt (sent h n) f asked agreed left d b refl bw willing chosen, ◌>>=◌)
          (rw (finishes_lem fsm at (sent ack k) 0 agreed empty a_sent refl, ◌>>=◌)
            (refl, refl, refl, refl, refl, refl, refl, refl, refl, refl, refl, refl)))

  -- A new client, which may ask for an identifier, connects to a new server whose delegate gives an identifier but whose ConnOnline
  -- fails with a text, and no write fails. The client's connect fails, and neither side is onlined;
  -- yet the client gets conned and keeps the identifier. The server's wait is still not answered.
  -- Each side has a DisConnPacket to send, the client's outside of its closeOnce.
  pub connect-IsRefused :
      (at bt : Moment) (n k i j l r own y : ℕ) (ys : List ℕ)
      (ids c c' ids' kept shared shared' : IdCounter) (meta : List ℕ) (asked : ℕ)
      (failed' : Option (List Packet))
      → get_id at.unix ids ≡ (ok i, c)
      → get_id at.unix c ≡ (ok l, c')
      → get_id bt.unix shared ≡ (ok j, shared')
      → get_id bt.unix ids' ≡ (ok r, kept)
      → at.write_ok ≡ true
      → bt.write_ok ≡ true
      → bt.has_delegate ≡ true
      → bt.given_error ≡ none
      → bt.online_error ≡ some (y ∷ ys)
      → IsRefused i (agreed_id bt own j) l r (
          handshake fsm at bt n k
            (Client.new_client_conn ids asked meta)
            (Server.wait (new_server_conn ids' shared own failed')))
  unfolding handshake Client.new_client_conn Client.new_conn Server.wait new_server_conn as_received
      heartbeat_received
  connect-IsRefused at bt n k i j l r own y ys ids c c' ids' kept shared shared' meta asked failed'
        e e' g g' aw bw here given unwilling =
      let h = header type_conn i at_most_once in
      let f = new_conn_flags true Client.heartbeat_20 in
      let d = conn_data meta none in
      let agreed = agreed_id bt own j in
      let left = if wanted_id bt own == 0 then some shared' else some shared in
      let a = Client.new_client_conn ids asked meta in
      let b = Server.wait (new_server_conn ids' shared own failed') in
      let ready = record b { state = conn_recv; meta = meta } in
      let no_error : (if bt.has_delegate then bt.given_error else none) ≡ none = cc (here, given) in
      let chosen = choose_client_id-agreed bt ready j shared shared' refl g no_error in
      let ack = header type_conn_ack i at_most_once in
      let refusal = conn_data [] (some (y ∷ ys)) in
      let a_sent = record a {
        ids = c;
        wire = conn h f asked d ∷ [];
        hub = hub_new (of_packet i) ∷ [];
      } in
      rw (opens_lem fsm at i c a e aw, ◌>>=◌)
        (rw
          (
            answers_unwelcome fsm bt (sent h n) f asked agreed r left kept d b (y ∷ ys) refl bw here
                unwilling g' chosen,
            ◌>>=◌,
          )
          (rw
            (finishes_refused fsm at (sent ack k) 1 agreed l y ys refusal a_sent c' refl e', ◌>>=◌)
            (refl, refl, refl, refl, refl, refl, refl, refl, refl, refl, refl, refl)))
