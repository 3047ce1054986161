-- ===== src/Conn/Reading.antt =====
-- conn/conn_base.go: the whole loop of readPkt on a stream of bytes.
use geminio.Common.{
  ℕ, zero, suc, ◌+◌, ◌-◌, ◌≤◌, ◌<◌, ◌≡◌, refl, arith, List, [], ◌∷◌, ◌++◌, length, Option, none,
  some, Outcome, ok, err, panic, ok-Gives, Error, ◌⊎◌, inl, inr, le→ltb, eof, ap, length-append,
  ◌∙◌,
}
use geminio.Packet.{Env, Packet}
use geminio.Packet.Ids.{packet_length}
use geminio.Wire.{read_full}
use geminio.Packet.Encode.{encode}
use geminio.Packet.Reader.{decode_from_reader, max_decodable_packet_len}
use geminio.Packet.Safety.Sizes.{decode_from_reader-Fits}
use geminio.Packet.Safety.Consumption.{decode_from_reader-Consumes}
use geminio.Packet.RoundTrip.Peer.{IsSendable, as_received}
use geminio.Packet.RoundTrip.Received.{decode_from_reader-encode}
use geminio.Conn.{Conn}
use geminio.Conn.Loop.{max_packet_size, read_packet, route, end_read}

-- The body of readPkt after DecodeFromReader, with the next turn as `next`.
unfoldable pub read_turn :
    (List ℕ → Conn → Option (Outcome Conn)) → Conn → Outcome Packet × List ℕ → Option (Outcome Conn)
read_turn next c (ok p, s) = next s (read_packet p c)
read_turn next c (err e, s) = some (ok (end_read c))
read_turn next c (panic, s) = some panic

-- The loop of readPkt, with at most `fuel` turns: `none` if they are not enough. A panic of a decoder
-- ends the process.
unfoldable pub read_pkt : Env → ℕ → List ℕ → Conn → Option (Outcome Conn)
unfolding read_turn
read_pkt env zero r c = none
read_pkt env (suc fuel) r c = read_turn (λ s c. read_pkt env fuel s c) c (decode_from_reader env r)

-- The test of the size in readPkt passes every packet that DecodeFromReader returns: readPkt
-- without it does the same.
pub read_packet-route :
    (env : Env) (r s : List ℕ) (p : Packet) (c : Conn)
    → decode_from_reader env r ≡ (ok p, s)
    → read_packet p c ≡ route p c
unfolding read_packet
read_packet-route env r s p c e =
    let fits =
      ok-Gives _ (decode_from_reader env r).0 p (decode_from_reader-Fits env r) (ap (λ x. x.0) e) in
    rw (le→ltb max_packet_size (packet_length p) fits) refl

pair_cases :
    (x : Outcome Packet × List ℕ)
    → ((p : Packet) × (s : List ℕ) × (x ≡ (ok p, s)))
      ⊎ (((e : Error) × (s : List ℕ) × (x ≡ (err e, s))) ⊎ ((s : List ℕ) × (x ≡ (panic, s))))
pair_cases (ok p, s) = inl (p, s, refl)
pair_cases (err e, s) = inr (inl (e, s, refl))
pair_cases (panic, s) = inr (inr (s, refl))

-- As many turns as there are bytes and one more are enough for readPkt to end, on any stream.
pub read_pkt_total :
    (env : Env) (fuel : ℕ) (r : List ℕ) (c : Conn)
    → length r < fuel
    → (o : Outcome Conn) × (read_pkt env fuel r c ≡ some o)
unfolding read_pkt read_turn
read_pkt_total env zero r c l = absurd (omega arith)
read_pkt_total env (suc fuel) r c l = elim (pair_cases (decode_from_reader env r)) [
  | inr (inl (x, s, q)) ↦ (ok (end_read c), rw (q, read_pkt, read_turn) refl)
  | inr (inr (s, q)) ↦ (panic, rw (q, read_pkt, read_turn) refl)
  | inl (p, s, q) ↦
      let (h, t, f, u, b, (d, e, n)) = decode_from_reader-Consumes env r s p q in
      let shorter : length r ≡ length d + length s = ap length e ∙ length-append d s in
      let (o, y) = read_pkt_total env fuel s (read_packet p c) (omega arith) in
      (o, rw (q, read_pkt, read_turn) y)
]

-- The packets `ps` are sendable, encode to `frames` and keep the reader's cap.
abbrev pub AreFrames : Env → List Packet → List (List ℕ) → Type 0
AreFrames env [] [] = Unit {0}
AreFrames env (p ∷ ps) (bs ∷ frames) =
    IsSendable env p
    × (encode env p ≡ ok bs)
    × (length bs ≤ 14 + max_decodable_packet_len)
    × AreFrames env ps frames
AreFrames env _ _ = ⊥

abbrev pub concat : List (List ℕ) → List ℕ
concat [] = []
concat (bs ∷ frames) = bs ++ concat frames

-- The packets arrive as their peer holds them, one after the other.
abbrev pub route_all : List Packet → List (List ℕ) → Conn → Conn
route_all (p ∷ ps) (bs ∷ frames) c = route_all ps frames (route (as_received (length bs - 14) p) c)
route_all _ _ c = c

decode_from_reader-nothing : (env : Env) → decode_from_reader env [] ≡ (err eof, [])
unfolding decode_from_reader read_full
decode_from_reader-nothing env = refl

-- A peer writes encoded packets one behind the other and closes. readPkt hands them on in their order,
-- each as `as_received` says, takes the end for the connection's end, and does not fall out of step.
pub read_pkt-encode :
    (env : Env) (fuel : ℕ) (ps : List Packet) (frames : List (List ℕ)) (c : Conn)
    → AreFrames env ps frames
    → length ps < fuel
    → read_pkt env fuel (concat frames) c ≡ some (ok (end_read (route_all ps frames c)))
unfolding read_pkt read_turn
read_pkt-encode env zero ps frames c f l = absurd (omega arith)
read_pkt-encode env (suc fuel) [] [] c f l =
    rw (decode_from_reader-nothing env, read_pkt, read_turn) refl
read_pkt-encode env (suc fuel) [] (bs ∷ frames) c f l = absurd f
read_pkt-encode env (suc fuel) (p ∷ ps) [] c f l = absurd f
read_pkt-encode env (suc fuel) (p ∷ ps) (bs ∷ frames) c (is, e, b, f) l =
    let q = decode_from_reader-encode env p bs (concat frames) is e b in
    let r = as_received (length bs - 14) p in
    rw (q, read_pkt, read_turn)
      (rw (read_packet-route env (bs ++ concat frames) (concat frames) r c q)
        (read_pkt-encode env fuel ps frames (route r c) f (omega arith)))
