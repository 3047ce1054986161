-- ===== src/Stream/Drained.antt =====
-- What is written before the dialogue of a closed stream is closed.
use geminio.Common.{
  Bool, true, false, ◌≡◌, refl, ap, List, [], ◌∷◌, ◌++◌, append_assoc, append-nil, none, All,
}
use geminio.Packet.{
  Packet, conn, conn_ack, dis_conn, dis_conn_ack, heartbeat, heartbeat_ack, session, session_ack,
  dismiss, dismiss_ack, message, message_ack, stream, request, response, request_cancel, register,
  register_ack,
}
use geminio.Machine.{io_success}
use geminio.Stream.{Moment, Stream}
use geminio.Stream.Requests.{write}
use geminio.Stream.Handlers.{handle_out, write_or, write_telling, write_plain}
use geminio.Stream.Ending.{close, drain, on_close_write}

-- The packets that the stream's methods queue.
unfoldable pub is_queued : Packet → Bool
is_queued (message h id d) = true
is_queued (message_ack h id d) = true
is_queued (request h id d) = true
is_queued (request_cancel h id t) = true
is_queued (stream h id bs) = true
is_queued (register h id method) = true
is_queued _ = false

-- The stream with one more packet written.
abbrev with_written : Packet → Stream → Stream
with_written p s = record s { written = s.written ++ p ∷ [] }

handle_out_lem :
    (p : Packet) (m : Moment) (s : Stream)
    → is_queued p ≡ true
    → m.write_error ≡ none
    → handle_out p m s ≡ (io_success, with_written p s)
unfolding handle_out write_telling write_plain write_or write is_queued
handle_out_lem (message h id d) m s q e = rw (handle_out, write_telling, write_or, write, e) refl
handle_out_lem (message_ack h id d) m s q e = rw (handle_out, write, e) refl
handle_out_lem (request h id d) m s q e = rw (handle_out, write_telling, write_or, write, e) refl
handle_out_lem (request_cancel h id t) m s q e =
    rw (handle_out, write_plain, write_or, write, e) refl
handle_out_lem (stream h id bs) m s q e = rw (handle_out, write_plain, write_or, write, e) refl
handle_out_lem (register h id method) m s q e =
    rw (handle_out, write_plain, write_or, write, e) refl
handle_out_lem (conn h f id d) m s q e = absurd (cc q)
handle_out_lem (conn_ack h r id d) m s q e = absurd (cc q)
handle_out_lem (dis_conn h) m s q e = absurd (cc q)
handle_out_lem (dis_conn_ack h r d) m s q e = absurd (cc q)
handle_out_lem (heartbeat h) m s q e = absurd (cc q)
handle_out_lem (heartbeat_ack h) m s q e = absurd (cc q)
handle_out_lem (session h f id d) m s q e = absurd (cc q)
handle_out_lem (session_ack h f n id d) m s q e = absurd (cc q)
handle_out_lem (dismiss h id d) m s q e = absurd (cc q)
handle_out_lem (dismiss_ack h id d) m s q e = absurd (cc q)
handle_out_lem (response h id d) m s q e = absurd (cc q)
handle_out_lem (register_ack h id d) m s q e = absurd (cc q)

-- The stream after a drain that wrote all.
abbrev pub emptied : List Packet → Stream → Stream
emptied ps s = record s {
  write_in = [];
  written = s.written ++ ps;
  dialogue_closes = s.dialogue_closes ++ (s.written ++ ps) ∷ [];
}

drain_lem :
    (m : Packet → Moment) (ps : List Packet) (s : Stream)
    → s.write_in ≡ ps
    → ((p : Packet) → (m p).write_error ≡ none)
    → All (λ p. is_queued p ≡ true) ps
    → drain m ps s ≡ emptied ps s
unfolding drain
drain_lem m [] s w e a =
    rw (append-nil s.written)
      (ap (λ x. record s { dialogue_closes = s.dialogue_closes ++ s.written ∷ []; write_in = x }) w)
drain_lem m (p ∷ ps) s w e (q, a) =
    rw (handle_out_lem p (m p) (record s { write_in = ps }) q (e p)) (
      rw (drain_lem m ps (with_written p (record s { write_in = ps })) refl e a)
        (rw (append_assoc s.written (p ∷ []) ps) refl))

close_lem :
    (s : Stream)
    → s.closing ≡ false
    → s.stream_ok ≡ true
    → close s ≡ record s { closing = true; close_write = true }
unfolding close
close_lem s c k = rw (close, c, k) refl

-- A stream is closed that was not closed before and has not finished, with packets queued that its methods
-- queue; the writes to the dialogue succeed. Then Close makes closeWriteCh ready, and the drain that follows
-- writes all queued packets in their order after those written before, leaves none queued, and closes the
-- dialogue once, when all of them are written.
pub close-Drains :
    (m : Packet → Moment) (s : Stream)
    → s.closing ≡ false
    → s.stream_ok ≡ true
    → All (λ p. is_queued p ≡ true) s.write_in
    → ((p : Packet) → (m p).write_error ≡ none)
    → ((close s).close_write ≡ true)
      × ((on_close_write m (close s)).written ≡ s.written ++ s.write_in)
      × ((on_close_write m (close s)).write_in ≡ [])
      × ((on_close_write m (close s)).dialogue_closes
          ≡ s.dialogue_closes ++ (s.written ++ s.write_in) ∷ [])
unfolding on_close_write
close-Drains m s c k a e =
    let ready = record s { closing = true; close_write = true; drained = true } in
    rw (close_lem s c k)
      (rw (on_close_write, drain_lem m s.write_in ready refl e a) (refl, refl, refl, refl))
