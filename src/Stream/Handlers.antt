-- ===== src/Stream/Handlers.antt =====
-- handleIn, handleOut and the handlers of messages, responses, registrations and data.
use geminio.Common.{
  ℕ, Bool, true, false, ◌&&◌, ltb, List, [], ◌∷◌, ◌++◌, length, Option, none, some, Outcome, ok,
  panic, if◌then◌else◌,
}
use geminio.Packet.{
  Packet, PacketHeader, MessageData, message, message_ack, stream, request, response,
  request_cancel, register, register_ack,
}
use geminio.Packet.Factory.{new_register_ack_packet}
use geminio.Packet.Ids.{packet_id}
use geminio.Machine.{IoRet, io_success, io_err, io_discard}
use geminio.Stream.{
  WriteError, short_buffer, other_error, HubCall, hub_error, hub_ack, hub_done, hub_response,
  hub_done_sub, Moment, Stream,
}
use geminio.Stream.Requests.{
  write, result_of_write, has_method, handle_in_request_packet, handle_in_request_cancel_packet,
}

abbrev pub call_hub : HubCall → Stream → Stream
call_hub call s = record s { hub = s.hub ++ call ∷ [] }

abbrev pub is_empty : List ℕ → Bool
is_empty [] = true
is_empty (x ∷ xs) = false

-- A send that finds no room waits; on a closed channel it panics.
unfoldable pub handle_in_message_packet : Packet → Stream → Outcome (IoRet × Stream)
handle_in_message_packet p s =
    if s.channels_closed
    then panic
    else ok (io_success, record s { message_ch = s.message_ch ++ p ∷ [] })

unfoldable pub handle_in_message_ack_packet : PacketHeader → MessageData → Stream → IoRet × Stream
handle_in_message_ack_packet h d s = (
  io_success,
  (if is_empty d.error
      then call_hub (hub_ack h.packet_id) s
      else call_hub (hub_error h.packet_id d.error) s),
)

unfoldable pub handle_in_response_packet : PacketHeader → MessageData → Stream → IoRet × Stream
handle_in_response_packet h d s = (
  io_success,
  (if is_empty d.error
      then call_hub (hub_response h.packet_id d.value) s
      else call_hub (hub_error h.packet_id d.error) s),
)

-- `sm.remoteRPCs[method] = struct{}{}`
abbrev pub add_method : List ℕ → List (List ℕ) → List (List ℕ)
add_method method known = if has_method method known then known else method ∷ known

-- After the acknowledgement was written, or not.
abbrev pub after_register_ack : List ℕ → Option WriteError × Stream → IoRet × Stream
after_register_ack method (some e, s) = (io_err, s)
after_register_ack method (none, s) = (
  io_success,
  record s {
    remote_rpcs = add_method method s.remote_rpcs;
    hub = s.hub ++ hub_done_sub method ∷ [];
    remote_registrations =
        if s.has_delegate then s.remote_registrations ++ method ∷ [] else s.remote_registrations;
  },
)

unfoldable pub handle_in_register_packet : PacketHeader → List ℕ → Moment → Stream → IoRet × Stream
unfolding write has_method
handle_in_register_packet h method m s =
    after_register_ack method (write m (new_register_ack_packet h.packet_id none) s)

unfoldable pub handle_in_register_ack_packet : PacketHeader → Stream → IoRet × Stream
handle_in_register_ack_packet h s = (io_success, call_hub (hub_done h.packet_id) s)

-- Where there is room the packet is delivered; else the handler waits for room or for the dialogue's end.
unfoldable pub handle_in_stream_packet : Packet → Moment → Stream → Outcome (IoRet × Stream)
handle_in_stream_packet p m s =
    let delivered = record s { stream_ch = s.stream_ch ++ p ∷ [] } in
    if s.channels_closed
    then panic
    else if ltb (length s.stream_ch) s.stream_ch_size
    then ok (io_success, delivered)
    else if m.dialogue_done && m.takes_done
    then ok (io_discard, s)
    else ok (io_success, delivered)

unfoldable pub handle_in : Packet → Moment → Stream → Outcome (IoRet × Stream)
unfolding handle_in_message_packet handle_in_message_ack_packet handle_in_request_packet
    handle_in_request_cancel_packet handle_in_response_packet handle_in_register_packet
    handle_in_register_ack_packet handle_in_stream_packet
handle_in (message h id d) m s = handle_in_message_packet (message h id d) s
handle_in (message_ack h id d) m s = ok (handle_in_message_ack_packet h d s)
handle_in (request h id d) m s = ok (handle_in_request_packet h d m s)
handle_in (request_cancel h id t) m s = ok (handle_in_request_cancel_packet h s)
handle_in (response h id d) m s = ok (handle_in_response_packet h d s)
handle_in (register h id method) m s = ok (handle_in_register_packet h method m s)
handle_in (register_ack h id d) m s = ok (handle_in_register_ack_packet h s)
handle_in (stream h id bs) m s = handle_in_stream_packet (stream h id bs) m s
handle_in _ m s = ok (io_err, s)

-- The result of a write, whose error but a short buffer `failed` gets.
abbrev pub after_write : (List ℕ → Stream → Stream) → Option WriteError × Stream → IoRet × Stream
after_write failed (none, t) = (io_success, t)
after_write failed (some short_buffer, t) = (io_discard, t)
after_write failed (some (other_error text), t) = (io_err, failed text t)

-- The body of the handlers of a message, a request, a request cancel, a registration and data.
unfoldable pub write_or : (List ℕ → Stream → Stream) → Packet → Moment → Stream → IoRet × Stream
unfolding write
write_or failed p m s = after_write failed (write m p s)

-- The handlers of messages and requests tell the hub.
unfoldable pub write_telling : Packet → Moment → Stream → IoRet × Stream
unfolding write_or packet_id
write_telling p m s = write_or (λ text. call_hub (hub_error (packet_id p) text)) p m s

-- The handlers of request cancels, registrations and data do not.
unfoldable pub write_plain : Packet → Moment → Stream → IoRet × Stream
unfolding write_or
write_plain p m s = write_or (λ text t. t) p m s

abbrev pub handle_out_message_packet : Packet → Moment → Stream → IoRet × Stream
handle_out_message_packet p m s = write_telling p m s

abbrev pub handle_out_message_ack_packet : Packet → Moment → Stream → IoRet × Stream
handle_out_message_ack_packet p m s = result_of_write (write m p s)

abbrev pub handle_out_request_packet : Packet → Moment → Stream → IoRet × Stream
handle_out_request_packet p m s = write_telling p m s

abbrev pub handle_out_request_cancel_packet : Packet → Moment → Stream → IoRet × Stream
handle_out_request_cancel_packet p m s = write_plain p m s

abbrev pub handle_out_stream_packet : Packet → Moment → Stream → IoRet × Stream
handle_out_stream_packet p m s = write_plain p m s

abbrev pub handle_out_register_packet : Packet → Moment → Stream → IoRet × Stream
handle_out_register_packet p m s = write_plain p m s

unfoldable pub handle_out : Packet → Moment → Stream → IoRet × Stream
handle_out (message h id d) m s = handle_out_message_packet (message h id d) m s
handle_out (message_ack h id d) m s = handle_out_message_ack_packet (message_ack h id d) m s
handle_out (request h id d) m s = handle_out_request_packet (request h id d) m s
handle_out (request_cancel h id t) m s =
    handle_out_request_cancel_packet (request_cancel h id t) m s
handle_out (stream h id bs) m s = handle_out_stream_packet (stream h id bs) m s
handle_out (register h id method) m s = handle_out_register_packet (register h id method) m s
handle_out _ m s = (io_success, s)
