-- ===== src/Packet/RoundTrip/Payloads.antt =====
-- The payloads that begin with flags, a return code or two identifiers, written and read.
use geminio.Common.{
  ℕ, ◌+◌, ◌^◌, ◌<◌, ◌≡◌, refl, List, [], ◌∷◌, ◌++◌, append_assoc, length, length-append, ok, arith,
  some, false,
}
use geminio.Wire.{Slice, put_uint64}
use geminio.Wire.Laws.{length-put_uint64, slice-middle}
use geminio.Packet.{
  Env, Json, PacketHeader, ConnData, SessionFlags, SessionData, conn, conn_ack, dis_conn_ack,
  session, session_ack,
}
use geminio.Packet.Body.{
  id_at, data_at, conn_flags, session_flags, conn_fields, conn_ack_fields, dis_conn_ack_fields,
  session_fields, session_ack_fields,
}
use geminio.Packet.RoundTrip.Fields.{id_at_lem, data_at_lem}
use geminio.Wire.{index, slice}

-- The flags of a SessionAckPacket are not on the wire.
abbrev pub no_flags : SessionFlags
no_flags = record { priority = 0; qos = 0; session_id_acquire = false }

-- An identifier and a JSON payload behind a prefix.
prefixed :
    {D : Type 0} (j : Json D) (d : D) (pre : List ℕ) (id : ℕ) (js spare : List ℕ) (lo mid len : ℕ)
    → lo ≡ length pre
    → mid ≡ lo + 8
    → len ≡ mid + length js
    → id < 2 ^ 64
    → j.unmarshal js ≡ some d
    → let s : Slice = record { elems = pre ++ (put_uint64 id ++ js); spare = spare } in
      (id_at lo mid s ≡ ok id) × (data_at j mid len s ≡ ok d)
prefixed j d pre id js spare lo mid len l m n hid u = (
  id_at_lem s pre id (js ++ spare) lo mid (simp append_assoc) l m hid,
  data_at_lem j d s (pre ++ put_uint64 id) js spare mid len (simp append_assoc)
      (omega (arith, length-append pre (put_uint64 id), length-put_uint64 id)) n u,
)
  where
    s : Slice
    s = record { elems = pre ++ (put_uint64 id ++ js); spare = spare }

module _ (env : Env) (h : PacketHeader) (id : ℕ) (js spare : List ℕ) where
  pub conn_fields_lem :
      (b0 b1 : ℕ) (d : ConnData)
      → id < 2 ^ 64
      → h.packet_len ≡ 10 + length js
      → env.conn_json.unmarshal js ≡ some d
      → conn_fields env h (record { elems = b0 ∷ b1 ∷ put_uint64 id ++ js; spare = spare })
        ≡ ok (conn h (conn_flags b0) id d)
  unfolding conn_fields index
  conn_fields_lem b0 b1 d hid n u =
      let s : Slice = record { elems = b0 ∷ b1 ∷ put_uint64 id ++ js; spare = spare } in
      let first : slice 0 1 s ≡ ok (b0 ∷ []) =
        slice-middle s [] (b0 ∷ []) ((b1 ∷ put_uint64 id ++ js) ++ spare) 0 1 refl (omega arith)
          (omega arith) in
      let r =
        prefixed env.conn_json d (b0 ∷ b1 ∷ []) id js spare 2 10 h.packet_len (omega arith)
          (omega arith) n hid u in
      cc (first, r.0, r.1)

  pub conn_ack_fields_lem :
      (ret_code : ℕ) (d : ConnData)
      → id < 2 ^ 64
      → h.packet_len ≡ 9 + length js
      → env.conn_json.unmarshal js ≡ some d
      → conn_ack_fields env h (record { elems = ret_code ∷ put_uint64 id ++ js; spare = spare })
        ≡ ok (conn_ack h ret_code id d)
  unfolding conn_ack_fields index
  conn_ack_fields_lem ret_code d hid n u =
      let r =
        prefixed env.conn_json d (ret_code ∷ []) id js spare 1 9 h.packet_len (omega arith)
          (omega arith) n hid u in
      cc (r.0, r.1)

  pub session_fields_lem :
      (b0 b1 : ℕ) (d : SessionData)
      → id < 2 ^ 64
      → h.packet_len ≡ 10 + length js
      → env.session_json.unmarshal js ≡ some d
      → session_fields env h (record { elems = b0 ∷ b1 ∷ put_uint64 id ++ js; spare = spare })
        ≡ ok (session h (session_flags b0 b1) id d)
  unfolding session_fields index
  session_fields_lem b0 b1 d hid n u =
      let r =
        prefixed env.session_json d (b0 ∷ b1 ∷ []) id js spare 2 10 h.packet_len (omega arith)
          (omega arith) n hid u in
      cc (r.0, r.1)

  pub session_ack_fields_lem :
      (negotiate_id : ℕ) (d : SessionData)
      → negotiate_id < 2 ^ 64
      → id < 2 ^ 64
      → h.packet_len ≡ 18 + length js
      → env.session_json.unmarshal js ≡ some d
      → session_ack_fields env h (record {
        elems = 0 ∷ 0 ∷ put_uint64 negotiate_id ++ (put_uint64 id ++ js);
        spare = spare;
      })
        ≡ ok (session_ack h no_flags negotiate_id id d)
  unfolding session_ack_fields
  session_ack_fields_lem negotiate_id d hn hid n u =
      let s : Slice = record {
        elems = 0 ∷ 0 ∷ put_uint64 negotiate_id ++ (put_uint64 id ++ js);
        spare = spare;
      } in
      let first : id_at 2 10 s ≡ ok negotiate_id =
        id_at_lem s (0 ∷ 0 ∷ []) negotiate_id ((put_uint64 id ++ js) ++ spare) 2 10
          (simp append_assoc) (omega arith) (omega arith) hn in
      let r =
        prefixed env.session_json d (0 ∷ 0 ∷ put_uint64 negotiate_id) id js spare 10 18 h.packet_len
          (omega (arith, length-put_uint64 negotiate_id)) (omega arith) n hid u in
      cc (first, r.0, r.1)

-- No identifier: the payload stands behind the return code.
pub dis_conn_ack_fields_lem :
    (env : Env) (h : PacketHeader) (js spare : List ℕ) (ret_code : ℕ) (d : ConnData)
    → h.packet_len ≡ 1 + length js
    → env.conn_json.unmarshal js ≡ some d
    → dis_conn_ack_fields env h (record { elems = ret_code ∷ js; spare = spare })
      ≡ ok (dis_conn_ack h ret_code d)
unfolding dis_conn_ack_fields index
dis_conn_ack_fields_lem env h js spare ret_code d n u = cc (
    data_at_lem env.conn_json d (record { elems = ret_code ∷ js; spare = spare }) (ret_code ∷ []) js
      spare 1 h.packet_len refl (omega arith) n u)
