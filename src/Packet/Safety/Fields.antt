-- ===== src/Packet/Safety/Fields.antt =====
-- On a buffer of PacketLen bytes, which payload decoders panic.
use native.Mathlib.Decide.{dec_lt}
use geminio.Common.{
  ℕ, ◌≤◌, ◌≡◌, refl, List, length, ok, arith, false, ltb, lt→ltb, le→ltb, inl, inr, ◌>>=◌,
}
use geminio.Wire.{full}
use geminio.Packet.{Env, Json, PacketHeader, Packet}
use geminio.Packet.Body.{
  data_at, id_and_data, id_and_bytes, conn_ack_fields, dis_conn_ack_fields, session_fields,
  session_ack_fields, request_cancel_fields,
}
use geminio.Packet.Safety.Reads.{
  panics, index_total, index_panics, slice_total, id_at_total, id_at_panics, data_at_cases,
  uint16_short, uint16_total,
}

module _ (body : List ℕ) where
  -- An identifier and a JSON payload.
  pub panics-id_and_data :
      {D : Type 0} (j : Json D) (n : ℕ) (make : ℕ → D → Packet)
      → n ≡ length body
      → panics (id_and_data j n (full body) make) ≡ ltb n 8
  panics-id_and_data j n make e = elim (dec_lt n 8) [
    | yes p ↦ rw (lt→ltb n 8 p) (rw (id_at_panics body 0 8 (omega arith)))
    | no p ↦
        let (v, r) = id_at_total body 0 8 refl (omega arith) in
        rw (le→ltb n 8 (omega arith)) (elim (data_at_cases body j 8 n (omega arith) (omega arith)) [
          | inl (d, q) ↦ rw r (rw q)
          | inr q ↦ rw r (rw q)
        ])
  ]

  pub panics-id_and_bytes :
      (n : ℕ) (make : ℕ → List ℕ → Packet)
      → n ≡ length body
      → panics (id_and_bytes n (full body) make) ≡ ltb n 8
  panics-id_and_bytes n make e = elim (dec_lt n 8) [
    | yes p ↦ rw (lt→ltb n 8 p) (rw (id_at_panics body 0 8 (omega arith)))
    | no p ↦
        let (v, r) = id_at_total body 0 8 refl (omega arith) in
        let (bs, q, l) = slice_total body 8 n (omega arith) (omega arith) in
        rw (le→ltb n 8 (omega arith)) (rw r (rw q))
  ]

  -- A JSON payload that stands behind reads that have succeeded.
  panics-data_at :
      {D : Type 0} (j : Json D) (lo n : ℕ) (make : D → Packet)
      → lo ≤ n
      → n ≡ length body
      → panics (data_at j lo n (full body) >>= λ d. ok (make d)) ≡ false
  panics-data_at j lo n make l e = elim (data_at_cases body j lo n l (omega arith)) [
    | inl (d, q) ↦ rw q
    | inr q ↦ rw q
  ]

  module _ (env : Env) (h : PacketHeader) (e : h.packet_len ≡ length body) where
    pub panics-conn_ack_fields : panics (conn_ack_fields env h (full body)) ≡ ltb h.packet_len 9
    unfolding conn_ack_fields
    panics-conn_ack_fields = elim (dec_lt h.packet_len 9) [
      | yes p ↦ rw (lt→ltb h.packet_len 9 p) (elim (dec_lt 0 h.packet_len) [
        | yes q ↦
            rw ((index_total body 0 (omega arith)).1) (rw (id_at_panics body 1 9 (omega arith)))
        | no q ↦ rw (index_panics body 0 (omega arith))
      ])
      | no p ↦ rw (le→ltb h.packet_len 9 (omega arith)) (
          rw ((index_total body 0 (omega arith)).1) (
            rw ((id_at_total body 1 9 refl (omega arith)).1)
              (panics-data_at env.conn_json 9 h.packet_len _ (omega arith) e)))
    ]

    pub panics-dis_conn_ack_fields :
        panics (dis_conn_ack_fields env h (full body)) ≡ ltb h.packet_len 1
    unfolding dis_conn_ack_fields
    panics-dis_conn_ack_fields = elim (dec_lt h.packet_len 1) [
      | yes p ↦ rw (lt→ltb h.packet_len 1 p) (rw (index_panics body 0 (omega arith)))
      | no p ↦ rw (le→ltb h.packet_len 1 (omega arith)) (
          rw ((index_total body 0 (omega arith)).1)
            (panics-data_at env.conn_json 1 h.packet_len _ (omega arith) e))
    ]

    pub panics-session_fields : panics (session_fields env h (full body)) ≡ ltb h.packet_len 10
    unfolding session_fields
    panics-session_fields = elim (dec_lt h.packet_len 10) [
      | yes p ↦ rw (lt→ltb h.packet_len 10 p) (elim (dec_lt 0 h.packet_len) [
        | yes q ↦ rw ((index_total body 0 (omega arith)).1) (elim (dec_lt 1 h.packet_len) [
          | yes r ↦
              rw ((index_total body 1 (omega arith)).1) (rw (id_at_panics body 2 10 (omega arith)))
          | no r ↦ rw (index_panics body 1 (omega arith))
        ])
        | no q ↦ rw (index_panics body 0 (omega arith))
      ])
      | no p ↦ rw (le→ltb h.packet_len 10 (omega arith)) (
          rw ((index_total body 0 (omega arith)).1) (
            rw ((index_total body 1 (omega arith)).1) (
              rw ((id_at_total body 2 10 refl (omega arith)).1)
                (panics-data_at env.session_json 10 h.packet_len _ (omega arith) e))))
    ]

    pub panics-session_ack_fields :
        panics (session_ack_fields env h (full body)) ≡ ltb h.packet_len 18
    unfolding session_ack_fields
    panics-session_ack_fields = elim (dec_lt h.packet_len 18) [
      | yes p ↦ rw (lt→ltb h.packet_len 18 p) (elim (dec_lt h.packet_len 10) [
        | yes q ↦ rw (id_at_panics body 2 10 (omega arith))
        | no q ↦
            rw ((id_at_total body 2 10 refl (omega arith)).1)
              (rw (id_at_panics body 10 18 (omega arith)))
      ])
      | no p ↦ rw (le→ltb h.packet_len 18 (omega arith)) (
          rw ((id_at_total body 2 10 refl (omega arith)).1) (
            rw ((id_at_total body 10 18 refl (omega arith)).1)
              (panics-data_at env.session_json 18 h.packet_len _ (omega arith) e)))
    ]

    pub panics-request_cancel_fields :
        8 ≤ h.packet_len
        → panics (request_cancel_fields h h.packet_len (full body)) ≡ ltb h.packet_len 10
    unfolding request_cancel_fields
    panics-request_cancel_fields g =
        let (v, r) = id_at_total body 0 8 refl (omega arith) in
        let (bs, q, l) = slice_total body 8 h.packet_len (omega arith) (omega arith) in
        elim (dec_lt h.packet_len 10) [
          | yes p ↦ rw (lt→ltb h.packet_len 10 p) (rw r (rw q (rw (uint16_short bs (omega arith)))))
          | no p ↦
              rw (le→ltb h.packet_len 10 (omega arith))
                (rw r (rw q (rw ((uint16_total bs (omega arith)).1))))
        ]
