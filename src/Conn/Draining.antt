-- ===== src/Conn/Draining.antt =====
-- The packets that fini finds in the channels.
use geminio.Common.{
  ◌≡◌, refl, true, false, List, [], ◌∷◌, ◌++◌, append_assoc, append-nil, Option, some,
  if◌then◌else◌, Bool-cases, inl, inr, ◌∙◌, ap, ◌+◌, ◌&&◌,
}
use geminio.Packet.{Packet}
use geminio.Packet.Ids.{conn_layer}
use geminio.Conn.{Fsm, Moment, Conn}
use geminio.Conn.Base.{fail}
use geminio.Conn.Loop.{fail_all, take_down, fini_conn, end_loop, is_known}
use geminio.Conn.Keeping.{Side-cases}

-- The packets of the layers above the connection.
abbrev pub above : List Packet → List Packet
above [] = []
above (p ∷ ps) = let rest = above ps in if conn_layer p then rest else p ∷ rest

-- What is told to failedCh, and the two channels to the net.Conn.
abbrev pub told : Conn → Option (List Packet) × List Packet × List Packet
told c = (c.failed, c.write_in, c.write_out)

fail-conn_layer : (p : Packet) (c : Conn) → conn_layer p ≡ true → fail p c ≡ c
unfolding fail
fail-conn_layer p c q = rw q refl

fail_above :
    (p : Packet) (qs : List Packet) (c : Conn)
    → conn_layer p ≡ false
    → c.failed ≡ some qs
    → fail p c ≡ record c { failed = some (qs ++ p ∷ []) }
unfolding fail
fail_above p qs c q e = rw (q, e) refl

fail_all-told :
    (ps qs : List Packet) (c : Conn)
    → c.failed ≡ some qs
    → told (fail_all ps c) ≡ (some (qs ++ above ps), c.write_in, c.write_out)
unfolding fail_all
fail_all-told [] qs c e = rw (append-nil qs) (rw e refl)
fail_all-told (p ∷ ps) qs c e = elim (Bool-cases (conn_layer p)) [
  | inl q ↦ rw q (ap (λ d. told (fail_all ps d)) (fail-conn_layer p c q) ∙ fail_all-told ps qs c e)
  | inr q ↦
      let d = record c { failed = some (qs ++ p ∷ []) } in
      let rest : told (fail_all ps d) ≡ (some (qs ++ p ∷ above ps), c.write_in, c.write_out) =
        fail_all-told ps (qs ++ p ∷ []) d refl
        ∙ ap (λ x. (some x, c.write_in, c.write_out)) (append_assoc qs (p ∷ []) (above ps)) in
      rw q (ap (λ d. told (fail_all ps d)) (fail_above p qs c q e) ∙ rest)
]

take_down-told : (c : Conn) → told (take_down c) ≡ (c.failed, [], [])
unfolding take_down
take_down-told c = elim (Side-cases c.side) [ inl e ↦ rw e refl | inr e ↦ rw e refl ]

module _ (fsm : Fsm) where
  -- When handlePkt ends, with a failedCh, it tells it every packet above the connection that waits in
  -- writeInCh and then in writeOutCh, each once and in its order, and no packet of the connection's own;
  -- both channels are then empty.
  pub end_loop-told :
      (m : Moment) (c : Conn) (qs : List Packet)
      → c.failed ≡ some qs
      → told (end_loop fsm m c) ≡ (some (qs ++ above c.write_in ++ above c.write_out), [], [])
  unfolding end_loop fini_conn
  end_loop-told m c qs e =
      let calls = if m.has_delegate && is_known c then c.offline_calls + 1 else c.offline_calls in
      let down = take_down (record c { offline_calls = calls }) in
      let d = take_down-told (record c { offline_calls = calls }) in
      let first = fail_all-told c.write_in qs down (ap (λ x. x.0) d ∙ e) in
      let second =
        fail_all-told c.write_out (qs ++ above c.write_in) (fail_all c.write_in down)
          (ap (λ x. x.0) first) in
      second ∙ ap (λ x. (some (qs ++ above c.write_in ++ above c.write_out), x.1, x.2)) first
