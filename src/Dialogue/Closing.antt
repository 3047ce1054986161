-- ===== src/Dialogue/Closing.antt =====
-- multiplexer/dialogue.go: Close and CloseWait up to the wait for the sync.
use geminio.Common.{◌++◌, [], ◌∷◌, true, some, Outcome, ok, ◌>>=◌, if◌then◌else◌}
use geminio.Packet.{Packet}
use geminio.Packet.Ids.{packet_id}
use geminio.Packet.Factory.{Made, new_dismiss_packet}
use geminio.Dialogue.{HubCall, hub_add, send_in, Moment, Dialogue}

abbrev pub call_hub : HubCall → Dialogue → Dialogue
call_hub call dg = record dg { hub = dg.hub ++ call ∷ [] }

-- A made packet, waited for by the synchub under its identifier.
abbrev pub add_sync : Made → Dialogue → Outcome (Packet × Dialogue)
add_sync (made, ids) dg =
    made >>= λ p. ok (p, call_hub (hub_add (packet_id p)) (record dg { ids = ids }))

-- The body of closeOnce.Do in Close and CloseWait, up to the wait for the sync.
unfoldable pub dismiss_once : Moment → Dialogue → Outcome Dialogue
unfolding packet_id
dismiss_once m dg = add_sync (new_dismiss_packet m.unix dg.ids dg.dialogue_id) dg >>= λ (p, dg).
    ok (record dg {
      closing = true;
      closewait = some (packet_id p);
      tasks = dg.tasks ++ send_in p ∷ [];
    })

unfoldable pub close : Moment → Dialogue → Outcome Dialogue
unfolding dismiss_once
close m dg = let body = dismiss_once m dg in if dg.closing then ok dg else body
