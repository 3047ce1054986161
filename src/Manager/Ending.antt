-- ===== src/Manager/Ending.antt =====
-- Close and fini, and the steps of a manager.
use geminio.Common.{
  ℕ, ◌<◌, Bool, true, false, ◌≡◌, List, [], ◌∷◌, ◌++◌, length, none, Outcome, ok, panic,
  if◌then◌else◌,
}
use geminio.Packet.{Packet}
use geminio.Dialogue.{Dialogue, Fsm}
use geminio.Dialogue.Loop
use geminio.Manager.{Manager}
use geminio.Manager.Maps.{Table, update}
use geminio.Manager.Calls.{
  open_begin, open_register, open_failed, open_done, places, dialogue_online, dialogue_offline,
}
use geminio.Manager.Packets.{handle_pkt}

-- `dg.closeIO()` for every entry of a map.
unfoldable pub close_all : Table → List Dialogue → List Dialogue
unfolding update Loop.close_io
close_all [] store = store
close_all ((k, place) ∷ t) store = close_all t (update place Loop.close_io store)

unfoldable pub fini_mgr : Manager → Manager
unfolding close_all
fini_mgr g = record g {
  mgr_ok = false;
  store = close_all g.negotiating (close_all g.dialogues g.store);
  dialogues = [];
  negotiating = [];
  ids = none;
}

-- The dialogues that Close calls CloseWait of: all of the two maps.
unfoldable pub to_close : Manager → List ℕ
to_close g = if g.mgr_ok then places g.dialogues ++ places g.negotiating else []

-- Close after its WaitGroup. To close a closed channel panics.
unfoldable pub close_done : Manager → Outcome Manager
close_done g = if g.close_ch then panic else ok (record g { close_ch = true })

module _ (fsm : Fsm) where
  -- One critical section of a manager, or a change of a dialogue that is not the manager's.
  pub data Step : Manager → Manager → Type 0 where
    online : {a : Manager} (k : ℕ) → Step a (dialogue_online k a).1
    offline : {a : Manager} (k : ℕ) → Step a (dialogue_offline k a).1
    began :
        {a b : Manager} (unix i : ℕ) (meta peer : List ℕ)
        → open_begin unix meta peer a ≡ ok (i, b)
        → Step a b
    registered : {a : Manager} (i k : ℕ) → k < length a.store → Step a (open_register i k a)
    failed : {a : Manager} (i : ℕ) → Step a (open_failed i a)
    opened : {a : Manager} (i k : ℕ) → Step a (open_done fsm i k a).1
    handled :
        {a b : Manager} (unix : ℕ) (takes_done : Bool) (p : Packet)
        → handle_pkt unix takes_done p a ≡ ok b
        → Step a b
    ended : {a : Manager} → Step a (fini_mgr a)
    asked : {a b : Manager} → close_done a ≡ ok b → Step a b
    changed :
        {a : Manager} (k : ℕ) (f : Dialogue → Dialogue)
        → Step a (record a { store = update k f a.store })

  pub data Steps : Manager → Manager → Type 0 where
    stay : {a : Manager} → Steps a a
    step : {a c : Manager} (b : Manager) → Steps a b → Step b c → Steps a c
