-- ===== src/Manager/Calls.antt =====
-- NewDialogueMgr, OpenDialogue, the delegate's calls of dialogues, GetDialogue and ListDialogues.
use geminio.Common.{
  ℕ, ◌==◌, Bool, true, false, List, [], ◌∷◌, ◌++◌, get_elem?, Option, none, some, Outcome, ok,
  panic, ◌>>=◌, if◌then◌else◌, ◌⊎◌, inl, inr,
}
use geminio.IdCounter.{IdCounter, Mode, odd, even, new_id_counter, reserve_id, get_id}
use geminio.Conn.{Side, initiator_side, recipient_side}
use geminio.Dialogue.{Dialogue, sessioned, Fsm}
use geminio.Dialogue.Opening.{new_dialogue}
use geminio.Dialogue.Loop.{fini_dialogue}
use geminio.Manager.{
  Manager, Refusal, operation_on_closed_multiplexer, dialogue_not_found, unfound_client_id, Call,
  delegate_online, delegate_offline, accept_fn, accept_ch, closed_fn, closed_ch,
}
use geminio.Manager.Maps.{Table, lookup, insert, delete, update}

-- packet.SessionID1
abbrev pub session_id_1 : ℕ
session_id_1 = 1

abbrev pub id_mode : Side → Mode
id_mode recipient_side = even
id_mode initiator_side = odd

abbrev pub peers_call : Side → Bool
peers_call initiator_side = true
peers_call recipient_side = false

-- The dialogue that every manager starts with.
abbrev pub default_dialogue : IdCounter → List ℕ → Dialogue
default_dialogue pf meta = record (new_dialogue pf meta [] 0 false none) {
  state = sessioned;
  dialogue_id = session_id_1;
}

-- With the random bytes of the counter, the meta of the connection, and the outside's options: the
-- delegate, the two functions and the two channels.
unfoldable pub new_dialogue_mgr :
    Option (ℕ × ℕ × ℕ × ℕ)
    → Side
    → ℕ
    → List ℕ
    → IdCounter
    → Bool × Bool × Bool × Bool × Bool
    → Outcome Manager
unfolding new_id_counter reserve_id new_dialogue
new_dialogue_mgr r side client_id meta pf (dlgt, on_accept, accepts, on_closed, closes) =
    let reserved = reserve_id session_id_1 (new_id_counter (id_mode side) r) in
    reserved.0 >>= λ u. ok (record {
      side = side;
      client_id = client_id;
      ids = some reserved.1;
      mgr_ok = true;
      dialogues = (session_id_1, 0) ∷ [];
      negotiating = [];
      store = default_dialogue pf meta ∷ [];
      pf = pf;
      has_delegate = dlgt;
      has_accept_fn = on_accept;
      has_accept_ch = accepts;
      has_closed_fn = on_closed;
      has_closed_ch = closes;
      calls = [];
      close_ch = false;
    })

-- GetID on dialogueIDs, which is nil after fini.
unfoldable pub draw_negotiating_id : ℕ → Manager → Outcome (ℕ × Manager)
draw_negotiating_id unix g = elim g.ids [
  | none ↦ panic
  | some c ↦ (get_id unix c).0 >>= λ i. ok (i, record g { ids = some (get_id unix c).1 })
]

-- NewDialogue with the options of OpenDialogue and of handlePkt; the place of the dialogue is the
-- length of the old store.
unfoldable pub make_dialogue : ℕ → List ℕ → List ℕ → Manager → Manager
unfolding new_dialogue
make_dialogue id meta peer g = record g {
  store = g.store ++ new_dialogue g.pf meta peer id (peers_call g.side) none ∷ [];
}

-- The three critical sections of OpenDialogue, with the identifier and the place of its dialogue: it
-- draws and makes, it registers, and after open it fails or is done.
unfoldable pub open_begin : ℕ → List ℕ → List ℕ → Manager → Outcome (ℕ × Manager)
unfolding draw_negotiating_id make_dialogue
open_begin unix meta peer g =
    draw_negotiating_id unix g >>= λ (i, g). ok (i, make_dialogue i meta peer g)

unfoldable pub open_register : ℕ → ℕ → Manager → Manager
unfolding insert
open_register id place g = record g { negotiating = insert id place g.negotiating }

unfoldable pub open_failed : ℕ → Manager → Manager
unfolding delete
open_failed id g = record g { negotiating = delete id g.negotiating }

-- DialogueID of the dialogue at a place.
abbrev pub dialogue_id_at : ℕ → Manager → ℕ
dialogue_id_at place g = elim (get_elem? g.store place) [ none ↦ 0 | some dg ↦ dg.dialogue_id ]

abbrev pub negotiating_id_at : ℕ → Manager → ℕ
negotiating_id_at place g = elim (get_elem? g.store place) [
  | none ↦ 0
  | some dg ↦ dg.negotiating_id
]

unfoldable pub open_done : Fsm → ℕ → ℕ → Manager → Option Refusal × Manager
unfolding delete insert update fini_dialogue
open_done fsm id place g =
    let left = delete id g.negotiating in
    if g.mgr_ok
    then (
      none,
      record g {
        negotiating = left;
        dialogues = insert (dialogue_id_at place g) place g.dialogues;
      },
    )
    else (
      some operation_on_closed_multiplexer,
      record g { negotiating = left; store = update place (fini_dialogue fsm) g.store },
    )

-- Who is told of a dialogue: the delegate, and a function or else a channel.
abbrev told : Bool → Call → Bool → Call → Bool → Call → List Call
told d x f y c z = (if d then x ∷ [] else []) ++ (if f then y ∷ [] else if c then z ∷ [] else [])

unfoldable pub dialogue_online : ℕ → Manager → Option Refusal × Manager
unfolding delete insert
dialogue_online place g =
    let calls =
      told g.has_delegate (delegate_online place) g.has_accept_fn (accept_fn place) g.has_accept_ch
        (accept_ch place) in
    if g.mgr_ok
    then (
      none,
      record g {
        negotiating = delete (negotiating_id_at place g) g.negotiating;
        dialogues = insert (dialogue_id_at place g) place g.dialogues;
        calls = g.calls ++ calls;
      },
    )
    else (some operation_on_closed_multiplexer, g)

-- It returns ErrDialogueNotFound on every path.
unfoldable pub dialogue_offline : ℕ → Manager → Option Refusal × Manager
unfolding lookup delete
dialogue_offline place g =
    let calls =
      told g.has_delegate (delegate_offline place) g.has_closed_fn (closed_fn place) g.has_closed_ch
        (closed_ch place) in
    let id = dialogue_id_at place g in
    elim (lookup id g.dialogues) [
      | none ↦ (some dialogue_not_found, g)
      | some k ↦ (
        some dialogue_not_found,
        record g { dialogues = delete id g.dialogues; calls = g.calls ++ calls },
      )
    ]

-- GetDialogue, with the place of the dialogue.
unfoldable pub get_dialogue : ℕ → ℕ → Manager → Refusal ⊎ ℕ
unfolding lookup
get_dialogue client_id id g =
    if g.client_id == client_id
    then elim (lookup id g.dialogues) [ none ↦ inl dialogue_not_found | some k ↦ inr k ]
    else inl unfound_client_id

abbrev pub places : Table → List ℕ
places [] = []
places ((k, v) ∷ t) = v ∷ places t

-- ListDialogues; the order of a Go map is left open, here it is that of the pairs.
unfoldable pub list_dialogues : Manager → List ℕ
list_dialogues g = places g.dialogues
