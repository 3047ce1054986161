-- ===== src/Machine.antt =====
-- What the dialogues and the connections share: the state machines of github.com/singchia/yafsm,
-- which are a parameter, and the results of handlers (pkg/iodefine/iodefine.go).
use geminio.Common.{
  ℕ, Bool, true, ◌==◌, ◌&&◌, List, [], ◌∷◌, Option, none, some, ◌≡◌, if◌then◌else◌,
}

-- iodefine.IORet
pub data IoRet : Type 0 where
  io_success io_data io_reconnect io_new io_new_active io_new_passive io_closed : IoRet
  io_closed_active io_closed_passive io_err io_exit io_discard : IoRet

-- States and events are strings, which go by their numbers here.
module _ {E S : Type 0} (event_code : E → ℕ) (state_code : S → ℕ) where
  -- The first AddEvent call for an event and a state.
  abbrev pub registered : List (E × S × S) → E → S → Option S
  registered [] e s = none
  registered ((e', from, to) ∷ rest) e s =
      let later = registered rest e s in
      if event_code e' == event_code e && state_code from == state_code s then some to else later

  -- No two calls for one event and one state that differ in the target.
  abbrev pub determines : List (E × S × S) → Bool
  determines [] = true
  determines ((e, from, to) ∷ rest) = elim (registered rest e from) [
    | none ↦ determines rest
    | some s ↦ state_code s == state_code to && determines rest
  ]

  -- yafsm: EmitEvent takes the registered transition of the current state, or returns an error and
  -- stays.
  pub record Fsm : Type 0 where
    pub emit_event : List (E × S × S) → E → S → Option S
    pub emit_event_registered :
        (t : List (E × S × S)) (e : E) (s : S)
        → determines t ≡ true
        → emit_event t e s ≡ registered t e s
