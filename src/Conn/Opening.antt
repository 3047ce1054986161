-- ===== src/Conn/Opening.antt =====
-- The opening handshake of a client and a server with a net.Conn between them.
use geminio.Common.{ℕ, List, [], ◌∷◌, Option, none, some, Outcome, ok, err, panic}
use geminio.Packet.{Packet}
use geminio.Packet.RoundTrip.Peer.{as_received}
use geminio.Conn.{Fsm, Moment, Conn}
use geminio.Conn.Base.{send_to_write_in}
use geminio.Conn.Client
use geminio.Conn.Loop.{on_read_in, on_write_in, write_down, route}

abbrev pub last : List Packet → Option Packet
last [] = none
last (p ∷ []) = some p
last (p ∷ q ∷ ps) = last (q ∷ ps)

abbrev pub result : {A : Type 0} → Outcome A → Option A
result (ok a) = some a
result (err e) = none
result panic = none

abbrev pub settled : Option (Outcome Conn) → Option Conn
settled none = none
settled (some o) = result o

infixl 5 ◌>>=◌
abbrev pub ◌>>=◌ : {A B : Type 0} → Option A → (A → Option B) → Option B
none >>= f = none
some a >>= f = f a

abbrev pub first_task : Moment → List Packet → Conn → Option Conn
first_task m [] c = none
first_task m (p ∷ ps) c = some (send_to_write_in m p (record c { tasks = ps })).1

module _ (fsm : Fsm) where
  -- The client connects, up to its packet on the net.Conn.
  unfoldable pub opens : Moment → Conn → Option (Packet × Conn)
  opens m a = do
    (x, a) ← result (Client.connect m a)
    a ← settled (on_write_in fsm m a)
    a ← write_down m a
    p ← last a.wire
    some (p, a)

  -- The server reads the client's packet and writes the answer.
  unfoldable pub answers : Moment → Packet → Conn → Option (Packet × Conn)
  answers m p b = do
    b ← settled (on_read_in fsm m (route p b))
    b ← first_task m b.tasks b
    b ← settled (on_write_in fsm m b)
    b ← write_down m b
    q ← last b.wire
    some (q, b)

  unfoldable pub finishes : Moment → Packet → Conn → Option Conn
  finishes m q a = settled (on_read_in fsm m (route q a))

  -- A packet crosses the net.Conn to the server with `n` bytes behind its header, and the answer
  -- comes back with `k`. The moments are those of the two sides.
  unfoldable pub handshake : Moment → Moment → ℕ → ℕ → Conn → Conn → Option (Conn × Conn)
  handshake at bt n k a b = do
    (p, a) ← opens at a
    (q, b) ← answers bt (as_received n p) b
    a ← finishes at (as_received k q) a
    some (a, b)
