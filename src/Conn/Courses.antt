-- ===== src/Conn/Courses.antt =====
-- conn/conn_base.go: the closing of one side, in every order that the goroutines and the peer allow.
use geminio.Common.{List, [], ◌∷◌}
use geminio.Conn.{Conn}
use geminio.Conn.Turns.{Turn, sends, reads, acks, acked}

-- The orders in which the acknowledgement goes out after the peer's packet was read, and the peer's
-- acknowledgement is read after the own packet went out; there are no others.
abbrev pub orders : List (List Turn)
orders =
    (sends ∷ acked ∷ reads ∷ acks ∷ [])
    ∷ (sends ∷ reads ∷ acked ∷ acks ∷ [])
    ∷ (sends ∷ reads ∷ acks ∷ acked ∷ [])
    ∷ (reads ∷ sends ∷ acked ∷ acks ∷ [])
    ∷ (reads ∷ sends ∷ acks ∷ acked ∷ [])
    ∷ (reads ∷ acks ∷ sends ∷ acked ∷ [])
    ∷ []
