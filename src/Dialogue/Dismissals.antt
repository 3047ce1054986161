-- ===== src/Dialogue/Dismissals.antt =====
-- The dismissals that a dialogue has sent or is about to send.
use geminio.Common.{
  if◌then◌else◌, ap, ◌∙◌, Gives, Bool-cases, Outcome-cases, Bool, ℕ, ◌+◌, ◌≤◌, ◌≡◌, refl, arith,
  List, [], ◌∷◌, ◌++◌, Option-cases, inl, inr,
}
use geminio.IdCounter.{get_id}
use geminio.Packet.{Packet, dismiss, type_dismiss}
use geminio.Packet.Factory.{header, at_least_once, session_data, new_dismiss_packet, with_new_id}
use geminio.Dialogue.Closing.{close, dismiss_once}
use geminio.Dialogue.{IoRet, Task, send_in, close_async, Moment, Dialogue}
use geminio.Dialogue.Handlers.{send_to_write_out, after_ack, finish_closewait, fail}

abbrev pub is_dismissal : Packet → ℕ
is_dismissal (dismiss h id d) = 1
is_dismissal _ = 0

abbrev pub count : List Packet → ℕ
count [] = 0
count (p ∷ ps) = is_dismissal p + count ps

abbrev pub count_tasks : List Task → ℕ
count_tasks [] = 0
count_tasks (send_in p ∷ ts) = is_dismissal p + count_tasks ts
count_tasks (close_async ∷ ts) = count_tasks ts

-- The dismissals that a dialogue has sent or is about to send.
abbrev pub dismissals : Dialogue → ℕ
dismissals dg = count_tasks dg.tasks + (count dg.write_in + count dg.write_out)

pub count-append : (ps qs : List Packet) → count (ps ++ qs) ≡ count ps + count qs
count-append [] qs = omega arith
count-append (p ∷ ps) qs = omega (arith, count-append ps qs)

pub count_tasks-append :
    (ts us : List Task) → count_tasks (ts ++ us) ≡ count_tasks ts + count_tasks us
count_tasks-append [] us = omega arith
count_tasks-append (send_in p ∷ ts) us = omega (arith, count_tasks-append ts us)
count_tasks-append (close_async ∷ ts) us = count_tasks-append ts us

-- What only the end of the loop and a cancellation change.
abbrev pub ending : Dialogue → Bool × Bool × ℕ
ending dg = (dg.finished, dg.cancelled, dg.offline_calls)

-- What no handler of a packet changes.
abbrev pub kept : Dialogue → Bool × (Bool × Bool × ℕ)
kept dg = (dg.closing, ending dg)

-- `b` has at most `k` dismissals more than `a`, and keeps the rest.
abbrev pub Adds : ℕ → Dialogue → Dialogue → Type 0
Adds k a b = (dismissals b ≤ dismissals a + k) × (kept b ≡ kept a)

-- Whether closeOnce has run.
abbrev pub closings : Dialogue → ℕ
closings dg = if dg.closing then 1 else 0

-- `b` has at most `k` dismissals more than `a`, and one more than that if closeOnce has run meanwhile.
abbrev pub Sends : ℕ → Dialogue → Dialogue → Type 0
Sends k a b = (dismissals b + closings a ≤ dismissals a + k + closings b) × (ending b ≡ ending a)

pub Adds-Sends : (k : ℕ) (a b : Dialogue) → Adds k a b → Sends k a b
Adds-Sends k a b (le, same) =
    let closed : closings b ≡ closings a = ap (λ x. if x.0 then 1 else 0) same in
    (omega (arith, le, closed), ap (λ x. x.1) same)

pub Sends-Adds : (k : ℕ) (a b c : Dialogue) → Sends 0 a b → Adds k b c → Sends k a c
Sends-Adds k a b c (le, same) (more, kept_same) =
    let closed : closings c ≡ closings b = ap (λ x. if x.0 then 1 else 0) kept_same in
    (omega (arith, le, more, closed), ap (λ x. x.1) kept_same ∙ same)

pub close-Sends : (m : Moment) (a : Dialogue) → Gives (Sends 0 a) (close m a)
unfolding close dismiss_once new_dismiss_packet with_new_id
close-Sends m a = elim (Bool-cases a.closing) [
  | inl c ↦ rw c (omega arith, refl)
  | inr c ↦ elim (Outcome-cases (get_id m.unix a.ids).0) [
    | inl (i, q) ↦
        let p =
          dismiss (header type_dismiss i at_least_once) a.dialogue_id (session_data [] [] []) in
        rw (c, q) (omega (arith, count_tasks-append a.tasks (send_in p ∷ [])), refl)
    | inr (inl (x, q)) ↦ rw (c, q) tt
    | inr (inr q) ↦ rw (c, q) tt
  ]
]

pub send_to_write_out-Adds :
    (m : Moment) (p : Packet) (r : IoRet) (dg : Dialogue)
    → Adds (is_dismissal p) dg (send_to_write_out m p r dg).1
unfolding send_to_write_out
send_to_write_out-Adds m p r dg = ground (arith, count-append dg.write_out (p ∷ []))

pub finish_closewait-Adds : (dg : Dialogue) → Adds 0 dg (finish_closewait dg)
unfolding finish_closewait
finish_closewait-Adds dg = elim (Option-cases dg.closewait) [
  | inl q ↦ rw q (omega arith, refl)
  | inr (s, q) ↦ rw q (omega arith, refl)
]

pub after_ack-Adds : (dg : Dialogue) → Adds 0 dg (after_ack dg).1
after_ack-Adds dg = ground (arith, finish_closewait-Adds dg)

pub fail-Adds : (p : Packet) (dg : Dialogue) → Adds 0 dg (fail p dg)
fail-Adds p dg = elim (Option-cases dg.failed) [
  | inl q ↦ rw q (omega arith, refl)
  | inr (s, q) ↦ rw q (omega arith, refl)
]
