-- ===== src/Packet/RoundTrip/Flags.antt =====
-- The flag bytes of ConnPacket and SessionPacket, written and read.
use native.Mathlib.Nat.{pow-le-pow_left}
use native.Mathlib.Decide.{dec_lt}
use geminio.Common.{
  holds_below, holds_below_sound, ℕ, ◌+◌, ◌*◌, ◌/◌, ◌^◌, ◌≤◌, ◌<◌, ◌%◌, ◌≡◌, refl, Bool, true,
  false, ◌&&◌, ◌⊎◌, inl, inr, arith, bit_or, bit_and, ◌==◌, if◌then◌else◌,
}
use geminio.Packet.{Env, ConnFlags, SessionFlags}
use geminio.Packet.Body.{conn_flags, session_flags}
use geminio.Packet.Encode.{conn_flag_byte, session_flag_byte, bit_if}

root_unique :
    (env : Env) (h r : ℕ) → h ≤ 320 → 5 * r ^ 4 ≤ h → h < 5 * (r + 1) ^ 4 → env.fourth_root h ≡ r
root_unique env h r b lo hi = elim (dec_lt (env.fourth_root h) r) [
  | yes p ↦ absurd (
      omega (
        arith,
        env.fourth_root_above h b,
        pow-le-pow_left {n = env.fourth_root h + 1} {m = r} (omega arith) 4,
      ))
  | no p ↦ elim (dec_lt r (env.fourth_root h)) [
    | yes q ↦ absurd (
        omega (
          arith,
          env.fourth_root_below h b,
          pow-le-pow_left {n = r + 1} {m = env.fourth_root h} (omega arith) 4,
        ))
    | no q ↦ omega arith
  ]
]

-- The flags that a peer reads where the root of the heartbeat is `r`.
conn_flags-conn_flag_byte_five :
    (env : Env) (a b c d : Bool)
    → let f : ConnFlags = record {
      heartbeat = 5;
      client_id_acquire = a;
      packet_id_acquire = b;
      retain = c;
      clear = d;
    } in
      conn_flags (conn_flag_byte env f) ≡ f
unfolding conn_flags conn_flag_byte
conn_flags-conn_flag_byte_five env a b c d = ground arith

abbrev rooted : Bool → Bool → Bool → Bool → ℕ → ℕ
rooted a b c d r =
    bit_or (bit_if a 0x08 (bit_if b 0x04 (bit_if d 0x02 (bit_if c 0x01 0)))) (r * 16 % 256)

conn_flags-rooted_one :
    (a b c d : Bool)
    → conn_flags (rooted a b c d 1) ≡ record {
      heartbeat = 20;
      client_id_acquire = a;
      packet_id_acquire = b;
      retain = c;
      clear = d;
    }
unfolding conn_flags
conn_flags-rooted_one a b c d = ground arith

conn_flags-rooted_two :
    (a b c d : Bool)
    → conn_flags (rooted a b c d 2) ≡ record {
      heartbeat = 80;
      client_id_acquire = a;
      packet_id_acquire = b;
      retain = c;
      clear = d;
    }
unfolding conn_flags
conn_flags-rooted_two a b c d = ground arith

-- The heartbeat that a peer reads: 320 comes back as 80.
unfoldable pub heartbeat_received : ℕ → ℕ
heartbeat_received h = if h == 320 then 80 else h

-- Heartbeat5, Heartbeat20, Heartbeat80 and Heartbeat320.
abbrev pub IsNamedHeartbeat : ℕ → Type 0
IsNamedHeartbeat h = (h ≡ 5) ⊎ ((h ≡ 20) ⊎ ((h ≡ 80) ⊎ (h ≡ 320)))

conn_flags-conn_flag_byte_cases :
    (env : Env) (h : ℕ) (a b c d : Bool)
    → IsNamedHeartbeat h
    → conn_flags (
        conn_flag_byte env (record {
          heartbeat = h;
          client_id_acquire = a;
          packet_id_acquire = b;
          retain = c;
          clear = d;
        }))
      ≡ record {
        heartbeat = heartbeat_received h;
        client_id_acquire = a;
        packet_id_acquire = b;
        retain = c;
        clear = d;
      }
unfolding conn_flag_byte heartbeat_received
conn_flags-conn_flag_byte_cases env h a b c d (inl e) =
    rw e (conn_flags-conn_flag_byte_five env a b c d)
conn_flags-conn_flag_byte_cases env h a b c d (inr (inl e)) =
    rw (e, root_unique env 20 1 (omega arith) (omega arith) (omega arith))
      (conn_flags-rooted_one a b c d)
conn_flags-conn_flag_byte_cases env h a b c d (inr (inr (inl e))) =
    rw (e, root_unique env 80 2 (omega arith) (omega arith) (omega arith))
      (conn_flags-rooted_two a b c d)
conn_flags-conn_flag_byte_cases env h a b c d (inr (inr (inr e))) =
    rw (e, root_unique env 320 2 (omega arith) (omega arith) (omega arith))
      (conn_flags-rooted_two a b c d)

pub conn_flags-conn_flag_byte :
    (env : Env) (f : ConnFlags)
    → IsNamedHeartbeat f.heartbeat
    → conn_flags (conn_flag_byte env f) ≡ record f { heartbeat = heartbeat_received f.heartbeat }
conn_flags-conn_flag_byte env f k =
    conn_flags-conn_flag_byte_cases env f.heartbeat f.client_id_acquire f.packet_id_acquire f.retain
      f.clear k

-- Every byte of a session's flags, checked by evaluation.
qos_agrees : Bool → ℕ → Bool
qos_agrees a q =
    let b : ℕ = bit_if a 0x10 (q % 256 * 16 % 256 / 16) in
    bit_and b 0x0f == q % 16 && (if a then (bit_and b 0x10 == 16) else (bit_and b 0x10 == 0))

qos_agrees-true : (q : ℕ) → q < 256 → qos_agrees true q ≡ true
unfolding holds_below qos_agrees
qos_agrees-true q h = holds_below_sound 256 (qos_agrees true) q refl h

qos_agrees-false : (q : ℕ) → q < 256 → qos_agrees false q ≡ true
unfolding holds_below qos_agrees
qos_agrees-false q h = holds_below_sound 256 (qos_agrees false) q refl h

session_flags-session_flag_byte_cases :
    (a : Bool) (p q : ℕ)
    → q < 256
    → session_flags p (session_flag_byte (record { priority = p; qos = q; session_id_acquire = a }))
      ≡ record { priority = p; qos = q % 16; session_id_acquire = a }
unfolding session_flags session_flag_byte qos_agrees
session_flags-session_flag_byte_cases true p q h = ground (arith, qos_agrees-true q h)
session_flags-session_flag_byte_cases false p q h = ground (arith, qos_agrees-false q h)

pub session_flags-session_flag_byte :
    (f : SessionFlags)
    → f.qos < 256
    → session_flags f.priority (session_flag_byte f) ≡ record f { qos = f.qos % 16 }
session_flags-session_flag_byte f h =
    session_flags-session_flag_byte_cases f.session_id_acquire f.priority f.qos h
