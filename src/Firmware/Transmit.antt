-- ===== src/Firmware/Transmit.antt =====
-- embassy-example/src/bin/stress_tx.rs: the sending loop of the firmware, turn by turn. The modes, the
-- connections and the state are those of the program on the host.
use libcsp_rust.Base.{
  ℕ, ◌+◌, ◌%◌, ◌^◌, Bool, true, false, Option, none, some, leb, if◌then◌else◌, ◌≡◌, refl,
  Bool-cases, inl, inr,
}
use libcsp_rust.Base.Texts.{String}
use libcsp_rust.Packet.{Checked, value, panic}
use libcsp_rust.Stress.Payload.{make_payload}
use libcsp_rust.Stress.Transmit.{
  ProtocolMode, normal, rdp, sfp, rdp_sfp, data_port, sfp_port, Conn, Sender, Turn, Sent, next_mode,
  switched, linked, counted,
}
use libcsp_rust.Stress.Transmit

-- The texts of the modes in the log of the firmware
unfoldable pub to_str : ProtocolMode → String
to_str normal = "NORMAL"
to_str rdp = "RDP"
to_str sfp = "SFP"
to_str rdp_sfp = "RDP+SFP"

-- `count += 1` and the bytes, with the payload that went out.
unfoldable pub sent_out : ℕ → Option Conn → Sender → Option Sent × Sender
sent_out size via s = (
  some (record { via = via; payload = make_payload s.count size }),
  record s { bytes_sent = (s.bytes_sent + size) % 2 ^ 64; count = (s.count + 1) % 2 ^ 64 },
)

-- `if active_conn.is_none()`, and what follows it: `next` gets the connection.
unfoldable pub with_conn :
    Bool
    → Conn
    → Sender
    → (Conn → Sender → Checked (Option Sent × Sender))
    → Checked (Option Sent × Sender)
with_conn connected fresh s next = elim s.active_conn [
  | some conn ↦ next conn s
  | none ↦ if connected then next fresh (record s { active_conn = some fresh }) else value (none, s)
]

module _ (buffer_size : ℕ) (turn : Turn) where
  unfoldable pub send_packet : Option Conn → Sender → Checked (Option Sent × Sender)
  unfolding sent_out
  send_packet via s =
      if turn.packet
      then (if leb 200 buffer_size then value (sent_out 200 via s) else panic)
      else value (none, s)

  unfoldable pub send_blob : Conn → Sender → Checked (Option Sent × Sender)
  unfolding sent_out
  send_blob conn s =
      if turn.transferred
      then value (sent_out 600 (some conn) s)
      else value (none, record s { active_conn = none })

  unfoldable pub send_mode : ProtocolMode → Sender → Checked (Option Sent × Sender)
  unfolding send_packet send_blob with_conn
  send_mode normal s = send_packet none s
  send_mode rdp s =
      with_conn turn.connected (record { port = data_port; is_rdp = true }) s
        (λ conn s'. send_packet (some conn) s')
  send_mode sfp s =
      with_conn turn.connected (record { port = sfp_port; is_rdp = false }) s send_blob
  send_mode rdp_sfp s =
      with_conn turn.connected (record { port = sfp_port; is_rdp = true }) s send_blob

  unfoldable pub send_turn : Sender → Checked (Option Sent × Sender)
  unfolding send_mode
  send_turn s =
      if turn.due
      then (let s' : Sender = record s {
        active_conn = none;
        current_mode = next_mode s.current_mode;
      } in
          send_mode s'.current_mode s')
      else send_mode s.current_mode s

-- The two programs on the fields of the state, for a mode with a connection.
module _ (buffer_size : ℕ) (turn : Turn) (n b : ℕ) where
  state : ProtocolMode → Option Conn → Sender
  state mode conn = record { count = n; bytes_sent = b; current_mode = mode; active_conn = conn }

  send_packet-host :
      (packet : Bool) (via : Option Conn) (s : Sender)
      → send_packet buffer_size (record turn { packet = packet }) via s
        ≡ Transmit.send_packet buffer_size packet via s
  unfolding send_packet sent_out Transmit.send_packet counted
  send_packet-host true via s = refl
  send_packet-host false via s = refl

  with_conn-rdp :
      (mode : ProtocolMode) (fresh : Conn) (conn : Option Conn)
      → with_conn turn.connected fresh
          (state mode conn)
          (λ c s'. send_packet buffer_size turn (some c) s')
        ≡ Transmit.send_rdp buffer_size turn (linked turn.connected fresh conn) (state mode conn)
  unfolding state with_conn linked send_packet Transmit.send_rdp
  with_conn-rdp mode fresh none = elim (Bool-cases turn.connected) [
    | inl e ↦ rw e (send_packet-host turn.packet (some fresh) (state mode (some fresh)))
    | inr e ↦ rw e refl
  ]
  with_conn-rdp mode fresh (some c) = send_packet-host turn.packet (some c) (state mode (some c))

  send_blob-host :
      (mode : ProtocolMode) (conn : Conn)
      → send_blob buffer_size turn conn (state mode (some conn))
        ≡ Transmit.send_blob buffer_size turn (some conn) (state mode (some conn))
  unfolding state send_blob sent_out Transmit.send_blob counted
  send_blob-host mode conn = elim (Bool-cases turn.transferred) [
    | inl e ↦ rw e refl
    | inr e ↦ rw e refl
  ]

  with_conn-blob :
      (mode : ProtocolMode) (fresh : Conn) (conn : Option Conn)
      → with_conn turn.connected fresh (state mode conn) (send_blob buffer_size turn)
        ≡ Transmit.send_blob buffer_size turn (linked turn.connected fresh conn) (state mode conn)
  unfolding state with_conn linked send_blob Transmit.send_blob
  with_conn-blob mode fresh none = elim (Bool-cases turn.connected) [
    | inl e ↦ rw e (send_blob-host mode fresh)
    | inr e ↦ rw e refl
  ]
  with_conn-blob mode fresh (some c) = send_blob-host mode c

  send_mode-host :
      (mode current : ProtocolMode) (conn : Option Conn)
      → send_mode buffer_size turn mode (state current conn)
        ≡ Transmit.send_mode buffer_size turn mode (state current conn)
  unfolding state send_mode Transmit.send_mode
  send_mode-host normal current conn = send_packet-host turn.packet none (state current conn)
  send_mode-host rdp current conn = with_conn-rdp current _ conn
  send_mode-host sfp current conn = with_conn-blob current _ conn
  send_mode-host rdp_sfp current conn = with_conn-blob current _ conn

-- In every state and whatever the calls answer, a turn of the firmware's loop does what a turn of the
-- loop on the host does: the same payload over the same connection, and the same state after it.
pub send_turn-host :
    (buffer_size : ℕ) (turn : Turn) (s : Sender)
    → send_turn buffer_size turn s ≡ Transmit.send_turn buffer_size turn s
unfolding send_turn Transmit.send_turn switched state
send_turn-host buffer_size turn s = elim (Bool-cases turn.due) [
  | inl e ↦ rw e (
      send_mode-host buffer_size turn s.count s.bytes_sent (next_mode s.current_mode)
        (next_mode s.current_mode) none)
  | inr e ↦ rw e (
      send_mode-host buffer_size turn s.count s.bytes_sent s.current_mode s.current_mode
        s.active_conn)
]
