-- ===== src/Stress/Transmit.antt =====
-- examples/stress_tx.rs: the sending loop. A turn of the loop has what its calls answer; the pacing
-- and the logs are left out. A buffer that does not take 200 bytes panics.
pub mod Frames
use libcsp_rust.Base.{
  ℕ, ◌+◌, ◌%◌, ◌^◌, List, [], ◌∷◌, Bool, true, false, Option, none, some, leb, if◌then◌else◌, ◌/◌,
  ◌==◌,
}
use libcsp_rust.Base.Texts.{String}
use libcsp_rust.Packet.{Checked, value, panic}
use libcsp_rust.Stress.Payload.{make_payload}

-- `ProtocolMode` of examples/stress/mod.rs
pub data ProtocolMode : Type 0 where
  normal rdp sfp rdp_sfp : ProtocolMode

unfoldable pub from_count : ℕ → ProtocolMode
from_count count =
    let turn = count / 5000 % 4 in
    if turn == 0 then normal else (if turn == 1 then rdp else (if turn == 2 then sfp else rdp_sfp))

unfoldable pub as_str : ProtocolMode → String
as_str normal = "NORMAL (UDP-like)"
as_str rdp = "RDP (Reliable)"
as_str sfp = "SFP (Fragmentation)"
as_str rdp_sfp = "RDP + SFP"

abbrev pub data_port : ℕ
data_port = 10

abbrev pub sfp_port : ℕ
sfp_port = 11

-- The destination port of a connection and whether it was opened with RDP.
pub record Conn : Type 0 where
  pub port : ℕ
  pub is_rdp : Bool

-- The state between two turns.
pub record Sender : Type 0 where
  pub count : ℕ
  pub bytes_sent : ℕ
  pub current_mode : ProtocolMode
  pub active_conn : Option Conn

-- Whether 10 seconds have passed, a buffer is free, a connection opens, and the transfer succeeds.
pub record Turn : Type 0 where
  pub due : Bool
  pub packet : Bool
  pub connected : Bool
  pub transferred : Bool

-- What goes out: over which connection, if any, and the bytes.
pub record Sent : Type 0 where
  pub via : Option Conn
  pub payload : List ℕ

unfoldable pub next_mode : ProtocolMode → ProtocolMode
next_mode normal = rdp
next_mode rdp = sfp
next_mode sfp = rdp_sfp
next_mode rdp_sfp = normal

unfoldable pub switched : Bool → Sender → Sender
unfolding next_mode
switched due s =
    if due then record s { active_conn = none; current_mode = next_mode s.current_mode } else s

-- `count` and `bytes_sent` are u64.
unfoldable pub counted : ℕ → Option Conn → Sender → Option Sent × Sender
counted size via s = (
  some (record { via = via; payload = make_payload s.count size }),
  record s { count = (s.count + 1) % 2 ^ 64; bytes_sent = (s.bytes_sent + size) % 2 ^ 64 },
)

-- The connection kept, or a new one.
unfoldable pub linked : Bool → Conn → Option Conn → Option Conn
linked connected fresh none = if connected then some fresh else none
linked connected fresh (some conn) = some conn

module _ (buffer_size : ℕ) where
  unfoldable pub send_packet : Bool → Option Conn → Sender → Checked (Option Sent × Sender)
  unfolding counted
  send_packet packet via s =
      if packet
      then (if leb 200 buffer_size then value (counted 200 via s) else panic)
      else value (none, s)

  -- The connection of an RDP turn, or `continue`.
  unfoldable pub send_rdp : Turn → Option Conn → Sender → Checked (Option Sent × Sender)
  unfolding send_packet
  send_rdp turn none s = value (none, record s { active_conn = none })
  send_rdp turn (some conn) s =
      send_packet turn.packet (some conn) (record s { active_conn = some conn })

  -- A failed transfer drops the connection.
  unfoldable pub send_blob : Turn → Option Conn → Sender → Checked (Option Sent × Sender)
  unfolding counted
  send_blob turn none s = value (none, record s { active_conn = none })
  send_blob turn (some conn) s =
      if turn.transferred
      then value (counted 600 (some conn) (record s { active_conn = some conn }))
      else value (none, record s { active_conn = none })

  unfoldable pub send_mode : Turn → ProtocolMode → Sender → Checked (Option Sent × Sender)
  unfolding send_packet send_rdp send_blob linked
  send_mode turn normal s = send_packet turn.packet none s
  send_mode turn rdp s =
      send_rdp turn
        (linked turn.connected (record { port = data_port; is_rdp = true }) s.active_conn) s
  send_mode turn sfp s =
      send_blob turn
        (linked turn.connected (record { port = sfp_port; is_rdp = false }) s.active_conn) s
  send_mode turn rdp_sfp s =
      send_blob turn
        (linked turn.connected (record { port = sfp_port; is_rdp = true }) s.active_conn) s

  -- One turn of the loop.
  unfoldable pub send_turn : Turn → Sender → Checked (Option Sent × Sender)
  unfolding send_mode switched
  send_turn turn s = let s' = switched turn.due s in send_mode turn s'.current_mode s'

abbrev pub listed : Option Sent → List Sent → List Sent
listed none rest = rest
listed (some out) rest = out ∷ rest

-- One computation after another; a panic ends both.
unfoldable pub bind {ℓ κ} : {A : Type ℓ} {B : Type κ} → Checked A → (A → Checked B) → Checked B
bind panic f = panic
bind (value a) f = f a

-- The turns one after another, with what goes out.
module _ (buffer_size : ℕ) where
  unfoldable pub send_all : List Turn → Sender → Checked (List Sent × Sender)
  unfolding send_turn bind
  send_all [] s = value ([], s)
  send_all (turn ∷ turns) s =
      bind (send_turn buffer_size turn s)
        (λ (out, s'). bind (send_all turns s') (λ (outs, s''). value (listed out outs, s'')))

unfoldable pub start : Sender
start = record { count = 0; bytes_sent = 0; current_mode = normal; active_conn = none }
