-- ===== src/Stress/Transmit/Frames.antt =====
-- What the sending loop puts out, and the connection it keeps.
use libcsp_rust.Base.{
  ℕ, ◌^◌, ◌≤◌, ◌<◌, List, [], ◌∷◌, Bool, true, false, Option, none, some, leb, ◌==◌, if◌then◌else◌,
  ◌≡◌, ◌⊎◌, inl, inr, refl, ap, sym, ◌∙◌, Bool-cases, arith, All,
}
use libcsp_rust.Packet.{Checked, value, panic}
use libcsp_rust.Stress.Payload.{make_payload}
use libcsp_rust.Stress.Transmit.{
  ProtocolMode, normal, rdp, sfp, rdp_sfp, data_port, sfp_port, Conn, Sender, Turn, Sent, switched,
  counted, linked, send_packet, send_rdp, send_blob, send_mode, send_turn, listed, bind, send_all,
}

-- A computation that does not panic, with a property of its value.
abbrev pub Ends {ℓ} : {A : Type ℓ} → (A → Type 0) → Checked A → Type 0
Ends P (value a) = P a
Ends P panic = ⊥

-- 200 bytes go out without a connection or to the data port, and 600 to the other.
abbrev pub size_of : Option Conn → ℕ
size_of none = 200
size_of (some conn) = if conn.port == data_port then 200 else 600

-- A payload made from a counter, of the size for its connection.
abbrev pub IsFrame : Sent → Type 0
IsFrame out = (c : ℕ) × (c < 2 ^ 64) × (out.payload ≡ make_payload c (size_of out.via))

-- The connection of a mode.
abbrev pub link_of : ProtocolMode → Option Conn
link_of normal = none
link_of rdp = some (record { port = data_port; is_rdp = true })
link_of sfp = some (record { port = sfp_port; is_rdp = false })
link_of rdp_sfp = some (record { port = sfp_port; is_rdp = true })

-- The sender has no connection, or the one of its mode.
abbrev pub IsReady : Sender → Type 0
IsReady s = ((s.active_conn ≡ none) ⊎ (s.active_conn ≡ link_of s.current_mode)) × (s.count < 2 ^ 64)

abbrev pub IsTurn : Option Sent × Sender → Type 0
IsTurn (out, s) = All IsFrame (listed out []) × IsReady s

counted-IsTurn :
    (size : ℕ) (via : Option Conn) (s : Sender)
    → IsReady s
    → size ≡ size_of via
    → IsTurn (counted size via s)
unfolding counted
counted-IsTurn size via s h e =
    (((s.count, h.1, ap (make_payload s.count) e), tt), (h.0, omega arith))

linked-none_or :
    (connected : Bool) (fresh : Conn) (conn : Option Conn)
    → (conn ≡ none) ⊎ (conn ≡ some fresh)
    → (linked connected fresh conn ≡ none) ⊎ (linked connected fresh conn ≡ some fresh)
unfolding linked
linked-none_or true fresh none h = inr refl
linked-none_or false fresh none h = inl refl
linked-none_or connected fresh (some conn) h = h

moved :
    (conn : Option Conn) (mode mode' : ProtocolMode)
    → mode ≡ mode'
    → (conn ≡ none) ⊎ (conn ≡ link_of mode)
    → (conn ≡ none) ⊎ (conn ≡ link_of mode')
moved conn mode mode' m (inl e) = inl e
moved conn mode mode' m (inr e) = inr (e ∙ ap link_of m)

switched-IsReady : (due : Bool) (s : Sender) → IsReady s → IsReady (switched due s)
unfolding switched
switched-IsReady true s h = (inl refl, h.1)
switched-IsReady false s h = h

-- The connection that a turn in `mode` uses is that of the mode, if there is one.
linked-link_of :
    (connected : Bool) (fresh : Conn) (mode : ProtocolMode) (s : Sender)
    → some fresh ≡ link_of mode
    → s.current_mode ≡ mode
    → IsReady s
    → (linked connected fresh s.active_conn ≡ none)
      ⊎ (linked connected fresh s.active_conn ≡ link_of mode)
linked-link_of connected fresh mode s e m h = elim (moved s.active_conn s.current_mode mode m h.0) [
  | inl n ↦ elim (linked-none_or connected fresh s.active_conn (inl n)) [
    | inl a ↦ inl a
    | inr b ↦ inr (b ∙ e)
  ]
  | inr n ↦ elim (linked-none_or connected fresh s.active_conn (inr (n ∙ sym e))) [
    | inl a ↦ inl a
    | inr b ↦ inr (b ∙ e)
  ]
]

module _ (buffer_size : ℕ) (fits : 200 ≤ buffer_size) where
  send_packet-IsTurn :
      (packet : Bool) (via : Option Conn) (s : Sender)
      → IsReady s
      → 200 ≡ size_of via
      → Ends IsTurn (send_packet buffer_size packet via s)
  unfolding send_packet
  send_packet-IsTurn true via s h e = rw (leb_true) (counted-IsTurn 200 via s h e)
    where
      leb_true : leb 200 buffer_size ≡ true
      leb_true = ground (arith, fits)
  send_packet-IsTurn false via s h e = (tt, h)

  send_rdp-IsTurn :
      (turn : Turn) (conn : Option Conn) (s : Sender)
      → s.current_mode ≡ rdp
      → s.count < 2 ^ 64
      → (conn ≡ none) ⊎ (conn ≡ link_of rdp)
      → Ends IsTurn (send_rdp buffer_size turn conn s)
  unfolding send_rdp
  send_rdp-IsTurn turn none s m c h = (tt, (inl refl, c))
  send_rdp-IsTurn turn (some conn) s m c (inl e) = absurd (ground arith)
  send_rdp-IsTurn turn (some conn) s m c (inr e) =
      send_packet-IsTurn turn.packet (some conn) (record s { active_conn = some conn })
        (inr (e ∙ ap link_of (sym m)), c) (sym (ap size_of e))

  send_blob-IsTurn :
      (turn : Turn) (conn : Option Conn) (s : Sender)
      → s.count < 2 ^ 64
      → 600 ≡ size_of (link_of s.current_mode)
      → (conn ≡ none) ⊎ (conn ≡ link_of s.current_mode)
      → Ends IsTurn (send_blob buffer_size turn conn s)
  unfolding send_blob
  send_blob-IsTurn turn none s c z h = (tt, (inl refl, c))
  send_blob-IsTurn turn (some conn) s c z (inl e) = absurd (ground arith)
  send_blob-IsTurn turn (some conn) s c z (inr e) = elim (Bool-cases turn.transferred) [
    | inl t ↦ rw t (
        counted-IsTurn 600 (some conn) (record s { active_conn = some conn }) (inr e, c)
          (z ∙ sym (ap size_of e)))
    | inr f ↦ rw f (tt, (inl refl, c))
  ]

  send_mode-IsTurn :
      (turn : Turn) (mode : ProtocolMode) (s : Sender)
      → s.current_mode ≡ mode
      → IsReady s
      → Ends IsTurn (send_mode buffer_size turn mode s)
  unfolding send_mode
  send_mode-IsTurn turn normal s m h = send_packet-IsTurn turn.packet none s h refl
  send_mode-IsTurn turn rdp s m h =
      send_rdp-IsTurn turn _ s m h.1
        (linked-link_of turn.connected (record { port = data_port; is_rdp = true }) rdp s refl m h)
  send_mode-IsTurn turn sfp s m h =
      let fresh : Conn = record { port = sfp_port; is_rdp = false } in
      let conn = linked turn.connected fresh s.active_conn in
      send_blob-IsTurn turn conn s h.1 (ap (λ mode. size_of (link_of mode)) (sym m))
        (moved conn sfp s.current_mode (sym m) (linked-link_of turn.connected fresh sfp s refl m h))
  send_mode-IsTurn turn rdp_sfp s m h =
      let fresh : Conn = record { port = sfp_port; is_rdp = true } in
      let conn = linked turn.connected fresh s.active_conn in
      send_blob-IsTurn turn conn s h.1 (ap (λ mode. size_of (link_of mode)) (sym m)) (
        moved conn rdp_sfp s.current_mode (sym m)
          (linked-link_of turn.connected fresh rdp_sfp s refl m h))

  send_turn-IsTurn :
      (turn : Turn) (s : Sender) → IsReady s → Ends IsTurn (send_turn buffer_size turn s)
  unfolding send_turn
  send_turn-IsTurn turn s h =
      let s' = switched turn.due s in
      send_mode-IsTurn turn s'.current_mode s' refl (switched-IsReady turn.due s h)

Ends-bind :
    {A B : Type 0} (P : A → Type 0) (Q : B → Type 0) (m : Checked A) (f : A → Checked B)
    → Ends P m
    → ((a : A) → P a → Ends Q (f a))
    → Ends Q (bind m f)
unfolding bind
Ends-bind P Q (value a) f h k = k a h
Ends-bind P Q panic f h k = h

listed-frames :
    (out : Option Sent) (outs : List Sent)
    → All IsFrame (listed out [])
    → All IsFrame outs
    → All IsFrame (listed out outs)
listed-frames none outs h k = k
listed-frames (some o) outs (h, _) k = (h, k)

-- The outputs and the state after several turns.
abbrev pub IsRun : List Sent × Sender → Type 0
IsRun (outs, s) = All IsFrame outs × IsReady s

-- Where a buffer takes 200 bytes, no sequence of turns panics, whatever the calls answer. Each payload
-- that goes out is made from a 64-bit counter and has the size of its destination, and the
-- connection kept at the end is the one of the mode.
pub send_all-IsRun :
    (buffer_size : ℕ) (turns : List Turn) (s : Sender)
    → 200 ≤ buffer_size
    → IsReady s
    → Ends IsRun (send_all buffer_size turns s)
unfolding send_all
send_all-IsRun buffer_size [] s fits h = (tt, h)
send_all-IsRun buffer_size (turn ∷ turns) s fits h =
    Ends-bind IsTurn IsRun (send_turn buffer_size turn s) _
      (send_turn-IsTurn buffer_size fits turn s h)
      (λ (out, s') t.
        Ends-bind IsRun IsRun (send_all buffer_size turns s') _
          (send_all-IsRun buffer_size turns s' fits t.1)
          (λ (outs, s'') r. (listed-frames out outs t.0 r.0, r.1)))
