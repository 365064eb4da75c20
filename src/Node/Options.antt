-- ===== src/Node/Options.antt =====
-- The options of RDP and the loopback of src/init.rs. The state of libcsp `L` and its calls are parameters.
use libcsp_rust.Base.{ℕ, ◌≡◌, refl}
use libcsp_rust.Base.Int.{ℤ, pos}

pub record RdpOptions : Type 0 where
  pub window_size : ℕ
  pub conn_timeout_ms : ℕ
  pub packet_timeout_ms : ℕ
  pub delayed_acks : ℕ
  pub ack_timeout : ℕ
  pub ack_delay_count : ℕ

abbrev pub zeros : RdpOptions
zeros = record {
  window_size = 0;
  conn_timeout_ms = 0;
  packet_timeout_ms = 0;
  delayed_acks = 0;
  ack_timeout = 0;
  ack_delay_count = 0;
}

module _ {L : Type 0} where
  unfoldable pub rdp_set_opt : (ℕ → ℕ → ℕ → ℕ → ℕ → ℕ → L → L) → ℕ → ℕ → ℕ → ℕ → ℕ → ℕ → L → L
  rdp_set_opt csp_rdp_set_opt window_size conn_timeout_ms packet_timeout_ms delayed_acks ack_timeout
        ack_delay_count l =
      csp_rdp_set_opt window_size conn_timeout_ms packet_timeout_ms delayed_acks ack_timeout
        ack_delay_count l

  -- `csp_rdp_get_opt` stores into the six variables.
  unfoldable pub rdp_get_opt : (L → RdpOptions → RdpOptions) → L → ℕ × ℕ × ℕ × ℕ × ℕ × ℕ
  rdp_get_opt csp_rdp_get_opt l =
      let o = csp_rdp_get_opt l zeros in
      (
        o.window_size, o.conn_timeout_ms, o.packet_timeout_ms, o.delayed_acks, o.ack_timeout,
        o.ack_delay_count,
      )

  -- Where what libcsp stores are the options that it was given last, they are read in the order in which
  -- they are set.
  rdp_get_opt-rdp_set_opt :
      (set : ℕ → ℕ → ℕ → ℕ → ℕ → ℕ → L → L) (get : L → RdpOptions → RdpOptions)
      → ((a b c d e f : ℕ) (l : L) (o : RdpOptions)
          → get (set a b c d e f l) o ≡ record {
            window_size = a;
            conn_timeout_ms = b;
            packet_timeout_ms = c;
            delayed_acks = d;
            ack_timeout = e;
            ack_delay_count = f;
          })
      → (a b c d e f : ℕ) (l : L)
      → rdp_get_opt get (rdp_set_opt set a b c d e f l) ≡ (a, b, c, d, e, f)
  unfolding rdp_get_opt rdp_set_opt
  rdp_get_opt-rdp_set_opt set get h a b c d e f l = rw (h a b c d e f l zeros) refl

  -- The packet goes into the queue of the router as one of the interface of the node itself.
  unfoldable pub self_iface_tx : {P I : Type 0} → (P → I → L → L) → I → P → L → ℤ × L
  self_iface_tx csp_qfifo_write self_iface packet l = (pos 0, csp_qfifo_write packet self_iface l)
