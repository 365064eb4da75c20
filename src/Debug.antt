-- ===== src/Debug.antt =====
-- src/debug.rs: the error counters of libcsp and its two switches for printing, as the globals that they
-- are.
use libcsp_rust.Base.{ℕ, Bool, if◌then◌else◌, ◌≡◌, refl}

-- The globals `csp_dbg_*`, each a u8.
pub record Globals : Type 0 where
  pub csp_dbg_buffer_out : ℕ
  pub csp_dbg_conn_out : ℕ
  pub csp_dbg_conn_ovf : ℕ
  pub csp_dbg_conn_noroute : ℕ
  pub csp_dbg_inval_reply : ℕ
  pub csp_dbg_errno : ℕ
  pub csp_dbg_can_errno : ℕ
  pub csp_dbg_eth_errno : ℕ
  pub csp_dbg_rdp_print : ℕ
  pub csp_dbg_packet_print : ℕ

pub record Counters : Type 0 where
  pub buffer_out : ℕ
  pub conn_out : ℕ
  pub conn_ovf : ℕ
  pub conn_noroute : ℕ
  pub inval_reply : ℕ
  pub errno : ℕ
  pub can_errno : ℕ
  pub eth_errno : ℕ

unfoldable pub counters : Globals → Counters
counters g = record {
  buffer_out = g.csp_dbg_buffer_out;
  conn_out = g.csp_dbg_conn_out;
  conn_ovf = g.csp_dbg_conn_ovf;
  conn_noroute = g.csp_dbg_conn_noroute;
  inval_reply = g.csp_dbg_inval_reply;
  errno = g.csp_dbg_errno;
  can_errno = g.csp_dbg_can_errno;
  eth_errno = g.csp_dbg_eth_errno;
}

unfoldable pub reset_counters : Globals → Globals
reset_counters g = record g {
  csp_dbg_buffer_out = 0;
  csp_dbg_conn_out = 0;
  csp_dbg_conn_ovf = 0;
  csp_dbg_conn_noroute = 0;
  csp_dbg_inval_reply = 0;
  csp_dbg_errno = 0;
  csp_dbg_can_errno = 0;
  csp_dbg_eth_errno = 0;
}

pub data RdpTrace : Type 0 where
  off errors protocol : RdpTrace

-- The numbers of the variants
unfoldable pub level_code : RdpTrace → ℕ
level_code off = 0
level_code errors = 1
level_code protocol = 2

unfoldable pub set_rdp_trace : RdpTrace → Globals → Globals
unfolding level_code
set_rdp_trace level g = record g { csp_dbg_rdp_print = level_code level }

unfoldable pub set_packet_trace : Bool → Globals → Globals
set_packet_trace enabled g = record g { csp_dbg_packet_print = if enabled then 1 else 0 }

-- After a reset every counter is 0, and the switches are as they were; the switches change no counter.
counters-reset_counters :
    (g : Globals) (level : RdpTrace) (enabled : Bool)
    → (counters (reset_counters g) ≡ record {
      buffer_out = 0;
      conn_out = 0;
      conn_ovf = 0;
      conn_noroute = 0;
      inval_reply = 0;
      errno = 0;
      can_errno = 0;
      eth_errno = 0;
    })
      × ((reset_counters g).csp_dbg_rdp_print ≡ g.csp_dbg_rdp_print)
      × ((reset_counters g).csp_dbg_packet_print ≡ g.csp_dbg_packet_print)
      × (counters (set_packet_trace enabled (set_rdp_trace level g)) ≡ counters g)
unfolding counters reset_counters set_rdp_trace set_packet_trace
counters-reset_counters g level enabled = (refl, refl, refl, refl)
