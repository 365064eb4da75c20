-- ===== src/Socket.antt =====
-- src/socket.rs: making, binding and closing a socket, over the calls of libcsp that it makes.
use libcsp_rust.Base.{ℕ}
use libcsp_rust.Base.Int.{ℤ}
use libcsp_rust.Error.{Result, ok, err, csp_result}

-- Each call returns its code and the state it leaves.
pub record SocketApi (Socket : Type 0) : Type 0 where
  pub csp_bind : Socket → ℕ → ℤ × Socket
  pub csp_listen : Socket → ℕ → ℤ × Socket

module _ {Socket : Type 0} (api : SocketApi Socket) where
  unfoldable pub listen : Socket → ℕ → Result (Unit {0}) × Socket
  listen socket backlog =
      let (ret, socket') = api.csp_listen socket backlog in (csp_result ret, socket')

  -- `?` leaves before the listen.
  unfoldable pub bind : Socket → ℕ → Result (Unit {0}) × Socket
  bind socket port =
      let (ret, socket') = api.csp_bind socket port in
      elim (csp_result ret) [ err e ↦ (err e, socket') | ok u ↦ listen socket' 0 ]

-- `csp_socket_t`
pub record CspSocket (Queue : Type 0) : Type 0 where
  pub rx_queue : Queue
  pub opts : ℕ

-- `zeroed` is a queue of zero bytes.
unfoldable pub new : {Queue : Type 0} → Queue → ℕ → CspSocket Queue
new zeroed opts = record { rx_queue = zeroed; opts = opts }

unfoldable pub drop : {Socket : Type 0} → (Socket → Socket) → Socket → Socket
drop csp_socket_close socket = csp_socket_close socket
