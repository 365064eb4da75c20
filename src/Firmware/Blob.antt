-- ===== src/Firmware/Blob.antt =====
-- A blob of the stress test on its whole way: made by the sender, carried by an SFP transfer
-- (src/connection.rs), and taken in by what the receiver does after the transfer.
use libcsp_rust.Base.{ℕ, ◌+◌, ◌%◌, ◌^◌, ◌≡◌, ◌≤◌, ◌<◌, List, some, ap, sym, ◌∙◌, arith, refl}
use libcsp_rust.Error.{ok}
use libcsp_rust.Stress.Payload.{make_payload, length-make_payload, check_payload-make_payload}
use libcsp_rust.Connection.Sfp.Calls.{Request, Fragment, Tiles}
use libcsp_rust.Connection.Sfp.Plain.{sfp_send, sfp_recv, sfp_recv-sfp_send_plain}
use libcsp_rust.Firmware.Receive.{Totals, receive_blob, tallied}

receive_blob-made :
    (count size : ℕ) (t : Totals)
    → count < 2 ^ 64
    → 8 ≤ size
    → receive_blob (ok (make_payload count size)) t
      ≡ record t { bytes_recv = (t.bytes_recv + size) % 2 ^ 64 }
unfolding receive_blob tallied
receive_blob-made count size t c h =
    rw (check_payload-make_payload count size c h, length-make_payload count size h) refl

-- Where libcsp asks for the blob in order and without a gap and delivers what it got, a blob that the
-- sender makes from its counter is sent successfully, and the receiver adds its bytes and no error.
pub receive_blob-sfp_send :
    (usize_max count size : ℕ) (reqs : List Request) (t : Totals)
    → count < 2 ^ 64
    → 8 ≤ size
    → size < 2 ^ 32
    → size ≤ usize_max
    → Tiles 0 reqs size
    → (frags : List Fragment) × (sfp_send (make_payload count size) reqs ≡ some (ok tt, frags))
      × (receive_blob (sfp_recv usize_max size frags) t
          ≡ record t { bytes_recv = (t.bytes_recv + size) % 2 ^ 64 })
receive_blob-sfp_send usize_max count size reqs t c h w u tiles =
    let e = length-make_payload count size h in
    let (frags, sent, received) =
      sfp_recv-sfp_send_plain usize_max (make_payload count size) reqs (omega (arith, e, w))
        (omega (arith, e, u)) (rw e tiles) in
    (
      frags,
      sent,
      ap (λ n. receive_blob (sfp_recv usize_max n frags) t) (sym e)
          ∙ ap (λ r. receive_blob r t) received
          ∙ receive_blob-made count size t c h,
    )
