-- ===== src/Ffi.antt =====
-- src/ffi_util.rs: the guard around every callback that libcsp calls.
use libcsp_rust.Base.{Bool, true, false, Option, none, some}
use libcsp_rust.Packet.{Checked, value, panic}

-- With the standard library a panic is caught and nothing is left of it; without, it ends the
-- process.
unfoldable pub guard {ℓ} : {A : Type ℓ} → Bool → Checked A → Checked (Option A)
guard std (value a) = value (some a)
guard true panic = value none
guard false panic = panic
