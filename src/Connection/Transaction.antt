-- ===== src/Connection/Transaction.antt =====
-- The result of `Connection::transaction` and `CspNode::transaction`, from what the C call returns.
use libcsp_rust.Base.{ℕ, zero, suc, ◌≡◌, ◌↔◌, ◌⊎◌, ◌<◌, arith, false, ◌==◌, if◌then◌else◌}
use libcsp_rust.Base.Int.{ℤ, pos, negsuc, ◌==ℤ◌}
use libcsp_rust.Error.{transmit_failed, Result, ok, err}

-- `match (ret, in_len)`
unfoldable pub transaction_result : ℤ → ℤ → Result ℕ
transaction_result (pos zero) in_len = if in_len ==ℤ pos 0 then ok 0 else err transmit_failed
transaction_result (pos (suc n)) in_len =
    if n == 0 then (if in_len ==ℤ pos 0 then ok 0 else ok (suc n)) else ok (suc n)
transaction_result (negsuc n) in_len = err transmit_failed

-- `CspNode::ping`, from what the C call returns.
unfoldable pub ping_result : ℤ → Result ℕ
ping_result (pos n) = ok n
ping_result (negsuc n) = err transmit_failed

-- A transaction that awaits a reply succeeds exactly when the C call returns a positive number, and
-- then with that number.
pub transaction_result-reply_iff :
    (ret in_len : ℤ) (n : ℕ)
    → (in_len ==ℤ pos 0) ≡ false
    → (transaction_result ret in_len ≡ ok n) ↔ ((0 < n) × (ret ≡ pos n))
unfolding transaction_result
transaction_result-reply_iff (pos zero) in_len n e = ground arith
transaction_result-reply_iff (pos (suc m)) in_len n e = ground arith
transaction_result-reply_iff (negsuc m) in_len n e = ground arith

-- A transaction that awaits no reply succeeds exactly when the C call returns no negative number; a
-- return of 0 or 1 then counts no bytes, and a larger one counts as that many.
pub transaction_result-silent_iff :
    (ret : ℤ) (n : ℕ)
    → (transaction_result ret (pos 0) ≡ ok n)
      ↔ (((1 < n) × (ret ≡ pos n)) ⊎ ((n ≡ 0) × ((ret ≡ pos 0) ⊎ (ret ≡ pos 1))))
unfolding transaction_result
transaction_result-silent_iff (pos zero) n = ground arith
transaction_result-silent_iff (pos (suc m)) n = ground arith
transaction_result-silent_iff (negsuc m) n = ground arith
