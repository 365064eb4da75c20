-- ===== src/Connection/Sfp/RoundTrip.antt =====
-- What one side sends is what the other side receives.
use libcsp_rust.Base.{
  ℕ, ◌^◌, ◌≡◌, ◌≤◌, ◌<◌, List, map, Bool, true, some, length, take, ap, ap₂, ◌∙◌,
}
use libcsp_rust.Error.{ok}
use libcsp_rust.Connection.Sfp.{sfp_result}
use libcsp_rust.Connection.Sfp.Calls.{Request, Fragment, Tiles, fragment, watch_all}
use libcsp_rust.Connection.Sfp.Send.{sfp_send_with_progress, sfp_send_lem, told}
use libcsp_rust.Connection.Sfp.Receive.{sfp_recv_with_progress, sfp_recv_lem}

-- When neither closure aborts, a blob shorter than 2 ^ 32 that fits a usize is sent successfully by
-- calls that ask for it in order and without a gap, and the fragments that they deliver are received
-- as that blob.
pub sfp_recv-sfp_send :
    {S T : Type 0} (usize_max : ℕ) (on_sent : S → ℕ → ℕ → Bool × S)
    (on_received : T → ℕ → ℕ → List ℕ → Bool × T)
    → ((s : S) (n total : ℕ) → (on_sent s n total).0 ≡ true)
    → ((t : T) (n total : ℕ) (prefix : List ℕ) → (on_received t n total prefix).0 ≡ true)
    → (blob : List ℕ) (reqs : List Request) (s : S) (t : T) → length blob < 2 ^ 32
    → length blob ≤ usize_max
    → Tiles 0 reqs (length blob)
    → (frags : List Fragment) × (s' : S) × (sfp_send_with_progress on_sent blob reqs s
        ≡ some (ok tt, frags, s'))
      × ((sfp_recv_with_progress usize_max on_received (length blob) frags t).0 ≡ ok blob)
unfolding sfp_result
sfp_recv-sfp_send {S = S} {T = T} usize_max on_sent on_received a b blob reqs s t h u tiles =
    let told_all =
      watch_all (λ s end'. on_sent s end' (length blob)) (λ s n. a s n (length blob)) reqs s in
    let shown_all =
      watch_all (λ t end'. on_received t end' (length blob) (take end' blob))
        (λ t n. b t n (length blob) (take n blob)) reqs t in
    (
      map (fragment blob) reqs,
      (told on_sent (length blob) reqs s).2,
      sfp_send_lem on_sent blob reqs s h tiles
          ∙ ap₂
              (λ code done. some (
                sfp_result code tt,
                map (fragment blob) done,
                (told on_sent (length blob) reqs s).2,
              ))
              told_all.0 told_all.1,
      ap (λ r. r.0) (sfp_recv_lem usize_max on_received blob reqs t h u tiles)
          ∙ ap (λ code. sfp_result code blob) shown_all.0,
    )
