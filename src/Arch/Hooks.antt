-- ===== src/Arch/Hooks.antt =====
-- The methods of `trait CspArch` (src/arch.rs) that have a default, and the entry points of
-- `export_arch!` for interrupts, time and hooks. A method is a function of the backend's state; a
-- backend overrides a default where its method is not `none`.
use libcsp_rust.Base.{
  List, ℕ, ◌^◌, ◌-◌, Bool, true, false, Option, none, some, ◌≡◌, ◌↔◌, refl, ap, ap₂, arith,
}
use libcsp_rust.Base.Texts.{unwrap_or, is_some}
use libcsp_rust.Base.Int.{ℤ, pos, negsuc}
use libcsp_rust.Arch.Queues.{status, as_i32}

-- The required methods that the defaults go through, on handles and items of any type.
pub record Required (S Handle Item : Type 0) : Type 0 where
  pub get_ms : S → ℕ
  pub get_s : S → ℕ
  pub bin_sem_post : Handle → S → Bool × S
  pub queue_enqueue : Handle → Item → ℕ → S → Bool × S
  pub queue_dequeue : Handle → ℕ → S → Option Item × S
  pub queue_size : Handle → S → ℕ

-- The methods with a default, as a backend gives them.
pub record Overrides (S Handle Item : Type 0) : Type 0 where
  pub get_ms_isr : Option (S → ℕ)
  pub get_uptime_s : Option (S → ℕ)
  pub bin_sem_post_isr : Option (Handle → S → Bool × S)
  pub queue_free_slots : Option (Handle → S → ℕ)
  pub queue_enqueue_isr : Option (Handle → Item → S → Bool × S)
  pub queue_dequeue_isr : Option (Handle → S → Option Item × S)
  pub queue_size_isr : Option (Handle → S → ℕ)
  pub memfree_hook : Option (S → ℕ)
  pub reboot_hook : Option (S → S)
  pub shutdown_hook : Option (S → S)
  pub ps_hook : Option (S → ℕ × S)
  pub clock_get_time : Option (S → List ℕ → List ℕ)
  pub clock_set_time : Option (S → ℤ × S)
  pub thread_create : Option (S → ℤ × S)
  pub sleep_ms : Option (ℕ → S → S)
  pub relax : Option (S → S)

-- The methods that libcsp's entry points reach: the override, or the default of the trait.
module _ {S Handle Item : Type 0} (r : Required S Handle Item) (o : Overrides S Handle Item) where
  unfoldable pub get_ms_isr : S → ℕ
  get_ms_isr = unwrap_or o.get_ms_isr r.get_ms

  unfoldable pub get_uptime_s : S → ℕ
  get_uptime_s = unwrap_or o.get_uptime_s r.get_s

  unfoldable pub bin_sem_post_isr : Handle → S → Bool × S
  bin_sem_post_isr = unwrap_or o.bin_sem_post_isr r.bin_sem_post

  -- `usize::MAX`, with 32 bits
  unfoldable pub queue_free_slots : Handle → S → ℕ
  queue_free_slots = unwrap_or o.queue_free_slots (λ queue s. 2 ^ 32 - 1)

  unfoldable pub queue_enqueue_isr : Handle → Item → S → Bool × S
  queue_enqueue_isr = unwrap_or o.queue_enqueue_isr (λ queue item s. r.queue_enqueue queue item 0 s)

  unfoldable pub queue_dequeue_isr : Handle → S → Option Item × S
  queue_dequeue_isr = unwrap_or o.queue_dequeue_isr (λ queue s. r.queue_dequeue queue 0 s)

  unfoldable pub queue_size_isr : Handle → S → ℕ
  queue_size_isr = unwrap_or o.queue_size_isr r.queue_size

  unfoldable pub memfree_hook : S → ℕ
  memfree_hook = unwrap_or o.memfree_hook (λ s. 0)

  unfoldable pub reboot_hook : S → S
  reboot_hook = unwrap_or o.reboot_hook (λ s. s)

  unfoldable pub shutdown_hook : S → S
  shutdown_hook = unwrap_or o.shutdown_hook (λ s. s)

  unfoldable pub ps_hook : S → ℕ × S
  ps_hook = unwrap_or o.ps_hook (λ s. (0, s))

  -- What the bytes of the timestamp hold afterwards
  unfoldable pub clock_get_time : S → List ℕ → List ℕ
  clock_get_time = unwrap_or o.clock_get_time (λ s time. time)

  unfoldable pub thread_create : S → ℤ × S
  thread_create = unwrap_or o.thread_create (λ s. (pos 0, s))

  unfoldable pub clock_set_time : S → ℤ × S
  clock_set_time = unwrap_or o.clock_set_time (λ s. (pos 0, s))

  unfoldable pub sleep_ms : ℕ → S → S
  sleep_ms = unwrap_or o.sleep_ms (λ ms s. s)

  unfoldable pub relax : S → S
  relax = unwrap_or o.relax (λ s. s)

  -- The entry points. Those for semaphores and queues call the plain methods.
  unfoldable pub csp_get_ms : S → ℕ
  csp_get_ms s = r.get_ms s

  unfoldable pub csp_get_s : S → ℕ
  csp_get_s s = r.get_s s

  unfoldable pub csp_get_ms_isr : S → ℕ
  unfolding get_ms_isr
  csp_get_ms_isr s = get_ms_isr s

  unfoldable pub csp_get_uptime_s : S → ℕ
  unfolding get_uptime_s
  csp_get_uptime_s s = get_uptime_s s

  unfoldable pub csp_bin_sem_post_isr : Option Handle → S → ℤ × S
  csp_bin_sem_post_isr none s = (negsuc 0, s)
  csp_bin_sem_post_isr (some sem) s = let (done, s') = r.bin_sem_post sem s in (status done, s')

  unfoldable pub csp_queue_enqueue_isr : Handle → Item → S → ℤ × S
  csp_queue_enqueue_isr queue item s =
      let (done, s') = r.queue_enqueue queue item 0 s in (status done, s')

  unfoldable pub csp_queue_dequeue_isr : Handle → S → ℤ × Option Item × S
  csp_queue_dequeue_isr queue s =
      let (out, s') = r.queue_dequeue queue 0 s in (status (is_some out), out, s')

  unfoldable pub csp_queue_size_isr : Handle → S → ℤ
  csp_queue_size_isr queue s = as_i32 (r.queue_size queue s)

  unfoldable pub csp_memfree_hook : S → ℕ
  unfolding memfree_hook
  csp_memfree_hook s = memfree_hook s

  unfoldable pub csp_reboot_hook : S → S
  unfolding reboot_hook
  csp_reboot_hook s = reboot_hook s

  unfoldable pub csp_shutdown_hook : S → S
  unfolding shutdown_hook
  csp_shutdown_hook s = shutdown_hook s

  unfoldable pub csp_ps_hook : S → ℕ × S
  unfolding ps_hook
  csp_ps_hook s = ps_hook s

  unfoldable pub csp_clock_get_time : S → List ℕ → List ℕ
  unfolding clock_get_time
  csp_clock_get_time s time = clock_get_time s time

  unfoldable pub csp_clock_set_time : S → ℤ × S
  unfolding clock_set_time
  csp_clock_set_time s = clock_set_time s

  unfoldable pub csp_sleep_ms : ℕ → S → S
  unfolding sleep_ms
  csp_sleep_ms ms s = sleep_ms ms s

  unfoldable pub csp_relax : S → S
  unfolding relax
  csp_relax s = relax s

status-injective : (a b : Bool) → status a ≡ status b → a ≡ b
status-injective true true e = refl
status-injective true false e = absurd (ground arith)
status-injective false true e = absurd (ground arith)
status-injective false false e = refl

-- What a call reports to libcsp.
abbrev reported : {S : Type 0} → Bool × S → ℤ × S
reported (done, s) = (status done, s)

reported_iff : {S : Type 0} (x y : Bool × S) → (reported x ≡ reported y) ↔ (x ≡ y)
reported_iff (a, s) (b, t) = (
  λ e. ap₂ (λ c u. (c, u)) (status-injective a b (ap (λ p. p.0) e)) (ap (λ p. p.1) e),
  λ e. ap reported e,
)

-- libcsp gets from a post or an enqueue in an interrupt what the trait's method for interrupts does
-- exactly when that method does what the plain method does with a timeout of 0; so an override
-- that does anything else is never reached.
pub isr-override_iff :
    {S Handle Item : Type 0} (r : Required S Handle Item) (o : Overrides S Handle Item)
    (handle : Handle) (item : Item) (s : S)
    → ((csp_bin_sem_post_isr r o (some handle) s
          ≡ (status (bin_sem_post_isr r o handle s).0, (bin_sem_post_isr r o handle s).1))
        ↔ (r.bin_sem_post handle s ≡ bin_sem_post_isr r o handle s))
      × ((csp_queue_enqueue_isr r o handle item s ≡ (
        status (queue_enqueue_isr r o handle item s).0,
        (queue_enqueue_isr r o handle item s).1,
      ))
          ↔ (r.queue_enqueue handle item 0 s ≡ queue_enqueue_isr r o handle item s))
unfolding csp_bin_sem_post_isr csp_queue_enqueue_isr
isr-override_iff r o handle item s = (
  reported_iff (r.bin_sem_post handle s) (bin_sem_post_isr r o handle s),
  reported_iff (r.queue_enqueue handle item 0 s) (queue_enqueue_isr r o handle item s),
)
