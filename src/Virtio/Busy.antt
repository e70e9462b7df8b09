-- ===== src/Virtio/Busy.antt =====
-- The block device while a request is under way.
use dromajo.Prelude.{ℕ, ◌^◌, ◌<◌, ◌≡◌, refl, ap, sym, ◌∙◌, Bool, true, false, Option, none, some}
use mathlib.Core.Path.{subst}
use dromajo.Virtio.{VirtioDevice, queue_at}
use dromajo.Virtio.Sound.{IsSound}
use dromajo.Prelude.Returns.{Holds}
use dromajo.Virtio.Queue.{VirtioDesc, DeviceRecv, queue_notify, avail_idx, advance, next_avail}
use dromajo.Virtio.Turns.{
  Turns, here, skipped, handled, Ended, consumed, refused, chain_stuck, handler_stuck,
  queue_notify-Run,
}
use dromajo.Virtio.Block.{BlockResult, VirtioBlockDevice, virtio_block_recv_request}
use dromajo.Virtio.Devices.{virtio_block_recv_request-SameQueues}

module _ {W : Type 0} (chain : ℕ) (uninit : VirtioDesc)
    (read_async : W → ℕ → (ℕ → ℕ) → ℕ → W × (ℕ → ℕ) × BlockResult)
    (write_async : W → ℕ → (ℕ → ℕ) → ℕ → W × BlockResult) where
  abbrev handler : DeviceRecv (VirtioBlockDevice W)
  handler = virtio_block_recv_request chain uninit read_async write_async

  -- The request, the disk, the guest's RAM and the interrupt stay.
  pub record Untouched (a b : VirtioDevice × VirtioBlockDevice W) : Type 0 where
    pub device : b.1 ≡ a.1
    pub memory : b.0.mem_map ≡ a.0.mem_map
    pub interrupt : b.0.int_status ≡ a.0.int_status
    pub level : b.0.irq_level ≡ a.0.irq_level

  busy_handler :
      (sd : VirtioDevice × VirtioBlockDevice W) (q i r w : ℕ)
      → sd.1.req_in_progress ≡ true
      → handler sd q i r w ≡ some (sd, false)
  unfolding virtio_block_recv_request
  busy_handler (s, d) q i r w busy = rw busy refl

  advance-Untouched :
      (a b : VirtioDevice × VirtioBlockDevice W) (q : ℕ)
      → Untouched (advance a.0 q, a.1) b
      → Untouched a b
  unfolding advance
  advance-Untouched a b q h = record {
    device = h.device;
    memory = h.memory;
    interrupt = h.interrupt;
    level = h.level;
  }

  Turns-Untouched :
      (q : ℕ) (a b : VirtioDevice × VirtioBlockDevice W)
      → a.1.req_in_progress ≡ true
      → Turns chain uninit handler q a b
      → Untouched a b
  Turns-Untouched q a b busy here = record {
    device = refl;
    memory = refl;
    interrupt = refl;
    level = refl;
  }
  Turns-Untouched q a b busy (skipped e rest) =
      advance-Untouched a b q (Turns-Untouched q (advance a.0 q, a.1) b busy rest)
  Turns-Untouched q a b busy (handled sizes out e took rest) =
      absurd (cc (took, busy_handler a q (next_avail a.0 q) sizes.0 sizes.1 busy))

  Ended-Untouched :
      (q limit : ℕ) (a : VirtioDevice × VirtioBlockDevice W)
      (o : Option (VirtioDevice × VirtioBlockDevice W))
      → a.1.req_in_progress ≡ true
      → Ended chain uninit handler q limit a o
      → Holds (Untouched a) o
  Ended-Untouched q limit a _ busy (consumed e) = record {
    device = refl;
    memory = refl;
    interrupt = refl;
    level = refl;
  }
  Ended-Untouched q limit a _ busy (refused sizes out e took last) =
      let same : out ≡ a =
        ap
          (λ (o : Option ((VirtioDevice × VirtioBlockDevice W) × Bool)). elim o [
            | none ↦ a
            | some r ↦ r.0
          ])
          (sym took ∙ busy_handler a q (next_avail a.0 q) sizes.0 sizes.1 busy) in
      subst (λ (b : VirtioDevice × VirtioBlockDevice W). Untouched a b) (sym same)
        (record { device = refl; memory = refl; interrupt = refl; level = refl })
  Ended-Untouched q limit a _ busy (chain_stuck e) = tt
  Ended-Untouched q limit a _ busy (handler_stuck sizes e stuck) = tt

  Untouched-Holds :
      (a b : VirtioDevice × VirtioBlockDevice W) (o : Option (VirtioDevice × VirtioBlockDevice W))
      → Untouched a b
      → Holds (Untouched b) o
      → Holds (Untouched a) o
  Untouched-Holds a b none h k = tt
  Untouched-Holds a b (some c) h k = record {
    device = k.device ∙ h.device;
    memory = k.memory ∙ h.memory;
    interrupt = k.interrupt ∙ h.interrupt;
    level = k.level ∙ h.level;
  }

  -- While a request of the block device is under way, a notification of one of the eight queues of a
  -- well-formed device, with a 16-bit index and not read by hand, leaves the request, the disk, the
  -- guest's RAM and the interrupt as they are, if it returns.
  pub queue_notify-busy :
      (sd : VirtioDevice × VirtioBlockDevice W) (q : ℕ)
      → IsSound sd.0
      → q < 8
      → avail_idx sd.0 q < 2 ^ 16
      → (queue_at sd.0 q).manual_recv ≡ false
      → sd.1.req_in_progress ≡ true
      → Holds (Untouched sd) (queue_notify chain uninit handler sd q)
  queue_notify-busy sd q h lt word auto busy =
      let keeps = λ (a : VirtioDevice × VirtioBlockDevice W) (i r w : ℕ).
        virtio_block_recv_request-SameQueues chain uninit read_async write_async a q i r w in
      let (t, turns, ended) = queue_notify-Run chain uninit handler q keeps sd h lt word auto in
      let so_far = Turns-Untouched q sd t busy turns in
      Untouched-Holds sd t _ so_far (
        Ended-Untouched q (avail_idx sd.0 q) t _
          (ap (λ (d : VirtioBlockDevice W). d.req_in_progress) so_far.device ∙ busy) ended)
