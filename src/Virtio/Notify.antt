-- ===== src/Virtio/Notify.antt =====
-- The loop of queue_notify: it ends, and it keeps a device well formed.
use dromajo.Prelude.{
  ℕ, zero, suc, ◌+◌, ◌%◌, ◌^◌, ◌<◌, ◌≡◌, ap, Option, none, some, arith, ◌==◌, if◌then◌else◌, ◌>>=◌,
  length, get_or-set_self,
}
use dromajo.Virtio.{VirtioDevice, QueueState, queue_at, no_queue}
use dromajo.Virtio.Sound.{
  IsSound, SoundPair, SoundOut, queue_at-QueueOk, set_queue-IsSound, last-QueueOk,
}
use dromajo.Prelude.Returns.{Holds, either_Holds, >>=-Holds, Anything, Holds-Anything}
use dromajo.Virtio.Queue.{
  VirtioDesc, DeviceRecv, get_desc_rw_size, next_avail, advance, notify_loop, queue_notify,
  avail_idx,
}

pub advance-IsSound : (s : VirtioDevice) (q : ℕ) → IsSound s → IsSound (advance s q)
unfolding advance
advance-IsSound s q h =
    let qs = queue_at s q in
    let next = (qs.last_avail_idx + 1) % 2 ^ 16 in
    set_queue-IsSound s q (record qs { last_avail_idx = next }) h
      (last-QueueOk qs next (queue_at-QueueOk s q h) (omega arith))

pub advance-last :
    (s : VirtioDevice) (q : ℕ)
    → q < length s.queue
    → (queue_at (advance s q) q).last_avail_idx ≡ ((queue_at s q).last_avail_idx + 1) % 2 ^ 16
unfolding advance
advance-last s q h =
    let qs = queue_at s q in
    let t : QueueState = record qs { last_avail_idx = (qs.last_avail_idx + 1) % 2 ^ 16 } in
    ap (λ (r : QueueState). r.last_avail_idx) (get_or-set_self s.queue q t no_queue h)

module _ {D : Type 0} (chain : ℕ) (uninit : VirtioDesc) (device_recv : DeviceRecv D)
    (recv-IsSound : (sd : VirtioDevice × D) (q i r w : ℕ)
      → IsSound sd.0
      → Holds SoundOut (device_recv sd q i r w)) where
  notify_loop-IsSound :
      (fuel : ℕ) (sd : VirtioDevice × D) (q limit : ℕ)
      → IsSound sd.0
      → Holds SoundPair (notify_loop chain uninit device_recv fuel sd q limit)
  unfolding notify_loop
  notify_loop-IsSound zero sd q limit h =
      either_Holds SoundPair ((queue_at sd.0 q).last_avail_idx == limit) (some sd) none h tt
  notify_loop-IsSound (suc fuel) sd q limit h =
      let i = next_avail sd.0 q in
      either_Holds SoundPair ((queue_at sd.0 q).last_avail_idx == limit) (some sd) _ h (
        >>=-Holds Anything SoundPair (get_desc_rw_size chain uninit sd.0 q i) _
          (Holds-Anything (get_desc_rw_size chain uninit sd.0 q i))
          (λ found _.
            elim found
              as (λ (z : Option (ℕ × ℕ)).
                Holds (λ (x : VirtioDevice × D). IsSound x.0)
                  (elim z [
                    | none ↦
                        notify_loop chain uninit device_recv fuel (advance sd.0 q, sd.1) q limit
                    | some (r, w) ↦ device_recv sd q i r w >>= (λ out.
                        let more =
                          notify_loop chain uninit device_recv fuel (advance out.0.0 q, out.0.1) q
                            limit in
                        if out.1 then more else some out.0)
                  ])) [
                    | none ↦
                        notify_loop-IsSound fuel (advance sd.0 q, sd.1) q limit
                          (advance-IsSound sd.0 q h)
                    | some sizes ↦
                        >>=-Holds SoundOut SoundPair (device_recv sd q i sizes.0 sizes.1) _
                          (recv-IsSound sd q i sizes.0 sizes.1 h)
                          (λ out k.
                            either_Holds SoundPair out.1 _ (some out.0)
                              (notify_loop-IsSound fuel (advance out.0.0 q, out.0.1) q limit
                                (advance-IsSound out.0.0 q k))
                              k)
                  ]))

  pub queue_notify-IsSound :
      (sd : VirtioDevice × D) (q : ℕ)
      → IsSound sd.0
      → Holds SoundPair (queue_notify chain uninit device_recv sd q)
  unfolding queue_notify
  queue_notify-IsSound sd q h =
      either_Holds SoundPair (queue_at sd.0 q).manual_recv (some sd) _ h
        (notify_loop-IsSound (2 ^ 16) sd q (avail_idx sd.0 q) h)
