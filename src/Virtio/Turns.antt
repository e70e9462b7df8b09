-- ===== src/Virtio/Turns.antt =====
-- The passes of the loop of queue_notify as a relation, and the ways in which the loop ends. A pass
-- takes the next entry of the available ring; the handler leaves the queues as they are.
use dromajo.Prelude.{
  ℕ, zero, suc, ◌+◌, ◌-◌, ◌%◌, ◌^◌, ◌≤◌, ◌<◌, ◌≡◌, ◌≢◌, ap, sym, ◌∙◌, inl, inr, Bool, true, false,
  Option, none, some, arith, ◌==◌, Option-cases, Bool-cases, List, get_or,
}
use dromajo.Virtio.{VirtioDevice, QueueState, queue_at, no_queue}
use dromajo.Virtio.Sound.{IsSound, queue_at-QueueOk}
use dromajo.Prelude.Returns.{Holds, Holds-some}
use dromajo.Virtio.Kept.{SameQueues, SameQueues-IsSound}
use dromajo.Virtio.Queue.{
  VirtioDesc, DeviceRecv, get_desc_rw_size, next_avail, advance, notify_loop, queue_notify,
  avail_idx,
}
use dromajo.Virtio.Notify.{advance-IsSound, advance-last}

module _ {D : Type 0} (chain : ℕ) (uninit : VirtioDesc) (device_recv : DeviceRecv D) (q : ℕ) where
  -- The sizes of the chain that the next entry names.
  abbrev pub next_sizes : VirtioDevice × D → Option (Option (ℕ × ℕ))
  next_sizes sd = get_desc_rw_size chain uninit sd.0 q (next_avail sd.0 q)

  abbrev pub handle : VirtioDevice × D → ℕ × ℕ → Option ((VirtioDevice × D) × Bool)
  handle sd rw = device_recv sd q (next_avail sd.0 q) rw.0 rw.1

  -- A device that has gone on to another by whole passes: an entry without sizes is passed over, and
  -- an entry that the handler has taken is left behind.
  pub data Turns : VirtioDevice × D → VirtioDevice × D → Type 0 where
    here : {sd : VirtioDevice × D} → Turns sd sd
    skipped :
        {sd t : VirtioDevice × D}
        → next_sizes sd ≡ some none
        → Turns (advance sd.0 q, sd.1) t
        → Turns sd t
    handled :
        {sd t : VirtioDevice × D} (rw : ℕ × ℕ) (out : VirtioDevice × D)
        → next_sizes sd ≡ some (some rw)
        → handle sd rw ≡ some (out, true)
        → Turns (advance out.0 q, out.1) t
        → Turns sd t

  -- The end of the loop at a device, with what it returns: all entries up to `limit` are consumed, the
  -- handler has refused the next, or the next pass does not return.
  pub data Ended (limit : ℕ) (t : VirtioDevice × D) : Option (VirtioDevice × D) → Type 0 where
    consumed : (queue_at t.0 q).last_avail_idx ≡ limit → Ended limit t (some t)
    refused :
        (rw : ℕ × ℕ) (out : VirtioDevice × D)
        → next_sizes t ≡ some (some rw)
        → handle t rw ≡ some (out, false)
        → (queue_at out.0 q).last_avail_idx ≡ (queue_at t.0 q).last_avail_idx
        → Ended limit t (some out)
    chain_stuck : next_sizes t ≡ none → Ended limit t none
    handler_stuck :
        (rw : ℕ × ℕ) → next_sizes t ≡ some (some rw) → handle t rw ≡ none → Ended limit t none

  abbrev pub Run : VirtioDevice × D → ℕ → Option (VirtioDevice × D) → Type 0
  Run sd limit r = (t : VirtioDevice × D) × Turns sd t × Ended limit t r

  module _
      (recv-keeps : (sd : VirtioDevice × D) (i r w : ℕ)
        → Holds
            (λ (out : (VirtioDevice × D) × Bool). SameQueues sd.0 out.0.0)
            (device_recv sd q i r w))
      (limit : ℕ) (limit-lt : limit < 2 ^ 16) (q-lt : q < 8) where
    kept :
        (sd : VirtioDevice × D) (rw : ℕ × ℕ) (out : (VirtioDevice × D) × Bool)
        → handle sd rw ≡ some out
        → SameQueues sd.0 out.0.0
    kept sd rw out e =
        Holds-some (λ (o : (VirtioDevice × D) × Bool). SameQueues sd.0 o.0.0) (handle sd rw) out
          (recv-keeps sd (next_avail sd.0 q) rw.0 rw.1) e

    kept_last :
        (sd : VirtioDevice × D) (rw : ℕ × ℕ) (out : (VirtioDevice × D) × Bool)
        → handle sd rw ≡ some out
        → (queue_at out.0.0 q).last_avail_idx ≡ (queue_at sd.0 q).last_avail_idx
    kept_last sd rw out e =
        ap (λ (l : List QueueState). (get_or l q no_queue).last_avail_idx) (kept sd rw out e).0

    -- A step to the next entry shortens what is left.
    advance-left :
        (s : VirtioDevice) (fuel : ℕ)
        → IsSound s
        → (queue_at s q).last_avail_idx ≢ limit
        → (limit + (2 ^ 16 - (queue_at s q).last_avail_idx)) % 2 ^ 16 ≤ suc fuel
        → (limit + (2 ^ 16 - (queue_at (advance s q) q).last_avail_idx)) % 2 ^ 16 ≤ fuel
    advance-left s fuel h ne enough =
        let word = (queue_at-QueueOk s q h).last_word in
        let e = advance-last s q (omega (arith, h.count)) in omega (arith, word, e)

    notify_loop-Run :
        (fuel : ℕ) (sd : VirtioDevice × D)
        → IsSound sd.0
        → (limit + (2 ^ 16 - (queue_at sd.0 q).last_avail_idx)) % 2 ^ 16 ≤ fuel
        → Run sd limit (notify_loop chain uninit device_recv fuel sd q limit)
    unfolding notify_loop
    notify_loop-Run zero sd h enough =
        let word = (queue_at-QueueOk sd.0 q h).last_word in
        let all : (queue_at sd.0 q).last_avail_idx ≡ limit = omega (arith, word) in
        let test : ((queue_at sd.0 q).last_avail_idx == limit) ≡ true = ground arith in
        rw test (sd, here, consumed all)
    notify_loop-Run (suc fuel) sd h enough =
        elim (Bool-cases ((queue_at sd.0 q).last_avail_idx == limit)) [
          | inl test ↦
              let all : (queue_at sd.0 q).last_avail_idx ≡ limit = ground arith in
              rw test (sd, here, consumed all)
          | inr test ↦
              let ne : (queue_at sd.0 q).last_avail_idx ≢ limit = ground arith in
              elim (Option-cases (next_sizes sd)) [
                | inl stuck ↦ rw (test, stuck) (sd, here, chain_stuck stuck)
                | inr (none, sizes) ↦
                    let (t, turns, ended) =
                      notify_loop-Run fuel (advance sd.0 q, sd.1) (advance-IsSound sd.0 q h)
                        (advance-left sd.0 fuel h ne enough) in
                    rw (test, sizes) (t, skipped sizes turns, ended)
                | inr (some sizes, found) ↦ elim (Option-cases (handle sd sizes)) [
                  | inl stuck ↦ rw (test, found, stuck) (sd, here, handler_stuck sizes found stuck)
                  | inr ((out, false), taken) ↦
                      rw (test, found, taken)
                        (
                          sd,
                          here,
                          refused sizes out found taken (kept_last sd sizes (out, false) taken),
                        )
                  | inr ((out, true), taken) ↦
                      let sound =
                        SameQueues-IsSound sd.0 out.0 h (kept sd sizes (out, true) taken) in
                      let last = kept_last sd sizes (out, true) taken in
                      let (t, turns, ended) =
                        notify_loop-Run fuel (advance out.0 q, out.1)
                          (advance-IsSound out.0 q sound)
                          (advance-left out.0 fuel sound (λ e. ne (sym last ∙ e))
                            (omega (arith, last, enough))) in
                      rw (test, found, taken) (t, handled sizes out found taken turns, ended)
                ]
              ]
        ]

-- queue_notify, on one of the eight queues of a well-formed device that is not read by hand, makes whole
-- passes up to a device where it ends in one of four ways: every entry up to the 16-bit index that the
-- guest left is consumed, the handler refuses the next, or a call of the next pass does not return. The
-- handler leaves the queues as they are, by hypothesis.
pub queue_notify-Run :
    {D : Type 0} (chain : ℕ) (uninit : VirtioDesc) (device_recv : DeviceRecv D) (q : ℕ)
    → ((sd : VirtioDevice × D) (i r w : ℕ)
        → Holds
            (λ (out : (VirtioDevice × D) × Bool). SameQueues sd.0 out.0.0)
            (device_recv sd q i r w))
    → (sd : VirtioDevice × D) → IsSound sd.0
    → q < 8
    → avail_idx sd.0 q < 2 ^ 16
    → (queue_at sd.0 q).manual_recv ≡ false
    → Run chain uninit device_recv q sd
        (avail_idx sd.0 q)
        (queue_notify chain uninit device_recv sd q)
unfolding queue_notify
queue_notify-Run chain uninit device_recv q keeps sd h q-lt word auto = rw auto (
    notify_loop-Run chain uninit device_recv q keeps (avail_idx sd.0 q) word q-lt (2 ^ 16) sd h
      (omega arith))
