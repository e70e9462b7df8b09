-- ===== src/Virtio/Devices.antt =====
-- The handlers of requests of the block, network, console and input devices, and the well-formedness
-- of the device they work on.
use dromajo.Prelude.{ℕ, ◌+◌, ◌-◌, ◌%◌, ◌^◌, refl, ◌∙◌, Bool, false, not, none, some, ◌==◌, ◌>>=◌}
use dromajo.Memory.{update}
use dromajo.Virtio.{VirtioDevice}
use dromajo.Virtio.Sound.{IsSound, SoundPair, SoundOut}
use dromajo.Prelude.Returns.{Holds, Holds-impl, either_Holds, >>=-Holds, Anything, Holds-Anything}
use dromajo.Virtio.Kept.{
  SameQueues, SameQueues-IsSound, virtio_consume_desc-SameQueues, memcpy_to_queue-SameQueues,
}
use dromajo.Virtio.Queue.{
  VirtioDesc, lt_int, memcpy_from_queue, memcpy_to_queue, virtio_consume_desc,
}
use dromajo.Virtio.Notify.{queue_notify-IsSound}
use dromajo.Virtio.Block.{
  BlockResult, started, finished, failed, VirtioBlockDevice, virtio_blk_t_in, virtio_blk_t_out,
  status_of, virtio_block_req_end, after_async, start_request, virtio_block_recv_request,
  virtio_block_req_cb, header_type,
}
use dromajo.Virtio.Net.{virtio_net_recv_request, header_size}
use dromajo.Virtio.Console.{virtio_console_recv_request}
use dromajo.Virtio.Input.{virtio_input_recv_request}

-- What a handler leaves has the queues of the device `s`.
abbrev pub SameOut : {D : Type 0} → VirtioDevice → (VirtioDevice × D) × Bool → Type 0
SameOut s out = SameQueues s out.0.0

abbrev pub SamePair : {D : Type 0} → VirtioDevice → VirtioDevice × D → Type 0
SamePair s sd = SameQueues s sd.0

consume_after-SameQueues :
    (s t : VirtioDevice) (q i len : ℕ)
    → SameQueues s t
    → SameQueues s (virtio_consume_desc t q i len)
consume_after-SameQueues s t q i len k =
    let e = virtio_consume_desc-SameQueues t q i len in (e.0 ∙ k.0, e.1 ∙ k.1)

module _ (chain : ℕ) (uninit : VirtioDesc) where
  pub virtio_input_recv_request-SameQueues :
      {D : Type 0} (sd : VirtioDevice × D) (q i r w : ℕ)
      → Holds (SameOut sd.0) (virtio_input_recv_request sd q i r w)
  unfolding virtio_input_recv_request
  virtio_input_recv_request-SameQueues sd q i r w =
      either_Holds (SameOut sd.0) (q == 1) _ _ (virtio_consume_desc-SameQueues sd.0 q i 0)
        (refl, refl)

  pub virtio_console_recv_request-SameQueues :
      {W : Type 0} (write_data : (ℕ → ℕ) → ℕ → W → W) (sd : VirtioDevice × W) (q i r w : ℕ)
      → Holds (SameOut sd.0) (virtio_console_recv_request chain uninit write_data sd q i r w)
  unfolding virtio_console_recv_request
  virtio_console_recv_request-SameQueues write_data sd q i r w =
      let m = memcpy_from_queue chain uninit sd.0 uninit q i 0 r in
      either_Holds (SameOut sd.0) (q == 1) _ _
        (>>=-Holds Anything (SameOut sd.0) m _ (Holds-Anything m)
          (λ b _. virtio_consume_desc-SameQueues sd.0 q i 0))
        (refl, refl)

  pub virtio_net_recv_request-SameQueues :
      {W : Type 0} (write_packet : (ℕ → ℕ) → ℕ → W → W) (sd : VirtioDevice × W) (q i r w : ℕ)
      → Holds (SameOut sd.0) (virtio_net_recv_request chain uninit write_packet sd q i r w)
  unfolding virtio_net_recv_request
  virtio_net_recv_request-SameQueues write_packet sd q i r w =
      let len = (r + (2 ^ 32 - header_size)) % 2 ^ 32 in
      let m = memcpy_from_queue chain uninit sd.0 uninit q i 0 header_size in
      let n = memcpy_from_queue chain uninit sd.0 uninit q i header_size len in
      either_Holds (SameOut sd.0) (not (q == 1)) _ _ (refl, refl)
        (>>=-Holds Anything (SameOut sd.0) m _ (Holds-Anything m) (λ b _.
          either_Holds (SameOut sd.0) (not b.1) _ _ (refl, refl)
            (>>=-Holds Anything (SameOut sd.0) n _ (Holds-Anything n)
              (λ c _. virtio_consume_desc-SameQueues sd.0 q i 0))))

module _ {W : Type 0} (chain : ℕ) (uninit : VirtioDesc) where
  filled-SameQueues :
      (s : VirtioDevice) (d : VirtioBlockDevice W) (q i : ℕ) (buf : ℕ → ℕ) (n : ℕ)
      → Holds (SamePair s) (
          memcpy_to_queue chain uninit s q i 0 buf n
          >>= (λ r. some (virtio_consume_desc r.0 q i n, d)))
  filled-SameQueues s d q i buf n =
      >>=-Holds (λ (r : VirtioDevice × Bool). SameQueues s r.0) (SamePair s)
        (memcpy_to_queue chain uninit s q i 0 buf n) _
        (memcpy_to_queue-SameQueues chain uninit s q i 0 buf n)
        (λ r k. consume_after-SameQueues s r.0 q i n k)

  pub virtio_block_req_end-SameQueues :
      (sd : VirtioDevice × VirtioBlockDevice W) (ret : BlockResult)
      → Holds (SamePair sd.0) (virtio_block_req_end chain uninit sd ret)
  unfolding virtio_block_req_end
  virtio_block_req_end-SameQueues (s, d) ret =
      let req = d.req in
      let n = req.write_size in
      either_Holds (SamePair s) (req.type == virtio_blk_t_in) _ _
        (either_Holds (SamePair s) (lt_int n 1) none _ tt (
          filled-SameQueues s d req.queue_idx req.desc_idx (update req.buf (n - 1) (status_of ret))
            n))
        (either_Holds (SamePair s) (req.type == virtio_blk_t_out) _ none
          (filled-SameQueues s d req.queue_idx req.desc_idx (λ _. status_of ret) 1) tt)

  module _ (read_async : W → ℕ → (ℕ → ℕ) → ℕ → W × (ℕ → ℕ) × BlockResult)
      (write_async : W → ℕ → (ℕ → ℕ) → ℕ → W × BlockResult) where
    after_async-SameQueues :
        (sd : VirtioDevice × VirtioBlockDevice W) (ret : BlockResult)
        → Holds (SameOut sd.0) (after_async chain uninit read_async write_async sd ret)
    unfolding after_async
    after_async-SameQueues (s, d) started = (refl, refl)
    after_async-SameQueues (s, d) finished =
        >>=-Holds (SamePair s) (SameOut s) (virtio_block_req_end chain uninit (s, d) finished) _
          (virtio_block_req_end-SameQueues (s, d) finished) (λ r k. k)
    after_async-SameQueues (s, d) failed =
        >>=-Holds (SamePair s) (SameOut s) (virtio_block_req_end chain uninit (s, d) failed) _
          (virtio_block_req_end-SameQueues (s, d) failed) (λ r k. k)

    start_request-SameQueues :
        (sd : VirtioDevice × VirtioBlockDevice W) (hdr : ℕ → ℕ) (r w : ℕ)
        → Holds (SameOut sd.0) (start_request chain uninit read_async write_async sd hdr r w)
    unfolding start_request
    start_request-SameQueues (s, d) hdr r w =
        let len = (r + (2 ^ 32 - 16)) % 2 ^ 32 in
        let m = memcpy_from_queue chain uninit s uninit d.req.queue_idx d.req.desc_idx 16 len in
        either_Holds (SameOut s) (header_type hdr == virtio_blk_t_in) _ _
          (after_async-SameQueues (s, _) _)
          (either_Holds (SameOut s) (header_type hdr == virtio_blk_t_out) _ _
            (either_Holds (SameOut s) (lt_int w 1) none _ tt (
              >>=-Holds Anything (SameOut s) m _ (Holds-Anything m)
                (λ b _. after_async-SameQueues (s, _) _)))
            (refl, refl))

    pub virtio_block_recv_request-SameQueues :
        (sd : VirtioDevice × VirtioBlockDevice W) (q i r w : ℕ)
        → Holds
            (SameOut sd.0)
            (virtio_block_recv_request chain uninit read_async write_async sd q i r w)
    unfolding virtio_block_recv_request
    virtio_block_recv_request-SameQueues (s, d) q i r w =
        let m = memcpy_from_queue chain uninit s uninit q i 0 16 in
        either_Holds (SameOut s) d.req_in_progress _ _ (refl, refl)
          (>>=-Holds Anything (SameOut s) m _ (Holds-Anything m) (λ b _.
            either_Holds (SameOut s) b.1 _ _ (start_request-SameQueues (s, _) b.0 r w)
              (refl, refl)))

    pub virtio_block_req_cb-IsSound :
        (sd : VirtioDevice × VirtioBlockDevice W) (filled : ℕ → ℕ) (ret : BlockResult)
        → IsSound sd.0
        → Holds SoundPair (virtio_block_req_cb chain uninit read_async write_async sd filled ret)
    unfolding virtio_block_req_cb
    virtio_block_req_cb-IsSound (s, d) filled ret h =
        let handler = virtio_block_recv_request chain uninit read_async write_async in
        >>=-Holds SoundPair SoundPair _ _
          (Holds-impl (SamePair s) SoundPair
            (virtio_block_req_end chain uninit
              (s, record d { req = record (d.req) { buf = filled } }) ret)
            (λ r k. SameQueues-IsSound s r.0 h k)
            (virtio_block_req_end-SameQueues (s, record d { req = record (d.req) { buf = filled } })
              ret))
          (λ r k.
            queue_notify-IsSound chain uninit handler
              (λ sd q i rs ws l.
                Holds-impl (SameOut sd.0) SoundOut (handler sd q i rs ws)
                  (λ o e. SameQueues-IsSound sd.0 o.0.0 l e)
                  (virtio_block_recv_request-SameQueues sd q i rs ws))
              (r.0, record (r.1) { req_in_progress = false }) r.1.req.queue_idx k)

-- The handlers of the block, network, console and input devices, on a request of any sizes, leave all
-- queues and the selection of a queue as they are, if they return.
pub recv_request-SameQueues :
    {W : Type 0} (chain : ℕ) (uninit : VirtioDesc)
    (read_async : W → ℕ → (ℕ → ℕ) → ℕ → W × (ℕ → ℕ) × BlockResult)
    (write_async : W → ℕ → (ℕ → ℕ) → ℕ → W × BlockResult) (send : (ℕ → ℕ) → ℕ → W → W)
    (s : VirtioDevice) (b : VirtioBlockDevice W) (world : W) (q i r w : ℕ)
    → Holds
        (SameOut s)
        (virtio_block_recv_request chain uninit read_async write_async (s, b) q i r w)
      × Holds (SameOut s) (virtio_net_recv_request chain uninit send (s, world) q i r w)
      × Holds (SameOut s) (virtio_console_recv_request chain uninit send (s, world) q i r w)
      × Holds (SameOut s) (virtio_input_recv_request (s, world) q i r w)
recv_request-SameQueues chain uninit read_async write_async send s b world q i r w = (
  virtio_block_recv_request-SameQueues chain uninit read_async write_async (s, b) q i r w,
  virtio_net_recv_request-SameQueues chain uninit send (s, world) q i r w,
  virtio_console_recv_request-SameQueues chain uninit send (s, world) q i r w,
  virtio_input_recv_request-SameQueues chain uninit (s, world) q i r w,
)
