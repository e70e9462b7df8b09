-- ===== src/Virtio/Block.antt =====
-- The block device of src/virtio.cpp. The disk behind it is the world `W`: `read_async` and
-- `write_async` are parameters. `none` is an `abort` or a failed `assert`, besides what it is for the
-- queues.
use dromajo.Prelude.{
  ℕ, ◌+◌, ◌-◌, ◌/◌, ◌%◌, ◌^◌, Bool, true, false, Option, none, some, ◌==◌, ltb, if◌then◌else◌,
  ◌>>=◌,
}
use dromajo.Cpu.Mmu.{load_le}
use dromajo.Memory.{update}
use dromajo.Virtio.{VirtioDevice}
use dromajo.Virtio.Queue.{
  VirtioDesc, lt_int, memcpy_from_queue, memcpy_to_queue, virtio_consume_desc, queue_notify,
}

abbrev pub virtio_blk_t_in : ℕ
virtio_blk_t_in = 0

abbrev pub virtio_blk_t_out : ℕ
virtio_blk_t_out = 1

abbrev pub virtio_blk_s_ok : ℕ
virtio_blk_s_ok = 0

abbrev pub virtio_blk_s_ioerr : ℕ
virtio_blk_s_ioerr = 1

abbrev pub sector_size : ℕ
sector_size = 512

-- The value of read_async and write_async: positive, zero or negative.
pub data BlockResult : Type 0 where
  started finished failed : BlockResult

-- BlockRequest, with its buffer.
pub record BlockRequest : Type 0 where
  pub type : ℕ
  pub buf : ℕ → ℕ
  pub write_size : ℕ
  pub queue_idx : ℕ
  pub desc_idx : ℕ

pub record VirtioBlockDevice (W : Type 0) : Type 0 where
  pub bs : W
  pub req_in_progress : Bool
  pub req : BlockRequest

-- BlockRequestHeader.
abbrev pub header_type : (ℕ → ℕ) → ℕ
header_type h = load_le h 4 0

abbrev pub sector_num : (ℕ → ℕ) → ℕ
sector_num h = load_le h 8 8

abbrev pub status_of : BlockResult → ℕ
status_of failed = virtio_blk_s_ioerr
status_of finished = virtio_blk_s_ok
status_of started = virtio_blk_s_ok

-- `n / SECTOR_SIZE` of an `int`, which is rounded towards zero.
unfoldable pub sectors_of : ℕ → ℕ
sectors_of n =
    if ltb n (2 ^ 31) then n / sector_size else (2 ^ 32 - (2 ^ 32 - n) / sector_size) % 2 ^ 32

module _ {W : Type 0} (chain : ℕ) (uninit : VirtioDesc) where
  unfoldable pub virtio_block_req_end :
      VirtioDevice × VirtioBlockDevice W → BlockResult → Option (VirtioDevice × VirtioBlockDevice W)
  virtio_block_req_end (s, d) ret =
      let q = d.req.queue_idx in
      let i = d.req.desc_idx in
      let n = d.req.write_size in
      if d.req.type == virtio_blk_t_in
      then if lt_int n 1
        then none
        else memcpy_to_queue chain uninit s q i 0 (update d.req.buf (n - 1) (status_of ret)) n
          >>= (λ r. some (virtio_consume_desc r.0 q i n, d))
      else if d.req.type == virtio_blk_t_out
      then memcpy_to_queue chain uninit s q i 0 (λ _. status_of ret) 1
        >>= (λ r. some (virtio_consume_desc r.0 q i 1, d))
      else none

module _ {W : Type 0} (chain : ℕ) (uninit : VirtioDesc)
    (read_async : W → ℕ → (ℕ → ℕ) → ℕ → W × (ℕ → ℕ) × BlockResult)
    (write_async : W → ℕ → (ℕ → ℕ) → ℕ → W × BlockResult) where
  -- What follows a call of the disk: a request that is under way waits for its callback.
  unfoldable pub after_async :
      VirtioDevice × VirtioBlockDevice W
      → BlockResult
      → Option ((VirtioDevice × VirtioBlockDevice W) × Bool)
  after_async (s, d) started = some ((s, record d { req_in_progress = true }), true)
  after_async (s, d) finished =
      virtio_block_req_end chain uninit (s, d) finished >>= (λ r. some (r, true))
  after_async (s, d) failed =
      virtio_block_req_end chain uninit (s, d) failed >>= (λ r. some (r, true))

  -- The request behind its header. A type that is not known is passed over.
  unfoldable pub start_request :
      VirtioDevice × VirtioBlockDevice W
      → (ℕ → ℕ)
      → ℕ
      → ℕ
      → Option ((VirtioDevice × VirtioBlockDevice W) × Bool)
  start_request (s, d) h read_size write_size =
      let q = d.req.queue_idx in
      let i = d.req.desc_idx in
      let len = (read_size + (2 ^ 32 - 16)) % 2 ^ 32 in
      let sectors = sectors_of ((write_size + (2 ^ 32 - 1)) % 2 ^ 32) in
      if header_type h == virtio_blk_t_in
      then (let r = read_async d.bs (sector_num h) uninit sectors in
          let req = record d.req { buf = r.1; write_size = write_size } in
          after_async (s, record d { bs = r.0; req = req }) r.2)
      else if header_type h == virtio_blk_t_out
      then if lt_int write_size 1
        then none
        else memcpy_from_queue chain uninit s uninit q i 16 len >>= (λ b.
          let r = write_async d.bs (sector_num h) b.0 (sectors_of len) in
          after_async (s, record d { bs = r.0 }) r.1)
      else some ((s, d), true)

  unfoldable pub virtio_block_recv_request :
      VirtioDevice × VirtioBlockDevice W
      → ℕ
      → ℕ
      → ℕ
      → ℕ
      → Option ((VirtioDevice × VirtioBlockDevice W) × Bool)
  virtio_block_recv_request (s, d) queue_idx desc_idx read_size write_size =
      if d.req_in_progress
      then some ((s, d), false)
      else memcpy_from_queue chain uninit s uninit queue_idx desc_idx 0 16 >>= (λ h.
        let req = record d.req {
          type = header_type h.0;
          queue_idx = queue_idx;
          desc_idx = desc_idx;
        } in
        if h.1
        then start_request (s, record d { req = req }) h.0 read_size write_size
        else some ((s, d), true))

  -- The callback of the disk, which has filled the request's buffer.
  unfoldable pub virtio_block_req_cb :
      VirtioDevice × VirtioBlockDevice W
      → (ℕ → ℕ)
      → BlockResult
      → Option (VirtioDevice × VirtioBlockDevice W)
  virtio_block_req_cb (s, d) filled ret =
      virtio_block_req_end chain uninit (s, record d { req = record (d.req) { buf = filled } }) ret
      >>= (λ r.
          queue_notify chain uninit virtio_block_recv_request
            (r.0, record (r.1) { req_in_progress = false }) r.1.req.queue_idx)
