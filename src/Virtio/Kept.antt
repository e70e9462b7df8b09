-- ===== src/Virtio/Kept.antt =====
-- What the copies to and from a queue and the completion of a descriptor leave of a device: they
-- write to RAM and raise the interrupt, and the queues stay.
use mathlib.Core.Path.{subst}
use dromajo.Prelude.{
  ℕ, zero, suc, ◌+◌, ◌-◌, ◌%◌, ◌^◌, ◌≡◌, refl, ap, sym, ◌∙◌, Bool, true, false, not, Option, none,
  some, List, arith, ◌==◌, leb, ◌>>=◌, length, All,
}
use dromajo.Prelude.Bits.{sign_extend}
use dromajo.Cpu.Mstatus.{any}
use dromajo.Virtio.{
  VirtioDevice, QueueState, virtio_write16, virtio_write32, virtio_memcpy_to_ram,
  virtio_memcpy_from_ram, to_ram,
}
use dromajo.Prelude.Returns.{Holds, either_Holds, >>=-Holds, Anything, Holds-Anything}
use dromajo.Virtio.Sound.{IsSound, QueueOk}
use dromajo.Virtio.Queue.{
  VirtioDesc, Copied, copy_part, copy_loop, or_failed, next_desc, get_desc, same_flag, find_offset,
  start_desc, at_offset, memcpy_to_from_queue, memcpy_to_queue, virtio_consume_desc, min_int,
  desc_len, desc_addr, desc_next, desc_flags, vring_desc_f_next,
}

abbrev pub SameQueues : VirtioDevice → VirtioDevice → Type 0
SameQueues s t = (t.queue ≡ s.queue) × (t.queue_sel ≡ s.queue_sel)

pub SameQueues-IsSound : (s t : VirtioDevice) → IsSound s → SameQueues s t → IsSound t
SameQueues-IsSound s t h e = record {
  sel = omega (arith, h.sel, e.1);
  count = ap (λ (q : List QueueState). length q) e.0 ∙ h.count;
  each = subst (λ (q : List QueueState). All QueueOk q) (sym e.0) h.each;
}

pub virtio_consume_desc-SameQueues :
    (s : VirtioDevice) (q i len : ℕ) → SameQueues s (virtio_consume_desc s q i len)
unfolding virtio_consume_desc virtio_write16 virtio_write32
virtio_consume_desc-SameQueues s q i len = ground arith

virtio_memcpy_to_ram-SameQueues :
    (s0 s : VirtioDevice) (addr : ℕ) (buf : ℕ → ℕ) (pos l : ℕ)
    → SameQueues s0 s
    → Holds (λ (r : VirtioDevice × Bool). SameQueues s0 r.0) (virtio_memcpy_to_ram s addr buf pos l)
unfolding virtio_memcpy_to_ram
virtio_memcpy_to_ram-SameQueues s0 s addr buf pos l h =
    >>=-Holds Anything (λ (r : VirtioDevice × Bool). SameQueues s0 r.0)
      (to_ram l s.mem_map addr buf pos l) (λ r. some (record s { mem_map = r.0 }, r.1))
      (Holds-Anything (to_ram l s.mem_map addr buf pos l)) (λ r k. h)

copy_part-SameQueues :
    (s0 s : VirtioDevice) (b : Bool) (addr : ℕ) (buf : ℕ → ℕ) (pos l : ℕ)
    → SameQueues s0 s
    → Holds (λ (r : VirtioDevice × (ℕ → ℕ)). SameQueues s0 r.0) (copy_part s b addr buf pos l)
unfolding copy_part
copy_part-SameQueues s0 s true addr buf pos l h =
    >>=-Holds (λ (r : VirtioDevice × Bool). SameQueues s0 r.0)
      (λ (r : VirtioDevice × (ℕ → ℕ)). SameQueues s0 r.0) (virtio_memcpy_to_ram s addr buf pos l)
      (λ r. some (r.0, buf)) (virtio_memcpy_to_ram-SameQueues s0 s addr buf pos l h) (λ r k. k)
copy_part-SameQueues s0 s false addr buf pos l h =
    >>=-Holds Anything (λ (r : VirtioDevice × (ℕ → ℕ)). SameQueues s0 r.0)
      (virtio_memcpy_from_ram s buf pos addr l) (λ r. some (s, r.0))
      (Holds-Anything (virtio_memcpy_from_ram s buf pos addr l)) (λ r k. h)

-- What is returned has kept the queues of `s0`.
abbrev Keeps : VirtioDevice → Option Copied → Type 0
Keeps s0 = Holds (λ (r : Copied). SameQueues s0 r.0)

or_failed-Keeps :
    (s0 s : VirtioDevice) (buf : ℕ → ℕ) (o : Option (Option Copied))
    → SameQueues s0 s
    → Holds (Keeps s0) o
    → Keeps s0 (or_failed s buf o)
unfolding or_failed
or_failed-Keeps s0 s buf none h k = tt
or_failed-Keeps s0 s buf (some none) h k = h
or_failed-Keeps s0 s buf (some (some r)) h k = k

next_desc-Keeps :
    (s0 s : VirtioDevice) (q : ℕ) (desc : VirtioDesc) (k : VirtioDesc → Option (Option Copied))
    → ((d : VirtioDesc) → Holds (Keeps s0) (k d))
    → Holds (Keeps s0) (next_desc s q desc k)
unfolding next_desc
next_desc-Keeps s0 s q desc k f =
    either_Holds (Keeps s0) (not (any (desc_flags desc) vring_desc_f_next)) (some none)
      (get_desc s desc q (desc_next desc) >>= k) tt
      (>>=-Holds Anything (Keeps s0) (get_desc s desc q (desc_next desc)) k
        (Holds-Anything (get_desc s desc q (desc_next desc))) (λ d _. f d))

copy_loop-Keeps :
    (fuel : ℕ) (s0 s : VirtioDevice) (q : ℕ) (b : Bool) (desc : VirtioDesc) (buf : ℕ → ℕ)
    (pos count offset : ℕ)
    → SameQueues s0 s
    → Keeps s0 (copy_loop fuel s q b desc buf pos count offset)
unfolding copy_loop
copy_loop-Keeps zero s0 s q b desc buf pos count offset h = tt
copy_loop-Keeps (suc fuel) s0 s q b desc buf pos count offset h =
    let l = min_int count ((desc_len desc + (2 ^ 32 - offset)) % 2 ^ 32) in
    let at = (desc_addr desc + sign_extend 32 offset) % 2 ^ 64 in
    let part = copy_part-SameQueues s0 s b at buf pos l h in
    let P = λ (r : Copied). SameQueues s0 r.0 in
    either_Holds P (leb (2 ^ 31) l) _ _
      (either_Holds P (count == l) (some (s, buf, true)) none h tt)
      (>>=-Holds (λ (r : VirtioDevice × (ℕ → ℕ)). SameQueues s0 r.0) P _ _ part
        (λ r k. either_Holds P (count == l) (some (r.0, r.1, true)) _ k (
          either_Holds P ((offset + l) % 2 ^ 32 == desc_len desc) _ _
            (or_failed-Keeps s0 r.0 r.1 _ k (
              next_desc-Keeps s0 r.0 q desc _ (λ d.
                either_Holds (Keeps s0) (not (same_flag d b)) (some none) _ tt (
                  >>=-Holds P (Keeps s0) _ (λ done. some (some done))
                    (copy_loop-Keeps fuel s0 r.0 q b d r.1 (pos + l) (count - l) 0 k) (λ a p. p)))))
            (copy_loop-Keeps fuel s0 r.0 q b desc r.1 (pos + l) (count - l) ((offset + l) % 2 ^ 32)
              k))))

module _ (chain : ℕ) (uninit : VirtioDesc) where
  at_offset-Keeps :
      (s : VirtioDevice) (q : ℕ) (b : Bool) (buf : ℕ → ℕ) (offset count : ℕ)
      (start : Option (Option VirtioDesc))
      → Keeps s (at_offset chain uninit s q b buf offset count start)
  unfolding at_offset
  at_offset-Keeps s q b buf offset count none = tt
  at_offset-Keeps s q b buf offset count (some none) = (refl, refl)
  at_offset-Keeps s q b buf offset count (some (some desc)) =
      >>=-Holds Anything (λ (r : Copied). SameQueues s r.0) (find_offset chain s q b desc offset) _
        (Holds-Anything (find_offset chain s q b desc offset))
        (λ found _.
          elim found
            as (λ (f : Option (VirtioDesc × ℕ)). Keeps s (elim f [
              | none ↦ some (s, buf, false)
              | some dl ↦ copy_loop chain s q b dl.0 buf 0 count dl.1
            ])) [
              | none ↦ (refl, refl)
              | some dl ↦ copy_loop-Keeps chain s s q b dl.0 buf 0 count dl.1 (refl, refl)
            ])

  pub memcpy_to_queue-SameQueues :
      (s : VirtioDevice) (q i offset : ℕ) (buf : ℕ → ℕ) (count : ℕ)
      → Holds
          (λ (r : VirtioDevice × Bool). SameQueues s r.0)
          (memcpy_to_queue chain uninit s q i offset buf count)
  unfolding memcpy_to_queue memcpy_to_from_queue
  memcpy_to_queue-SameQueues s q i offset buf count =
      >>=-Holds (λ (r : Copied). SameQueues s r.0) (λ (r : VirtioDevice × Bool). SameQueues s r.0) _
        (λ r. some (r.0, r.2))
        (either_Holds (λ (r : Copied). SameQueues s r.0) (count == 0) (some (s, buf, true)) _
          (refl, refl)
          (at_offset-Keeps s q true buf offset count (start_desc chain uninit s q i true)))
        (λ r k. k)
