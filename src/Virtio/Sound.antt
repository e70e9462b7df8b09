-- ===== src/Virtio/Sound.antt =====
-- Well-formed devices, and the parts of the register accesses that keep them well formed.
use dromajo.Prelude.{
  ℕ, ◌+◌, ◌-◌, ◌*◌, ◌%◌, ◌^◌, ◌&&◌, ◌<◌, ◌≡◌, refl, ap, sym, ◌∙◌, Bool, true, false, arith, ◌==◌,
  ltb, if◌then◌else◌, length, length-set, bit_and, All, All-set, All-get_or, All-map,
  length-map_self, Bool-cases, inl, inr,
}
use dromajo.Prelude.Bits.{bit_and-low, bit_and-le_left, bit_or-lt, bit_not}
use dromajo.Virtio.{
  VirtioDevice, QueueState, no_queue, queue_at, set_queue, set_irq, virtio_reset, reset_queue,
  max_queue,
}
use dromajo.Virtio.Mmio.{
  selected, set_selected, set_low32, set_high32, set_num, set_status, select_queue, acknowledge,
  write_register,
}
use dromajo.Virtio.Pci.{write_common32, write_common16, write_common}

-- The length of a queue is a power of two, and the other fields fit their types.
pub record QueueOk (qs : QueueState) : Type 0 where
  pub ready_bit : qs.ready < 2
  pub num_pos : 0 < qs.num
  pub num_word : qs.num < 2 ^ 32
  pub num_power : bit_and qs.num (qs.num - 1) ≡ 0
  pub last_word : qs.last_avail_idx < 2 ^ 16
  pub desc_word : qs.desc_addr < 2 ^ 64
  pub avail_word : qs.avail_addr < 2 ^ 64
  pub used_word : qs.used_addr < 2 ^ 64

-- There are eight well-formed queues, and the selected one is among them.
pub record IsSound (s : VirtioDevice) : Type 0 where
  pub sel : s.queue_sel < 8
  pub count : length s.queue ≡ 8
  pub each : All QueueOk s.queue

-- The same of a device with a state of its own, and of what its handler returns.
abbrev pub SoundPair : {D : Type 0} → VirtioDevice × D → Type 0
SoundPair sd = IsSound sd.0

abbrev pub SoundOut : {D : Type 0} → (VirtioDevice × D) × Bool → Type 0
SoundOut out = IsSound out.0.0

reset_queue-QueueOk : (qs : QueueState) → QueueOk qs → QueueOk (reset_queue qs)
unfolding reset_queue
reset_queue-QueueOk qs h = record {
  ready_bit = omega arith;
  num_pos = omega arith;
  num_word = omega arith;
  num_power = refl;
  last_word = omega arith;
  desc_word = omega arith;
  avail_word = omega arith;
  used_word = omega arith;
}

no_queue-QueueOk : QueueOk no_queue
no_queue-QueueOk = record {
  ready_bit = omega arith;
  num_pos = omega arith;
  num_word = omega arith;
  num_power = refl;
  last_word = omega arith;
  desc_word = omega arith;
  avail_word = omega arith;
  used_word = omega arith;
}

pub queue_at-QueueOk : (s : VirtioDevice) (i : ℕ) → IsSound s → QueueOk (queue_at s i)
queue_at-QueueOk s i h = All-get_or QueueOk s.queue i no_queue h.each no_queue-QueueOk

pub set_queue-IsSound :
    (s : VirtioDevice) (i : ℕ) (qs : QueueState)
    → IsSound s
    → QueueOk qs
    → IsSound (set_queue s i qs)
set_queue-IsSound s i qs h k = record {
  sel = h.sel;
  count = length-set s.queue i qs ∙ h.count;
  each = All-set QueueOk s.queue i qs h.each k;
}

pub virtio_reset-IsSound : (s : VirtioDevice) → IsSound s → IsSound (virtio_reset s)
unfolding virtio_reset
virtio_reset-IsSound s h = record {
  sel = omega arith;
  count = length-map_self reset_queue s.queue ∙ h.count;
  each = All-map QueueOk reset_queue s.queue reset_queue-QueueOk h.each;
}

set_low32-lt : (a v : ℕ) → a < 2 ^ 64 → v < 2 ^ 32 → set_low32 a v < 2 ^ 64
unfolding set_low32
set_low32-lt a v h k =
    let m = bit_and a (bit_not 64 0xffffffff) in
    bit_or-lt 64 m v (omega (arith, bit_and-le_left 64 a (bit_not 64 0xffffffff) h)) (omega arith)

set_high32-lt : (a v : ℕ) → set_high32 a v < 2 ^ 64
unfolding set_high32
set_high32-lt a v =
    bit_or-lt 64 (bit_and a 0xffffffff) (v * 2 ^ 32 % 2 ^ 64) (omega (arith, bit_and-low 32 a))
      (omega arith)

-- One field of a queue is replaced.
num-QueueOk :
    (qs : QueueState) (v : ℕ)
    → QueueOk qs
    → 0 < v
    → v < 2 ^ 32
    → bit_and v (v - 1) ≡ 0
    → QueueOk (record qs { num = v })
num-QueueOk qs v q pos w pow = omega arith

ready-QueueOk : (qs : QueueState) (v : ℕ) → QueueOk qs → v < 2 → QueueOk (record qs { ready = v })
ready-QueueOk qs v q w = omega arith

desc-QueueOk :
    (qs : QueueState) (v : ℕ) → QueueOk qs → v < 2 ^ 64 → QueueOk (record qs { desc_addr = v })
desc-QueueOk qs v q w = omega arith

avail-QueueOk :
    (qs : QueueState) (v : ℕ) → QueueOk qs → v < 2 ^ 64 → QueueOk (record qs { avail_addr = v })
avail-QueueOk qs v q w = omega arith

used-QueueOk :
    (qs : QueueState) (v : ℕ) → QueueOk qs → v < 2 ^ 64 → QueueOk (record qs { used_addr = v })
used-QueueOk qs v q w = omega arith

pub last-QueueOk :
    (qs : QueueState) (v : ℕ) → QueueOk qs → v < 2 ^ 16 → QueueOk (record qs { last_avail_idx = v })
last-QueueOk qs v q w = omega arith

either_IsSound :
    (b : Bool) (x y : VirtioDevice) → IsSound x → IsSound y → IsSound (if b then x else y)
either_IsSound true x y h k = h
either_IsSound false x y h k = k

-- The test of set_num.
num_accepted :
    (val : ℕ)
    → val < 2 ^ 32
    → (bit_and val ((val + (2 ^ 32 - 1)) % 2 ^ 32) == 0 && ltb 0 val) ≡ true
    → (0 < val) × (bit_and val (val - 1) ≡ 0)
num_accepted val w ok =
    let pos : 0 < val = ground arith in
    let e : (val + (2 ^ 32 - 1)) % 2 ^ 32 ≡ val - 1 = omega arith in
    (pos, sym (ap (λ (n : ℕ). bit_and val n) e) ∙ ground arith)

module _ (s : VirtioDevice) (h : IsSound s) where
  selected-QueueOk : QueueOk (selected s)
  selected-QueueOk = queue_at-QueueOk s s.queue_sel h

  set_selected-IsSound : (qs : QueueState) → QueueOk qs → IsSound (set_selected s qs)
  set_selected-IsSound qs k = set_queue-IsSound s s.queue_sel qs h k

  set_num-IsSound : (val : ℕ) → val < 2 ^ 32 → IsSound (set_num s val)
  unfolding set_num
  set_num-IsSound val w =
      elim (Bool-cases (bit_and val ((val + (2 ^ 32 - 1)) % 2 ^ 32) == 0 && ltb 0 val)) [
        | inl ok ↦
            let a = num_accepted val w ok in
            let q = selected-QueueOk in
            rw ok (
              set_selected-IsSound (record (selected s) { num = val })
                (num-QueueOk (selected s) val q a.0 w a.1))
        | inr bad ↦ rw bad h
      ]

  set_status-IsSound : (val : ℕ) → IsSound (set_status s val)
  unfolding set_status
  set_status-IsSound val =
      let t : VirtioDevice = record s { status = val } in
      let ok : IsSound t = record { sel = h.sel; count = h.count; each = h.each } in
      let low : IsSound (set_irq t 0) = record { sel = h.sel; count = h.count; each = h.each } in
      either_IsSound (val == 0) (virtio_reset (set_irq t 0)) t
        (virtio_reset-IsSound (set_irq t 0) low) ok

  select_queue-IsSound : (val : ℕ) → IsSound (select_queue s val)
  unfolding select_queue
  select_queue-IsSound val = elim (Bool-cases (ltb val max_queue)) [
    | inl ok ↦
        let t : IsSound (record s { queue_sel = val }) = record {
          sel = ground arith;
          count = h.count;
          each = h.each;
        } in
        rw ok t
    | inr bad ↦ rw bad h
  ]

  acknowledge-IsSound : (val : ℕ) → IsSound (acknowledge s val)
  unfolding acknowledge
  acknowledge-IsSound val =
      let t : VirtioDevice = record s { int_status = bit_and s.int_status (bit_not 32 val) } in
      either_IsSound (t.int_status == 0) (set_irq t 0) t
        (record { sel = h.sel; count = h.count; each = h.each })
        (record { sel = h.sel; count = h.count; each = h.each })

  features_sel-IsSound : (val : ℕ) → IsSound (record s { device_features_sel = val })
  features_sel-IsSound val = record { sel = h.sel; count = h.count; each = h.each }

  ready-IsSound :
      (val : ℕ) → IsSound (set_selected s (record (selected s) { ready = bit_and val 1 }))
  ready-IsSound val =
      let q = selected-QueueOk in
      let bit : bit_and val 1 < 2 = omega (arith, bit_and-low 1 val) in
      set_selected-IsSound (record (selected s) { ready = bit_and val 1 })
        (ready-QueueOk (selected s) (bit_and val 1) q bit)

  desc_low-IsSound :
      (val : ℕ)
      → val < 2 ^ 32
      → IsSound (
          set_selected s (record (selected s) { desc_addr = set_low32 (selected s).desc_addr val }))
  desc_low-IsSound val w =
      let q = selected-QueueOk in
      set_selected-IsSound
        (record (selected s) { desc_addr = set_low32 (selected s).desc_addr val })
        (desc-QueueOk (selected s) (set_low32 (selected s).desc_addr val) q
          (set_low32-lt (selected s).desc_addr val q.desc_word w))

  desc_high-IsSound :
      (val : ℕ)
      → IsSound (
          set_selected s
            (record (selected s) { desc_addr = set_high32 (selected s).desc_addr val }))
  desc_high-IsSound val =
      let q = selected-QueueOk in
      set_selected-IsSound
        (record (selected s) { desc_addr = set_high32 (selected s).desc_addr val })
        (desc-QueueOk (selected s) (set_high32 (selected s).desc_addr val) q
          (set_high32-lt (selected s).desc_addr val))

  avail_low-IsSound :
      (val : ℕ)
      → val < 2 ^ 32
      → IsSound (
          set_selected s
            (record (selected s) { avail_addr = set_low32 (selected s).avail_addr val }))
  avail_low-IsSound val w =
      let q = selected-QueueOk in
      set_selected-IsSound
        (record (selected s) { avail_addr = set_low32 (selected s).avail_addr val })
        (avail-QueueOk (selected s) (set_low32 (selected s).avail_addr val) q
          (set_low32-lt (selected s).avail_addr val q.avail_word w))

  avail_high-IsSound :
      (val : ℕ)
      → IsSound (
          set_selected s
            (record (selected s) { avail_addr = set_high32 (selected s).avail_addr val }))
  avail_high-IsSound val =
      let q = selected-QueueOk in
      set_selected-IsSound
        (record (selected s) { avail_addr = set_high32 (selected s).avail_addr val })
        (avail-QueueOk (selected s) (set_high32 (selected s).avail_addr val) q
          (set_high32-lt (selected s).avail_addr val))

  used_low-IsSound :
      (val : ℕ)
      → val < 2 ^ 32
      → IsSound (
          set_selected s (record (selected s) { used_addr = set_low32 (selected s).used_addr val }))
  used_low-IsSound val w =
      let q = selected-QueueOk in
      set_selected-IsSound
        (record (selected s) { used_addr = set_low32 (selected s).used_addr val })
        (used-QueueOk (selected s) (set_low32 (selected s).used_addr val) q
          (set_low32-lt (selected s).used_addr val q.used_word w))

  used_high-IsSound :
      (val : ℕ)
      → IsSound (
          set_selected s
            (record (selected s) { used_addr = set_high32 (selected s).used_addr val }))
  used_high-IsSound val =
      let q = selected-QueueOk in
      set_selected-IsSound
        (record (selected s) { used_addr = set_high32 (selected s).used_addr val })
        (used-QueueOk (selected s) (set_high32 (selected s).used_addr val) q
          (set_high32-lt (selected s).used_addr val))

  pub write_register-IsSound :
      (offset val : ℕ) → val < 2 ^ 32 → IsSound (write_register s offset val)
  unfolding write_register
  write_register-IsSound offset val w =
      let f0 = set_num-IsSound val w in
      let f1 = set_status-IsSound val in
      let f2 = select_queue-IsSound val in
      let f3 = acknowledge-IsSound val in
      let f4 = features_sel-IsSound val in
      let f5 = ready-IsSound val in
      let f6 = desc_low-IsSound val w in
      let f7 = avail_low-IsSound val w in
      let f8 = used_low-IsSound val w in
      let f9 = desc_high-IsSound val in
      let f10 = avail_high-IsSound val in
      let f11 = used_high-IsSound val in search (either_IsSound) depth 14

  write_common32-IsSound : (offset val : ℕ) → val < 2 ^ 32 → IsSound (write_common32 s offset val)
  unfolding write_common32
  write_common32-IsSound offset val w =
      let f0 = features_sel-IsSound val in
      let f1 = desc_low-IsSound val w in
      let f2 = avail_low-IsSound val w in
      let f3 = used_low-IsSound val w in
      let f4 = desc_high-IsSound val in
      let f5 = avail_high-IsSound val in
      let f6 = used_high-IsSound val in search (either_IsSound) depth 10

  write_common16-IsSound : (offset val : ℕ) → val < 2 ^ 32 → IsSound (write_common16 s offset val)
  unfolding write_common16
  write_common16-IsSound offset val w =
      let f0 = set_num-IsSound val w in
      let f1 = select_queue-IsSound val in
      let f2 = ready-IsSound val in search (either_IsSound) depth 6

  pub write_common-IsSound :
      (offset val size_log2 : ℕ) → val < 2 ^ 32 → IsSound (write_common s offset val size_log2)
  unfolding write_common
  write_common-IsSound offset val size_log2 w =
      let f0 = write_common32-IsSound offset val w in
      let f1 = write_common16-IsSound offset val w in
      let f2 = set_status-IsSound val in search (either_IsSound) depth 5
