-- ===== src/Virtio/Address.antt =====
-- The addresses of the rings of a queue, in the registers of the two transports.
use dromajo.Prelude.{
  ℕ, ◌+◌, ◌-◌, ◌*◌, ◌/◌, ◌%◌, ◌^◌, ◌<◌, ◌≡◌, ap, ◌∙◌, arith, length, get_or-set_self, length-set,
  bit_or,
}
use dromajo.Prelude.Bits.{bit_and-low, bit_and-high, bit_or-disjoint, bit_or_comm}
use dromajo.Virtio.{VirtioDevice, QueueState, no_queue}
use dromajo.Virtio.Sound.{IsSound, queue_at-QueueOk}
use dromajo.Virtio.Mmio.{
  selected, set_selected, set_low32, set_high32, read_register, write_register,
  virtio_mmio_queue_desc_low, virtio_mmio_queue_desc_high, virtio_mmio_queue_avail_low,
  virtio_mmio_queue_avail_high, virtio_mmio_queue_used_low, virtio_mmio_queue_used_high,
}

set_low32_lem : (a v : ℕ) → a < 2 ^ 64 → v < 2 ^ 32 → set_low32 a v ≡ a - a % 2 ^ 32 + v
unfolding set_low32
set_low32_lem a v h k =
    let m = bit_and-high 64 32 a (omega arith) h in
    let cut : a - a % 2 ^ 32 ≡ a / 2 ^ 32 * 2 ^ 32 = omega arith in
    ap (λ (x : ℕ). bit_or x v) (m ∙ cut) ∙ bit_or-disjoint 32 (a / 2 ^ 32) v k ∙ omega arith

set_high32_lem : (a v : ℕ) → v < 2 ^ 32 → set_high32 a v ≡ v * 2 ^ 32 + a % 2 ^ 32
unfolding set_high32
set_high32_lem a v k =
    let wide : v * 2 ^ 32 % 2 ^ 64 ≡ v * 2 ^ 32 = omega arith in
    ap (λ (x : ℕ). bit_or x (v * 2 ^ 32 % 2 ^ 64)) (bit_and-low 32 a)
    ∙ ap (λ (x : ℕ). bit_or (a % 2 ^ 32) x) wide
    ∙ bit_or_comm (a % 2 ^ 32) (v * 2 ^ 32)
    ∙ bit_or-disjoint 32 v (a % 2 ^ 32) (omega arith)

-- Both halves, in this order.
both_halves :
    (a lo hi : ℕ)
    → a < 2 ^ 64
    → lo < 2 ^ 32
    → hi < 2 ^ 32
    → set_high32 (set_low32 a lo) hi ≡ hi * 2 ^ 32 + lo
both_halves a lo hi h k j =
    let e = set_low32_lem a lo h k in
    let f = set_high32_lem (set_low32 a lo) hi j in omega (arith, e, f)

selected-set_selected :
    (s : VirtioDevice) (qs : QueueState)
    → s.queue_sel < length s.queue
    → selected (set_selected s qs) ≡ qs
selected-set_selected s qs h = get_or-set_self s.queue s.queue_sel qs no_queue h

module _ (s : VirtioDevice) (h : IsSound s) (lo hi : ℕ) (lo_word : lo < 2 ^ 32)
    (hi_word : hi < 2 ^ 32) where
  -- The two halves of an address, as a driver writes them.
  abbrev write_both : ℕ → ℕ → VirtioDevice
  write_both low high = write_register (write_register s low lo) high hi

  in_list : s.queue_sel < length s.queue
  in_list = omega (arith, h.sel, h.count)

  twice :
      (f g : QueueState → QueueState)
      → (let t = set_selected s (f (selected s)) in selected (set_selected t (g (selected t))))
        ≡ g (f (selected s))
  twice f g =
      let t = set_selected s (f (selected s)) in
      let there : s.queue_sel < length t.queue =
        omega (arith, in_list, length-set s.queue s.queue_sel (f (selected s))) in
      selected-set_selected t (g (selected t)) there
      ∙ ap g (selected-set_selected s (f (selected s)) in_list)

  -- The address is put together, and the registers read back what was written.
  abbrev pub ReadBack : (QueueState → ℕ) → ℕ → ℕ → Type 0
  ReadBack addr low high =
      (addr (selected (write_both low high)) ≡ hi * 2 ^ 32 + lo)
      × (read_register (write_both low high) low ≡ lo)
      × (read_register (write_both low high) high ≡ hi)

  words :
      (addr : ℕ)
      → addr ≡ hi * 2 ^ 32 + lo
      → (addr ≡ hi * 2 ^ 32 + lo) × (addr % 2 ^ 32 ≡ lo) × (addr / 2 ^ 32 ≡ hi)
  words addr e = (e, omega arith, omega arith)

  -- On a well-formed device, a write of the low and then the high 32-bit word of the address of the
  -- descriptors, the available ring or the used ring sets the 64-bit address of the selected queue, and
  -- both registers read back what was written.
  pub write_register-ReadBack :
      ReadBack (λ qs. qs.desc_addr) virtio_mmio_queue_desc_low virtio_mmio_queue_desc_high
      × ReadBack (λ qs. qs.avail_addr) virtio_mmio_queue_avail_low virtio_mmio_queue_avail_high
      × ReadBack (λ qs. qs.used_addr) virtio_mmio_queue_used_low virtio_mmio_queue_used_high
  unfolding write_register read_register
  write_register-ReadBack =
      let ok = queue_at-QueueOk s s.queue_sel h in
      let qs = selected s in
      let desc =
        ap (λ (r : QueueState). r.desc_addr)
          (twice (λ r. record r { desc_addr = set_low32 r.desc_addr lo })
            (λ r. record r { desc_addr = set_high32 r.desc_addr hi }))
        ∙ both_halves qs.desc_addr lo hi ok.desc_word lo_word hi_word in
      let avail =
        ap (λ (r : QueueState). r.avail_addr)
          (twice (λ r. record r { avail_addr = set_low32 r.avail_addr lo })
            (λ r. record r { avail_addr = set_high32 r.avail_addr hi }))
        ∙ both_halves qs.avail_addr lo hi ok.avail_word lo_word hi_word in
      let used =
        ap (λ (r : QueueState). r.used_addr)
          (twice (λ r. record r { used_addr = set_low32 r.used_addr lo })
            (λ r. record r { used_addr = set_high32 r.used_addr hi }))
        ∙ both_halves qs.used_addr lo hi ok.used_word lo_word hi_word in
      (
        words
            (selected (write_both virtio_mmio_queue_desc_low virtio_mmio_queue_desc_high)).desc_addr
            desc,
        words
            (selected
              (write_both virtio_mmio_queue_avail_low virtio_mmio_queue_avail_high)).avail_addr
            avail,
        words
            (selected (write_both virtio_mmio_queue_used_low virtio_mmio_queue_used_high)).used_addr
            used,
      )
