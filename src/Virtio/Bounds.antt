-- ===== src/Virtio/Bounds.antt =====
-- The configuration space and its size.
use dromajo.Prelude.{
  ℕ, zero, suc, ◌+◌, ◌-◌, ◌%◌, ◌^◌, ◌≤◌, ◌<◌, ◌≡◌, refl, ap, Bool, true, false, Option, some, arith,
  ◌==◌, ltb, if◌then◌else◌,
}
use dromajo.Cpu.Mmu.{load_le}
use dromajo.Memory.Ram.{store_le-outside}
use dromajo.Virtio.{VirtioDevice}
use dromajo.Prelude.Returns.{Holds, either_Holds}
use dromajo.Virtio.Config.{config_limit, virtio_config_read, put_config, virtio_config_write}

load_le-below :
    (a b : ℕ → ℕ) (size n off : ℕ)
    → ((i : ℕ) → i < size → a i ≡ b i)
    → off + n ≤ size
    → load_le a n off ≡ load_le b n off
unfolding load_le
load_le-below a b size zero off h le = refl
load_le-below a b size (suc n) off h le =
    ground (arith, h off (omega arith), load_le-below a b size n (off + 1) h (omega arith))

if_Holds {ℓ κ} :
    {A : Type ℓ} (P : A → Type κ) (b : Bool) (x y : Option A)
    → (b ≡ true → Holds P x)
    → Holds P y
    → Holds P (if b then x else y)
if_Holds P true x y h k = h refl
if_Holds P false x y h k = k

if_cong {ℓ} :
    {A : Type ℓ} (b : Bool) (x y u v : A)
    → (b ≡ true → x ≡ y)
    → u ≡ v
    → (if b then x else u) ≡ (if b then y else v)
if_cong true x y u v h k = h refl
if_cong false x y u v h k = k

-- Bytes below `size` are read only, and written only, by an access that the limits let through.
module _ (s : VirtioDevice) (big : 3 ≤ s.config_space_size)
    (word : s.config_space_size < 2 ^ 32) where
  limit_fits :
      (k off : ℕ) → k ≤ 3 → ltb off (config_limit s k) ≡ true → off + k < s.config_space_size
  unfolding config_limit
  limit_fits k off le ok =
      let e : (s.config_space_size + (2 ^ 32 - k)) % 2 ^ 32 ≡ s.config_space_size - k =
        omega arith in
      ground (arith, e)

  read-below :
      (f : ℕ → ℕ) (offset size_log2 : ℕ)
      → ((i : ℕ) → i < s.config_space_size → f i ≡ s.config_space i)
      → virtio_config_read (record s { config_space = f }) offset size_log2
        ≡ virtio_config_read s offset size_log2
  unfolding virtio_config_read config_limit load_le
  read-below f offset size_log2 h =
      let g = s.config_space in
      let size = s.config_space_size in
      let same = λ (n : ℕ) (le : offset + n ≤ size). load_le-below f g size n offset h le in
      let part = λ (k : ℕ) (le : k ≤ 3). ap some (
        if_cong (ltb offset (config_limit s k)) (load_le f (k + 1) offset)
          (load_le g (k + 1) offset) 0 0
          (λ ok. same (k + 1) (let fits = limit_fits k offset le ok in omega arith)) refl) in
      if_cong (size_log2 == 0) _ _ _ _
        (λ _. ap some (
          if_cong (ltb offset size) (load_le f 1 offset) (load_le g 1 offset) 0 0
            (λ ok. same 1 (ground arith)) refl))
        (if_cong (size_log2 == 1) _ _ _ _ (λ _. part 1 (omega arith))
          (if_cong (size_log2 == 2) _ _ _ _ (λ _. part 3 (omega arith)) refl))

  abbrev Above : {D : Type 0} → VirtioDevice × D → Type 0
  Above out = (i : ℕ) → s.config_space_size ≤ i → out.0.config_space i ≡ s.config_space i

  put-Above :
      {D : Type 0} (d : D) (n offset val : ℕ)
      → offset + n ≤ s.config_space_size
      → Above (put_config s n offset val, d)
  put-Above d n offset val le i above =
      store_le-outside s.config_space n offset val i (ground arith)

  write-Above :
      {D : Type 0} (d : D) (offset val size_log2 : ℕ)
      → Holds Above
          (virtio_config_write (λ (sd : VirtioDevice × D). some sd) (s, d) offset val size_log2)
  unfolding virtio_config_write
  write-Above {D} d offset val size_log2 =
      let P = λ (out : VirtioDevice × D). Above out in
      let stays : P (s, d) = λ i above. refl in
      let part = λ (k : ℕ) (le : k ≤ 3).
        if_Holds P (ltb offset (config_limit s k)) (some (put_config s (k + 1) offset val, d))
          (some (s, d))
          (λ ok.
            put-Above d (k + 1) offset val (let fits = limit_fits k offset le ok in omega arith))
          stays in
      either_Holds P (size_log2 == 0) _ _
        (if_Holds P (ltb offset s.config_space_size) (some (put_config s 1 offset val, d))
          (some (s, d)) (λ ok. put-Above d 1 offset val (ground arith)) stays)
        (either_Holds P (size_log2 == 1) _ _ (part 1 (omega arith))
          (either_Holds P (size_log2 == 2) _ _ (part 3 (omega arith)) stays))

  -- For a configuration space of three bytes or more, a read of any offset and width does not depend on
  -- bytes beyond its size, and a write that returns, its callback aside, leaves them as they were.
  pub virtio_config-bounds :
      (f : ℕ → ℕ) (offset val size_log2 : ℕ)
      → ((i : ℕ) → i < s.config_space_size → f i ≡ s.config_space i)
      → (virtio_config_read (record s { config_space = f }) offset size_log2
          ≡ virtio_config_read s offset size_log2)
        × Holds
            (λ (out : VirtioDevice × ℕ).
              (i : ℕ) → s.config_space_size ≤ i → out.0.config_space i ≡ s.config_space i)
            (virtio_config_write (λ (sd : VirtioDevice × ℕ). some sd) (s, 0) offset val size_log2)
  virtio_config-bounds f offset val size_log2 h =
      (read-below f offset size_log2 h, write-Above 0 offset val size_log2)
