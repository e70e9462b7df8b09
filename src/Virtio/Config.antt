-- ===== src/Virtio/Config.antt =====
-- The configuration space of a VirtIO device: virtio_config_read and virtio_config_write of
-- src/virtio.cpp. `config_write` is the device's callback, if it has one.
use dromajo.Prelude.{ℕ, ◌+◌, ◌-◌, ◌%◌, ◌^◌, Option, none, some, ◌==◌, ltb, if◌then◌else◌}
use dromajo.Cpu.Mmu.{load_le}
use dromajo.Memory.{store_le}
use dromajo.Virtio.{VirtioDevice}

-- `config_space_size - k` of unsigned words, which wraps below `k`.
unfoldable pub config_limit : VirtioDevice → ℕ → ℕ
config_limit s k = (s.config_space_size + (2 ^ 32 - k)) % 2 ^ 32

unfoldable pub virtio_config_read : VirtioDevice → ℕ → ℕ → Option ℕ
virtio_config_read s offset size_log2 =
    if size_log2 == 0
    then some (if ltb offset s.config_space_size then load_le s.config_space 1 offset else 0)
    else if size_log2 == 1
    then some (if ltb offset (config_limit s 1) then load_le s.config_space 2 offset else 0)
    else if size_log2 == 2
    then some (if ltb offset (config_limit s 3) then load_le s.config_space 4 offset else 0)
    else none

abbrev pub put_config : VirtioDevice → ℕ → ℕ → ℕ → VirtioDevice
put_config s n offset val = record s { config_space = store_le s.config_space n offset val }

module _ {D : Type 0} (config_write : VirtioDevice × D → Option (VirtioDevice × D)) where
  unfoldable pub virtio_config_write : VirtioDevice × D → ℕ → ℕ → ℕ → Option (VirtioDevice × D)
  virtio_config_write sd offset val size_log2 =
      let s = sd.0 in
      if size_log2 == 0
      then if ltb offset s.config_space_size
        then config_write (put_config s 1 offset val, sd.1)
        else some sd
      else if size_log2 == 1
      then if ltb offset (config_limit s 1)
        then config_write (put_config s 2 offset val, sd.1)
        else some sd
      else if size_log2 == 2
      then if ltb offset (config_limit s 3)
        then config_write (put_config s 4 offset val, sd.1)
        else some sd
      else some sd
