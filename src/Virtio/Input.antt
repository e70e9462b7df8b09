-- ===== src/Virtio/Input.antt =====
-- The input devices of src/virtio.cpp: keyboard, mouse and tablet, their events and their
-- configuration.
use dromajo.Prelude.{
  ℕ, ◌+◌, ◌/◌, ◌%◌, ◌^◌, ◌&&◌, Bool, true, false, Option, none, some, List, [], ◌∷◌, ◌==◌, ltb, leb,
  if◌then◌else◌, length, of_bool, bit_and, bit_or, ◌>>=◌,
}
use dromajo.Memory.{store_le, update}
use dromajo.Virtio.{VirtioDevice}
use dromajo.Virtio.Queue.{VirtioDesc, virtio_consume_desc}
use dromajo.Virtio.Console.{receive_desc, fill_desc}

pub data InputType : Type 0 where
  keyboard mouse tablet : InputType

pub record VirtioInputDevice : Type 0 where
  pub type : InputType
  pub buttons_state : ℕ

abbrev pub ev_syn : ℕ
ev_syn = 0

abbrev pub ev_key : ℕ
ev_key = 1

abbrev pub ev_rel : ℕ
ev_rel = 2

abbrev pub ev_abs : ℕ
ev_abs = 3

abbrev pub ev_rep : ℕ
ev_rep = 0x14

abbrev pub rel_wheel : ℕ
rel_wheel = 8

abbrev pub buttons_list : List ℕ
buttons_list = 0x110 ∷ 0x111 ∷ 0x112 ∷ []

unfoldable pub virtio_input_recv_request :
    {D : Type 0} → VirtioDevice × D → ℕ → ℕ → ℕ → ℕ → Option ((VirtioDevice × D) × Bool)
virtio_input_recv_request (s, d) queue_idx desc_idx read_size write_size =
    if queue_idx == 1
    then some ((virtio_consume_desc s queue_idx desc_idx 0, d), true)
    else some ((s, d), true)

-- The eight bytes of an event.
unfoldable pub event_bytes : ℕ → ℕ → ℕ → ℕ → ℕ
event_bytes type code value = store_le (store_le (store_le (λ _. 0) 2 0 type) 2 2 code) 4 4 value

-- The flag is a return value of 0.
unfoldable pub virtio_input_queue_event :
    ℕ → VirtioDesc → VirtioDevice → ℕ → ℕ → ℕ → Option (VirtioDevice × Bool)
virtio_input_queue_event chain uninit s type code value = elim (receive_desc s) [
  | none ↦ some (s, false)
  | some i ↦ fill_desc chain uninit s i (event_bytes type code value) 8 >>= (λ t. some (t, true))
]

-- `if (ret) return ret;`
unfoldable pub event_then :
    Option (VirtioDevice × Bool)
    → (VirtioDevice → Option (VirtioDevice × Bool))
    → Option (VirtioDevice × Bool)
event_then none k = none
event_then (some (s, false)) k = some (s, false)
event_then (some (s, true)) k = k s

module _ (chain : ℕ) (uninit : VirtioDesc) where
  unfoldable pub virtio_input_send_key_event :
      VirtioDevice → VirtioInputDevice → Bool → ℕ → Option (VirtioDevice × Bool)
  virtio_input_send_key_event s d is_down key_code = elim d.type [
    | keyboard ↦
        event_then (virtio_input_queue_event chain uninit s ev_key key_code (of_bool is_down))
          (λ t. virtio_input_queue_event chain uninit t ev_syn 0 0)
    | mouse ↦ some (s, false)
    | tablet ↦ some (s, false)
  ]

  -- An event for each button that has changed.
  unfoldable pub send_buttons : List ℕ → VirtioDevice → ℕ → ℕ → Option (VirtioDevice × Bool)
  send_buttons [] s old buttons = some (s, true)
  send_buttons (code ∷ codes) s old buttons =
      let rest = λ (t : VirtioDevice). send_buttons codes t (old / 2) (buttons / 2) in
      if buttons % 2 == old % 2
      then rest s
      else event_then (virtio_input_queue_event chain uninit s ev_key code (buttons % 2)) rest

  unfoldable pub send_motion : VirtioDevice → ℕ → ℕ → ℕ → ℕ → Option (VirtioDevice × Bool)
  send_motion s type dx dy dz = event_then (virtio_input_queue_event chain uninit s type 0 dx) (λ t.
      event_then (virtio_input_queue_event chain uninit t type 1 dy) (λ u.
        if dz == 0
        then some (u, true)
        else virtio_input_queue_event chain uninit u ev_rel rel_wheel dz))

  -- The buttons, which are noted when every event was sent, and the end of the report.
  unfoldable pub finish_report :
      VirtioDevice × VirtioInputDevice
      → ℕ
      → Option (VirtioDevice × Bool)
      → Option ((VirtioDevice × VirtioInputDevice) × Bool)
  finish_report (s, d) buttons none = none
  finish_report (s, d) buttons (some (t, false)) = some ((t, d), false)
  finish_report (s, d) buttons (some (t, true)) =
      virtio_input_queue_event chain uninit t ev_syn 0 0
      >>= (λ r. some ((r.0, record d { buttons_state = buttons }), r.1))

  unfoldable pub virtio_input_send_mouse_event :
      VirtioDevice × VirtioInputDevice
      → ℕ
      → ℕ
      → ℕ
      → ℕ
      → Option ((VirtioDevice × VirtioInputDevice) × Bool)
  virtio_input_send_mouse_event (s, d) dx dy dz buttons =
      let report = λ (type : ℕ).
        finish_report (s, d) buttons
          (event_then (send_motion s type dx dy dz)
            (λ t. send_buttons buttons_list t d.buttons_state buttons)) in
      elim d.type [
        | keyboard ↦ some ((s, d), false)
        | mouse ↦ report ev_rel
        | tablet ↦ report ev_abs
      ]

-- `tab[k >> 3] |= 1 << (k & 7)`, on the bytes from `base` on.
unfoldable pub set_bit : (ℕ → ℕ) → ℕ → ℕ → ℕ → ℕ
set_bit tab base k = update tab (base + k / 8) (bit_or (tab (base + k / 8)) (2 ^ bit_and k 7))

unfoldable pub set_bits : (ℕ → ℕ) → ℕ → List ℕ → ℕ → ℕ
set_bits tab base [] = tab
set_bits tab base (k ∷ ks) = set_bits (set_bit tab base k) base ks

unfoldable pub put_bytes : (ℕ → ℕ) → ℕ → List ℕ → ℕ → ℕ
put_bytes tab base [] = tab
put_bytes tab base (b ∷ bs) = put_bytes (update tab base b) (base + 1) bs

-- `memset(tab + base, b, n)`.
unfoldable pub fill_bytes : (ℕ → ℕ) → ℕ → ℕ → ℕ → ℕ → ℕ
fill_bytes tab base b n i = if leb base i && ltb i (base + n) then b else tab i

unfoldable pub device_name : InputType → List ℕ
device_name keyboard =
    b'v' ∷ b'i' ∷ b'r' ∷ b't' ∷ b'i' ∷ b'o' ∷ b'_' ∷ b'k' ∷ b'e' ∷ b'y' ∷ b'b' ∷ b'o' ∷ b'a' ∷ b'r'
    ∷ b'd' ∷ []
device_name mouse =
    b'v' ∷ b'i' ∷ b'r' ∷ b't' ∷ b'i' ∷ b'o' ∷ b'_' ∷ b'm' ∷ b'o' ∷ b'u' ∷ b's' ∷ b'e' ∷ []
device_name tablet =
    b'v' ∷ b'i' ∷ b'r' ∷ b't' ∷ b'i' ∷ b'o' ∷ b'_' ∷ b't' ∷ b'a' ∷ b'b' ∷ b'l' ∷ b'e' ∷ b't' ∷ []

-- The events of a type that a device sends.
unfoldable pub event_config : InputType → (ℕ → ℕ) → ℕ → ℕ
event_config keyboard c =
    if c 1 == ev_key
    then fill_bytes (update c 2 16) 8 0xff 16
    else if c 1 == ev_rep
    then update c 2 1
    else c
event_config mouse c =
    if c 1 == ev_key
    then set_bits (fill_bytes (update c 2 64) 8 0 64) 8 buttons_list
    else if c 1 == ev_rel
    then set_bits (fill_bytes (update c 2 2) 8 0 2) 8 (0 ∷ 1 ∷ rel_wheel ∷ [])
    else c
event_config tablet c =
    if c 1 == ev_key
    then set_bits (fill_bytes (update c 2 64) 8 0 64) 8 buttons_list
    else if c 1 == ev_rel
    then set_bits (fill_bytes (update c 2 2) 8 0 2) 8 (rel_wheel ∷ [])
    else if c 1 == ev_abs
    then set_bits (fill_bytes (update c 2 1) 8 0 1) 8 (0 ∷ 1 ∷ [])
    else c

unfoldable pub is_tablet : InputType → Bool
is_tablet tablet = true
is_tablet keyboard = false
is_tablet mouse = false

-- The five words for an axis of the tablet.
unfoldable pub axis_info : (ℕ → ℕ) → ℕ → ℕ
axis_info c =
    let low = store_le (store_le (update c 2 20) 4 8 0) 4 12 32767 in
    store_le (store_le (store_le low 4 16 0) 4 20 0) 4 24 0

-- The answer in the configuration space to the query in its first two bytes.
unfoldable pub answer : InputType → (ℕ → ℕ) → ℕ → ℕ
answer type c =
    if c 0 == 0
    then c
    else if c 0 == 1
    then (let name = device_name type in put_bytes (update c 2 (length name)) 8 name)
    else if c 0 == 0x11
    then event_config type (update c 2 0)
    else if c 0 == 0x12
    then if is_tablet type && leb (c 1) 1 then axis_info c else c
    else update c 2 0

unfoldable pub virtio_input_config_write :
    VirtioDevice × VirtioInputDevice → Option (VirtioDevice × VirtioInputDevice)
virtio_input_config_write (s, d) =
    some (record s { config_space = answer d.type s.config_space }, d)
