-- ===== src/Input.antt =====
-- kernel/src/arch/x86_64/interrupts.rs: the keyboard's ring buffer and the mouse's packets. A byte
-- that a handler reads from the port 0x60 is its argument; the acknowledgement to the interrupt
-- controller is output. The processor is single-core, and a handler runs to its end.
pub mod Ring
pub mod Packets
mod Tests
use Prim.Native.Nat.{bit_and}
use aperture_os.Prelude.{
  ℕ, ◌+◌, ◌-◌, ◌%◌, Option, none, some, List, [], ◌∷◌, not, ◌&&◌, if◌then◌else◌, ◌==◌, min, get_or,
  set, replicate, ℤ, signed8,
}

abbrev pub keyboard_buf_size : ℕ
keyboard_buf_size = 32

-- The statics KEYBOARD_BUF, KEYBOARD_HEAD and KEYBOARD_TAIL.
pub record Keyboard : Type 0 where
  pub buf : List ℕ
  pub head : ℕ
  pub tail : ℕ

abbrev pub empty_keyboard : Keyboard
empty_keyboard = record { buf = replicate keyboard_buf_size 0; head = 0; tail = 0 }

-- `keyboard_interrupt_handler`
unfoldable pub keyboard_interrupt : ℕ → Keyboard → Keyboard
keyboard_interrupt scancode k =
    let next = (k.tail + 1) % keyboard_buf_size in
    if next == k.head then k else record k { buf = set k.buf k.tail scancode; tail = next }

unfoldable pub read_scancode : Keyboard → Option ℕ × Keyboard
read_scancode k =
    if k.head == k.tail
    then (none, k)
    else (some (get_or k.buf k.head 0), record k { head = (k.head + 1) % keyboard_buf_size })

-- The table of `read_char`; a character is its code.
abbrev ascii_table : List (ℕ × ℕ)
ascii_table =
    (0x01, 0x1B)
    ∷ (0x0E, 0x8)
    ∷ (0x1C, 10)
    ∷ (0x39, 32)
    ∷ (0x02, 49)
    ∷ (0x03, 50)
    ∷ (0x04, 51)
    ∷ (0x05, 52)
    ∷ (0x06, 53)
    ∷ (0x07, 54)
    ∷ (0x08, 55)
    ∷ (0x09, 56)
    ∷ (0x0A, 57)
    ∷ (0x0B, 48)
    ∷ (0x10, 113)
    ∷ (0x11, 119)
    ∷ (0x12, 101)
    ∷ (0x13, 114)
    ∷ (0x14, 116)
    ∷ (0x15, 121)
    ∷ (0x16, 117)
    ∷ (0x17, 105)
    ∷ (0x18, 111)
    ∷ (0x19, 112)
    ∷ (0x1E, 97)
    ∷ (0x1F, 115)
    ∷ (0x20, 100)
    ∷ (0x21, 102)
    ∷ (0x22, 103)
    ∷ (0x23, 104)
    ∷ (0x24, 106)
    ∷ (0x25, 107)
    ∷ (0x26, 108)
    ∷ (0x2C, 122)
    ∷ (0x2D, 120)
    ∷ (0x2E, 99)
    ∷ (0x2F, 118)
    ∷ (0x30, 98)
    ∷ (0x31, 110)
    ∷ (0x32, 109)
    ∷ []

unfoldable pub entry_of : ℕ → List (ℕ × ℕ) → Option ℕ
entry_of scancode [] = none
entry_of scancode ((code, ascii) ∷ table) =
    let rest = entry_of scancode table in if scancode == code then some ascii else rest

unfoldable pub ascii_of : ℕ → Option ℕ
ascii_of scancode = entry_of scancode ascii_table

-- `read_char`: a scancode that is not in the table is taken out all the same.
unfoldable pub read_char : Keyboard → Option ℕ × Keyboard
read_char k =
    let (scancode, k') = read_scancode k in
    elim scancode [ none ↦ (none, k') | some c ↦ (ascii_of c, k') ]

-- The statics MOUSE_X, MOUSE_Y, MOUSE_BTN, MOUSE_CYCLE and MOUSE_PACKET. The position is never
-- negative, so it is two natural numbers; a byte of the packet is kept as it was read.
pub record Mouse : Type 0 where
  pub x : ℕ
  pub y : ℕ
  pub btn : ℕ
  pub cycle : ℕ
  pub packet : List ℕ

abbrev pub initial_mouse : Mouse
initial_mouse = record { x = 100; y = 100; btn = 0; cycle = 0; packet = replicate 3 0 }

-- `(n + d).clamp(0, limit)` and `(n - d).clamp(0, limit)`
unfoldable pub add_clamped : ℕ → ℤ → ℕ → ℕ
add_clamped n (ℤ.pos d) limit = min limit (n + d)
add_clamped n (ℤ.negsuc d) limit = min limit (n - (d + 1))

unfoldable pub sub_clamped : ℕ → ℤ → ℕ → ℕ
sub_clamped n (ℤ.pos d) limit = min limit (n - d)
sub_clamped n (ℤ.negsuc d) limit = min limit (n + (d + 1))

-- `mouse_interrupt_handler`
unfoldable pub mouse_interrupt : ℕ → Mouse → Mouse
mouse_interrupt byte s =
    let packet = set s.packet s.cycle byte in
    let cycle = (s.cycle + 1) % 3 in
    if s.cycle == 0 && bit_and byte 8 == 0
    then s
    else if cycle == 0
    then record {
      x = add_clamped s.x (signed8 (get_or packet 1 0)) 1279;
      y = sub_clamped s.y (signed8 (get_or packet 2 0)) 1023;
      btn = bit_and (get_or packet 0 0) 7;
      cycle = cycle;
      packet = packet;
    }
    else record s { cycle = cycle; packet = packet }

unfoldable pub mouse_position : Mouse → ℕ × ℕ
mouse_position s = (s.x, s.y)

unfoldable pub mouse_buttons : Mouse → ℕ
mouse_buttons s = s.btn
