-- ===== src/Input/Tests.antt =====
-- Runs of the keyboard and of the mouse.
use aperture_os.Prelude.{◌≡◌, refl, arith, none, some, List, [], ◌∷◌}
use aperture_os.Input.{
  empty_keyboard, keyboard_interrupt, read_scancode, read_char, ascii_of, entry_of, initial_mouse,
  mouse_interrupt, mouse_position, mouse_buttons, add_clamped, sub_clamped,
}
use aperture_os.Input.Ring.{
  KeyEvent, run_ring, run_queue, empty_keyboard-IsHolding, run_ring-run_queue,
}
use aperture_os.Input.Packets.{
  Packet, IsPacket, IsAligned, run_bytes, all_bytes, moves, view, run_bytes-moves,
}

abbrev typed : List KeyEvent
typed = KeyEvent.key 0x1E ∷ KeyEvent.key 0x30 ∷ KeyEvent.read ∷ KeyEvent.read ∷ KeyEvent.read ∷ []

typed_run : run_ring empty_keyboard typed ≡ some 0x1E ∷ some 0x30 ∷ none ∷ []
unfolding run_ring keyboard_interrupt read_scancode
typed_run = refl

run_ring-run_queue_example : run_ring empty_keyboard typed ≡ run_queue 31 [] typed
run_ring-run_queue_example = run_ring-run_queue empty_keyboard [] typed empty_keyboard-IsHolding

letter : (ascii_of 0x1E ≡ some 97) × (ascii_of 0x9E ≡ none)
unfolding ascii_of entry_of
letter = (refl, refl)

-- The release of a key ends a loop over `read_char`, though a character waits behind it.
released : (read_char (keyboard_interrupt 0x1E (keyboard_interrupt 0x9E empty_keyboard))).0 ≡ none
unfolding read_char read_scancode keyboard_interrupt ascii_of entry_of
released = refl

abbrev right_up : Packet
right_up = record { noise = 0x00 ∷ 0x07 ∷ []; buttons = 0x09; dx = 10; dy = 246 }

right_up-IsPacket : IsPacket right_up
right_up-IsPacket = ((refl, (refl, tt)), λ e. absurd (omega (arith, e)), omega arith, omega arith)

moved_run : mouse_position (run_bytes (all_bytes (right_up ∷ [])) initial_mouse) ≡ (110, 110)
unfolding mouse_position run_bytes mouse_interrupt add_clamped sub_clamped
moved_run = refl

run_bytes-moves_example :
    (view (run_bytes (all_bytes (right_up ∷ right_up ∷ [])) initial_mouse)
      ≡ moves (right_up ∷ right_up ∷ []) (100, 100, 0))
    × IsAligned (run_bytes (all_bytes (right_up ∷ right_up ∷ [])) initial_mouse)
run_bytes-moves_example =
    run_bytes-moves (right_up ∷ right_up ∷ []) initial_mouse
      (right_up-IsPacket, (right_up-IsPacket, tt)) (record { cycle = refl; size = refl })

buttons_run : mouse_buttons (run_bytes (all_bytes (right_up ∷ [])) initial_mouse) ≡ 1
unfolding mouse_buttons run_bytes mouse_interrupt add_clamped sub_clamped
buttons_run = refl
