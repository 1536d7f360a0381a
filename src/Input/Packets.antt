-- ===== src/Input/Packets.antt =====
-- kernel/src/arch/x86_64/interrupts.rs: the mouse's bytes as packets.
use Prim.Native.Nat.{bit_and}
use aperture_os.Prelude.{
  ℕ, ◌+◌, ◌-◌, ◌%◌, Bool-cases, inl, inr, ltb, min, ◌≤◌, ◌<◌, ◌≡◌, ◌≢◌, ◌∙◌, refl, ap, sym, subst,
  arith, List, [], ◌∷◌, ◌++◌, Bool, true, false, All, length, length-set, get_or, set,
  if◌then◌else◌, ◌==◌, ◌&&◌, ℤ, signed8,
}
use aperture_os.Bits.Field.{bit_and-low}
use aperture_os.Input.{Mouse, mouse_interrupt, add_clamped, sub_clamped}

-- A packet of three bytes, and bytes before it that are not the first of one.
pub record Packet : Type 0 where
  pub noise : List ℕ
  pub buttons : ℕ
  pub dx : ℕ
  pub dy : ℕ

-- The first byte of a packet has bit 3 set; a byte of noise has not. The other two are any bytes.
abbrev pub IsPacket : Packet → Type 0
IsPacket p =
    All (λ b. bit_and b 8 ≡ 0) p.noise × (bit_and p.buttons 8 ≢ 0) × (p.dx < 256) × (p.dy < 256)

abbrev pub bytes_of : Packet → List ℕ
bytes_of p = p.noise ++ p.buttons ∷ p.dx ∷ p.dy ∷ []

-- The mouse's interrupts for the bytes, in order.
unfoldable pub run_bytes : List ℕ → Mouse → Mouse
run_bytes [] s = s
run_bytes (b ∷ bs) s = run_bytes bs (mouse_interrupt b s)

abbrev pub all_bytes : List Packet → List ℕ
all_bytes [] = []
all_bytes (p ∷ ps) = bytes_of p ++ all_bytes ps

-- What a packet means, on a screen of 1280 by 1024. A second byte below 128 is a number of steps to
-- the right, and from 128 on it is 256 less the number of steps to the left. A third byte below 128
-- is a number of steps up, towards row 0, and from 128 on 256 less the number of steps down. A step
-- over an edge is lost. The low three digits of the first byte are the buttons.
unfoldable pub move : Packet → ℕ × ℕ × ℕ → ℕ × ℕ × ℕ
move p (x, y, btn) = (
  if ltb p.dx 128 then min 1279 (x + p.dx) else min 1279 (x - (256 - p.dx)),
  if ltb p.dy 128 then min 1023 (y - p.dy) else min 1023 (y + (256 - p.dy)),
  p.buttons % 8,
)

unfoldable pub moves : List Packet → ℕ × ℕ × ℕ → ℕ × ℕ × ℕ
moves [] at = at
moves (p ∷ ps) at = moves ps (move p at)

abbrev pub view : Mouse → ℕ × ℕ × ℕ
view s = (s.x, s.y, s.btn)

-- Between two packets.
pub record IsAligned (s : Mouse) : Type 0 where
  pub cycle : s.cycle ≡ 0
  pub size : length s.packet ≡ 3

run_bytes-append :
    (bs cs : List ℕ) (s : Mouse) → run_bytes (bs ++ cs) s ≡ run_bytes cs (run_bytes bs s)
unfolding run_bytes
run_bytes-append [] cs s = refl
run_bytes-append (b ∷ bs) cs s = run_bytes-append bs cs (mouse_interrupt b s)

noise_ignored :
    (bs : List ℕ) (s : Mouse) → s.cycle ≡ 0 → All (λ b. bit_and b 8 ≡ 0) bs → run_bytes bs s ≡ s
unfolding run_bytes mouse_interrupt
noise_ignored [] s c h = refl
noise_ignored (b ∷ bs) s c h =
    let skip : mouse_interrupt b s ≡ s = ground (arith, c, h.0) in
    ap (run_bytes bs) skip ∙ noise_ignored bs s c h.1

-- The three bytes of a packet, on a mouse between two packets.
abbrev moved : ℕ → ℕ → ℕ → Mouse → Mouse
moved b dx dy s = record {
  x = add_clamped s.x (signed8 dx) 1279;
  y = sub_clamped s.y (signed8 dy) 1023;
  btn = bit_and b 7;
  cycle = 0;
  packet = b ∷ dx ∷ dy ∷ [];
}

first_byte :
    (b c : ℕ) (s : Mouse) (q r : ℕ)
    → bit_and b 8 ≢ 0
    → s.cycle ≡ 0
    → s.packet ≡ c ∷ q ∷ r ∷ []
    → mouse_interrupt b s ≡ record s { cycle = 1; packet = b ∷ q ∷ r ∷ [] }
unfolding mouse_interrupt
first_byte b c s q r h z e =
    let stored : set s.packet s.cycle b ≡ b ∷ q ∷ r ∷ [] =
      ap (λ xs. set xs s.cycle b) e ∙ ap (λ i. set (c ∷ q ∷ r ∷ []) i b) z in
    let next : (s.cycle + 1) % 3 ≡ 1 = omega (arith, z) in ground (arith, stored, next, z, h)

three_bytes :
    (b dx dy : ℕ) (s : Mouse) (packet : List ℕ)
    → bit_and b 8 ≢ 0
    → s.cycle ≡ 0
    → length packet ≡ 3
    → s.packet ≡ packet
    → run_bytes (b ∷ dx ∷ dy ∷ []) s ≡ moved b dx dy s
unfolding run_bytes mouse_interrupt
three_bytes b dx dy s [] h z l e = absurd (omega arith)
three_bytes b dx dy s (c ∷ []) h z l e = absurd (omega arith)
three_bytes b dx dy s (c ∷ q ∷ []) h z l e = absurd (omega arith)
three_bytes b dx dy s (c ∷ q ∷ r ∷ []) h z l e =
    ap (λ t. mouse_interrupt dy (mouse_interrupt dx t)) (first_byte b c s q r h z e)
three_bytes b dx dy s (c ∷ q ∷ r ∷ t ∷ rest) h z l e = absurd (omega arith)

-- The signed arithmetic of the handler is the steps of `move`.
add_clamped-signed8 :
    (n b limit : ℕ)
    → b < 256
    → add_clamped n (signed8 b) limit
      ≡ (if ltb b 128 then min limit (n + b) else min limit (n - (256 - b)))
unfolding add_clamped
add_clamped-signed8 n b limit l = elim (Bool-cases (ltb b 128)) [
  | inl small ↦ ground (arith, small)
  | inr large ↦ let e : 255 - b + 1 ≡ 256 - b = omega arith in ground (arith, large, e)
]

sub_clamped-signed8 :
    (n b limit : ℕ)
    → b < 256
    → sub_clamped n (signed8 b) limit
      ≡ (if ltb b 128 then min limit (n - b) else min limit (n + (256 - b)))
unfolding sub_clamped
sub_clamped-signed8 n b limit l = elim (Bool-cases (ltb b 128)) [
  | inl small ↦ ground (arith, small)
  | inr large ↦ let e : 255 - b + 1 ≡ 256 - b = omega arith in ground (arith, large, e)
]

packet-moves :
    (p : Packet) (s : Mouse)
    → IsPacket p
    → IsAligned s
    → (view (run_bytes (bytes_of p) s) ≡ move p (view s)) × IsAligned (run_bytes (bytes_of p) s)
unfolding move
packet-moves p s h a =
    let e : run_bytes (bytes_of p) s ≡ moved p.buttons p.dx p.dy s =
      run_bytes-append p.noise (p.buttons ∷ p.dx ∷ p.dy ∷ []) s
      ∙ ap (run_bytes (p.buttons ∷ p.dx ∷ p.dy ∷ [])) (noise_ignored p.noise s a.cycle h.0)
      ∙ three_bytes p.buttons p.dx p.dy s s.packet h.1 a.cycle a.size refl in
    let to_x = add_clamped-signed8 s.x p.dx 1279 h.2 in
    let to_y = sub_clamped-signed8 s.y p.dy 1023 h.3 in
    let low : bit_and p.buttons 7 ≡ p.buttons % 8 = bit_and-low 3 p.buttons in
    (
      ap view e ∙ (λ i. (to_x i, to_y i, low i)),
      subst IsAligned (sym e) (record { cycle = refl; size = refl }),
    )

-- Between two packets, any bytes that are packets with noise before them move the pointer and set
-- the buttons as the packets say one after the other, and the next byte starts a packet again.
pub run_bytes-moves :
    (ps : List Packet) (s : Mouse)
    → All IsPacket ps
    → IsAligned s
    → (view (run_bytes (all_bytes ps) s) ≡ moves ps (view s))
      × IsAligned (run_bytes (all_bytes ps) s)
unfolding run_bytes moves
run_bytes-moves [] s h a = (refl, a)
run_bytes-moves (p ∷ ps) s h a =
    let s' : Mouse = run_bytes (bytes_of p) s in
    let (moved_to, a') = packet-moves p s h.0 a in
    let (rest, a'') = run_bytes-moves ps s' h.1 a' in
    let e : run_bytes (bytes_of p ++ all_bytes ps) s ≡ run_bytes (all_bytes ps) s' =
      run_bytes-append (bytes_of p) (all_bytes ps) s in
    (ap view e ∙ rest ∙ ap (moves ps) moved_to, subst IsAligned (sym e) a'')

-- The pointer is on the screen, and the packet's index is one of its three bytes.
pub record IsOnScreen (s : Mouse) : Type 0 where
  pub x-le : s.x ≤ 1279
  pub y-le : s.y ≤ 1023
  pub btn-lt : s.btn < 8
  pub cycle-lt : s.cycle < 3
  pub size : length s.packet ≡ 3

add_clamped-le : (n : ℕ) (d : ℤ) (limit : ℕ) → add_clamped n d limit ≤ limit
unfolding add_clamped
add_clamped-le n (ℤ.pos d) limit = omega arith
add_clamped-le n (ℤ.negsuc d) limit = omega arith

sub_clamped-le : (n : ℕ) (d : ℤ) (limit : ℕ) → sub_clamped n d limit ≤ limit
unfolding sub_clamped
sub_clamped-le n (ℤ.pos d) limit = omega arith
sub_clamped-le n (ℤ.negsuc d) limit = omega arith

if-IsOnScreen :
    (b : Bool) (s t : Mouse) → IsOnScreen s → IsOnScreen t → IsOnScreen (if b then s else t)
if-IsOnScreen true s t h k = h
if-IsOnScreen false s t h k = k

mouse_interrupt-IsOnScreen :
    (byte : ℕ) (s : Mouse) → IsOnScreen s → IsOnScreen (mouse_interrupt byte s)
unfolding mouse_interrupt
mouse_interrupt-IsOnScreen byte s h =
    let packet : List ℕ = set s.packet s.cycle byte in
    let next : ℕ = (s.cycle + 1) % 3 in
    let kept : length packet ≡ 3 = length-set s.packet s.cycle byte ∙ h.size in
    if-IsOnScreen (s.cycle == 0 && bit_and byte 8 == 0) s _ h (
      if-IsOnScreen (next == 0) _ (record s { cycle = next; packet = packet })
        (record {
          x-le = add_clamped-le s.x (signed8 (get_or packet 1 0)) 1279;
          y-le = sub_clamped-le s.y (signed8 (get_or packet 2 0)) 1023;
          btn-lt = omega (arith, bit_and-low 3 (get_or packet 0 0));
          cycle-lt = omega arith;
          size = kept;
        })
        (record {
          x-le = h.x-le;
          y-le = h.y-le;
          btn-lt = h.btn-lt;
          cycle-lt = omega arith;
          size = kept;
        }))

-- Whatever bytes the mouse sends, in step with its packets or not, the pointer stays on the screen
-- and the index of the next byte is inside the packet's three bytes.
pub run_bytes-IsOnScreen : (bs : List ℕ) (s : Mouse) → IsOnScreen s → IsOnScreen (run_bytes bs s)
unfolding run_bytes
run_bytes-IsOnScreen [] s h = h
run_bytes-IsOnScreen (b ∷ bs) s h =
    run_bytes-IsOnScreen bs (mouse_interrupt b s) (mouse_interrupt-IsOnScreen b s h)
