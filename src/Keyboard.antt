-- ===== src/Keyboard.antt =====
-- The keyboard, src/kbd.c with the tables of src/kbd.h.
--
-- A scan code is what the data port gives when the controller has one. Characters are their codes.
pub mod Typing
mod Tests
use a3team_os.Base.{
  ℕ, zero, suc, ◌+◌, ◌-◌, ◌%◌, ◌^◌, Bool, true, false, not, ◌&&◌, Option, none, some, List, [], ◌∷◌,
  ◌==◌, ltb, leb, if◌then◌else◌, get_or, bit_and, bit_or, bit_xor, map, length,
}
use a3team_os.Console.{Input, Echo, consoleintr}

-- The bits of `shift`.
abbrev pub shift_bit : ℕ
shift_bit = 1

abbrev pub ctl_bit : ℕ
ctl_bit = 2

abbrev pub alt_bit : ℕ
alt_bit = 4

abbrev pub capslock_bit : ℕ
capslock_bit = 8

abbrev pub numlock_bit : ℕ
numlock_bit = 16

abbrev pub scrolllock_bit : ℕ
scrolllock_bit = 32

abbrev pub e0esc_bit : ℕ
e0esc_bit = 64

-- A table with few entries, as pairs; the others are 0.
abbrev pub find_code : List (ℕ × ℕ) → ℕ → ℕ
find_code [] d = 0
find_code ((k, v) ∷ rest) d = if k == d then v else find_code rest d

unfoldable pub shiftcode : ℕ → ℕ
shiftcode d =
    find_code
      ((0x1D, ctl_bit)
        ∷ (0x2A, shift_bit)
        ∷ (0x36, shift_bit)
        ∷ (0x38, alt_bit)
        ∷ (0x9D, ctl_bit)
        ∷ (0xB8, alt_bit)
        ∷ [])
      d

unfoldable pub togglecode : ℕ → ℕ
togglecode d =
    find_code ((0x3A, capslock_bit) ∷ (0x45, numlock_bit) ∷ (0x46, scrolllock_bit) ∷ []) d

-- The keys behind the escape code 0xE0, which the three maps share but for the first two.
abbrev pub keypad : (enter div : ℕ) → List (ℕ × ℕ)
keypad enter div =
    (0x9C, enter)
    ∷ (0xB5, div)
    ∷ (0xC8, 0xE2)
    ∷ (0xD0, 0xE3)
    ∷ (0xC9, 0xE6)
    ∷ (0xD1, 0xE7)
    ∷ (0xCB, 0xE4)
    ∷ (0xCD, 0xE5)
    ∷ (0x97, 0xE0)
    ∷ (0xCF, 0xE1)
    ∷ (0xD2, 0xE8)
    ∷ (0xD3, 0xE9)
    ∷ []

-- The rows of a map stand in front of its keypad.
abbrev pub look : List ℕ → List (ℕ × ℕ) → ℕ → ℕ
look rows pad d = if ltb d (length rows) then get_or rows d 0 else find_code pad d

abbrev pub normalmap_rows : List ℕ
normalmap_rows =
    0 ∷ 27 ∷ 49 ∷ 50 ∷ 51 ∷ 52 ∷ 53 ∷ 54 ∷ 55 ∷ 56 ∷ 57 ∷ 48 ∷ 45 ∷ 61 ∷ 8 ∷ 9 ∷ 113 ∷ 119 ∷ 101
    ∷ 114 ∷ 116 ∷ 121 ∷ 117 ∷ 105 ∷ 111 ∷ 112 ∷ 91 ∷ 93 ∷ 10 ∷ 0 ∷ 97 ∷ 115 ∷ 100 ∷ 102 ∷ 103 ∷ 104
    ∷ 106 ∷ 107 ∷ 108 ∷ 59 ∷ 39 ∷ 96 ∷ 0 ∷ 92 ∷ 122 ∷ 120 ∷ 99 ∷ 118 ∷ 98 ∷ 110 ∷ 109 ∷ 44 ∷ 46 ∷ 47
    ∷ 0 ∷ 42 ∷ 0 ∷ 32 ∷ 0 ∷ 0 ∷ 0 ∷ 0 ∷ 0 ∷ 0 ∷ 0 ∷ 0 ∷ 0 ∷ 0 ∷ 0 ∷ 0 ∷ 0 ∷ 55 ∷ 56 ∷ 57 ∷ 45 ∷ 52
    ∷ 53 ∷ 54 ∷ 43 ∷ 49 ∷ 50 ∷ 51 ∷ 48 ∷ 46 ∷ 0 ∷ 0 ∷ 0 ∷ 0 ∷ []

unfoldable pub normalmap : ℕ → ℕ
normalmap d = look normalmap_rows (keypad 10 47) d

abbrev pub shiftmap_rows : List ℕ
shiftmap_rows =
    0 ∷ 27 ∷ 33 ∷ 64 ∷ 35 ∷ 36 ∷ 37 ∷ 94 ∷ 38 ∷ 42 ∷ 40 ∷ 41 ∷ 95 ∷ 43 ∷ 8 ∷ 9 ∷ 81 ∷ 87 ∷ 69 ∷ 82
    ∷ 84 ∷ 89 ∷ 85 ∷ 73 ∷ 79 ∷ 80 ∷ 123 ∷ 125 ∷ 10 ∷ 0 ∷ 65 ∷ 83 ∷ 68 ∷ 70 ∷ 71 ∷ 72 ∷ 74 ∷ 75 ∷ 76
    ∷ 58 ∷ 34 ∷ 126 ∷ 0 ∷ 124 ∷ 90 ∷ 88 ∷ 67 ∷ 86 ∷ 66 ∷ 78 ∷ 77 ∷ 60 ∷ 62 ∷ 63 ∷ 0 ∷ 42 ∷ 0 ∷ 32
    ∷ 0 ∷ 0 ∷ 0 ∷ 0 ∷ 0 ∷ 0 ∷ 0 ∷ 0 ∷ 0 ∷ 0 ∷ 0 ∷ 0 ∷ 0 ∷ 55 ∷ 56 ∷ 57 ∷ 45 ∷ 52 ∷ 53 ∷ 54 ∷ 43 ∷ 49
    ∷ 50 ∷ 51 ∷ 48 ∷ 46 ∷ 0 ∷ 0 ∷ 0 ∷ 0 ∷ []

unfoldable pub shiftmap : ℕ → ℕ
shiftmap d = look shiftmap_rows (keypad 10 47) d

abbrev pub ctlmap_rows : List ℕ
ctlmap_rows =
    0 ∷ 0 ∷ 0 ∷ 0 ∷ 0 ∷ 0 ∷ 0 ∷ 0 ∷ 0 ∷ 0 ∷ 0 ∷ 0 ∷ 0 ∷ 0 ∷ 0 ∷ 0 ∷ 17 ∷ 23 ∷ 5 ∷ 18 ∷ 20 ∷ 25 ∷ 21
    ∷ 9 ∷ 15 ∷ 16 ∷ 0 ∷ 0 ∷ 13 ∷ 0 ∷ 1 ∷ 19 ∷ 4 ∷ 6 ∷ 7 ∷ 8 ∷ 10 ∷ 11 ∷ 12 ∷ 0 ∷ 0 ∷ 0 ∷ 0 ∷ 28 ∷ 26
    ∷ 24 ∷ 3 ∷ 22 ∷ 2 ∷ 14 ∷ 13 ∷ 0 ∷ 0 ∷ 239 ∷ 0 ∷ 0 ∷ []

unfoldable pub ctlmap : ℕ → ℕ
ctlmap d = look ctlmap_rows (keypad 13 239) d

-- `charcode[shift & (CTL | SHIFT)]`
unfoldable pub charcode : (shift : ℕ) → ℕ → ℕ
charcode shift d =
    let i = bit_and shift (bit_or ctl_bit shift_bit) in
    if i == 0 then normalmap d else if i == 1 then shiftmap d else ctlmap d

-- The other case of a letter.
abbrev pub swap_case : ℕ → ℕ
swap_case c =
    if leb 97 c && leb c 122
    then (c + (2 ^ 32 - 32)) % 2 ^ 32
    else if leb 65 c && leb c 90
    then c + 32
    else c

-- `shift & ~bits`
abbrev pub clear_bits : (shift bits : ℕ) → ℕ
clear_bits shift bits = bit_and shift (2 ^ 32 - 1 - bits)

-- A key that is pressed: the new `shift`, and the character.
unfoldable pub press : (shift d : ℕ) → ℕ × ℕ
press shift d =
    let shift1 = bit_xor (bit_or shift (shiftcode d)) (togglecode d) in
    let c = charcode shift1 d in
    (shift1, (if bit_and shift1 capslock_bit == 0 then c else swap_case c))

-- `kbdgetc` with a scan code: the new `shift`, and the character or 0.
unfoldable pub kbdgetc : (shift code : ℕ) → ℕ × ℕ
kbdgetc shift code =
    let escaped = not (bit_and shift e0esc_bit == 0) in
    let released = if escaped then code else bit_and code 0x7F in
    if code == 0xE0
    then (bit_or shift e0esc_bit, 0)
    else if not (bit_and code 0x80 == 0)
    then (clear_bits shift (bit_or (shiftcode released) e0esc_bit), 0)
    else if escaped
    then press (clear_bits shift e0esc_bit) (bit_or code 0x80)
    else press shift code

abbrev pub then_char : ℕ → ℕ × List ℕ → ℕ × List ℕ
then_char c (shift, cs) = (shift, c ∷ cs)

-- The characters that `kbdgetc` gives for the scan codes that are there, before it gives -1.
unfoldable pub scan_codes : (shift : ℕ) → List ℕ → ℕ × List ℕ
scan_codes shift [] = (shift, [])
scan_codes shift (code ∷ codes) =
    let (shift1, c) = kbdgetc shift code in then_char c (scan_codes shift1 codes)

-- `kbdintr`
unfoldable pub kbdintr : (shift : ℕ) → List ℕ → Input → ℕ × Echo
kbdintr shift codes i = let (shift1, cs) = scan_codes shift codes in (shift1, consoleintr cs i)
