-- ===== src/Hardware/Ouis.antt =====
-- oui_table.go: the vendor prefixes that hardware.go draws from.
use randomizer.Base.{
  ℕ, ◌%◌, ◌<◌, ◌≡◌, refl, true, false, ◌&&◌, Bool, List, [], ◌∷◌, ltb, ◌==◌, length, get_or, arith,
  holds_below, holds_below_each, IsByte, All,
}

unfoldable pub real_ouis : List (List ℕ)
real_ouis =
    (0x00 ∷ 0x00 ∷ 0x00 ∷ [])
    ∷ (0x00 ∷ 0x00 ∷ 0x01 ∷ [])
    ∷ (0x00 ∷ 0x00 ∷ 0x02 ∷ [])
    ∷ (0x00 ∷ 0x00 ∷ 0x0c ∷ [])
    ∷ (0x00 ∷ 0x00 ∷ 0x0e ∷ [])
    ∷ (0x00 ∷ 0x00 ∷ 0x48 ∷ [])
    ∷ (0x00 ∷ 0x00 ∷ 0x4c ∷ [])
    ∷ (0x00 ∷ 0x00 ∷ 0x54 ∷ [])
    ∷ (0x00 ∷ 0x00 ∷ 0x6c ∷ [])
    ∷ (0x00 ∷ 0x00 ∷ 0x7d ∷ [])
    ∷ (0x00 ∷ 0x00 ∷ 0x85 ∷ [])
    ∷ (0x00 ∷ 0x00 ∷ 0xbc ∷ [])
    ∷ (0x00 ∷ 0x00 ∷ 0xc5 ∷ [])
    ∷ (0x00 ∷ 0x00 ∷ 0xca ∷ [])
    ∷ (0x00 ∷ 0x00 ∷ 0xf0 ∷ [])
    ∷ (0x00 ∷ 0x01 ∷ 0x30 ∷ [])
    ∷ (0x00 ∷ 0x01 ∷ 0x42 ∷ [])
    ∷ (0x00 ∷ 0x01 ∷ 0x43 ∷ [])
    ∷ (0x00 ∷ 0x01 ∷ 0x4a ∷ [])
    ∷ (0x00 ∷ 0x01 ∷ 0x5d ∷ [])
    ∷ (0x00 ∷ 0x01 ∷ 0xe3 ∷ [])
    ∷ (0x00 ∷ 0x01 ∷ 0xe6 ∷ [])
    ∷ (0x00 ∷ 0x01 ∷ 0xe7 ∷ [])
    ∷ (0x00 ∷ 0x02 ∷ 0x3b ∷ [])
    ∷ (0x00 ∷ 0x02 ∷ 0x55 ∷ [])
    ∷ (0x00 ∷ 0x02 ∷ 0xa5 ∷ [])
    ∷ (0x00 ∷ 0x02 ∷ 0xb3 ∷ [])
    ∷ (0x00 ∷ 0x02 ∷ 0xc9 ∷ [])
    ∷ (0x00 ∷ 0x03 ∷ 0x47 ∷ [])
    ∷ (0x00 ∷ 0x03 ∷ 0x74 ∷ [])
    ∷ (0x00 ∷ 0x03 ∷ 0x93 ∷ [])
    ∷ (0x00 ∷ 0x03 ∷ 0xba ∷ [])
    ∷ (0x00 ∷ 0x03 ∷ 0xe0 ∷ [])
    ∷ (0x00 ∷ 0x03 ∷ 0xff ∷ [])
    ∷ (0x00 ∷ 0x04 ∷ 0x0e ∷ [])
    ∷ (0x00 ∷ 0x04 ∷ 0x1f ∷ [])
    ∷ (0x00 ∷ 0x04 ∷ 0x23 ∷ [])
    ∷ (0x00 ∷ 0x04 ∷ 0x96 ∷ [])
    ∷ (0x00 ∷ 0x04 ∷ 0xac ∷ [])
    ∷ (0x00 ∷ 0x05 ∷ 0x02 ∷ [])
    ∷ (0x00 ∷ 0x05 ∷ 0x12 ∷ [])
    ∷ (0x00 ∷ 0x05 ∷ 0x4e ∷ [])
    ∷ (0x00 ∷ 0x05 ∷ 0x4f ∷ [])
    ∷ (0x00 ∷ 0x05 ∷ 0x69 ∷ [])
    ∷ (0x00 ∷ 0x05 ∷ 0x85 ∷ [])
    ∷ (0x00 ∷ 0x06 ∷ 0x29 ∷ [])
    ∷ (0x00 ∷ 0x06 ∷ 0x5b ∷ [])
    ∷ (0x00 ∷ 0x07 ∷ 0xab ∷ [])
    ∷ (0x00 ∷ 0x08 ∷ 0x0d ∷ [])
    ∷ (0x00 ∷ 0x08 ∷ 0x74 ∷ [])
    ∷ (0x00 ∷ 0x09 ∷ 0x0f ∷ [])
    ∷ (0x00 ∷ 0x09 ∷ 0x5b ∷ [])
    ∷ (0x00 ∷ 0x09 ∷ 0xbf ∷ [])
    ∷ (0x00 ∷ 0x0a ∷ 0x00 ∷ [])
    ∷ (0x00 ∷ 0x0a ∷ 0x27 ∷ [])
    ∷ (0x00 ∷ 0x0a ∷ 0xd9 ∷ [])
    ∷ (0x00 ∷ 0x0a ∷ 0xeb ∷ [])
    ∷ (0x00 ∷ 0x0a ∷ 0xf7 ∷ [])
    ∷ (0x00 ∷ 0x0b ∷ 0x57 ∷ [])
    ∷ (0x00 ∷ 0x0b ∷ 0x5d ∷ [])
    ∷ (0x00 ∷ 0x0b ∷ 0x86 ∷ [])
    ∷ (0x00 ∷ 0x0b ∷ 0xa3 ∷ [])
    ∷ (0x00 ∷ 0x0b ∷ 0xdb ∷ [])
    ∷ (0x00 ∷ 0x0c ∷ 0x29 ∷ [])
    ∷ (0x00 ∷ 0x0c ∷ 0x41 ∷ [])
    ∷ (0x00 ∷ 0x0c ∷ 0x42 ∷ [])
    ∷ (0x00 ∷ 0x0c ∷ 0x43 ∷ [])
    ∷ (0x00 ∷ 0x0c ∷ 0x6e ∷ [])
    ∷ (0x00 ∷ 0x0c ∷ 0x87 ∷ [])
    ∷ (0x00 ∷ 0x0c ∷ 0xe6 ∷ [])
    ∷ (0x00 ∷ 0x0c ∷ 0xe7 ∷ [])
    ∷ (0x00 ∷ 0x0d ∷ 0x02 ∷ [])
    ∷ (0x00 ∷ 0x0d ∷ 0x4b ∷ [])
    ∷ (0x00 ∷ 0x0d ∷ 0x67 ∷ [])
    ∷ (0x00 ∷ 0x0d ∷ 0x88 ∷ [])
    ∷ (0x00 ∷ 0x0d ∷ 0xb6 ∷ [])
    ∷ (0x00 ∷ 0x0e ∷ 0x08 ∷ [])
    ∷ (0x00 ∷ 0x0e ∷ 0x58 ∷ [])
    ∷ (0x00 ∷ 0x0e ∷ 0x59 ∷ [])
    ∷ (0x00 ∷ 0x0e ∷ 0x7b ∷ [])
    ∷ (0x00 ∷ 0x0e ∷ 0x8c ∷ [])
    ∷ (0x00 ∷ 0x0e ∷ 0xa6 ∷ [])
    ∷ (0x00 ∷ 0x0f ∷ 0x3d ∷ [])
    ∷ (0x00 ∷ 0x0f ∷ 0x66 ∷ [])
    ∷ (0x00 ∷ 0x0f ∷ 0xb5 ∷ [])
    ∷ (0x00 ∷ 0x0f ∷ 0xea ∷ [])
    ∷ (0x00 ∷ 0x10 ∷ 0x18 ∷ [])
    ∷ (0x00 ∷ 0x10 ∷ 0x67 ∷ [])
    ∷ (0x00 ∷ 0x10 ∷ 0xdb ∷ [])
    ∷ (0x00 ∷ 0x11 ∷ 0x2f ∷ [])
    ∷ (0x00 ∷ 0x11 ∷ 0x32 ∷ [])
    ∷ (0x00 ∷ 0x11 ∷ 0x95 ∷ [])
    ∷ (0x00 ∷ 0x12 ∷ 0x1e ∷ [])
    ∷ (0x00 ∷ 0x12 ∷ 0x37 ∷ [])
    ∷ (0x00 ∷ 0x12 ∷ 0x47 ∷ [])
    ∷ (0x00 ∷ 0x12 ∷ 0x4b ∷ [])
    ∷ (0x00 ∷ 0x12 ∷ 0x5a ∷ [])
    ∷ (0x00 ∷ 0x12 ∷ 0xd1 ∷ [])
    ∷ (0x00 ∷ 0x12 ∷ 0xfe ∷ [])
    ∷ (0x00 ∷ 0x13 ∷ 0x92 ∷ [])
    ∷ (0x00 ∷ 0x14 ∷ 0x38 ∷ [])
    ∷ (0x00 ∷ 0x14 ∷ 0x6c ∷ [])
    ∷ (0x00 ∷ 0x14 ∷ 0x78 ∷ [])
    ∷ (0x00 ∷ 0x15 ∷ 0x0c ∷ [])
    ∷ (0x00 ∷ 0x15 ∷ 0x2a ∷ [])
    ∷ (0x00 ∷ 0x15 ∷ 0x56 ∷ [])
    ∷ (0x00 ∷ 0x15 ∷ 0x5d ∷ [])
    ∷ (0x00 ∷ 0x15 ∷ 0x6d ∷ [])
    ∷ (0x00 ∷ 0x15 ∷ 0x70 ∷ [])
    ∷ (0x00 ∷ 0x15 ∷ 0xb7 ∷ [])
    ∷ (0x00 ∷ 0x15 ∷ 0xeb ∷ [])
    ∷ (0x00 ∷ 0x16 ∷ 0x56 ∷ [])
    ∷ (0x00 ∷ 0x16 ∷ 0x97 ∷ [])
    ∷ (0x00 ∷ 0x16 ∷ 0xe6 ∷ [])
    ∷ (0x00 ∷ 0x17 ∷ 0x42 ∷ [])
    ∷ (0x00 ∷ 0x17 ∷ 0xab ∷ [])
    ∷ (0x00 ∷ 0x18 ∷ 0x82 ∷ [])
    ∷ (0x00 ∷ 0x19 ∷ 0x2d ∷ [])
    ∷ (0x00 ∷ 0x19 ∷ 0x4b ∷ [])
    ∷ (0x00 ∷ 0x19 ∷ 0x77 ∷ [])
    ∷ (0x00 ∷ 0x19 ∷ 0x9d ∷ [])
    ∷ (0x00 ∷ 0x19 ∷ 0xc6 ∷ [])
    ∷ (0x00 ∷ 0x19 ∷ 0xe0 ∷ [])
    ∷ (0x00 ∷ 0x1a ∷ 0x11 ∷ [])
    ∷ (0x00 ∷ 0x1a ∷ 0x1e ∷ [])
    ∷ (0x00 ∷ 0x1a ∷ 0x4d ∷ [])
    ∷ (0x00 ∷ 0x1a ∷ 0x4f ∷ [])
    ∷ (0x00 ∷ 0x1b ∷ 0x17 ∷ [])
    ∷ (0x00 ∷ 0x1b ∷ 0xa9 ∷ [])
    ∷ (0x00 ∷ 0x1b ∷ 0xd3 ∷ [])
    ∷ (0x00 ∷ 0x1c ∷ 0x14 ∷ [])
    ∷ (0x00 ∷ 0x1c ∷ 0x62 ∷ [])
    ∷ (0x00 ∷ 0x1c ∷ 0x73 ∷ [])
    ∷ (0x00 ∷ 0x1c ∷ 0xee ∷ [])
    ∷ (0x00 ∷ 0x1d ∷ 0x2e ∷ [])
    ∷ (0x00 ∷ 0x1d ∷ 0x9c ∷ [])
    ∷ (0x00 ∷ 0x1e ∷ 0x10 ∷ [])
    ∷ (0x00 ∷ 0x1e ∷ 0x73 ∷ [])
    ∷ (0x00 ∷ 0x1e ∷ 0x75 ∷ [])
    ∷ (0x00 ∷ 0x1e ∷ 0x8f ∷ [])
    ∷ (0x00 ∷ 0x1f ∷ 0x41 ∷ [])
    ∷ (0x00 ∷ 0x1f ∷ 0x6b ∷ [])
    ∷ (0x00 ∷ 0x20 ∷ 0x6b ∷ [])
    ∷ (0x00 ∷ 0x22 ∷ 0x6a ∷ [])
    ∷ (0x00 ∷ 0x22 ∷ 0x94 ∷ [])
    ∷ (0x00 ∷ 0x22 ∷ 0xf3 ∷ [])
    ∷ (0x00 ∷ 0x23 ∷ 0x68 ∷ [])
    ∷ (0x00 ∷ 0x25 ∷ 0x68 ∷ [])
    ∷ (0x00 ∷ 0x25 ∷ 0x8b ∷ [])
    ∷ (0x00 ∷ 0x25 ∷ 0x90 ∷ [])
    ∷ (0x00 ∷ 0x26 ∷ 0xab ∷ [])
    ∷ (0x00 ∷ 0x27 ∷ 0x22 ∷ [])
    ∷ (0x00 ∷ 0x30 ∷ 0x48 ∷ [])
    ∷ (0x00 ∷ 0x31 ∷ 0x26 ∷ [])
    ∷ (0x00 ∷ 0x3c ∷ 0x84 ∷ [])
    ∷ (0x00 ∷ 0x40 ∷ 0x84 ∷ [])
    ∷ (0x00 ∷ 0x4b ∷ 0x12 ∷ [])
    ∷ (0x00 ∷ 0x50 ∷ 0xaa ∷ [])
    ∷ (0x00 ∷ 0x60 ∷ 0x37 ∷ [])
    ∷ (0x00 ∷ 0x62 ∷ 0x01 ∷ [])
    ∷ (0x00 ∷ 0x6b ∷ 0x9e ∷ [])
    ∷ (0x00 ∷ 0x70 ∷ 0x07 ∷ [])
    ∷ (0x00 ∷ 0x71 ∷ 0x47 ∷ [])
    ∷ (0x00 ∷ 0x72 ∷ 0x30 ∷ [])
    ∷ (0x00 ∷ 0x80 ∷ 0x77 ∷ [])
    ∷ (0x00 ∷ 0x86 ∷ 0x21 ∷ [])
    ∷ (0x00 ∷ 0x86 ∷ 0x9c ∷ [])
    ∷ (0x00 ∷ 0x9c ∷ 0xc0 ∷ [])
    ∷ (0x00 ∷ 0x9e ∷ 0xc8 ∷ [])
    ∷ (0x00 ∷ 0xa0 ∷ 0xc6 ∷ [])
    ∷ (0x00 ∷ 0xab ∷ 0x48 ∷ [])
    ∷ (0x00 ∷ 0xb8 ∷ 0xb6 ∷ [])
    ∷ (0x00 ∷ 0xbb ∷ 0x3a ∷ [])
    ∷ (0x00 ∷ 0xbb ∷ 0xc1 ∷ [])
    ∷ (0x00 ∷ 0xbc ∷ 0x99 ∷ [])
    ∷ (0x00 ∷ 0xbd ∷ 0x3e ∷ [])
    ∷ (0x00 ∷ 0xbe ∷ 0x44 ∷ [])
    ∷ (0x00 ∷ 0xbe ∷ 0xd5 ∷ [])
    ∷ (0x00 ∷ 0xc3 ∷ 0x0a ∷ [])
    ∷ (0x00 ∷ 0xca ∷ 0xe0 ∷ [])
    ∷ (0x00 ∷ 0xd8 ∷ 0x61 ∷ [])
    ∷ (0x00 ∷ 0xda ∷ 0x27 ∷ [])
    ∷ (0x00 ∷ 0xdd ∷ 0xb6 ∷ [])
    ∷ (0x00 ∷ 0xe0 ∷ 0x4c ∷ [])
    ∷ (0x00 ∷ 0xec ∷ 0x0a ∷ [])
    ∷ (0x00 ∷ 0xed ∷ 0xb8 ∷ [])
    ∷ (0x00 ∷ 0xf6 ∷ 0x20 ∷ [])
    ∷ (0x00 ∷ 0xfa ∷ 0xde ∷ [])
    ∷ (0x04 ∷ 0x00 ∷ 0x6e ∷ [])
    ∷ (0x04 ∷ 0x01 ∷ 0xa1 ∷ [])
    ∷ (0x04 ∷ 0x03 ∷ 0x12 ∷ [])
    ∷ (0x04 ∷ 0x18 ∷ 0xd6 ∷ [])
    ∷ (0x04 ∷ 0x1f ∷ 0xb8 ∷ [])
    ∷ (0x04 ∷ 0x20 ∷ 0x9a ∷ [])
    ∷ (0x04 ∷ 0x23 ∷ 0xa3 ∷ [])
    ∷ (0x04 ∷ 0x24 ∷ 0x05 ∷ [])
    ∷ (0x04 ∷ 0x40 ∷ 0xa9 ∷ [])
    ∷ (0x04 ∷ 0x41 ∷ 0x69 ∷ [])
    ∷ (0x04 ∷ 0x57 ∷ 0x47 ∷ [])
    ∷ (0x04 ∷ 0x7c ∷ 0x16 ∷ [])
    ∷ (0x04 ∷ 0x83 ∷ 0x08 ∷ [])
    ∷ (0x04 ∷ 0xdb ∷ 0xd9 ∷ [])
    ∷ (0x04 ∷ 0xee ∷ 0xcd ∷ [])
    ∷ (0x04 ∷ 0xf4 ∷ 0x1c ∷ [])
    ∷ (0x08 ∷ 0x00 ∷ 0x86 ∷ [])
    ∷ (0x08 ∷ 0x05 ∷ 0x81 ∷ [])
    ∷ (0x08 ∷ 0x23 ∷ 0xb2 ∷ [])
    ∷ (0x08 ∷ 0x55 ∷ 0x31 ∷ [])
    ∷ (0x08 ∷ 0x61 ∷ 0x95 ∷ [])
    ∷ (0x08 ∷ 0x9b ∷ 0xf1 ∷ [])
    ∷ (0x08 ∷ 0xc3 ∷ 0xb3 ∷ [])
    ∷ (0x08 ∷ 0xf0 ∷ 0x1e ∷ [])
    ∷ (0x0c ∷ 0x29 ∷ 0x8f ∷ [])
    ∷ (0x0c ∷ 0x7e ∷ 0x24 ∷ [])
    ∷ (0x0c ∷ 0xc4 ∷ 0x7a ∷ [])
    ∷ (0x10 ∷ 0x4e ∷ 0x89 ∷ [])
    ∷ (0x10 ∷ 0x59 ∷ 0x32 ∷ [])
    ∷ (0x10 ∷ 0xc5 ∷ 0x95 ∷ [])
    ∷ (0x10 ∷ 0xe7 ∷ 0x7a ∷ [])
    ∷ (0x14 ∷ 0x36 ∷ 0xc6 ∷ [])
    ∷ (0x14 ∷ 0x50 ∷ 0x51 ∷ [])
    ∷ (0x14 ∷ 0x78 ∷ 0x30 ∷ [])
    ∷ (0x18 ∷ 0x9c ∷ 0xe1 ∷ [])
    ∷ (0x18 ∷ 0xac ∷ 0xc2 ∷ [])
    ∷ (0x18 ∷ 0xe8 ∷ 0xec ∷ [])
    ∷ (0x1c ∷ 0x8c ∷ 0x6e ∷ [])
    ∷ (0x20 ∷ 0x8b ∷ 0xd1 ∷ [])
    ∷ (0x20 ∷ 0xc6 ∷ 0xeb ∷ [])
    ∷ (0x24 ∷ 0x29 ∷ 0xfe ∷ [])
    ∷ (0x24 ∷ 0x5e ∷ 0xbe ∷ [])
    ∷ (0x24 ∷ 0x74 ∷ 0xf7 ∷ [])
    ∷ (0x24 ∷ 0x81 ∷ 0x4e ∷ [])
    ∷ (0x28 ∷ 0xcd ∷ 0xc1 ∷ [])
    ∷ (0x2c ∷ 0xcf ∷ 0x67 ∷ [])
    ∷ (0x2c ∷ 0xe0 ∷ 0x32 ∷ [])
    ∷ (0x2c ∷ 0xf0 ∷ 0x5d ∷ [])
    ∷ (0x30 ∷ 0x05 ∷ 0x5c ∷ [])
    ∷ (0x34 ∷ 0x3c ∷ 0x30 ∷ [])
    ∷ (0x34 ∷ 0x7e ∷ 0x5c ∷ [])
    ∷ (0x34 ∷ 0x91 ∷ 0xf0 ∷ [])
    ∷ (0x38 ∷ 0x1a ∷ 0x52 ∷ [])
    ∷ (0x38 ∷ 0x42 ∷ 0x0b ∷ [])
    ∷ (0x38 ∷ 0xf0 ∷ 0xc8 ∷ [])
    ∷ (0x3c ∷ 0x6d ∷ 0x66 ∷ [])
    ∷ (0x44 ∷ 0x36 ∷ 0x59 ∷ [])
    ∷ (0x44 ∷ 0x49 ∷ 0xc0 ∷ [])
    ∷ (0x44 ∷ 0x73 ∷ 0xd6 ∷ [])
    ∷ (0x44 ∷ 0xd7 ∷ 0x7e ∷ [])
    ∷ (0x48 ∷ 0x05 ∷ 0x60 ∷ [])
    ∷ (0x4c ∷ 0xfc ∷ 0xaa ∷ [])
    ∷ (0x50 ∷ 0x0f ∷ 0x59 ∷ [])
    ∷ (0x50 ∷ 0x27 ∷ 0xe4 ∷ [])
    ∷ (0x50 ∷ 0x99 ∷ 0x03 ∷ [])
    ∷ (0x58 ∷ 0xa8 ∷ 0x7b ∷ [])
    ∷ (0x58 ∷ 0xfc ∷ 0xc8 ∷ [])
    ∷ (0x5c ∷ 0x75 ∷ 0xaf ∷ [])
    ∷ (0x64 ∷ 0x9c ∷ 0x81 ∷ [])
    ∷ (0x68 ∷ 0x69 ∷ 0xca ∷ [])
    ∷ (0x74 ∷ 0x27 ∷ 0x2c ∷ [])
    ∷ (0x74 ∷ 0xd0 ∷ 0x82 ∷ [])
    ∷ (0x78 ∷ 0xc4 ∷ 0xfa ∷ [])
    ∷ (0x88 ∷ 0x12 ∷ 0x4e ∷ [])
    ∷ (0x88 ∷ 0xa2 ∷ 0x9e ∷ [])
    ∷ (0x88 ∷ 0xb8 ∷ 0x63 ∷ [])
    ∷ (0x88 ∷ 0xc6 ∷ 0x26 ∷ [])
    ∷ (0x90 ∷ 0x09 ∷ 0xd0 ∷ [])
    ∷ (0x90 ∷ 0x3c ∷ 0x1d ∷ [])
    ∷ (0x90 ∷ 0xe6 ∷ 0x43 ∷ [])
    ∷ (0x9c ∷ 0x5a ∷ 0x8a ∷ [])
    ∷ (0xa8 ∷ 0x61 ∷ 0x0a ∷ [])
    ∷ (0xbc ∷ 0x90 ∷ 0x3a ∷ [])
    ∷ (0xc8 ∷ 0xb6 ∷ 0xfe ∷ [])
    ∷ (0xe8 ∷ 0x43 ∷ 0xb6 ∷ [])
    ∷ (0xe8 ∷ 0xc1 ∷ 0xd7 ∷ [])
    ∷ (0xec ∷ 0x72 ∷ 0xf7 ∷ [])
    ∷ (0xf4 ∷ 0xc7 ∷ 0xaa ∷ [])
    ∷ (0xf4 ∷ 0xce ∷ 0x36 ∷ [])
    ∷ (0xf8 ∷ 0x48 ∷ 0x97 ∷ [])
    ∷ (0xfc ∷ 0x93 ∷ 0x4e ∷ [])
    ∷ []

-- A prefix of three bytes, universal and unicast: the two low bits of its first byte are clear.
abbrev pub IsUniversal : List ℕ → Type 0
IsUniversal oui = (length oui ≡ 3) × All IsByte oui × (get_or oui 0 0 % 4 ≡ 0)

universal : List ℕ → Bool
universal (a ∷ b ∷ c ∷ []) = ltb a 256 && ltb b 256 && ltb c 256 && (a % 4 == 0)
universal _ = false

universal-IsUniversal : (oui : List ℕ) → universal oui ≡ true → IsUniversal oui
unfolding universal
universal-IsUniversal (a ∷ b ∷ c ∷ []) e = ground arith
universal-IsUniversal [] e = cc
universal-IsUniversal (a ∷ []) e = cc
universal-IsUniversal (a ∷ b ∷ []) e = cc
universal-IsUniversal (a ∷ b ∷ c ∷ d ∷ r) e = cc

pub length-real_ouis : length real_ouis ≡ 279
unfolding real_ouis
length-real_ouis = refl

-- Every prefix of the table is universal and unicast.
pub real_ouis-IsUniversal : (i : ℕ) → i < length real_ouis → IsUniversal (get_or real_ouis i [])
unfolding real_ouis holds_below universal
real_ouis-IsUniversal i h =
    universal-IsUniversal (get_or real_ouis i [])
      (holds_below_each (λ j. universal (get_or real_ouis j [])) 279 refl i h)
