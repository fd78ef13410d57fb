-- ===== src/Examples/Hardware.antt =====
-- hardware.go on concrete words and options.
use randomizer.Base.{
  ℕ, ◌≡◌, refl, ◌⊎◌, inl, inr, true, false, none, some, List, [], ◌∷◌, arith, get_or, replicate,
  Returns,
}
use randomizer.Hardware.{mac, mac_eli, bluetooth_rpa, HardwareOptions, hardware}
use randomizer.Hardware.Address.{IsWritten, hardware-Returns}
use randomizer.Hardware.Refusals.{Refused, NeverNil, hardware_rejects}
use randomizer.Hardware.Ouis.{real_ouis, IsUniversal, real_ouis-IsUniversal, length-real_ouis}

-- A stand-in for the cipher: sixteen bytes, whatever the key and the block.
abbrev zero_cipher : List ℕ → List ℕ → List ℕ
zero_cipher key x = replicate 16 7

abbrev options : HardwareOptions
options = record {
  oui = 1 ∷ 2 ∷ 3 ∷ [];
  cid = 1 ∷ 2 ∷ 3 ∷ [];
  prefix_bits = 28;
  local = true;
  multicast = false;
  source = [];
  prefix = 0xaa ∷ 0xbb ∷ 0xcc ∷ 0xd0 ∷ [];
  irk = some (replicate 16 1);
}

local_unicast :
    hardware zero_cipher none [] mac options (0xffff_ffff_ffff ∷ [])
    ≡ some (
      (some (record { bytes = 0xfe ∷ 0xff ∷ 0xff ∷ 0xff ∷ 0xff ∷ 0xff ∷ []; array = [] }), none),
      [],
    )
unfolding hardware
local_unicast = refl

hardware-Returns_example :
    Returns
      (IsWritten zero_cipher [] bluetooth_rpa options)
      (hardware zero_cipher none [] bluetooth_rpa options (0 ∷ 5 ∷ []))
hardware-Returns_example =
    hardware-Returns zero_cipher none [] bluetooth_rpa options (0 ∷ 5 ∷ [])
      (λ key x. (refl, omega arith)) tt refl (omega arith) (inr (inl (omega arith)))

hardware_rejects_example :
    (Refused mac_eli options
      × (hardware zero_cipher none [] mac_eli options (5 ∷ []) ≡ some ((none, none), 5 ∷ [])))
    ⊎ ((¬ Refused mac_eli options)
        × NeverNil (hardware zero_cipher none [] mac_eli options (5 ∷ [])))
hardware_rejects_example = hardware_rejects zero_cipher none [] mac_eli options (5 ∷ [])

real_ouis-IsUniversal_example : IsUniversal (get_or real_ouis 3 [])
real_ouis-IsUniversal_example = real_ouis-IsUniversal 3 (omega (arith, length-real_ouis))
