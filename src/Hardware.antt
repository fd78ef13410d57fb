-- ===== src/Hardware.antt =====
-- hardware.go: link-layer addresses. AES is a parameter.
pub mod Ouis
pub mod Kinds
pub mod Bytes
pub mod Vendor
pub mod Prefix
pub mod Bluetooth
pub mod Address
pub mod Refusals
use randomizer.Base.{
  ℕ, ◌-◌, ◌*◌, ◌%◌, bit_and, bit_or, bit_xor, Bool, false, ◌||◌, not, Option, none, some, List, [],
  ◌∷◌, ◌++◌, ltb, leb, ◌==◌, if◌then◌else◌, length, get_or, take, drop, replicate, set, set, u8,
  u16, u32, ◌<<<◌, ◌>>>◌, and_not, same_bytes, put_uint64, Draw, pure, ◌>>=◌, ◌>>◌, sum64,
  draw_until,
}
use randomizer.Network.{Written, fixed_bytes}
use randomizer.Provider.{fill_random_bytes}
use randomizer.Ip.Eui.{put_modified_eui64}
use randomizer.Cidr.{byte_mask}
use randomizer.Hardware.Ouis.{real_ouis}

-- `unknown` is any kind beyond the declared ones.
pub data HardwareKind : Type 0 where
  mac mac_oui mac_real_oui eui64 eui64_from_mac mac_prefix : HardwareKind
  mac_aai mac_eli mac_sai eui64_real_oui modified_eui64_from_mac : HardwareKind
  bluetooth_static bluetooth_nrpa bluetooth_rpa unknown : HardwareKind

-- `irk` is `none` where the key is nil.
pub record HardwareOptions : Type 0 where
  pub oui : List ℕ
  pub cid : List ℕ
  pub prefix_bits : ℕ
  pub local : Bool
  pub multicast : Bool
  pub source : List ℕ
  pub prefix : List ℕ
  pub irk : Option (List ℕ)

-- `putUint48`
abbrev pub put_uint48 : ℕ → List ℕ
put_uint48 x =
    u8 (x >>> 40) ∷ u8 (x >>> 32) ∷ u8 (x >>> 24) ∷ u8 (x >>> 16) ∷ u8 (x >>> 8) ∷ u8 x ∷ []

-- An assignment to the first byte.
abbrev pub with_first : (ℕ → ℕ) → List ℕ → List ℕ
with_first f [] = []
with_first f (b ∷ bs) = f b ∷ bs

abbrev pub mac_first : Bool → Bool → ℕ → ℕ
mac_first local multicast b =
    let cleared = and_not b 0x03 in
    let administered = if local then bit_or cleared 0x02 else cleared in
    if multicast then bit_or administered 0x01 else administered

abbrev pub aai_first : ℕ → ℕ
aai_first b = bit_or (bit_and b 0xf0) 0x02

abbrev pub sai_first : ℕ → ℕ
sai_first b = bit_or (aai_first b) 0x0c

abbrev pub eui64_first : ℕ → ℕ
eui64_first b = bit_or (and_not b 0x01) 0x02

-- A prefix of three bytes with the low bytes of a word behind it, lowest first.
abbrev pub behind_oui : List ℕ → ℕ → List ℕ
behind_oui oui x = take 3 oui ++ (u8 x ∷ u8 (x >>> 8) ∷ u8 (x >>> 16) ∷ [])

unfoldable pub real_oui : ℕ → List ℕ
real_oui x = get_or real_ouis ((x >>> 32) % length real_ouis) []

unfoldable pub inquiry_lap : ℕ → Bool
inquiry_lap lap = lap >>> 6 == 0x9e8b00 >>> 6

-- The rejection loops, on one word.
unfoldable pub lap_in : ℕ → Option ℕ
unfolding inquiry_lap
lap_in x = if inquiry_lap (bit_and (u32 x) 0xffffff) then none else some (bit_and (u32 x) 0xffffff)

unfoldable pub extension_in : ℕ → Option ℕ
extension_in x = if leb 0xfffe (u16 (x >>> 24)) then none else some x

unfoldable pub random46_in : ℕ → Option ℕ
random46_in x =
    let r = bit_and x (1 <<< 46 - 1) in if r == 0 || r == 1 <<< 46 - 1 then none else some r

unfoldable pub prand_in : ℕ → Option ℕ
prand_in x =
    let prand = bit_and (u32 x) (1 <<< 22 - 1) in
    if prand == 0 || prand == 1 <<< 22 - 1 then none else some x

pub mac_real_oui_bytes : Draw (List ℕ)
unfolding real_oui lap_in draw_until
mac_real_oui_bytes = do
  x ← sum64
  lap ← draw_until lap_in x
  pure (take 3 (real_oui x) ++ (u8 (lap >>> 16) ∷ u8 (lap >>> 8) ∷ u8 lap ∷ []))

pub eui64_real_oui_bytes : Draw (List ℕ)
unfolding real_oui extension_in draw_until
eui64_real_oui_bytes = do
  x ← sum64
  y ← draw_until extension_in x
  pure (
      take 3 (real_oui x)
      ++ (u8 (y >>> 32) ∷ u8 (y >>> 24) ∷ u8 (y >>> 16) ∷ u8 (y >>> 8) ∷ u8 y ∷ []))

pub random46_bytes : ℕ → Draw (List ℕ)
unfolding random46_in draw_until
random46_bytes top = do x ← sum64; r ← draw_until random46_in x; pure (put_uint48 (bit_or r top))

-- The bytes of `HardwareMACPrefix` on the filled buffer.
unfoldable pub copy_prefix : ℕ → List ℕ → List ℕ → List ℕ
copy_prefix bits prefix b =
    let full = bits >>> 3 in
    let rem = bit_and bits 7 in
    let copied = take full prefix ++ drop full b in
    if rem == 0
    then copied
    else set copied full (
        bit_or (bit_and (get_or prefix full 0) (byte_mask rem))
          (and_not (get_or copied full 0) (byte_mask rem)))

-- The cached cipher: the key and its block function. `aes` gives the block function of a key, as
-- `aes.NewCipher` and `Encrypt` do.
abbrev pub Cache : Type 0
Cache = Option (List ℕ × (List ℕ → List ℕ))

pub cached_block : (List ℕ → List ℕ → List ℕ) → Cache → List ℕ → (List ℕ → List ℕ)
unfolding same_bytes
cached_block aes none key = aes key
cached_block aes (some (held, block)) key = if same_bytes held key then block else aes key

-- `bluetoothHash`: the hash, and the cache behind the call.
unfoldable pub bluetooth_hash : (List ℕ → List ℕ → List ℕ) → Cache → List ℕ → ℕ → ℕ × Cache
unfolding cached_block
bluetooth_hash aes cache irk prand =
    let block = cached_block aes cache irk in
    let out = block (replicate 13 0 ++ (u8 (prand >>> 16) ∷ u8 (prand >>> 8) ∷ u8 prand ∷ [])) in
    (
      bit_or (bit_or (get_or out 13 0 <<< 16) (get_or out 14 0 <<< 8)) (get_or out 15 0),
      some (irk, block),
    )

pub hash_part : (List ℕ → List ℕ → List ℕ) → Cache → Option (List ℕ) → ℕ → ℕ → ℕ × Cache
unfolding bluetooth_hash
hash_part aes cache none x prand = (bit_and (u32 (x >>> 32)) 0xffffff, cache)
hash_part aes cache (some irk) x prand = bluetooth_hash aes cache irk prand

pub rpa_bytes : (List ℕ → List ℕ → List ℕ) → Cache → Option (List ℕ) → Draw (List ℕ × Cache)
unfolding hash_part prand_in draw_until
rpa_bytes aes cache irk = do
  w ← sum64
  x ← draw_until prand_in w
  pure (
      let prand = bit_or (bit_and (u32 x) (1 <<< 22 - 1)) (1 <<< 22) in
      let (hash, after) = hash_part aes cache irk x prand in
      (put_uint48 (bit_or (prand <<< 24) hash), after))

-- A key that is given and is not of 16 bytes.
abbrev pub irk_refused : Option (List ℕ) → Bool
irk_refused none = false
irk_refused (some irk) = not (length irk == 16)

pub one_word : (ℕ → List ℕ) → Draw (Option (List ℕ))
one_word f = do x ← sum64; pure (some (f x))

pub some_of : Draw (List ℕ) → Draw (Option (List ℕ))
some_of m = do b ← m; pure (some b)

-- A kind that leaves the cipher cache alone.
pub keep : Cache → Draw (Option (List ℕ)) → Draw (Option (List ℕ) × Cache)
keep cache m = do b ← m; pure (b, cache)

pub rpa_of : (List ℕ → List ℕ → List ℕ) → Cache → Option (List ℕ) → Draw (Option (List ℕ) × Cache)
unfolding rpa_bytes
rpa_of aes cache irk =
    if irk_refused irk
    then pure (none, cache)
    else (do r ← rpa_bytes aes cache irk; pure (some r.0, r.1))

pub prefix_of : HardwareOptions → Draw (Option (List ℕ))
unfolding copy_prefix fill_random_bytes
prefix_of o =
    if ltb o.prefix_bits 1 || ltb 48 o.prefix_bits || ltb (length o.prefix * 8) o.prefix_bits
    then pure none
    else (do b ← fill_random_bytes 6; pure (some (copy_prefix o.prefix_bits o.prefix b)))

-- The bytes of every kind; `none` is nil.
unfoldable pub hardware_bytes :
    (List ℕ → List ℕ → List ℕ)
    → Cache
    → HardwareKind
    → HardwareOptions
    → Draw (Option (List ℕ) × Cache)
unfolding keep one_word some_of mac_real_oui_bytes eui64_real_oui_bytes random46_bytes prefix_of
    rpa_of put_uint64 put_modified_eui64
hardware_bytes aes cache mac_oui o = keep cache (one_word (behind_oui o.oui))
hardware_bytes aes cache mac_real_oui o = keep cache (some_of mac_real_oui_bytes)
hardware_bytes aes cache mac_prefix o = keep cache (prefix_of o)
hardware_bytes aes cache mac_aai o =
    keep cache (one_word (λ x. with_first aai_first (put_uint48 x)))
hardware_bytes aes cache mac_sai o =
    keep cache (one_word (λ x. with_first sai_first (put_uint48 x)))
hardware_bytes aes cache mac_eli o =
    if bit_and (get_or o.cid 0 0) 0x0f == 0x0a
    then keep cache (one_word (behind_oui o.cid))
    else pure (none, cache)
hardware_bytes aes cache eui64 o =
    keep cache (one_word (λ x. with_first eui64_first (put_uint64 x)))
hardware_bytes aes cache eui64_real_oui o = keep cache (some_of eui64_real_oui_bytes)
hardware_bytes aes cache eui64_from_mac o =
    if length o.source == 6
    then pure (some (with_first (λ b. bit_xor b 0x02) (put_modified_eui64 o.source)), cache)
    else pure (none, cache)
hardware_bytes aes cache modified_eui64_from_mac o =
    if length o.source == 6
    then pure (some (put_modified_eui64 o.source), cache)
    else pure (none, cache)
hardware_bytes aes cache bluetooth_static o = keep cache (some_of (random46_bytes (3 <<< 46)))
hardware_bytes aes cache bluetooth_nrpa o = keep cache (some_of (random46_bytes 0))
hardware_bytes aes cache bluetooth_rpa o = rpa_of aes cache o.irk
hardware_bytes aes cache mac o =
    keep cache (one_word (λ x. with_first (mac_first o.local o.multicast) (put_uint48 x)))
hardware_bytes aes cache unknown o =
    keep cache (one_word (λ x. with_first (mac_first o.local o.multicast) (put_uint48 x)))

pub written : List ℕ → Option (List ℕ) → Option Written
unfolding fixed_bytes
written array none = none
written array (some b) = some (fixed_bytes array b)

-- `Hardware`, with the cipher cache as it is found and as it is left.
unfoldable pub hardware :
    (List ℕ → List ℕ → List ℕ)
    → Cache
    → List ℕ
    → HardwareKind
    → HardwareOptions
    → Draw (Option Written × Cache)
unfolding hardware_bytes written
hardware aes cache array kind o = do
  r ← hardware_bytes aes cache kind o
  pure (written array r.0, r.1)
