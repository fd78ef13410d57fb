-- ===== src/Lib.antt =====
-- github.com/Colduction/randomizer: random numbers, network values, addresses and identifiers.
--
-- The program is one Go package. Every generator asks the active provider for random 64-bit words
-- (`Sum64`) and turns them into a value. A generator is modelled as a function on the list of words
-- that the provider is going to return: it gives the value and the words it has not drawn, or
-- `none` where it wants more words than the list has (Base/Drawing.antt). What a provider returns
-- is a parameter, the list; concurrent callers that share a provider take its words in turn, and
-- the list of a call is what it gets. A loop that draws until a word is accepted is structural
-- recursion on the list. Where a generator has to end, the hypotheses name the words that its loop
-- accepts and ask for one among the words of the list.
--
-- Numbers are natural numbers with the wrap-around of their Go type written out. A byte slice is a
-- list of bytes. A generator that writes to the caller's slice gives the bytes it returns and the
-- array behind that slice as it is left (`Written`, Network.antt); the caller's slice is taken not
-- to overlap what the generator reads. A nil result is `none`. The network package's types are
-- written out where the code reads them: `net.IPNet`, `IP.To4`, `IP.To16` (Cidr.antt),
-- `netip.Addr` and `netip.Prefix` without their zones (Netaddr.antt).
--
-- Files and the code they are about:
--   Base/           lists, tests, machine words, bit fields, integers, and drawing of words
--   Number/         number.go: `boundedFrom`, `boundedSlow`, `uniformUint64n`, `Int`, `Uint`,
--                   `IntInterval`, `UintInterval`, and `Float32`, `Float64` as fractions of 2 ^ 24
--                   and 2 ^ 53
--   Value/          value.go: `network.Value`, `isPublicASN`
--   Provider/       provider.go: `putTail`, `fillRandomBytes`, `runtimeProvider`, `uint64Provider`,
--                   `readerProvider` over a reader that hands out chunks and errors, `SetProvider`;
--                   hashpool.go: `splitMix64`, `hashPool` with its counter, and the hash objects that
--                   users get from it and put back
--   Network.antt    network.go: `fixedBytes`
--   Ip/             ip.go: `fillIP` and its tables, `isPublicIPv4`, `isPublicIPv6`, `IPv6EUI64`,
--                   `putModifiedEUI64`
--   Cidr/           cidr.go: `CIDR`, `IPInCIDR`, `maskHostBits`, `fillCIDRMask`
--   Netaddr/        netaddr.go: `Addr`, `Prefix`, `AddrIn`
--   Telecom/        telecom.go: `Append`, `appendTAC`, `appendRandomDigits`, `luhnCheckDigit`
--   Hardware/       hardware.go: `Hardware` and its kinds, `bluetoothHash` and its cache of one cipher;
--                   oui_table.go: `realOUIs`. AES is a parameter that gives a block function for a key.
--   Word/           word.go: `Bytes`, `String`, `Append` and the `Custom` family, `appendCustom`,
--                   `fillBatchedNoRepeat`, `fillWideNoRepeat`, `newBatchSpec`, `skipPast`. The batches
--                   of a base come from loops of 64 rounds, of which each at least doubles or halves the
--                   product; the rounds of the wide sampler have the number of words as their bound.
--   Ouigen/         internal/ouigen/main.go: the allowlist `vendors`, `selectOUIs` with the panics of
--                   hex.Decode and of a negative bound, `readRegistry`, and `run` between the download
--                   and the file. A pattern is the list of the names that it matches. Sorting is a
--                   parameter that keeps the entries and puts them in ascending order (`SortBy`); the
--                   CSV reader is the list of what it gives, and the text operations are parameters.
--   Examples/       runs on concrete words, and the theorems at concrete inputs
--
-- Not modelled: the download, the flags, `render` and the writing of the file in
-- internal/ouigen/main.go, which hand over to the network, the operating system and the formatter of Go
-- source, and the runtime's own generator behind `DefaultProvider`, whose words are the parameter above.
pub mod Base
pub mod Number
pub mod Value
pub mod Provider
pub mod Network
pub mod Ip
pub mod Cidr
pub mod Netaddr
pub mod Telecom
pub mod Hardware
pub mod Word
mod Examples
pub mod Ouigen
