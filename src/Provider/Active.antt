-- ===== src/Provider/Active.antt =====
-- provider.go: the provider that all generators use, and `SetProvider`.
use randomizer.Base.{Option, none, some}

-- The provider that a call asks for: `none` is nil.
abbrev pub chosen {ℓ} : {P : Type ℓ} → P → Option P → P
chosen default none = default
chosen default (some p) = p

-- `SetProvider` swaps the slot in one step: the prior provider, and the slot behind the call.
unfoldable pub set_provider {ℓ} : {P : Type ℓ} → P → Option P → P → P × P
set_provider default request active = (active, chosen default request)
