-- ===== src/Capabilities/Flags.antt =====
-- src/connection-capabilities.c: flags of Telepathy and of libpurple.
use telepathy_haze.Prelude.{ℕ, ◌≡◌, arith, if◌then◌else◌}
use telepathy_haze.Prelude.Bits.{has, bit_or}

unfoldable pub tp_flags_to_purple_caps : ℕ → ℕ
tp_flags_to_purple_caps flags =
    let caps = if has flags 1 then bit_or 0 1 else 0 in if has flags 2 then bit_or caps 4 else caps

unfoldable pub purple_caps_to_tp_flags : ℕ → ℕ
purple_caps_to_tp_flags caps =
    let flags = if has caps 1 then bit_or 0 1 else 0 in if has caps 4 then bit_or flags 2 else flags

pub has-tp_flags_to_purple_caps :
    (flags : ℕ)
    → (has (tp_flags_to_purple_caps flags) 1 ≡ has flags 1)
      × (has (tp_flags_to_purple_caps flags) 4 ≡ has flags 2)
unfolding tp_flags_to_purple_caps
has-tp_flags_to_purple_caps flags = ground arith

pub has-purple_caps_to_tp_flags :
    (caps : ℕ)
    → (has (purple_caps_to_tp_flags caps) 1 ≡ has caps 1)
      × (has (purple_caps_to_tp_flags caps) 2 ≡ has caps 4)
unfolding purple_caps_to_tp_flags
has-purple_caps_to_tp_flags caps = ground arith
