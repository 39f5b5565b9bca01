-- ===== src/Contract/Version.antt =====
-- crates/contract/src/version.rs: the protocol version gate.
use multi_proxy.Prelude.{ℕ, ◌+◌, ◌%◌, ◌^◌, Bool, ◌||◌, nat_beq}

abbrev pub protocol_version : ℕ
protocol_version = 1

unfoldable pub is_accepted : ℕ → Bool
is_accepted version = nat_beq version protocol_version

-- `version + 1` on u32: it wraps (a debug build panics on u32::MAX instead).
unfoldable pub is_accepted_with_back_compat : ℕ → Bool
is_accepted_with_back_compat version =
    nat_beq version protocol_version || nat_beq ((version + 1) % 2 ^ 32) protocol_version
