-- ===== src/Sampler/NetDev.antt =====
-- crates/agent/src/capacity.rs: the counters of the network interfaces, parsed from /proc/net/dev.
use multi_proxy.Prelude.{
  ℕ, Bool, true, List, [], ◌∷◌, Option, none, some, Text, codes, ◌==◌, nat_eq, list_eq,
  if◌then◌else◌, saturating_add, u64_max, trim, split_whitespace, split_once, lines, parse_unsigned,
}
use multi_proxy.Sampler.{CounterSample}

-- `saturating_add` of a column that is a number.
abbrev add_column : ℕ → Text → ℕ
add_column n col = elim (parse_unsigned u64_max col) [
  | none ↦ n
  | some b ↦ saturating_add u64_max n b
]

-- Columns 0 and 8 of a line that has nine columns at least.
abbrev add_columns : CounterSample → List Text → CounterSample
add_columns s (c0 ∷ c1 ∷ c2 ∷ c3 ∷ c4 ∷ c5 ∷ c6 ∷ c7 ∷ c8 ∷ cols) = record {
  tx_bytes_total = add_column s.tx_bytes_total c8;
  rx_bytes_total = add_column s.rx_bytes_total c0;
}
add_columns s cols = s

abbrev is_skipped : Text → Bool
is_skipped [] = true
is_skipped (c ∷ iface) = (c ∷ iface) == codes "lo"

abbrev add_line : CounterSample → Option (Text × Text) → CounterSample
add_line s none = s
add_line s (some (iface, rest)) =
    if is_skipped (trim iface) then s else add_columns s (split_whitespace rest)

abbrev add_lines : CounterSample → List Text → CounterSample
add_lines s [] = s
add_lines s (line ∷ rest) = add_lines (add_line s (split_once b':' line)) rest

unfoldable pub parse_proc_net_dev : Text → CounterSample
unfolding lines split_once trim split_whitespace parse_unsigned
parse_proc_net_dev text = add_lines (record { tx_bytes_total = 0; rx_bytes_total = 0 }) (lines text)
