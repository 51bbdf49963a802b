-- ===== src/Wifi/Results.antt =====
-- The scan table in `wifiGetScanResult` (ls_wifi_test.c), behind the reply of the supplicant.
use multi_test.Prelude.{
  ℕ, zero, suc, ◌+◌, ◌-◌, List, [], ◌∷◌, Option, none, some, ltb, ◌==◌, if◌then◌else◌,
}
use multi_test.Wifi.{WifiAp}
use multi_test.Wifi.Line.{Memory, wifi_parse_line}

-- `while (*pcur++ != '\n' && pcur < pend);` with `pend - pcur - 1` for the rounds behind the first.
unfoldable pub skip_line : Memory → ℕ → ℕ → ℕ
skip_line mem zero p = p + 1
skip_line mem (suc n) p = let q = skip_line mem n (p + 1) in if mem p == b'\n' then p + 1 else q

-- `while (*pcur != '\n' && pcur++ < pend);` with `pend - pcur` for the rounds that are left. With no
-- newline the pointer stops one behind `pend`.
unfoldable pub line_end : Memory → ℕ → ℕ → ℕ
line_end mem zero p = if mem p == b'\n' then p else p + 1
line_end mem (suc n) p = let q = line_end mem n (p + 1) in if mem p == b'\n' then p else q

abbrev pub prepend : Option WifiAp → Option (List WifiAp) → Option (List WifiAp)
prepend none aps = none
prepend (some ap) none = none
prepend (some ap) (some aps) = some (ap ∷ aps)

-- The `for` loop, by the rounds that `maxnum` leaves; none is the fault of a line.
unfoldable pub scan_lines : Memory → ℕ → ℕ → ℕ → Option (List WifiAp)
scan_lines mem pend zero p = some []
scan_lines mem pend (suc n) p =
    let e = line_end mem (pend - p) p in
    let rest = scan_lines mem pend n (e + 1) in
    if ltb p pend then prepend (wifi_parse_line mem p e) rest else some []

-- The table behind its first line; `len` is the length of the reply.
unfoldable pub read_table : Memory → ℕ → ℕ → Option (List WifiAp)
unfolding skip_line scan_lines
read_table mem len maxnum = scan_lines mem len maxnum (skip_line mem (len - 1) 0)
