-- ===== src/Wifi/Line.antt =====
-- `wifiParseLine` (ls_wifi_test.c): one line of the scan table, read through a pointer. Memory is a
-- function from positions to bytes, a pointer is a position.
use multi_test.Prelude.{
  ℕ, zero, suc, ◌+◌, ◌-◌, [], ◌∷◌, Option, none, some, take, length, ltb, ◌==◌, if◌then◌else◌,
}
use multi_test.Prelude.Text.{Bytes, c_str}
use multi_test.Prelude.Strtol.{strtol}
use multi_test.Wifi.{WifiAp}

abbrev pub Memory : Type 0
Memory = ℕ → ℕ

-- `while (*pcur != '\t' && pcur < end) pcur++;` with `end - pcur` for the rounds that are left: the
-- bytes passed over, and where it stops.
unfoldable pub field : Memory → ℕ → ℕ → Bytes × ℕ
field mem zero p = ([], p)
field mem (suc n) p =
    let (bs, q) = field mem n (p + 1) in if mem p == b'\t' then ([], p) else (mem p ∷ bs, q)

-- `pcur++; if ('\t' == *pcur) pcur++;`
unfoldable pub skip_tab : Memory → ℕ → ℕ
skip_tab mem p = if mem (p + 1) == b'\t' then p + 2 else p + 1

abbrev pub smac_size : ℕ
smac_size = 32

abbrev pub name_size : ℕ
name_size = 64

abbrev pub number_size : ℕ
number_size = 32

-- What is stored from the five fields. The frequency is copied with no bound into an array of 32
-- bytes, so a field that fills it is a fault (none).
unfoldable pub store_fields : Bytes → Bytes → Bytes → Bytes → Option WifiAp
store_fields mac freq level name =
    if ltb (length freq) number_size
    then some (record {
      smac = c_str (take (smac_size - 1) mac);
      name = c_str (take (name_size - 1) name);
      sig_level = (strtol 10 (take (number_size - 1) level)).0;
      frequency = (strtol 10 freq).0;
    })
    else none

unfoldable pub wifi_parse_line : Memory → ℕ → ℕ → Option WifiAp
unfolding field skip_tab store_fields
wifi_parse_line mem begin end =
    let (mac, p0) = field mem (end - begin) begin in
    let p1 = skip_tab mem p0 in
    let (freq, p2) = field mem (end - p1) p1 in
    let p3 = skip_tab mem p2 in
    let (level, p4) = field mem (end - p3) p3 in
    let p5 = skip_tab mem p4 in
    let (flags, p6) = field mem (end - p5) p5 in
    let p7 = skip_tab mem p6 in
    let (name, p8) = field mem (end - p7) p7 in store_fields mac freq level name
