-- ===== src/Wifi/RoundTrip.antt =====
-- The scan table reads back what the supplicant writes (ls_wifi_test.c): the lines of its
-- SCAN_RESULTS reply are the five fields with tabs between them.
use multi_test.Prelude.{
  ℕ, zero, suc, ◌<◌, ◌≤◌, List, [], ◌∷◌, ◌++◌, Option, none, some, ◌≡◌, arith, ◌↔◌, length,
}
use multi_test.Prelude.Text.{Bytes}
use multi_test.Wifi.{WifiAp}
use multi_test.Wifi.Line.{store_fields}
use multi_test.Wifi.Results.{prepend}
use multi_test.Wifi.Layout.{IsPlain}

-- One line of the table as the supplicant writes it.
pub record Row : Type 0 where
  pub mac : Bytes
  pub freq : Bytes
  pub level : Bytes
  pub flags : Bytes
  pub ssid : Bytes

-- Fields behind the first and in front of the last are not empty.
pub record IsRow (r : Row) : Type 0 where
  pub mac_plain : IsPlain r.mac
  pub freq_plain : IsPlain r.freq
  pub level_plain : IsPlain r.level
  pub flags_plain : IsPlain r.flags
  pub ssid_plain : IsPlain r.ssid
  pub freq_ne_nil : 0 < length r.freq
  pub level_ne_nil : 0 < length r.level
  pub flags_ne_nil : 0 < length r.flags

abbrev pub render_row : Row → Bytes
render_row r = r.mac ++ b'\t' ∷ (r.freq ++ b'\t' ∷ (r.level ++ b'\t' ∷ (r.flags ++ b'\t' ∷ r.ssid)))

-- What the table stores for a row.
abbrev pub stored : Row → Option WifiAp
stored r = store_fields r.mac r.freq r.level r.ssid

-- The lines of a table, each ended by a newline.
abbrev pub render_rows : List Row → Bytes
render_rows [] = []
render_rows (r ∷ rs) = render_row r ++ b'\n' ∷ render_rows rs

abbrev pub AreRows : List Row → Type 0
AreRows [] = Unit
AreRows (r ∷ rs) = IsRow r × AreRows rs

-- The rows are stored in order, the first `maxnum` of them; none if one of those is a fault.
abbrev pub stored_rows : ℕ → List Row → Option (List WifiAp)
stored_rows zero rs = some []
stored_rows (suc n) [] = some []
stored_rows (suc n) (r ∷ rs) = prepend (stored r) (stored_rows n rs)

-- A row whose frequency field fills the array of 32 bytes is a fault of the parser.
stored_overflow : (r : Row) → (32 ≤ length r.freq) ↔ (stored r ≡ none)
unfolding store_fields
stored_overflow r = (λ h. ground arith, λ e. ground arith)
