-- ===== src/Wifi/Command.antt =====
-- `wifiCommand` (ls_wifi_test.c): a command is tried three times.
use multi_test.Prelude.{
  ℕ, zero, suc, ◌-◌, ◌≤◌, ◌<◌, Bool, false, ◌&&◌, [], ◌∷◌, ◌++◌, Option, none, some, ◌≡◌, inl, inr,
  refl, arith, take, length, replicate, ltb, Option-cases,
}
use mathlib.Core.List.{append_assoc, append-nil}
use multi_test.Prelude.Text.{Bytes, codes, contains, c_str}
use multi_test.Wifi.{Wifi, Exec}

abbrev pub wifi_cmd_retry_num : ℕ
wifi_cmd_retry_num = 3

-- `mInterfaceCmd`: 64 bytes, so 63 of text.
abbrev pub interface_cmd_size : ℕ
interface_cmd_size = 64

abbrev pub interface_cmd : Bytes → Bytes
interface_cmd cmd = take (interface_cmd_size - 1) (codes "IFNAME=wlan0 " ++ cmd)

module _ {S : Type 0} (exec : Exec S) where
  -- One try.
  unfoldable pub try_command : Bytes → ℕ → Wifi S → Wifi S × Option Bytes
  try_command text size w =
      let (s, reply) = exec w.sup text size in
      (record w { sup = s; sent = w.sent ++ text ∷ [] }, reply)

  -- The loop, by the tries that are left.
  unfoldable pub retry_command : ℕ → Bytes → ℕ → Wifi S → Wifi S × Option Bytes
  unfolding try_command
  retry_command zero text size w = (w, none)
  retry_command (suc n) text size w =
      let (w', reply) = try_command text size w in
      elim reply [ none ↦ retry_command n text size w' | some r ↦ (w', some r) ]

  -- `reply_size` is positive at every call. None stands for -1, else the reply has the length that
  -- is returned.
  unfoldable pub wifi_command : Bytes → ℕ → Wifi S → Wifi S × Option Bytes
  unfolding retry_command
  wifi_command cmd reply_size w =
      retry_command wifi_cmd_retry_num (interface_cmd cmd) (reply_size - 1) w

-- `wifiCommand(…) > 0 && strstr(reply, word) != NULL`
abbrev pub replies : Bytes → Option Bytes → Bool
replies word none = false
replies word (some reply) = ltb 0 (length reply) && contains word (c_str reply)

-- The commands of some tries: the same text each time, at most `n` times and once at least, and all `n`
-- times if no reply is given.
abbrev pub Tried : {S : Type 0} → ℕ → Bytes → Wifi S → Wifi S × Option Bytes → Type 0
Tried n text w r =
    (k : ℕ) × (k ≤ n)
    × (r.0.sent ≡ w.sent ++ replicate k text)
    × (r.1 ≡ none → k ≡ n)
    × (0 < n → 0 < k)

pub retry_command-Tried :
    {S : Type 0} (exec : Exec S) (n : ℕ) (text : Bytes) (size : ℕ) (w : Wifi S)
    → Tried n text w (retry_command exec n text size w)
unfolding retry_command
retry_command-Tried exec zero text size w =
    (0, omega arith, ground (arith, append-nil w.sent), λ e. refl, λ l. l)
retry_command-Tried exec (suc n) text size w =
    let w' = (try_command exec text size w).0 in
    let (k, le, sent, full, some_try) = retry_command-Tried exec n text size w' in
    elim (Option-cases (exec w.sup text size).1) [
      | inl e ↦ (
        suc k,
        omega arith,
        ground (arith, sent, append_assoc w.sent (text ∷ []) (replicate k text)),
        λ h. ground (arith, full),
        λ l. omega arith,
      )
      | inr (r, e) ↦ (1, omega arith, ground arith, λ h. ground arith, λ l. omega arith)
    ]
