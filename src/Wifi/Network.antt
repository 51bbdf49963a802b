-- ===== src/Wifi/Network.antt =====
-- Adding a network: `wifiSaveConfig` and `wifiAddNetwork` (ls_wifi_test.c). A text that does not
-- fit its array is a fault. The arguments are no null pointers, so AT_ASSERT, which the source
-- does not define, has nothing to do.
use mathlib.Core.Path.{subst}
use multi_test.Prelude.{
  ℕ, ◌-◌, ◌≤◌, Bool, List, [], ◌∷◌, ◌++◌, Option, none, some, ◌≡◌, ◌∙◌, ap, arith, length, ltb,
  replicate, Bool-cases, Option-cases, inl, inr, if◌then◌else◌,
}
use multi_test.Prelude.Int.{ℤ, pos, negsuc}
use multi_test.Prelude.Text.{Bytes, codes, c_str}
use multi_test.Prelude.Strtol.{atoi}
use multi_test.Prelude.Decimal.{print_dec}
use multi_test.Wifi.{Wifi, Exec}
use multi_test.Wifi.Command.{wifi_command, replies, interface_cmd, retry_command-Tried}
use multi_test.Wifi.TestRun.{Run, fault, done}

-- `char netIdchar[4]` and the 64 bytes of a command.
abbrev pub net_id_size : ℕ
net_id_size = 4

abbrev pub command_size : ℕ
command_size = 64

-- The number in the reply to ADD_NETWORK, or none where the source returns -1.
unfoldable pub added_id : Option Bytes → Option ℕ
unfolding atoi
added_id none = none
added_id (some reply) = elim (atoi (c_str reply)) [ pos n ↦ some n | negsuc n ↦ none ]

abbrev pub network_cmd : ℕ → Bytes → Bytes → Bytes
network_cmd id word value = codes "SET_NETWORK " ++ (print_dec id ++ (word ++ value))

abbrev pub enable_cmd : ℕ → Bytes
enable_cmd id = codes "ENABLE_NETWORK " ++ print_dec id

-- The commands that set up a network and save it.
abbrev pub setup_cmds : ℕ → Bytes → Bytes → List Bytes
setup_cmds id ssid psk =
    network_cmd id (codes " ssid ") ssid
    ∷ network_cmd id (codes " psk ") psk
    ∷ enable_cmd id
    ∷ codes "SAVE_CONFIG"
    ∷ []

module _ {S : Type 0} (exec : Exec S) where
  -- A command with the reply OK, then `k`; with any other the return value -(code + 1).
  abbrev pub expect : Bytes → ℕ → Wifi S → (Wifi S → Run S ℤ) → Run S ℤ
  expect cmd code w k =
      let (w', reply) = wifi_command exec cmd 64 w in
      if replies (codes "OK") reply then k w' else done w' (negsuc code)

  -- The same for a command built in an array.
  abbrev pub expect_built : Bytes → ℕ → Wifi S → (Wifi S → Run S ℤ) → Run S ℤ
  expect_built cmd code w k = if ltb (length cmd) command_size then expect cmd code w k else fault

  unfoldable pub wifi_save_config : Wifi S → Wifi S × Bool
  wifi_save_config w =
      let (w', reply) = wifi_command exec (codes "SAVE_CONFIG") 64 w in
      (w', replies (codes "OK") reply)

  -- The last step.
  unfoldable pub finish_add : ℕ → Wifi S → Run S ℤ
  unfolding wifi_save_config
  finish_add id w =
      let (w', saved) = wifi_save_config w in if saved then done w' (pos id) else done w' (negsuc 4)

  -- The steps on the network's number behind ADD_NETWORK.
  unfoldable pub set_up : Bytes → Bytes → ℕ → Wifi S → Run S ℤ
  unfolding finish_add
  set_up ssid psk id w = expect_built (network_cmd id (codes " ssid ") ssid) 1 w λ w1.
      expect_built (network_cmd id (codes " psk ") psk) 2 w1
        λ w2. expect_built (enable_cmd id) 3 w2 λ w3. finish_add id w3

  unfoldable pub configure : Bytes → Bytes → ℕ → Wifi S → Run S ℤ
  unfolding set_up
  configure ssid psk id w =
      if ltb (length (print_dec id)) net_id_size then set_up ssid psk id w else fault

  unfoldable pub wifi_add_network : Bytes → Bytes → Wifi S → Run S ℤ
  unfolding configure added_id
  wifi_add_network ssid psk w =
      let (w', reply) = wifi_command exec (codes "ADD_NETWORK") 64 w in
      elim (added_id reply) [ none ↦ done w' (negsuc 0) | some id ↦ configure ssid psk id w' ]

-- The texts sent from one list to another: each command of the list one to three times.
abbrev pub Sends : List Bytes → List Bytes → List Bytes → Type 0
Sends before after [] = after ≡ before
Sends before after (cmd ∷ cmds) =
    (k : ℕ) × (1 ≤ k) × (k ≤ 3) × Sends (before ++ replicate k (interface_cmd cmd)) after cmds

module _ {S : Type 0} (exec : Exec S) where
  wifi_command-sent :
      (cmd : Bytes) (size : ℕ) (w : Wifi S)
      → (k : ℕ) × (1 ≤ k)
        × (k ≤ 3)
        × ((wifi_command exec cmd size w).0.sent ≡ w.sent ++ replicate k (interface_cmd cmd))
  unfolding wifi_command
  wifi_command-sent cmd size w =
      let (k, le, sent, full, once) = retry_command-Tried exec 3 (interface_cmd cmd) (size - 1) w in
      (k, omega (arith, once (omega arith)), le, sent)

  -- A command that went well, then the rest.
  expect_built-Sends :
      (cmd : Bytes) (code : ℕ) (w : Wifi S) (next : Wifi S → Run S ℤ) (cmds : List Bytes)
      {v : Wifi S} {n : ℕ}
      → ((w' : Wifi S) → next w' ≡ done v (pos n) → Sends w'.sent v.sent cmds)
      → expect_built exec cmd code w next ≡ done v (pos n)
      → Sends w.sent v.sent (cmd ∷ cmds)
  expect_built-Sends cmd code w next cmds {v} {n} h e =
      let w' = (wifi_command exec cmd 64 w).0 in
      let (k, ge, le, sent) = wifi_command-sent cmd 64 w in
      let good : next w' ≡ done v (pos n) =
        elim (Bool-cases (replies (codes "OK") (wifi_command exec cmd 64 w).1)) [
          | inl r ↦ ground arith
          | inr r ↦ absurd (ground arith)
        ] in
      (k, ge, le, subst (λ b. Sends b v.sent cmds) sent (h w' good))

  finish_add-Sends :
      (w v : Wifi S) (id n : ℕ)
      → finish_add exec id w ≡ done v (pos n)
      → Sends w.sent v.sent (codes "SAVE_CONFIG" ∷ []) × (id ≡ n)
  unfolding finish_add
  finish_add-Sends w v id n e =
      let (k, ge, le, sent) = wifi_command-sent (codes "SAVE_CONFIG") 64 w in
      ((k, ge, le, ground (arith, sent)), ground arith)

  set_up-Sends :
      (ssid psk : Bytes) (w v : Wifi S) (id n : ℕ)
      → set_up exec ssid psk id w ≡ done v (pos n)
      → Sends w.sent v.sent (setup_cmds id ssid psk)
  unfolding set_up
  set_up-Sends ssid psk w v id n e =
      expect_built-Sends (network_cmd id (codes " ssid ") ssid) 1 w _
        (network_cmd id (codes " psk ") psk ∷ enable_cmd id ∷ codes "SAVE_CONFIG" ∷ [])
        (λ w1.
          expect_built-Sends (network_cmd id (codes " psk ") psk) 2 w1 _
            (enable_cmd id ∷ codes "SAVE_CONFIG" ∷ [])
            (λ w2.
              expect_built-Sends (enable_cmd id) 3 w2 _ (codes "SAVE_CONFIG" ∷ [])
                (λ w3 d. (finish_add-Sends w3 v id n d).0)))
        e

  set_up-value :
      (ssid psk : Bytes) (w v : Wifi S) (id n : ℕ)
      → set_up exec ssid psk id w ≡ done v (pos n)
      → id ≡ n
  unfolding set_up
  set_up-value ssid psk w v id n e = ground arith

  -- An added network was set up by the five commands in order, each sent at least once and at most three
  -- times, for the number in the supplicant's reply.
  pub wifi_add_network-Sends :
      (ssid psk : Bytes) (w v : Wifi S) (n : ℕ)
      → wifi_add_network exec ssid psk w ≡ done v (pos n)
      → (added_id (wifi_command exec (codes "ADD_NETWORK") 64 w).1 ≡ some n)
        × Sends w.sent v.sent (codes "ADD_NETWORK" ∷ setup_cmds n ssid psk)
  unfolding wifi_add_network
  wifi_add_network-Sends ssid psk w v n e =
      let (w', reply) = wifi_command exec (codes "ADD_NETWORK") 64 w in
      let (k, ge, le, sent) = wifi_command-sent (codes "ADD_NETWORK") 64 w in
      elim (Option-cases (added_id reply)) [
        | inl none_given ↦ absurd (ground arith)
        | inr (id, given) ↦
            let e' : configure exec ssid psk id w' ≡ done v (pos n) = ground arith in
            let d : set_up exec ssid psk id w' ≡ done v (pos n) = fits id w' e' in
            let same : id ≡ n = set_up-value ssid psk w' v id n d in
            (
              given ∙ ap some same,
              (
                k,
                ge,
                le,
                subst (λ b. Sends b v.sent (setup_cmds n ssid psk)) sent
                    (set_up-Sends ssid psk w' v n n (rw same at d)),
              ),
            )
      ]
    where
      fits :
          (id : ℕ) (w' : Wifi S)
          → configure exec ssid psk id w' ≡ done v (pos n)
          → set_up exec ssid psk id w' ≡ done v (pos n)
      fits id w' d = ground arith

  added_id-letter : (c : ℕ) (rest : Bytes) → b'A' ≤ c → added_id (some (c ∷ rest)) ≡ some 0
  unfolding added_id
  added_id-letter c rest le = ground arith

  -- A reply to ADD_NETWORK that begins with a letter (any byte from A on), such as FAIL, is taken
  -- for network 0, and the commands that follow set up that network.
  wifi_add_network-letter :
      (ssid psk : Bytes) (w : Wifi S) (c : ℕ) (rest : Bytes)
      → (wifi_command exec (codes "ADD_NETWORK") 64 w).1 ≡ some (c ∷ rest)
      → b'A' ≤ c
      → wifi_add_network exec ssid psk w
        ≡ configure exec ssid psk 0 (wifi_command exec (codes "ADD_NETWORK") 64 w).0
  unfolding wifi_add_network
  wifi_add_network-letter ssid psk w c rest h le =
      let e : added_id (wifi_command exec (codes "ADD_NETWORK") 64 w).1 ≡ some 0 =
        ap added_id h ∙ added_id-letter c rest le in
      ground (arith, e)
