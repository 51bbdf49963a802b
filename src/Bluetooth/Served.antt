-- ===== src/Bluetooth/Served.antt =====
-- What the commands of the console need (bt_test/zib_bluetooth.c).
use multi_test.Prelude.{
  ◌≤◌, ◌<◌, true, false, List, [], ◌∷◌, ◌++◌, Option, some, ◌≡◌, refl, ◌∙◌, arith, ltb, length,
  Bool-cases, inl, inr,
}
use multi_test.Prelude.Int.{is_zero, pos}
use multi_test.Prelude.Text.{Bytes, codes, str_eq}
use multi_test.Prelude.Fault.{◌>>=◌}
use multi_test.Bluetooth.Console.{skip_blanks, str_word, get_str}
use multi_test.Bluetooth.Adapter.{BtHal, bdt_init}
use multi_test.Bluetooth.Gatt.{Gatt}
use multi_test.Bluetooth.Commands.{
  Handler, Cmd, console_cmd_list, Bt, run_handler, find_cmd, process_cmd, console_loop, chop,
}
use multi_test.Bluetooth.Adapter.{
  bdt_enable, bdt_disable, do_pair, do_start_discovery, do_stop_discovery, ask, create_bond,
}
use multi_test.Bluetooth.Gatt.{
  GattCall, register_client, register_server, set_adv_data, listen, add_service, send_indication,
  uuid_service, gatt_send, do_btgattc_register_app, btgatts_start_advertising,
  btgatts_register_server, do_btgatts_start_advertise, do_btgatts_init_server,
  do_btgatts_send_notification,
}
use multi_test.Bluetooth.Address.{set_uuid, str2bd}
use multi_test.Bluetooth.Commands.{
  help, quit, enable, disable, start_discovery, stop_discovery, pair, register_app, start_advertise,
  init_server, send_notification,
}
use multi_test.Bluetooth.Start.{
  Loading, hal_load, gatt_init, fault, ended, run_console, eng_bt_scan_start,
}

-- Lines of fewer than 64 bytes, so that each word fits.
abbrev pub AreShort : List Bytes → Type 0
AreShort [] = Unit
AreShort (line ∷ lines) = (length line < 64) × AreShort lines

-- An address for a pairing that is read within its text.
abbrev IsAddress : Bytes → Type 0
IsAddress p = (b : Bytes) × (str2bd p ≡ some b)

-- The text behind the word 5, the command that pairs, is such an address. (The line is without its
-- last byte then.)
abbrev PairsWell : Bytes → Type 0
PairsWell line = str_eq (codes "5") (get_str line).0 ≡ true → IsAddress (get_str line).1

abbrev pub AllPairWell : List Bytes → Type 0
AllPairWell [] = Unit
AllPairWell (line ∷ lines) = PairsWell (chop line) × AllPairWell lines

length-str_word : (s : Bytes) → length (str_word s).0 ≤ length s
unfolding str_word
length-str_word [] = omega arith
length-str_word (c ∷ s) = ground (arith, length-str_word s)

length-skip_blanks : (s : Bytes) → length (skip_blanks s) ≤ length s
length-skip_blanks [] = omega arith
length-skip_blanks (c ∷ s) = ground (arith, length-skip_blanks s)

length-get_str : (s : Bytes) → length (get_str s).0 ≤ length s
unfolding get_str
length-get_str s = omega (arith, length-str_word (skip_blanks s), length-skip_blanks s)

length-chop : (s : Bytes) → length (chop s) ≤ length s
length-chop [] = omega arith
length-chop (c ∷ []) = omega arith
length-chop (c ∷ d ∷ s) = omega (arith, length-chop (d ∷ s))

-- With the interface, the function gives a state that has it still.
abbrev IsTotal : (Gatt → Option Gatt) → Type 0
IsTotal f = (g : Gatt) → g.gatt_if ≡ true → (g' : Gatt) × (f g ≡ some g') × (g'.gatt_if ≡ true)

gatt_send-IsTotal : (c : GattCall) → IsTotal (gatt_send c)
unfolding gatt_send
gatt_send-IsTotal c g e = (record g { sent = g.sent ++ c ∷ [] }, ground arith, e)

>>=-IsTotal : (f h : Gatt → Option Gatt) → IsTotal f → IsTotal h → IsTotal (λ g. f g >>= h)
>>=-IsTotal f h tf th g e =
    let (g', r, e') = tf g e in let (g'', r', e'') = th g' e' in (g'', ground (arith, r, r'), e'')

register_app-IsTotal : IsTotal do_btgattc_register_app
unfolding do_btgattc_register_app
register_app-IsTotal g e =
    let (g', r, e') = gatt_send-IsTotal (register_client (set_uuid 0 0)) g e in
    (g', ground (arith, r), e')

register_server-IsTotal : IsTotal btgatts_register_server
unfolding btgatts_register_server
register_server-IsTotal g e =
    let (g', r, e') = gatt_send-IsTotal (register_server (set_uuid 0 0)) g e in
    (g', ground (arith, r), e')

advertising-IsTotal : IsTotal btgatts_start_advertising
unfolding btgatts_start_advertising
advertising-IsTotal g e =
    let (g', r, e') = gatt_send-IsTotal (set_adv_data g.client_if) g e in
    let (g'', r', e'') = gatt_send-IsTotal (listen g.client_if) g' e' in
    (g'', ground (arith, r, r'), e'')

start_advertise-IsTotal : IsTotal do_btgatts_start_advertise
unfolding do_btgatts_start_advertise
start_advertise-IsTotal =
    >>=-IsTotal btgatts_start_advertising btgatts_register_server advertising-IsTotal
      register_server-IsTotal

init_server-IsTotal : IsTotal do_btgatts_init_server
unfolding do_btgatts_init_server
init_server-IsTotal g e = gatt_send-IsTotal (add_service g.server_if uuid_service 4) g e

send_notification-IsTotal : IsTotal do_btgatts_send_notification
unfolding do_btgatts_send_notification
send_notification-IsTotal g e =
    gatt_send-IsTotal (send_indication g.server_if g.char_handle g.gatts_conn_id (codes "hello")) g
      e

-- No entry is a job.
abbrev HasNoJob : List Cmd → Type 0
HasNoJob [] = Unit
HasNoJob (c ∷ cs) = (c.is_job ≡ false) × HasNoJob cs

console_cmd_list-HasNoJob : HasNoJob console_cmd_list
console_cmd_list-HasNoJob = ground arith

-- The entries that a word chooses find an address where they pair.
abbrev PairAt : List Cmd → Bytes → Bytes → Type 0
PairAt [] cmd p = Unit
PairAt (c ∷ cs) cmd p =
    (str_eq c.name cmd ≡ true → c.handler ≡ pair → IsAddress p) × PairAt cs cmd p

console_cmd_list-PairAt :
    (cmd p : Bytes) → (str_eq (codes "5") cmd ≡ true → IsAddress p) → PairAt console_cmd_list cmd p
console_cmd_list-PairAt cmd p h = (
  λ e q. absurd (ground arith),
  (
    λ e q. absurd (ground arith),
    (
      λ e q. absurd (ground arith),
      (
        λ e q. absurd (ground arith),
        (
          λ e q. absurd (ground arith),
          (
            λ e q. absurd (ground arith),
            (
              λ e q. h e,
              (
                λ e q. absurd (ground arith),
                (
                  λ e q. absurd (ground arith),
                  (λ e q. absurd (ground arith), (λ e q. absurd (ground arith), tt)),
                ),
              ),
            ),
          ),
        ),
      ),
    ),
  ),
)

module _ {S : Type 0} (hal : BtHal S) where
  -- A state with a GATT interface and with the jobs `js`, reached without a fault.
  abbrev IsServed : List Bytes → Option (Bt S) → Type 0
  IsServed js r = (w : Bt S) × (r ≡ some w) × (w.gatt.gatt_if ≡ true) × (w.jobs ≡ js)

  run_handler-IsServed :
      (h : Handler) (p : Bytes) (w : Bt S)
      → w.gatt.gatt_if ≡ true
      → (h ≡ pair → IsAddress p)
      → IsServed w.jobs (run_handler hal h p w)
  unfolding run_handler do_pair ask
  run_handler-IsServed help p w e a = (w, refl, e, refl)
  run_handler-IsServed quit p w e a = (record w { main_done = true }, refl, e, refl)
  run_handler-IsServed enable p w e a =
      (record w { adapter = bdt_enable hal w.adapter }, refl, e, refl)
  run_handler-IsServed disable p w e a =
      (record w { adapter = bdt_disable hal w.adapter }, refl, e, refl)
  run_handler-IsServed start_discovery p w e a =
      (record w { adapter = do_start_discovery hal w.adapter }, refl, e, refl)
  run_handler-IsServed stop_discovery p w e a =
      (record w { adapter = do_stop_discovery hal w.adapter }, refl, e, refl)
  run_handler-IsServed pair p w e a =
      let (b, r) = a refl in
      (record w { adapter = ask hal (create_bond b) w.adapter }, rw r refl, e, refl)
  run_handler-IsServed register_app p w e a =
      let (g, r, e') = register_app-IsTotal w.gatt e in
      (record w { gatt = g }, ground (arith, r), e', refl)
  run_handler-IsServed start_advertise p w e a =
      let (g, r, e') = start_advertise-IsTotal w.gatt e in
      (record w { gatt = g }, ground (arith, r), e', refl)
  run_handler-IsServed init_server p w e a =
      let (g, r, e') = init_server-IsTotal w.gatt e in
      (record w { gatt = g }, ground (arith, r), e', refl)
  run_handler-IsServed send_notification p w e a =
      let (g, r, e') = send_notification-IsTotal w.gatt e in
      (record w { gatt = g }, ground (arith, r), e', refl)

  find_cmd-IsServed :
      (list : List Cmd) (saved cmd p : Bytes) (w : Bt S)
      → HasNoJob list
      → PairAt list cmd p
      → w.gatt.gatt_if ≡ true
      → IsServed w.jobs (find_cmd hal list false saved cmd p w)
  unfolding find_cmd
  find_cmd-IsServed [] saved cmd p w n a e = (w, refl, e, refl)
  find_cmd-IsServed (c ∷ list) saved cmd p w (n, ns) (a, rest) e =
      elim (Bool-cases (str_eq c.name cmd)) [
        | inl q ↦
            let (w', r, e', j) = run_handler-IsServed c.handler p w e (a q) in
            (w', ground (arith, r), e', j)
        | inr q ↦
            let (w', r, e', j) = find_cmd-IsServed list saved cmd p w ns rest e in
            (w', ground (arith, r), e', j)
      ]

  process_cmd-IsServed :
      (line : Bytes) (w : Bt S)
      → length line < 64
      → PairsWell line
      → w.gatt.gatt_if ≡ true
      → IsServed w.jobs (process_cmd hal line false w)
  unfolding process_cmd
  process_cmd-IsServed line w h a e =
      let fits : ltb (length (get_str line).0) 64 ≡ true = ground (arith, length-get_str line) in
      rw fits (
        find_cmd-IsServed console_cmd_list line (get_str line).0 (get_str line).1 w
          console_cmd_list-HasNoJob (console_cmd_list-PairAt (get_str line).0 (get_str line).1 a) e)

  console_loop-IsServed :
      (lines : List Bytes) (w : Bt S)
      → AreShort lines
      → AllPairWell lines
      → w.gatt.gatt_if ≡ true
      → IsServed w.jobs (console_loop hal lines w)
  unfolding console_loop
  console_loop-IsServed [] w h a e = (w, refl, e, refl)
  console_loop-IsServed ([] ∷ lines) w h a e = elim (Bool-cases w.main_done) [
    | inl d ↦ (w, ground arith, e, refl)
    | inr d ↦
        let (w', r, e', j) = console_loop-IsServed lines w h.1 a.1 e in
        (w', ground (arith, r), e', j)
  ]
  console_loop-IsServed ((c ∷ line) ∷ lines) w h a e = elim (Bool-cases w.main_done) [
    | inl d ↦ (w, ground arith, e, refl)
    | inr d ↦
        let (w', r, e', j) =
          process_cmd-IsServed (chop (c ∷ line)) w (omega (arith, length-chop (c ∷ line))) a.0 e in
        let (w'', r', e'', j') = console_loop-IsServed lines w' h.1 a.1 e' in
        (w'', ground (arith, r, r'), e'', j' ∙ j)
  ]

  run_console-ended :
      (l : Loading) (lines : List Bytes) (w w' : Bt S)
      → console_loop hal lines
          (record w { adapter = bdt_init hal w.adapter; gatt = gatt_init l w.gatt })
        ≡ some w'
      → run_console hal l lines w ≡ ended w'
  unfolding run_console
  run_console-ended l lines w w' r = ground (arith, r)

  -- If the HAL and its GATT interface are loaded, the console works without a fault through every list
  -- of lines of fewer than 64 bytes whose pairings have addresses that are read within their text,
  -- whatever the commands are, and leaves none of them to a job.
  pub eng_bt_scan_start-ended :
      (l : Loading) (lines : List Bytes) (w : Bt S)
      → hal_load l ≡ (pos 0, true)
      → (l.gatt_found ≡ true) × (is_zero l.gatt_status ≡ true)
      → AreShort lines
      → AllPairWell lines
      → (w' : Bt S) × (eng_bt_scan_start hal l lines w ≡ ended w') × (w'.jobs ≡ w.jobs)
  unfolding eng_bt_scan_start
  eng_bt_scan_start-ended l lines w h g short well =
      let started : Bt S = record w {
        adapter = bdt_init hal w.adapter;
        gatt = gatt_init l w.gatt;
      } in
      let (w', r, e, j) =
        console_loop-IsServed lines started short well (unfold gatt_init in ground arith) in
      (w', rw h (run_console-ended l lines w w' r), j)

  -- Without a GATT interface, the command 8 is a call through NULL.
  pub eng_bt_scan_start-no_gatt :
      (l : Loading) (lines : List Bytes) (w : Bt S)
      → hal_load l ≡ (pos 0, true)
      → l.gatt_found ≡ false
      → w.main_done ≡ false
      → eng_bt_scan_start hal l (codes "8\n" ∷ lines) w ≡ fault
  unfolding eng_bt_scan_start console_loop process_cmd gatt_init do_btgatts_init_server gatt_send
      get_str
  eng_bt_scan_start-no_gatt l lines w h g d = rw (h, g, d) refl
