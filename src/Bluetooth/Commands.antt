-- ===== src/Bluetooth/Commands.antt =====
-- The console (bt_test/zib_bluetooth.c): the table of commands, `process_cmd`, the loop of
-- `eng_bt_scan_start`, and the test modes. The HAL is loaded. None is a fault.
use multi_test.Prelude.{
  ℕ, Bool, true, false, not, ◌&&◌, List, [], ◌∷◌, ◌++◌, Option, some, if◌then◌else◌, ltb, length,
}
use multi_test.Prelude.Text.{Bytes, codes, str_eq}
use multi_test.Prelude.Fault.{◌>>=◌, ◌>>◌, require}
use multi_test.Bluetooth.Console.{get_str}
use multi_test.Bluetooth.Adapter.{
  Adapter, BtHal, bdt_enable, bdt_disable, do_pair, do_start_discovery, do_stop_discovery,
}
use multi_test.Bluetooth.Gatt.{
  Gatt, do_btgattc_register_app, do_btgatts_start_advertise, do_btgatts_init_server,
  do_btgatts_send_notification,
}

-- The handlers of the table.
pub data Handler : Type 0 where
  help quit enable disable start_discovery stop_discovery pair register_app start_advertise :
      Handler
  init_server send_notification : Handler

-- `t_cmd`
pub record Cmd : Type 0 where
  pub name : Bytes
  pub handler : Handler
  pub help_text : Bytes
  pub is_job : Bool

-- An entry of the table. (None is a job.)
abbrev entry : Bytes → Handler → Bytes → Cmd
entry name handler help_text = record {
  name = name;
  handler = handler;
  help_text = help_text;
  is_job = false;
}

abbrev pub console_cmd_list : List Cmd
console_cmd_list =
    entry (codes "h") help (codes "lists all available console commands")
    ∷ entry (codes "q") quit []
    ∷ entry (codes "1") enable (codes " enables bluetooth")
    ∷ entry (codes "2") disable (codes " disables bluetooth")
    ∷ entry (codes "3") start_discovery (codes "do_start_discovery")
    ∷ entry (codes "4") stop_discovery (codes "do_stop_discovery")
    ∷ entry (codes "5") pair (codes " Pair Device,after 'p' is correct Mac ")
    ∷ entry (codes "6") register_app (codes "do_btgattc_register_app")
    ∷ entry (codes "7") start_advertise (codes "do_btgatts_start_advertise")
    ∷ entry (codes "8") init_server (codes "do_btgatts_init_server")
    ∷ entry (codes "9") send_notification (codes "do_btgatts_send_notification")
    ∷ []

-- The lines of `do_help`.
unfoldable pub help_lines : List Cmd → List Bytes
help_lines [] = []
help_lines (c ∷ cs) = (c.name ++ (b' ' ∷ (c.help_text ++ b'\n' ∷ []))) ∷ help_lines cs

-- `setup_test_env`: `console_cmd_maxlen` behind the loop.
unfoldable pub setup_test_env : List Cmd → ℕ → ℕ
setup_test_env [] n = n
setup_test_env (c ∷ cs) n = setup_test_env cs (if ltb (length c.name) n then n else length c.name)

-- `jobs` has the lines that `create_cmdjob` gave to threads.
pub record Bt (S : Type 0) : Type 0 where
  pub adapter : Adapter S
  pub gatt : Gatt
  pub main_done : Bool
  pub jobs : List Bytes

-- `char cmd[64]`
abbrev pub cmd_size : ℕ
cmd_size = 64

-- A line without its last byte.
abbrev pub chop : Bytes → Bytes
chop [] = []
chop (c ∷ []) = []
chop (c ∷ d ∷ cs) = c ∷ chop (d ∷ cs)

module _ {S : Type 0} (hal : BtHal S) where
  abbrev on_adapter : (Adapter S → Adapter S) → Bt S → Option (Bt S)
  on_adapter f w = some (record w { adapter = f w.adapter })

  abbrev on_gatt : (Gatt → Option Gatt) → Bt S → Option (Bt S)
  on_gatt f w = f w.gatt >>= λ g. some (record w { gatt = g })

  -- `p` is the text behind the command's word.
  unfoldable pub run_handler : Handler → Bytes → Bt S → Option (Bt S)
  run_handler help p w = some w
  run_handler quit p w = some (record w { main_done = true })
  run_handler enable p w = on_adapter (bdt_enable hal) w
  run_handler disable p w = on_adapter (bdt_disable hal) w
  run_handler start_discovery p w = on_adapter (do_start_discovery hal) w
  run_handler stop_discovery p w = on_adapter (do_stop_discovery hal) w
  run_handler pair p w = do_pair hal (some p) w.adapter >>= λ a. some (record w { adapter = a })
  run_handler register_app p w = on_gatt do_btgattc_register_app w
  run_handler start_advertise p w = on_gatt do_btgatts_start_advertise w
  run_handler init_server p w = on_gatt do_btgatts_init_server w
  run_handler send_notification p w = on_gatt do_btgatts_send_notification w

  -- The copy of the line goes to a thread that runs `cmdjob_handler`.
  unfoldable pub create_cmdjob : Bytes → Bt S → Bt S
  create_cmdjob cmd w = record w { jobs = w.jobs ++ cmd ∷ [] }

  -- The loop over the table; behind it the help is printed.
  unfoldable pub find_cmd : List Cmd → Bool → Bytes → Bytes → Bytes → Bt S → Option (Bt S)
  unfolding run_handler create_cmdjob
  find_cmd [] is_job saved cmd p w = some w
  find_cmd (c ∷ list) is_job saved cmd p w =
      let run =
        if not is_job && c.is_job
        then some (create_cmdjob saved w)
        else run_handler c.handler p w in
      if str_eq c.name cmd then run else find_cmd list is_job saved cmd p w

  -- The word is copied with its end into `cmd`.
  unfoldable pub process_cmd : Bytes → Bool → Bt S → Option (Bt S)
  unfolding find_cmd
  process_cmd line is_job w =
      let (cmd, p) = get_str line in
      require (ltb (length cmd) cmd_size) >> find_cmd console_cmd_list is_job line cmd p w

  unfoldable pub cmdjob_handler : Bytes → Bt S → Option (Bt S)
  unfolding process_cmd
  cmdjob_handler job_cmd w = process_cmd job_cmd true w

  -- The loop, over the lines that `fgets` reads; its state where it ends or waits for a line.
  unfoldable pub console_loop : List Bytes → Bt S → Option (Bt S)
  unfolding process_cmd
  console_loop [] w = some w
  console_loop ([] ∷ lines) w = if w.main_done then some w else console_loop lines w
  console_loop ((c ∷ line) ∷ lines) w =
      let next = process_cmd (chop (c ∷ line)) false w >>= console_loop lines in
      if w.main_done then some w else next
