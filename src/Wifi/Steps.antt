-- ===== src/Wifi/Steps.antt =====
-- The wifi test over time (ls_wifi_test.c): tests, opens, closes and the thread of `wifi_test` one
-- after the other, with rounds of the event loop and moves of the supplicant between them.
use mathlib.Core.Path.{subst}
use multi_test.Prelude.{
  ℕ, Bool, false, not, List, ◌&&◌, ◌++◌, ◌==◌, [], Option, none, some, ◌≡◌, arith, length, ltb,
}
use multi_test.Prelude.Int.{ℤ, pos, negsuc, is_zero}
use multi_test.Prelude.Text.{Bytes, codes}
use multi_test.Prelude.Decimal.{print_dec, print_int}
use multi_test.Wifi.{Wifi, Exec}
use multi_test.Wifi.Command.{wifi_command, replies}
use multi_test.Wifi.Power.{Driver, no_status, wifi_close, eng_wifi_open}
use multi_test.Wifi.TestRun.{Run, fault, blocked, done, Verdict, test_wifi_start}
use multi_test.Wifi.Network.{
  added_id, network_cmd, enable_cmd, command_size, net_id_size, expect, expect_built,
  wifi_save_config, finish_add, set_up, configure, wifi_add_network,
}
use multi_test.Wifi.Connect.{
  Wait, signalled, timed_out, Connected, connected, connecting, after_wait, or_fail, select,
  wifi_connect_network, wifi_event_loop,
}
use multi_test.Wifi.Start.{passes, connect, eng_wifi_start}
use multi_test.Wifi.Bounds.{InBounds, wifi_command-InBounds}
use multi_test.Wifi.Runs.{
  Ensures->>=, Ensures-if, Bounded, wifi_close-InBounds, eng_wifi_open-InBounds,
  test_wifi_start-Bounded,
}

after_wait-Bounded :
    {S : Type 0} (dhcp : ℕ → Bool) (wait : Wait) (w : Wifi S)
    → InBounds w
    → Bounded (after_wait dhcp wait w)
unfolding after_wait
after_wait-Bounded dhcp timed_out w b = b
after_wait-Bounded dhcp (signalled status) w b =
    let b' : InBounds (record w { connect_status = status }) = record {
      written = b.written;
      fits = b.fits;
    } in
    Ensures-if InBounds (status == connected) _ _ b' b'

module _ {S : Type 0} (exec : Exec S) where
  expect-Bounded :
      (cmd : Bytes) (code : ℕ) (w : Wifi S) (k : Wifi S → Run S ℤ)
      → InBounds w
      → ((v : Wifi S) → InBounds v → Bounded (k v))
      → Bounded (expect exec cmd code w k)
  expect-Bounded cmd code w k b h =
      let (w', reply) = wifi_command exec cmd 64 w in
      let b' : InBounds w' = wifi_command-InBounds exec cmd 64 w b in
      Ensures-if InBounds (replies (codes "OK") reply) _ _ (h w' b') b'

  expect_built-Bounded :
      (cmd : Bytes) (code : ℕ) (w : Wifi S) (k : Wifi S → Run S ℤ)
      → InBounds w
      → ((v : Wifi S) → InBounds v → Bounded (k v))
      → Bounded (expect_built exec cmd code w k)
  expect_built-Bounded cmd code w k b h =
      Ensures-if InBounds (ltb (length cmd) command_size) _ _ (expect-Bounded cmd code w k b h) tt

  finish_add-Bounded : (id : ℕ) (w : Wifi S) → InBounds w → Bounded (finish_add exec id w)
  unfolding finish_add wifi_save_config
  finish_add-Bounded id w b =
      let b' = wifi_command-InBounds exec (codes "SAVE_CONFIG") 64 w b in
      Ensures-if InBounds (wifi_save_config exec w).1 _ _ b' b'

  set_up-Bounded :
      (ssid psk : Bytes) (id : ℕ) (w : Wifi S) → InBounds w → Bounded (set_up exec ssid psk id w)
  unfolding set_up
  set_up-Bounded ssid psk id w b =
      expect_built-Bounded (network_cmd id (codes " ssid ") ssid) 1 w _ b λ w1 b1.
        expect_built-Bounded (network_cmd id (codes " psk ") psk) 2 w1 _ b1 λ w2 b2.
          expect_built-Bounded (enable_cmd id) 3 w2 _ b2 λ w3 b3. finish_add-Bounded id w3 b3

  wifi_add_network-Bounded :
      (ssid psk : Bytes) (w : Wifi S) → InBounds w → Bounded (wifi_add_network exec ssid psk w)
  unfolding wifi_add_network configure
  wifi_add_network-Bounded ssid psk w b =
      let (w', reply) = wifi_command exec (codes "ADD_NETWORK") 64 w in
      let b' : InBounds w' = wifi_command-InBounds exec (codes "ADD_NETWORK") 64 w b in
      elim (added_id reply)
        as (λ o.
          Bounded
            (elim o [ none ↦ done w' (negsuc 0) | some id ↦ configure exec ssid psk id w' ])) [
              | none ↦ b'
              | some id ↦
                  Ensures-if InBounds (ltb (length (print_dec id)) net_id_size) _ _
                    (set_up-Bounded ssid psk id w' b') tt
            ]

  or_fail-Bounded :
      (r : Run S ℤ) (k : Wifi S → Run S Connected)
      → Bounded r
      → ((v : Wifi S) → InBounds v → Bounded (k v))
      → Bounded (or_fail exec r k)
  or_fail-Bounded fault k b h = tt
  or_fail-Bounded (blocked w) k b h = b
  or_fail-Bounded (done w (pos n)) k b h = h w b
  or_fail-Bounded (done w (negsuc n)) k b h = b

  select-Bounded :
      (dhcp : ℕ → Bool) (wait : Wait) (id : Bytes) (w : Wifi S)
      → InBounds w
      → Bounded (select exec (after_wait dhcp wait) id w)
  select-Bounded dhcp wait id w b =
      let w' : Wifi S = record w { connect_status = connecting } in
      let reconnect : Wifi S → Run S ℤ =
        λ w1. expect exec (codes "RECONNECT") 1 w1 λ w2. done w2 (pos 0) in
      or_fail-Bounded _ (after_wait dhcp wait)
        (expect_built-Bounded (codes "SELECT_NETWORK " ++ id) 0 w' reconnect
          (record { written = b.written; fits = b.fits })
          λ w1 b1. expect-Bounded (codes "RECONNECT") 1 w1 (λ w2. done w2 (pos 0)) b1 λ w2 b2. b2)
        (after_wait-Bounded dhcp wait)

  wifi_connect_network-Bounded :
      (goes_on : Bool) (dhcp : ℕ → Bool) (wait : Wait) (id : ℤ) (w : Wifi S)
      → InBounds w
      → Bounded (wifi_connect_network exec goes_on dhcp wait id w)
  unfolding wifi_connect_network
  wifi_connect_network-Bounded goes_on dhcp wait id w b =
      Ensures-if InBounds (is_zero id && not goes_on) _ _ tt (
        Ensures-if InBounds (ltb (length (print_int id)) net_id_size) _ _
          (select-Bounded dhcp wait (print_int id) w b) tt)

  eng_wifi_start-Bounded :
      (d : Driver) (goes_on : Bool) (fail : ℤ) (dhcp : ℕ → Bool) (wait : Wait) (w : Wifi S)
      → InBounds w
      → Bounded (eng_wifi_start exec d goes_on fail dhcp wait w)
  unfolding eng_wifi_start
  eng_wifi_start-Bounded d goes_on fail dhcp wait w b =
      Ensures->>= InBounds (test_wifi_start exec d w) _ (test_wifi_start-Bounded exec d w b)
        λ w' v b'. Ensures-if InBounds (passes fail v) _ _ (connect-Bounded w' b') b'
    where
      connect-Bounded : (v : Wifi S) → InBounds v → Bounded (connect exec goes_on dhcp wait v)
      connect-Bounded v c =
          Ensures->>= InBounds (wifi_add_network exec (codes "chendong") (codes "dongchen") v) _
            (wifi_add_network-Bounded (codes "chendong") (codes "dongchen") v c)
            λ w1 id b1.
              Ensures->>= InBounds (wifi_connect_network exec goes_on dhcp wait id w1) _
                (wifi_connect_network-Bounded goes_on dhcp wait id w1 b1) λ w2 r b2. b2

-- The file's variables at the start of the program.
unfoldable pub at_start : {S : Type 0} → S → Wifi S
at_start s = record {
  sup = s;
  sent = [];
  calls = [];
  status = no_status;
  ap_num = pos 0;
  aps = [];
  connect_status = 0;
  event_looping = false;
  sem = 0;
  test_result = false;
  test_over = false;
}

-- A call from outside, up to its end or to the wait that it does not leave, a round of events, or a
-- move of the supplicant by itself.
pub data Step {S : Type 0} (exec : Exec S) : Wifi S → Wifi S → Type 0 where
  tested :
      (d : Driver) (w v : Wifi S) (r : Verdict)
      → test_wifi_start exec d w ≡ done v r
      → Step exec w v
  waits : (d : Driver) (w v : Wifi S) → test_wifi_start exec d w ≡ blocked v → Step exec w v
  started :
      (d : Driver) (goes_on : Bool) (fail : ℤ) (dhcp : ℕ → Bool) (wait : Wait) (w v : Wifi S)
      → eng_wifi_start exec d goes_on fail dhcp wait w ≡ done v tt
      → Step exec w v
  opens : (d : Driver) (w : Wifi S) → Step exec w (eng_wifi_open d w).0
  closes : (w : Wifi S) → Step exec w (wifi_close w)
  events :
      (evts : List (Option Bytes)) (w : Wifi S)
      → Step exec w (record w { connect_status = (wifi_event_loop evts w.connect_status).0 })
  moves : (s : S) (w : Wifi S) → Step exec w (record w { sup = s })

pub data Reached {S : Type 0} (exec : Exec S) (s : S) : Wifi S → Type 0 where
  begins : Reached exec s (at_start s)
  goes_on : {w v : Wifi S} → Reached exec s w → Step exec w v → Reached exec s v

module _ {S : Type 0} (exec : Exec S) where
  Step-InBounds : {w v : Wifi S} → Step exec w v → InBounds w → InBounds v
  Step-InBounds (tested d w v r e) b = subst Bounded e (test_wifi_start-Bounded exec d w b)
  Step-InBounds (waits d w v e) b = subst Bounded e (test_wifi_start-Bounded exec d w b)
  Step-InBounds (started d on fail dhcp wait w v e) b =
      subst Bounded e (eng_wifi_start-Bounded exec d on fail dhcp wait w b)
  Step-InBounds (opens d w) b = eng_wifi_open-InBounds d w b
  Step-InBounds (closes w) b = wifi_close-InBounds w b
  Step-InBounds (events evts w) b = record { written = b.written; fits = b.fits }
  Step-InBounds (moves s w) b = record { written = b.written; fits = b.fits }

  -- In every state that is reached, the number of access points, by which the loops over the array
  -- run, is not above that of the entries written since the last close, and these fit the array.
  pub Reached-InBounds : (s : S) (w : Wifi S) → Reached exec s w → InBounds w
  unfolding at_start
  Reached-InBounds s w r = sound r
    where
      sound : {v : Wifi S} → Reached exec s v → InBounds v
      sound begins = record { written = omega arith; fits = omega arith }
      sound (goes_on r k) = Step-InBounds k (sound r)
