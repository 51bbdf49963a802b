-- ===== src/Wifi/Connect.antt =====
-- Connecting: `wifi_Connect_Network` (ls_wifi_test.c), and the events that
-- `wifiEventLoop` handles.
use multi_test.Prelude.{
  ℕ, zero, suc, Bool, true, false, not, List, [], ◌∷◌, ◌++◌, Option, none, some, ◌≡◌, ◌≢◌, ◌↔◌,
  arith, length, ltb, ◌==◌, ◌&&◌, if◌then◌else◌,
}
use multi_test.Prelude.Int.{is_zero, ℤ, pos, negsuc}
use multi_test.Prelude.Text.{Bytes, codes, contains, c_str}
use multi_test.Prelude.Decimal.{print_int}
use multi_test.Wifi.{Wifi, Exec}
use multi_test.Wifi.TestRun.{Run, fault, blocked, done}
use multi_test.Wifi.Network.{expect_built, expect, net_id_size}

abbrev pub disabled_unknown_reason : ℕ
disabled_unknown_reason = 0

abbrev pub disabled_dhcp_failure : ℕ
disabled_dhcp_failure = 2

abbrev pub disabled_auth_failure : ℕ
disabled_auth_failure = 3

abbrev pub disabled_association_reject : ℕ
disabled_association_reject = 4

abbrev pub connected : ℕ
connected = 5

abbrev pub connecting : ℕ
connecting = 6

-- What the timed wait on `sCondDhcp` comes to: the signal, with the connect status at that time, or
-- its time limit.
pub data Wait : Type 0 where
  signalled : ℕ → Wait
  timed_out : Wait

-- `while (retryNum--)`: the value of `retryNum` behind the loop. `ok k` is whether the request made
-- when `retryNum` is k succeeds.
unfoldable pub dhcp_tries : (ℕ → Bool) → ℕ → ℤ
dhcp_tries ok zero = negsuc 0
dhcp_tries ok (suc n) = let rest = dhcp_tries ok n in if ok n then pos n else rest

-- The test behind it.
abbrev pub dhcp_verdict : ℤ → ℤ
dhcp_verdict (pos zero) = pos disabled_dhcp_failure
dhcp_verdict (pos (suc n)) = pos connected
dhcp_verdict (negsuc n) = pos connected

-- What a call leaves of the mutex `sMutxDhcp`, and its value.
pub record Connected : Type 0 where
  pub value : ℤ
  pub mutex_held : Bool

abbrev settle : ℤ → Bool → Connected
settle v held = record { value = v; mutex_held = held }

-- From the wait on: two of its branches return with the mutex locked.
unfoldable pub after_wait : {S : Type 0} → (ℕ → Bool) → Wait → Wifi S → Run S Connected
unfolding dhcp_tries
after_wait dhcp timed_out w = done w (settle (pos disabled_unknown_reason) true)
after_wait dhcp (signalled status) w =
    let w' = record w { connect_status = status } in
    if status == connected
    then done w' (settle (dhcp_verdict (dhcp_tries dhcp 3)) false)
    else done w' (settle (pos status) true)

module _ {S : Type 0} (exec : Exec S) where
  abbrev pub or_fail : Run S ℤ → (Wifi S → Run S Connected) → Run S Connected
  or_fail fault k = fault
  or_fail (blocked w) k = blocked w
  or_fail (done w (pos n)) k = k w
  or_fail (done w (negsuc n)) k = done w (settle (negsuc n) false)

  -- Behind the number's text `id`.
  abbrev pub select : (Wifi S → Run S Connected) → Bytes → Wifi S → Run S Connected
  select wait_for id w =
      or_fail
        (expect_built exec (codes "SELECT_NETWORK " ++ id) 0
          (record w { connect_status = connecting })
          λ w1. expect exec (codes "RECONNECT") 1 w1 λ w2. done w2 (pos 0))
        wait_for

  -- `goes_on` is whether AT_ASSERT, which the source does not define, goes on for a false condition,
  -- as it is for network 0.
  unfoldable pub wifi_connect_network : Bool → (ℕ → Bool) → Wait → ℤ → Wifi S → Run S Connected
  unfolding after_wait print_int
  wifi_connect_network goes_on dhcp wait id w =
      if is_zero id && not goes_on
      then fault
      else if ltb (length (print_int id)) net_id_size
      then select (after_wait dhcp wait) (print_int id) w
      else fault

-- Once connected, the value is CONNECTED if the first or second request for an address succeeds or
-- if all three fail, and DISABLED_DHCP_FAILURE if the third is the first to succeed.
after_wait-dhcp :
    {S : Type 0} (dhcp : ℕ → Bool) (w : Wifi S)
    → let value = pos connected in
      let late = pos disabled_dhcp_failure in
      let w' = record w { connect_status = connected } in
      let r = after_wait dhcp (signalled connected) w in
      (dhcp 2 ≡ true → r ≡ done w' (settle value false))
      × (dhcp 2 ≡ false → dhcp 1 ≡ true → r ≡ done w' (settle value false))
      × (dhcp 2 ≡ false → dhcp 1 ≡ false → dhcp 0 ≡ true → r ≡ done w' (settle late false))
      × (dhcp 2 ≡ false → dhcp 1 ≡ false → dhcp 0 ≡ false → r ≡ done w' (settle value false))
unfolding after_wait
after_wait-dhcp dhcp w =
    (λ a. ground arith, λ a b. ground arith, λ a b c. ground arith, λ a b c. ground arith)

-- The mutex is still held behind a wait that timed out or that found any status but CONNECTED.
after_wait-mutex :
    {S : Type 0} (dhcp : ℕ → Bool) (wait : Wait) (w v : Wifi S) (c : Connected)
    → after_wait dhcp wait w ≡ done v c
    → (c.mutex_held ≡ true) ↔ (wait ≢ signalled connected)
unfolding after_wait
after_wait-mutex dhcp timed_out w v c h = (λ e. λ f. ground arith, λ e. ground arith)
after_wait-mutex dhcp (signalled s) w v c h = (λ e. λ f. ground arith, λ e. ground arith)

-- What the event loop does besides changing the connect status.
pub data Signal : Type 0 where
  scan_done dhcp_done run_dhcp : Signal

abbrev pub mentions : Option Bytes → Bytes → Bool
mentions none word = false
mentions (some evt) word = contains word (c_str evt)

abbrev pub EventState : Type 0
EventState = ℕ × List Signal

abbrev on_connected : Option Bytes → EventState → EventState
on_connected evt (status, out) =
    if mentions evt (codes "CTRL-EVENT-CONNECTED")
    then (
      connected,
      out ++ (if status == connecting then dhcp_done ∷ [] else run_dhcp ∷ dhcp_done ∷ []),
    )
    else (status, out)

abbrev on_refused : Option Bytes → Bytes → ℕ → EventState → EventState
on_refused evt word reason (status, out) =
    if mentions evt word then (reason, out ++ dhcp_done ∷ []) else (status, out)

-- One round of `wifiEventLoop`; none is a wait that returned no event. The flag is whether the loop
-- goes on.
unfoldable pub event_step : Option Bytes → ℕ → EventState × Bool
event_step evt status =
    let out = if mentions evt (codes "SCAN-RESULTS") then scan_done ∷ [] else [] in
    let s1 = on_connected evt (status, out) in
    let s2 = on_refused evt (codes "pre-shared key may be incorrect") disabled_auth_failure s1 in
    let s3 = on_refused evt (codes "ASSOC-REJECT") disabled_association_reject s2 in
    (s3, not (mentions evt (codes "TERMINATING")))

-- The loop over the events that come; it ends at the first that says TERMINATING.
unfoldable pub wifi_event_loop : List (Option Bytes) → ℕ → EventState
unfolding event_step
wifi_event_loop [] status = (status, [])
wifi_event_loop (evt ∷ evts) status =
    let ((status', out), on) = event_step evt status in
    let (status'', more) = wifi_event_loop evts status' in
    if on then (status'', out ++ more) else (status', out)
