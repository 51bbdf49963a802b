-- ===== src/Bluetooth/Demands.antt =====
-- The requests of a session of the adapter (bt_test/zib_bluetooth.c): commands and callbacks in any
-- order.
use multi_test.Prelude.{
  Bool, true, false, List, [], ◌∷◌, ◌++◌, Option, none, some, ◌≡◌, refl, sym, ap, ◌∙◌, ◌⊎◌, arith,
  if◌then◌else◌, Bool-cases, Option-cases, inl, inr,
}
use mathlib.Core.List.{append_assoc, append-nil}
use multi_test.Prelude.Int.{ℤ}
use multi_test.Prelude.Text.{Bytes}
use multi_test.Prelude.Fault.{◌>>=◌}
use multi_test.Bluetooth.Address.{str2bd}
use multi_test.Bluetooth.Adapter.{
  Adapter, BtHal, Property, Discovery, Request, enable, disable, set_scan_mode,
  set_discovery_timeout, create_bond, start_discovery, cancel_discovery, ssp_reply,
  adapter_state_changed, device_found_cb, discovery_state_changed_cb, ssp_request_cb, bdt_enable,
  ask, request, bdt_disable, do_pair, do_start_discovery, do_stop_discovery,
}

-- A command of the console, or a callback of the HAL: those of `bt_callbacks` that only log stand
-- without their arguments.
pub data Move : Type 0 where
  enables disables starts stops : Move
  pairs : Bytes → Move
  state_changed : Bool → Move
  found : List Property → Move
  discovery_changed : Discovery → Move
  asked : Bytes → ℤ → Move
  bond_state_changed dut_mode_received le_test_ended nonsig_test_received : Move

module _ {S : Type 0} (hal : BtHal S) where
  unfoldable pub adapter_move : Move → Adapter S → Option (Adapter S)
  adapter_move enables w = some (bdt_enable hal w)
  adapter_move disables w = some (bdt_disable hal w)
  adapter_move starts w = some (do_start_discovery hal w)
  adapter_move stops w = some (do_stop_discovery hal w)
  adapter_move (pairs addr) w = do_pair hal (some addr) w
  adapter_move (state_changed on) w = some (adapter_state_changed hal on w)
  adapter_move (found ps) w = some (device_found_cb ps w)
  adapter_move (discovery_changed d) w = some (discovery_state_changed_cb d w)
  adapter_move (asked addr key) w = some (ssp_request_cb hal addr key w)
  adapter_move bond_state_changed w = some w
  adapter_move dut_mode_received w = some w
  adapter_move le_test_ended w = some w
  adapter_move nonsig_test_received w = some w

  unfoldable pub adapter_moves : List Move → Adapter S → Option (Adapter S)
  unfolding adapter_move
  adapter_moves [] w = some w
  adapter_moves (m ∷ ms) w = adapter_move m w >>= adapter_moves ms

-- The specification knows whether the HAL told last that the adapter is on.
abbrev pub told : Move → Bool → Bool
told (state_changed b) on = b
told enables on = on
told disables on = on
told starts on = on
told stops on = on
told (pairs addr) on = on
told (found ps) on = on
told (discovery_changed d) on = on
told (asked addr key) on = on
told bond_state_changed on = on
told dut_mode_received on = on
told le_test_ended on = on
told nonsig_test_received on = on

-- What a move demands of the HAL; none is a pairing whose address is not read within its text.
abbrev pub demand : Move → Bool → Option (List Request)
demand enables on = some (if on then [] else enable ∷ [])
demand disables on = some (if on then disable ∷ [] else [])
demand starts on = some (start_discovery ∷ [])
demand stops on = some (cancel_discovery ∷ [])
demand (pairs addr) on = str2bd addr >>= λ b. some (create_bond b ∷ [])
demand (state_changed b) on = some (if b then set_discovery_timeout ∷ set_scan_mode ∷ [] else [])
demand (found ps) on = some []
demand (discovery_changed d) on = some []
demand (asked addr key) on = some (ssp_reply addr key ∷ [])
demand bond_state_changed on = some []
demand dut_mode_received on = some []
demand le_test_ended on = some []
demand nonsig_test_received on = some []

abbrev pub demands : List Move → Bool → Option (List Request)
demands [] on = some []
demands (m ∷ ms) on = demand m on >>= λ r. (demands ms (told m on) >>= λ rs. some (r ++ rs))

abbrev pub requests_of : {S : Type 0} → Option (Adapter S) → Option (List Request)
requests_of none = none
requests_of (some w) = some w.requests

-- The requests made in a state, and then those that are demanded.
abbrev pub made_before : List Request → Option (List Request) → Option (List Request)
made_before before none = none
made_before before (some rs) = some (before ++ rs)

made_before-demands :
    (before r : List Request) (more : Option (List Request))
    → made_before (before ++ r) more ≡ made_before before (more >>= λ rs. some (r ++ rs))
made_before-demands before r none = refl
made_before-demands before r (some rs) = ap some (append_assoc before r rs)

module _ {S : Type 0} (hal : BtHal S) where
  -- A move and its demand are both none, or there are both, and the demand is made.
  abbrev Met : Move → Adapter S → Type 0
  Met m w =
      ((adapter_move hal m w ≡ none) × (demand m w.bt_enabled ≡ none))
      ⊎ ((w' : Adapter S) × (r : List Request) × (adapter_move hal m w ≡ some w')
          × (demand m w.bt_enabled ≡ some r)
          × (w'.requests ≡ w.requests ++ r)
          × (w'.bt_enabled ≡ told m w.bt_enabled))

  adapter_move-pairs : (addr : Bytes) (w : Adapter S) → Met (pairs addr) w
  unfolding adapter_move do_pair ask
  adapter_move-pairs addr w = elim (Option-cases (str2bd addr)) [
    | inl e ↦ inl (ground arith, ground arith)
    | inr (b, e) ↦
        inr (ask hal (create_bond b) w, create_bond b ∷ [], ground arith, ground arith, refl, refl)
  ]

  adapter_move-Met : (m : Move) (w : Adapter S) → Met m w
  unfolding adapter_move request ask bdt_enable bdt_disable do_start_discovery do_stop_discovery
      adapter_state_changed device_found_cb discovery_state_changed_cb ssp_request_cb
  adapter_move-Met (pairs addr) w = adapter_move-pairs addr w
  adapter_move-Met enables w = elim (Bool-cases w.bt_enabled) [
    | inl e ↦ inr (w, [], ground arith, ground arith, sym (append-nil w.requests), refl)
    | inr e ↦ inr (request hal enable w, enable ∷ [], ground arith, ground arith, refl, refl)
  ]
  adapter_move-Met disables w = elim (Bool-cases w.bt_enabled) [
    | inl e ↦ inr (request hal disable w, disable ∷ [], ground arith, ground arith, refl, refl)
    | inr e ↦ inr (w, [], ground arith, ground arith, sym (append-nil w.requests), refl)
  ]
  adapter_move-Met (state_changed true) w = inr (
    adapter_state_changed hal true w,
    set_discovery_timeout ∷ set_scan_mode ∷ [],
    refl,
    refl,
    append_assoc w.requests (set_discovery_timeout ∷ []) (set_scan_mode ∷ []),
    refl,
  )
  adapter_move-Met (state_changed false) w =
      inr (record w { bt_enabled = false }, [], refl, refl, sym (append-nil w.requests), refl)
  adapter_move-Met starts w =
      inr (do_start_discovery hal w, start_discovery ∷ [], refl, refl, refl, refl)
  adapter_move-Met stops w =
      inr (do_stop_discovery hal w, cancel_discovery ∷ [], refl, refl, refl, refl)
  adapter_move-Met (asked addr key) w =
      inr (ssp_request_cb hal addr key w, ssp_reply addr key ∷ [], refl, refl, refl, refl)
  adapter_move-Met (found ps) w =
      inr (device_found_cb ps w, [], refl, refl, sym (append-nil w.requests), refl)
  adapter_move-Met (discovery_changed d) w =
      inr (discovery_state_changed_cb d w, [], refl, refl, sym (append-nil w.requests), refl)
  adapter_move-Met bond_state_changed w = inr (w, [], refl, refl, sym (append-nil w.requests), refl)
  adapter_move-Met dut_mode_received w = inr (w, [], refl, refl, sym (append-nil w.requests), refl)
  adapter_move-Met le_test_ended w = inr (w, [], refl, refl, sym (append-nil w.requests), refl)
  adapter_move-Met nonsig_test_received w =
      inr (w, [], refl, refl, sym (append-nil w.requests), refl)

  -- A sequence of commands and callbacks, whatever the HAL answers, goes through exactly if each address
  -- for a pairing is read within its text; then the requests are those that the moves demand of an
  -- adapter that is on exactly if the HAL told so last.
  pub adapter_moves-demands :
      (ms : List Move) (w : Adapter S)
      → requests_of (adapter_moves hal ms w) ≡ made_before w.requests (demands ms w.bt_enabled)
  unfolding adapter_moves
  adapter_moves-demands [] w = ap some (sym (append-nil w.requests))
  adapter_moves-demands (m ∷ ms) w = elim (adapter_move-Met m w) [
    | inl (f, g) ↦ rw (f, g) refl
    | inr (w', r, f, g, made, on) ↦
        rw (f, g)
          (adapter_moves-demands ms w'
            ∙ (λ i. made_before (made i) (demands ms (on i)))
            ∙ made_before-demands w.requests r (demands ms (told m w.bt_enabled)))
  ]
