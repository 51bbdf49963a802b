-- ===== src/Bluetooth/Search.antt =====
-- The search for a device: `bluethood_test` (bt_test/zib_bluetooth_test.c). The callbacks that the HAL
-- makes in the sleep and before each poll of the two flags are lists.
use multi_test.Prelude.{
  ℕ, zero, suc, ◌+◌, ◌<◌, Bool, true, false, ◌||◌, List, [], ◌∷◌, Option, none, some, ◌≡◌, refl,
  sym, arith, if◌then◌else◌, inl, inr, Bool-cases, ◌==◌,
}
use mathlib.Core.Path.{subst}
use multi_test.Bluetooth.Adapter.{
  Adapter, BtHal, Discovery, untold, stopped, started, Property, device_found_cb,
  discovery_state_changed_cb, adapter_state_changed, bdt_init, bdt_enable, do_start_discovery,
}
use multi_test.Bluetooth.Commands.{Bt}
use multi_test.Bluetooth.Start.{Loading, hal_load, gatt_init}
use multi_test.Prelude.Int.{ℤ, pos, ltb_ℤ}

pub data Callback : Type 0 where
  found : List Property → Callback
  discovery_state : Discovery → Callback
  adapter_state : Bool → Callback

-- How the test ends: with a call through a NULL interface, with `exit`, or at a poll; or its polls do not
-- suffice.
pub data SearchEnd (S : Type 0) : Type 0 where
  fault polling : SearchEnd S
  exits : ℤ → SearchEnd S
  returns : ℕ → Bt S → SearchEnd S

abbrev pub is_stopped : Discovery → Bool
is_stopped untold = false
is_stopped stopped = true
is_stopped started = false

module _ {S : Type 0} (hal : BtHal S) where
  unfoldable pub deliver : List Callback → Adapter S → Adapter S
  deliver [] w = w
  deliver (found ps ∷ cs) w = deliver cs (device_found_cb ps w)
  deliver (discovery_state s ∷ cs) w = deliver cs (discovery_state_changed_cb s w)
  deliver (adapter_state b ∷ cs) w = deliver cs (adapter_state_changed hal b w)

  abbrev pub ends_search : Adapter S → Bool
  ends_search w = w.device_find_status || is_stopped w.discovery

  -- The polls from `k` on, by the polls allowed: the last one and the state there, none if they do
  -- not suffice. `events k` is what is called back before poll `k`.
  unfoldable pub search_loop : ℕ → ℕ → (ℕ → List Callback) → Adapter S → Option (ℕ × Adapter S)
  unfolding deliver
  search_loop zero k events w = none
  search_loop (suc n) k events w =
      let w' = deliver (events k) w in
      let rest = search_loop n (k + 1) events w' in
      if w'.device_find_status
      then some (k, w')
      else if is_stopped w'.discovery
      then some (k, w')
      else rest

  -- The state behind `do_start_discovery`; `asleep` is what is called back in the sleep of two seconds.
  unfoldable pub searching : List Callback → Adapter S → Adapter S
  unfolding deliver
  searching asleep w = do_start_discovery hal (deliver asleep (bdt_enable hal (bdt_init hal w)))

  -- The answers of the loading functions, the polls allowed, what is called back in the sleep and before
  -- each poll.
  unfoldable pub bluethood_test :
      Loading → ℕ → List Callback → (ℕ → List Callback) → Bt S → SearchEnd S
  unfolding search_loop searching hal_load gatt_init
  bluethood_test l polls asleep events w =
      let (err, loaded) = hal_load l in
      let search : SearchEnd S = elim (search_loop polls 0 events (searching asleep w.adapter)) [
        | none ↦ polling
        | some (k, a) ↦ returns k (record w { adapter = a; gatt = gatt_init l w.gatt })
      ] in
      if ltb_ℤ err (pos 0) then exits (pos 0) else if loaded then search else fault

  -- The state at each poll if none ends the search.
  unfoldable pub at_poll : (ℕ → List Callback) → Adapter S → ℕ → Adapter S
  at_poll events w zero = deliver (events 0) w
  at_poll events w (suc k) = deliver (events (suc k)) (at_poll events w k)

  -- The first poll that ends the search.
  abbrev pub IsFirst : (ℕ → List Callback) → Adapter S → ℕ → Type 0
  IsFirst events w j =
      (ends_search (at_poll events w j) ≡ true)
      × ((i : ℕ) → i < j → ends_search (at_poll events w i) ≡ false)

  search_loop-stops :
      (n k : ℕ) (events : ℕ → List Callback) (w : Adapter S)
      → ends_search (at_poll events w (k + 1)) ≡ true
      → search_loop (suc n) (k + 1) events (at_poll events w k)
        ≡ some (k + 1, at_poll events w (k + 1))
  unfolding search_loop at_poll
  search_loop-stops n k events w h = ground arith

  search_loop-next :
      (n k j : ℕ) (events : ℕ → List Callback) (w : Adapter S)
      → IsFirst events w j
      → k < j
      → j < k + 1 + n
      → search_loop n (k + 1) events (at_poll events w k) ≡ some (j, at_poll events w j)
  unfolding search_loop at_poll
  search_loop-next zero k j events w h l m = absurd (omega arith)
  search_loop-next (suc n) k j events w h l m = elim (Bool-cases (k + 1 == j)) [
    | inl e ↦
        let same : j ≡ k + 1 = ground arith in
        subst
          (λ i.
            search_loop (suc n) (k + 1) events (at_poll events w k) ≡ some (i, at_poll events w i))
          (sym same)
          (search_loop-stops n k events w
            (subst (λ i. ends_search (at_poll events w i) ≡ true) same h.0))
    | inr e ↦ ground (
      arith,
      h.1 (k + 1) (ground arith),
      search_loop-next n (k + 1) j events w h (ground arith) (omega arith),
    )
  ]

  search_loop-IsFirst :
      (polls j : ℕ) (events : ℕ → List Callback) (w : Adapter S)
      → IsFirst events w j
      → j < polls
      → search_loop polls 0 events w ≡ some (j, at_poll events w j)
  unfolding search_loop at_poll
  search_loop-IsFirst zero j events w h l = absurd (omega arith)
  search_loop-IsFirst (suc n) zero events w h l = ground arith
  search_loop-IsFirst (suc n) (suc j) events w h l = ground (
    arith,
    h.1 0 (omega arith),
    search_loop-next n 0 (suc j) events w h (omega arith) (omega arith),
  )

  -- With the HAL loaded, the test ends at the first poll that sees a found device or a stopped discovery,
  -- in the state of that poll, whenever at least as many polls are allowed. That state is behind all
  -- callbacks, those of the sleep between enabling and the start of the discovery too.
  pub bluethood_test-IsFirst :
      (l : Loading) (polls j : ℕ) (asleep : List Callback) (events : ℕ → List Callback) (w : Bt S)
      → hal_load l ≡ (pos 0, true)
      → IsFirst events (searching asleep w.adapter) j
      → j < polls
      → bluethood_test l polls asleep events w
        ≡ returns j (record w {
          adapter = at_poll events (searching asleep w.adapter) j;
          gatt = gatt_init l w.gatt;
        })
  unfolding bluethood_test
  bluethood_test-IsFirst l polls j asleep events w loaded h less =
      rw (loaded, search_loop-IsFirst polls j events (searching asleep w.adapter) h less) refl
