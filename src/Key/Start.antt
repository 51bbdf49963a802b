-- ===== src/Key/Start.antt =====
-- Starting the key listener: `key_test` (key_app.cpp) and `tel_test` (tel_test/zb_dailtest_demo.cpp),
-- which has the same steps and starts the call listener too. What `pthread_create` returns is an
-- argument; joining the listener's thread never ends.
use multi_test.Prelude.{
  ℕ, Bool, true, false, List, [], ◌∷◌, Option, none, some, ◌≡◌, refl, arith, length, take, ◌==◌,
  if◌then◌else◌, ◌≤◌, ◌<◌, length-take, ◌⊎◌, inl, inr,
}
use mathlib.Core.List.{reverse}
use multi_test.Prelude.Int.{ℤ, negsuc}
use multi_test.Key.{all_release, KeyPressInfo}
use multi_test.Key.Devices.{
  Devices, Dirent, max_devices, opened, ev_init, ev_exit, ev_init-take, ev_exit-reverse,
}

pub data ThreadBody : Type 0 where
  key_listener call_listener : ThreadBody

-- How a call ends: with a return value, or in `pthread_join` on the listener.
pub data Ending : Type 0 where
  returned : ℤ → Ending
  joined : Ending

pub record Started : Type 0 where
  pub fds : Devices
  pub closed : List ℕ
  pub last_key : KeyPressInfo
  pub threads : List ThreadBody
  pub ending : Ending

-- `-1` with nothing started.
abbrev failed : Devices → List ℕ → KeyPressInfo → Started
failed fds closed k = record {
  fds = fds;
  closed = closed;
  last_key = k;
  threads = [];
  ending = returned (negsuc 0);
}

-- The steps behind `ev_init`; `created` is whether `pthread_create` of the listener returns 0.
listen : Bool → List ThreadBody → KeyPressInfo → Devices → Started
listen created also k fds =
    if length fds == 0
    then failed fds [] k
    else if created
    then record {
      fds = fds;
      closed = [];
      last_key = record k { state = all_release };
      threads = key_listener ∷ also;
      ending = joined;
    }
    else let (fds', closed) = ev_exit fds in failed fds' closed k

-- `none`: a store behind the table of devices.
unfoldable pub key_test : Option (List Dirent) → Bool → KeyPressInfo → Devices → Option Started
unfolding listen
key_test dir created k fds = elim (ev_init dir fds) [
  | none ↦ none
  | some fds' ↦ some (listen created [] k fds')
]

-- The result of the second `pthread_create` is not tested.
unfoldable pub tel_test :
    Option (List Dirent) → Bool → Bool → KeyPressInfo → Devices → Option Started
unfolding listen
tel_test dir created dial_created k fds = elim (ev_init dir fds) [
  | none ↦ none
  | some fds' ↦ some (listen created (if dial_created then call_listener ∷ [] else []) k fds')
]

-- What is left when a start fails: no thread, no descriptor polled and all opened ones closed.
abbrev IsCleanFailure : Devices → Started → Type 0
IsCleanFailure fds s =
    (s.threads ≡ []) × (s.fds ≡ []) × (s.closed ≡ reverse fds) × (s.ending ≡ returned (negsuc 0))

-- A start that joins: the listener's thread and those of `also` have been created, and the listener is
-- idle over at least one and at most 16 devices.
abbrev IsListening : List ThreadBody → Devices → Started → Type 0
IsListening also fds s =
    (s.threads ≡ key_listener ∷ also)
    × (s.ending ≡ joined)
    × (s.fds ≡ fds)
    × (s.closed ≡ [])
    × (0 < length s.fds)
    × (length s.fds ≤ max_devices)
    × (s.last_key.state ≡ all_release)

-- Without a device, or where the listener's `pthread_create` fails, a clean failure, else a start.
abbrev pub IsStart : Bool → List ThreadBody → Devices → Started → Type 0
IsStart created also fds s =
    (((fds ≡ []) ⊎ (created ≡ false)) × IsCleanFailure fds s)
    ⊎ ((created ≡ true) × IsListening also fds s)

listen-IsStart :
    (fds : Devices) (created : Bool) (also : List ThreadBody) (k : KeyPressInfo)
    → length fds ≤ max_devices
    → IsStart created also fds (listen created also k fds)
unfolding listen
listen-IsStart [] created also k h = inl (inl refl, (refl, refl, refl, refl))
listen-IsStart (x ∷ fds) true also k h = inr (
  refl,
  (
    ground arith,
    ground arith,
    ground arith,
    ground arith,
    ground arith,
    ground arith,
    ground arith,
  ),
)
listen-IsStart (x ∷ fds) false also k h =
    let e = ev_exit-reverse (x ∷ fds) in
    inl (inr refl, (ground arith, ground (arith, e), ground (arith, e), ground arith))

-- The devices polled: the first 16 of the event devices that open; none if the directory does not open.
abbrev pub polled : Option (List Dirent) → Devices
polled none = []
polled (some dir) = take max_devices (opened dir)

length-polled : (dir : Option (List Dirent)) → length (polled dir) ≤ max_devices
length-polled none = omega arith
length-polled (some dir) = omega (arith, length-take max_devices (opened dir))

ev_init-polled : (dir : Option (List Dirent)) → ev_init dir [] ≡ some (polled dir)
unfolding ev_init
ev_init-polled none = refl
ev_init-polled (some dir) = ev_init-take dir

-- The second thread of tel_test, if it is created.
abbrev pub call_threads : Bool → List ThreadBody
call_threads dial_created = if dial_created then call_listener ∷ [] else []

-- From an empty table, for any directory, also one that does not open: key_test and tel_test fail, with no
-- thread created and every opened descriptor closed, exactly if no device opens or the listener's
-- pthread_create fails. Else they have created the listener, tel_test the call listener too if that
-- can be created, and join with 1 to 16 devices from the idle state.
pub key_test-clean :
    (dir : Option (List Dirent)) (created dial_created : Bool) (k : KeyPressInfo)
    → ((s : Started) × (key_test dir created k [] ≡ some s) × IsStart created [] (polled dir) s)
      × ((s : Started) × (tel_test dir created dial_created k [] ≡ some s)
          × IsStart created (call_threads dial_created) (polled dir) s)
unfolding key_test tel_test
key_test-clean dir created dial_created k =
    let also = call_threads dial_created in
    (
      (
        listen created [] k (polled dir),
        rw (ev_init-polled dir, key_test),
        listen-IsStart (polled dir) created [] k (length-polled dir),
      ),
      (
        listen created also k (polled dir),
        rw (ev_init-polled dir, tel_test),
        listen-IsStart (polled dir) created also k (length-polled dir),
      ),
    )
