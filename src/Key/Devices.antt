-- ===== src/Key/Devices.antt =====
-- The table of polled input devices: `ev_init`, `ev_exit` and `ev_get` (key_app.cpp). The entries of
-- /dev/input, what opening each gives, and what each poll and read gives are arguments.
use multi_test.Prelude.{
  ℕ, zero, suc, ◌<◌, Bool, true, false, not, List, [], ◌∷◌, ◌++◌, Option, none, some, ◌≡◌, refl,
  arith, length, take, take-length_le, take-append_length, Option-cases, sym, ◌≢◌, get_or, ltb,
  ◌==◌, if◌then◌else◌, length-append, inl, inr, ◌∙◌, ap,
}
use mathlib.Core.List.{reverse, reverse-cons, append_assoc, append-nil}
use multi_test.Prelude.Text.{Bytes, codes, starts_with}
use multi_test.Key.{InputEvent}

abbrev pub max_devices : ℕ
max_devices = 16

-- A directory entry, with the descriptor that `openat` gives for it (none if that fails).
pub record Dirent : Type 0 where
  pub d_name : Bytes
  pub fd : Option ℕ

-- `ev_fds` up to `ev_count`; a store behind its 16 entries is a fault (none).
abbrev pub Devices : Type 0
Devices = List ℕ

abbrev store : Devices → ℕ → Option Devices
store fds fd = if ltb (length fds) max_devices then some (fds ++ fd ∷ []) else none

-- The readdir loop.
ev_scan : List Dirent → Devices → Option Devices
ev_scan [] fds = some fds
ev_scan (de ∷ rest) fds =
    if not (starts_with (codes "event") de.d_name) then ev_scan rest fds else elim de.fd [
      | none ↦ ev_scan rest fds
      | some fd ↦ elim (store fds fd) [
        | none ↦ none
        | some fds' ↦ if length fds' == max_devices then some fds' else ev_scan rest fds'
      ]
    ]

-- `none` for the directory means that `opendir` failed.
unfoldable pub ev_init : Option (List Dirent) → Devices → Option Devices
unfolding ev_scan
ev_init none fds = some fds
ev_init (some dir) fds = ev_scan dir fds

-- The descriptors of the entries that are event devices and open, in directory order.
abbrev pub opened : List Dirent → List ℕ
opened [] = []
opened (de ∷ rest) = elim de.fd [
  | none ↦ opened rest
  | some fd ↦ if starts_with (codes "event") de.d_name then fd ∷ opened rest else opened rest
]

-- The descriptors in the order in which `ev_exit` closes them; `ev_count` goes down to 0.
ev_exit_loop : ℕ → Devices → List ℕ
ev_exit_loop zero fds = []
ev_exit_loop (suc n) fds = get_or fds n 0 ∷ ev_exit_loop n fds

unfoldable pub ev_exit : Devices → Devices × List ℕ
unfolding ev_exit_loop
ev_exit fds = ([], ev_exit_loop (length fds) fds)

-- One entry behind a poll: whether POLLIN is set, and the event if a read gives a whole one.
abbrev pub Ready : Type 0
Ready = Bool × Option InputEvent

-- The `for` loop over the polled entries.
first_event : List Ready → Option InputEvent
first_event [] = none
first_event ((false, e) ∷ rest) = first_event rest
first_event ((true, none) ∷ rest) = first_event rest
first_event ((true, some ev) ∷ rest) = some ev

-- What a call of `ev_get` comes to: an event (0), a timeout (-1), or still waiting when the polls
-- that are given have all been used.
pub data Got : Type 0 where
  event : InputEvent → Got
  timed_out : Got
  waiting : Got

-- Each poll gives none if nothing is ready (r <= 0); `wait_forever` is `wait_ms == -1`.
unfoldable pub ev_get : Bool → List (Option (List Ready)) → Got
unfolding first_event
ev_get wait_forever [] = waiting
ev_get wait_forever (none ∷ polls) =
    let again = ev_get wait_forever polls in if wait_forever then again else timed_out
ev_get wait_forever (some ready ∷ polls) =
    let again = ev_get wait_forever polls in
    elim (first_event ready) [
      | some ev ↦ event ev
      | none ↦ if wait_forever then again else timed_out
    ]

ev_scan-take :
    (dir : List Dirent) (fds : Devices)
    → length fds < max_devices
    → ev_scan dir fds ≡ some (take max_devices (fds ++ opened dir))
unfolding ev_scan
ev_scan-take [] fds h = rw (append-nil, take-length_le max_devices fds (omega arith))
ev_scan-take (de ∷ rest) fds h = elim (Option-cases de.fd) [
  | inl e ↦ ground (arith, ev_scan-take rest fds h)
  | inr (fd, e) ↦ ground (
    arith,
    ev_scan-take rest fds h,
    ev_scan-take rest (fds ++ fd ∷ []),
    take-append_length max_devices (fds ++ fd ∷ []) (opened rest),
    append_assoc fds (fd ∷ []) (opened rest),
    length-append fds (fd ∷ []),
  )
]

-- `ev_init` on an empty table never stores behind it, and polls the first 16 of the event devices
-- that open, in directory order.
pub ev_init-take :
    (dir : List Dirent) → ev_init (some dir) [] ≡ some (take max_devices (opened dir))
unfolding ev_init
ev_init-take dir = ev_scan-take dir [] (omega arith)

-- On a full table the next event device that opens is stored behind the table.
ev_init-full :
    (name : Bytes) (fd : ℕ) (rest : List Dirent) (fds : Devices)
    → length fds ≡ max_devices
    → starts_with (codes "event") name ≡ true
    → ev_init (some (record { d_name = name; fd = some fd } ∷ rest)) fds ≡ none
unfolding ev_init ev_scan
ev_init-full name fd rest fds h e = rw e (ground arith)

-- The descriptors behind those that the list begins with.
ev_exit_loop-cons :
    (n : ℕ) (x : ℕ) (fds : Devices) → ev_exit_loop (suc n) (x ∷ fds) ≡ ev_exit_loop n fds ++ x ∷ []
unfolding ev_exit_loop
ev_exit_loop-cons zero x fds = refl
ev_exit_loop-cons (suc n) x fds = ap (◌∷◌ (get_or fds n 0)) (ev_exit_loop-cons n x fds)

ev_exit_loop-reverse : (fds : Devices) → ev_exit_loop (length fds) fds ≡ reverse fds
unfolding ev_exit_loop
ev_exit_loop-reverse [] = refl
ev_exit_loop-reverse (x ∷ fds) =
    ev_exit_loop-cons (length fds) x fds
    ∙ ap (λ l. l ++ x ∷ []) (ev_exit_loop-reverse fds)
    ∙ sym (reverse-cons x fds)

-- `ev_exit` closes each polled descriptor once, the last opened first, and empties the table.
pub ev_exit-reverse : (fds : Devices) → ev_exit fds ≡ ([], reverse fds)
unfolding ev_exit
ev_exit-reverse fds = ap (λ l. ([], l)) (ev_exit_loop-reverse fds)

ev_get-forever : (polls : List (Option (List Ready))) → ev_get true polls ≢ timed_out
unfolding ev_get
ev_get-forever [] = λ e. cc
ev_get-forever (none ∷ polls) = ev_get-forever polls
ev_get-forever (some ready ∷ polls) = λ e. ground (arith, ev_get-forever polls)

ev_get-once :
    (r : Option (List Ready)) (polls : List (Option (List Ready)))
    → ev_get false (r ∷ polls) ≡ ev_get false (r ∷ [])
unfolding ev_get
ev_get-once none polls = refl
ev_get-once (some ready) polls = ground arith

-- `ev_get` never reports a timeout when it is to wait for ever, and with a time limit it decides
-- after one poll.
pub ev_get-bounded :
    (r : Option (List Ready)) (polls : List (Option (List Ready)))
    → (ev_get true (r ∷ polls) ≢ timed_out) × (ev_get false (r ∷ polls) ≡ ev_get false (r ∷ []))
ev_get-bounded r polls = (ev_get-forever (r ∷ polls), ev_get-once r polls)
