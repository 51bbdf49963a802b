-- ===== src/Wifi/Stalled.antt =====
-- What becomes of the event loop when `wifi_Connect_Network` has returned with the mutex
-- (ls_wifi_test.c).
use mathlib.Core.Path.{subst}
use mathlib.Core.List.{append_assoc}
use multi_test.Prelude.{
  sym, ◌∙◌, ℕ, Bool, true, false, ◌||◌, List, [], ◌∷◌, ◌++◌, Option, if◌then◌else◌, ◌≡◌, refl,
  arith, ◌⊎◌, inl, inr, ◌==◌,
}
use multi_test.Prelude.Int.{ℤ}
use multi_test.Prelude.Text.{Bytes, codes}
use multi_test.Wifi.Connect.{mentions, connecting}
use multi_test.Wifi.Handshake.{
  Action, signals_scan, runs_dhcp, sets, locks, signals, unlocks, ends, round, actions_of,
  Connector, left, Handshake, connect_turn, act, loop_turn, Move, connects, times_out, loops, move,
  moves,
}

-- An event that tells a status.
abbrev pub tells_status : Option Bytes → Bool
tells_status evt =
    mentions evt (codes "CTRL-EVENT-CONNECTED")
    || (mentions evt (codes "pre-shared key may be incorrect")
        || mentions evt (codes "ASSOC-REJECT"))

-- Events that do not end the loop.
abbrev pub GoOn : List (Option Bytes) → Type 0
GoOn [] = Unit
GoOn (evt ∷ evts) = (mentions evt (codes "TERMINATING") ≡ false) × GoOn evts

-- Steps of which none unlocks the mutex or ends the loop before one locks it.
abbrev safe : List Action → Bool
safe [] = true
safe (signals_scan ∷ as') = safe as'
safe (runs_dhcp ∷ as') = safe as'
safe (sets s ∷ as') = safe as'
safe (locks ∷ as') = true
safe (signals ∷ as') = safe as'
safe (unlocks ∷ as') = false
safe (ends ∷ as') = false

-- The same, and one does lock it.
abbrev blocks : List Action → Bool
blocks [] = false
blocks (signals_scan ∷ as') = blocks as'
blocks (runs_dhcp ∷ as') = blocks as'
blocks (sets s ∷ as') = blocks as'
blocks (locks ∷ as') = true
blocks (signals ∷ as') = blocks as'
blocks (unlocks ∷ as') = false
blocks (ends ∷ as') = false

round-safe :
    (scan conn idle psk reject : Bool) → safe (round scan conn idle psk reject false) ≡ true
round-safe scan conn idle psk reject = ground arith

round-blocks :
    (scan conn idle psk reject term : Bool)
    → (conn || (psk || reject)) ≡ true
    → blocks (round scan conn idle psk reject term) ≡ true
round-blocks scan conn idle psk reject term h = ground arith

actions_of-safe :
    (evt : Option Bytes) (status : ℕ)
    → mentions evt (codes "TERMINATING") ≡ false
    → safe (actions_of evt status) ≡ true
unfolding actions_of
actions_of-safe evt status h = rw h (
    round-safe (mentions evt (codes "SCAN-RESULTS")) (mentions evt (codes "CTRL-EVENT-CONNECTED"))
      (if status == connecting then false else true)
      (mentions evt (codes "pre-shared key may be incorrect"))
      (mentions evt (codes "ASSOC-REJECT")))

actions_of-blocks :
    (evt : Option Bytes) (status : ℕ)
    → tells_status evt ≡ true
    → blocks (actions_of evt status) ≡ true
unfolding actions_of
actions_of-blocks evt status h =
    round-blocks (mentions evt (codes "SCAN-RESULTS")) (mentions evt (codes "CTRL-EVENT-CONNECTED"))
      (if status == connecting then false else true)
      (mentions evt (codes "pre-shared key may be incorrect")) (mentions evt (codes "ASSOC-REJECT"))
      (mentions evt (codes "TERMINATING")) h

connect_turn-left :
    (dhcp : ℕ → Bool) (c : Connector) (t : Handshake) (value : ℤ)
    → c ≡ left value true
    → connect_turn dhcp c t ≡ t
unfolding connect_turn
connect_turn-left dhcp c t value h = rw h refl

act-locked : (rest : List Action) (t : Handshake) → t.held ≡ true → act locks rest t ≡ t
unfolding act
act-locked rest t h = ground arith

module _ (value : ℤ) (evt : Option Bytes) (rest : List (Option Bytes))
    (told : tells_status evt ≡ true) where
  -- The event and those behind it are still to come, or the loop stands before the lock in the round of
  -- the event.
  abbrev Remain : List Action → List (Option Bytes) → Type 0
  Remain todo evts =
      ((more : List (Option Bytes)) × (safe todo ≡ true) × (evts ≡ more ++ evt ∷ rest) × GoOn more)
      ⊎ ((blocks todo ≡ true) × (evts ≡ rest))

  abbrev Stalls : Handshake → Type 0
  Stalls t = (t.connector ≡ left value true) × (t.held ≡ true) × Remain t.todo t.evts

  loop_turn-Stalls :
      (todo : List Action) (evts : List (Option Bytes)) (t : Handshake)
      → t.todo ≡ todo
      → t.evts ≡ evts
      → t.connector ≡ left value true
      → t.held ≡ true
      → Remain todo evts
      → Stalls (loop_turn todo evts t)
  unfolding loop_turn act actions_of
  loop_turn-Stalls [] [] t a b c h (inl ([], s', e, g)) = absurd (ground arith)
  loop_turn-Stalls [] [] t a b c h (inl (m ∷ more, s', e, g)) = absurd (ground arith)
  loop_turn-Stalls [] [] t a b c h (inr (k, e)) = absurd (ground arith)
  loop_turn-Stalls [] (x ∷ xs) t a b c h (inl ([], s', e, g)) =
      let same : evt ≡ x = ground arith in
      let other : xs ≡ rest = ground arith in
      (
        c,
        h,
        inr (
          subst (λ y. blocks (actions_of y t.status) ≡ true) same
              (actions_of-blocks evt t.status told),
          other,
        ),
      )
  loop_turn-Stalls [] (x ∷ xs) t a b c h (inl (m ∷ more, s', e, g)) =
      let same : m ≡ x = ground arith in
      let other : xs ≡ more ++ evt ∷ rest = ground arith in
      (
        c,
        h,
        inl (
          more,
          subst (λ y. safe (actions_of y t.status) ≡ true) same (actions_of-safe m t.status g.0),
          other,
          g.1,
        ),
      )
  loop_turn-Stalls [] (x ∷ xs) t a b c h (inr (k, e)) = absurd (ground arith)
  loop_turn-Stalls (signals_scan ∷ as') evts t a b c h (inl (more, s', e, g)) =
      (c, h, inl (more, s', b ∙ e, g))
  loop_turn-Stalls (signals_scan ∷ as') evts t a b c h (inr (k, e)) = (c, h, inr (k, b ∙ e))
  loop_turn-Stalls (runs_dhcp ∷ as') evts t a b c h (inl (more, s', e, g)) =
      (c, h, inl (more, s', b ∙ e, g))
  loop_turn-Stalls (runs_dhcp ∷ as') evts t a b c h (inr (k, e)) = (c, h, inr (k, b ∙ e))
  loop_turn-Stalls (sets n ∷ as') evts t a b c h (inl (more, s', e, g)) =
      (c, h, inl (more, s', b ∙ e, g))
  loop_turn-Stalls (sets n ∷ as') evts t a b c h (inr (k, e)) = (c, h, inr (k, b ∙ e))
  loop_turn-Stalls (locks ∷ as') evts t a b c h r =
      subst Stalls (sym (act-locked as' t h))
        (c, h, subst (λ x. Remain x t.evts) (sym a) (subst (λ x. Remain (locks ∷ as') x) (sym b) r))
  loop_turn-Stalls (signals ∷ as') evts t a b c h (inl (more, s', e, g)) =
      (rw c refl, h, inl (more, s', b ∙ e, g))
  loop_turn-Stalls (signals ∷ as') evts t a b c h (inr (k, e)) = (rw c refl, h, inr (k, b ∙ e))
  loop_turn-Stalls (unlocks ∷ as') evts t a b c h (inl (more, s', e, g)) = absurd (ground arith)
  loop_turn-Stalls (unlocks ∷ as') evts t a b c h (inr (k, e)) = absurd (ground arith)
  loop_turn-Stalls (ends ∷ as') evts t a b c h (inl (more, s', e, g)) = absurd (ground arith)
  loop_turn-Stalls (ends ∷ as') evts t a b c h (inr (k, e)) = absurd (ground arith)

  move-Stalls : (dhcp : ℕ → Bool) (m : Move) (t : Handshake) → Stalls t → Stalls (move dhcp m t)
  unfolding move
  move-Stalls dhcp connects t (c, h, r) =
      subst Stalls (sym (connect_turn-left dhcp t.connector t value c)) (c, h, r)
  move-Stalls dhcp times_out t (c, h, r) = (rw c refl, h, r)
  move-Stalls dhcp loops t (c, h, r) = loop_turn-Stalls t.todo t.evts t refl refl c h r

  moves-Stalls :
      (dhcp : ℕ → Bool) (ms : List Move) (t : Handshake) → Stalls t → Stalls (moves dhcp ms t)
  unfolding moves
  moves-Stalls dhcp [] t s = s
  moves-Stalls dhcp (m ∷ ms) t s = moves-Stalls dhcp ms (move dhcp m t) (move-Stalls dhcp m t s)

  -- If `wifi_Connect_Network` has returned with the mutex and the event loop is between two rounds, then the
  -- first event to tell a status, with none before it that ends the loop, is the last that the loop ever
  -- takes: in no order of steps does it read one behind it, and the mutex stays locked.
  pub moves-stalled :
      (dhcp : ℕ → Bool) (ms : List Move) (t : Handshake) (quiet : List (Option Bytes))
      → t.connector ≡ left value true
      → t.held ≡ true
      → t.todo ≡ []
      → t.evts ≡ quiet ++ evt ∷ rest
      → GoOn quiet
      → let t' = moves dhcp ms t in
        (t'.held ≡ true) × ((more : List (Option Bytes)) × (t'.evts ≡ more ++ rest))
  moves-stalled dhcp ms t quiet c h a e g =
      let before : Remain t.todo t.evts = inl (quiet, rw a refl, e, g) in
      let (c', h', r) = moves-Stalls dhcp ms t (c, h, before) in
      let t' = moves dhcp ms t in (h', left_over t'.todo t'.evts r)
    where
      left_over :
          (todo : List Action) (evts : List (Option Bytes))
          → Remain todo evts
          → (more : List (Option Bytes)) × (evts ≡ more ++ rest)
      left_over todo evts (inl (more, s', e', g')) =
          (more ++ evt ∷ [], e' ∙ sym (append_assoc more (evt ∷ []) rest))
      left_over todo evts (inr (k, e')) = ([], e')
