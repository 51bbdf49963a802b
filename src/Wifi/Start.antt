-- ===== src/Wifi/Start.antt =====
-- The test from outside (ls_wifi_test.c): `get_wifi_test_result`, and `wifi_test` with `eng_wifi_start`,
-- the thread that it starts.
use multi_test.Prelude.{
  ℕ, Bool, false, ◌≡◌, arith, if◌then◌else◌, ltb, Bool-cases, inl, inr, ap, sym, ◌&&◌, ◌↔◌, ◌∙◌,
}
use multi_test.Prelude.Int.{ℤ, pos, ltb_ℤ, pos_part}
use multi_test.Prelude.Text.{codes}
use multi_test.Wifi.{Wifi, Exec}
use multi_test.Wifi.Power.{Driver}
use multi_test.Wifi.TestRun.{
  Run, blocked, done, ◌>>=◌, Verdict, zib_fail, number, judge, test_wifi_start,
}
use multi_test.Wifi.Scan.{wifi_result, entries}
use multi_test.Wifi.Network.{wifi_add_network}
use multi_test.Wifi.Connect.{Wait, wifi_connect_network}
use multi_test.Wifi.Verdict.{eng_wifi_scan_start-fresh, judge-pass, IsStrong}

-- Blocked is the loop on the flag, for a state that nobody changes.
unfoldable pub get_wifi_test_result : {S : Type 0} → Wifi S → Run S ℤ
get_wifi_test_result w =
    if w.test_over then done w (pos (if w.test_result then 1 else 0)) else blocked w

-- `ret >= 1`; ZIB_FAIL, which the source does not define, is an argument.
abbrev pub passes : ℤ → Verdict → Bool
passes zib_fail_value zib_fail = ltb_ℤ (pos 0) zib_fail_value
passes zib_fail_value (number n) = ltb 0 n

judge-result :
    {S : Type 0} (w : Wifi S)
    → w.test_result ≡ false
    → (n : ℕ) × ((judge w).1 ≡ number n)
      × (get_wifi_test_result (judge w).0 ≡ done (judge w).0 (pos n))
unfolding judge get_wifi_test_result
judge-result w h = elim (Bool-cases (w.status.scan_end && ltb 0 (pos_part w.ap_num))) [
  | inl e ↦ (if (wifi_result w).test_result then 1 else 0, ground arith, ground arith)
  | inr e ↦ (0, ground arith, ground arith)
]

number-eq : (m n : ℕ) → number m ≡ number n → m ≡ n
number-eq m n h = ground arith

module _ {S : Type 0} (exec : Exec S) where
  abbrev pub connect : Bool → (ℕ → Bool) → Wait → Wifi S → Run S (Unit {0})
  connect goes_on dhcp wait w =
      wifi_add_network exec (codes "chendong") (codes "dongchen") w >>= λ w1 id.
      (wifi_connect_network exec goes_on dhcp wait id w1 >>= λ w2 c. done w2 tt)

  unfoldable pub eng_wifi_start : Driver → Bool → ℤ → (ℕ → Bool) → Wait → Wifi S → Run S (Unit {0})
  unfolding test_wifi_start
  eng_wifi_start d goes_on zib_fail_value dhcp wait w = test_wifi_start exec d w >>= λ w' v.
      if passes zib_fail_value v then connect goes_on dhcp wait w' else done w' tt

  -- A test that is started with wifi closed and ends with a number: that is 1 exactly if the last entry
  -- of the factory network among those of the last scan has a level above -80, and
  -- get_wifi_test_result then gives the same number.
  pub test_wifi_start-result :
      (d : Driver) (w v : Wifi S) (n : ℕ)
      → w.status.opened ≡ false
      → test_wifi_start exec d w ≡ done v (number n)
      → ((n ≡ 1) ↔ IsStrong (entries v)) × (get_wifi_test_result v ≡ done v (pos n))
  unfolding test_wifi_start
  test_wifi_start-result d w v n h e = elim (eng_wifi_scan_start-fresh exec d w h) [
    | inl f ↦ absurd (ground arith)
    | inr (inl (w1, f)) ↦ absurd (ground arith)
    | inr (inr (w1, f, s, t, c)) ↦
        let w2 : Wifi S = record w1 { sem = 0 } in
        let j : judge w2 ≡ (v, number n) = ground arith in
        let (m, k, r) = judge-result w2 t in
        let same : m ≡ n = ground arith in
        let there : (judge w2).0 ≡ v = ap (λ p. p.0) j in
        let (to, from) = rw there at (judge-pass w2 t c) in
        (
          (
            (λ q. to (ap (λ p. p.1) j ∙ ap number q)),
            (λ q. number-eq n 1 (sym (ap (λ p. p.1) j) ∙ from q)),
          ),
          rw (sym there, sym same) r,
        )
  ]

-- `create` is `pthread_create` with the thread of `eng_wifi_start`; its value only chooses what is logged.
unfoldable pub wifi_test : {S : Type 0} → (S → S × ℤ) → S → S × ℤ
wifi_test create s = ((create s).0, pos 0)
