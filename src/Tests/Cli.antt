-- ===== src/Tests/Cli.antt =====
-- The command line at concrete inputs.
use multi_test.Prelude.{ℕ, ◌+◌, [], ◌∷◌, ◌≡◌, none, refl}
use multi_test.Prelude.Int.{ℤ, pos}
use multi_test.Prelude.Text.{codes}
use multi_test.Wifi.Start.{wifi_test}
use multi_test.Sensor.Start.{zib_gsensor_test}
use multi_test.Cli.{Action, call_wifi, main, all_chosen, main-chosen}
use multi_test.Cli.Prompts.{prompts, main-prompts}

-- Every call gives 1.
abbrev succeed : Action → ℕ → ℕ × ℤ
succeed a n = (n + 1, pos 1)

main-chosen_example :
    main succeed (codes "multi_test" ∷ codes "-w" ∷ codes "-gps" ∷ []) (0, [])
    ≡ (all_chosen succeed (codes "-gps" ∷ []) (0, []), pos 0)
main-chosen_example =
    main-chosen succeed (codes "multi_test") (codes "-w") (codes "-gps" ∷ []) (0, [])

-- The number of threads that have been created.
abbrev create : ℕ → ℕ × ℤ
create n = (n + 1, pos 0)

-- The calls of the wifi test, and of an accelerometer test whose device does not open.
abbrev calls : Action → ℕ → ℕ × ℤ
calls call_wifi n = wifi_test create n
calls a n = (n, pos 1)

main-prompts_example :
    (main calls
      (codes "multi_test" ∷ codes "-w" ∷ codes "-g" ∷ codes "-w" ∷ codes "-k" ∷ [])
      (0, [])).0.1
    ≡ prompts (codes "-g" ∷ codes "-w" ∷ codes "-k" ∷ [])
unfolding zib_gsensor_test
main-prompts_example =
    main-prompts calls create (λ n. none) (λ n. pos 19) (codes "multi_test") (codes "-w")
      (codes "-g" ∷ codes "-w" ∷ codes "-k" ∷ []) 0 (λ n. refl) (λ n. refl)
