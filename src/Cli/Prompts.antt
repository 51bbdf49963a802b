-- ===== src/Cli/Prompts.antt =====
-- The prompts that `main` (main.cpp) plays when its two calls are `wifi_test` (ls_wifi_test.c) and
-- `zib_gsensor_test` (gsensor_test.c).
use multi_test.Prelude.{◌≡◌, arith, List, [], ◌∷◌, ◌++◌, Option, some, if◌then◌else◌, ap, ◌∙◌, sym}
use mathlib.Core.List.{append_assoc, append-nil}
use multi_test.Prelude.Int.{ℤ}
use multi_test.Prelude.Text.{Bytes, codes, str_eq}
use multi_test.Wifi.Start.{wifi_test}
use multi_test.Sensor.Start.{Read, zib_gsensor_test, zib_gsensor_test-one}
use multi_test.Cli.{
  Action, call_gsensor, call_wifi, play_gsensor_pass, play_gsensor_fail, play_wifi_pass,
  play_wifi_fail, announced, chosen, all_chosen, main, main-chosen,
}

-- The calls for an argument: the wifi test and its failure for -g, else the accelerometer test and its
-- success.
abbrev pub prompts_of : Bytes → List Action
prompts_of arg =
    if str_eq arg (codes "-g")
    then call_wifi ∷ play_wifi_fail ∷ []
    else call_gsensor ∷ play_gsensor_pass ∷ []

abbrev pub prompts : List Bytes → List Action
prompts [] = []
prompts (arg ∷ args) = prompts_of arg ++ prompts args

module _ {S : Type 0} (call : Action → S → S × ℤ) (create : S → S × ℤ) (device : S → Option Read)
    (errno : S → ℤ) (wifi : (s : S) → call call_wifi s ≡ wifi_test create s)
    (gsensor : (s : S) → zib_gsensor_test (device s) (errno s) ≡ some (call call_gsensor s).1) where
  announced-wifi :
      (w : S × List Action)
      → (announced call call_wifi play_wifi_pass play_wifi_fail w).1
        ≡ w.1 ++ call_wifi ∷ play_wifi_fail ∷ []
  unfolding announced wifi_test
  announced-wifi (s, log) =
      ground (arith, wifi s, append_assoc log (call_wifi ∷ []) (play_wifi_fail ∷ []))

  announced-gsensor :
      (w : S × List Action)
      → (announced call call_gsensor play_gsensor_pass play_gsensor_fail w).1
        ≡ w.1 ++ call_gsensor ∷ play_gsensor_pass ∷ []
  unfolding announced
  announced-gsensor (s, log) =
      let one = zib_gsensor_test-one (device s) (errno s) (call call_gsensor s).1 (gsensor s) in
      ground (arith, one, append_assoc log (call_gsensor ∷ []) (play_gsensor_pass ∷ []))

  chosen-prompts_of :
      (arg : Bytes) (w : S × List Action) → (chosen call arg w).1 ≡ w.1 ++ prompts_of arg
  unfolding chosen
  chosen-prompts_of arg w = ground (arith, announced-wifi w, announced-gsensor w)

  all_chosen-prompts :
      (args : List Bytes) (w : S × List Action) → (all_chosen call args w).1 ≡ w.1 ++ prompts args
  all_chosen-prompts [] w = sym (append-nil w.1)
  all_chosen-prompts (arg ∷ args) w =
      all_chosen-prompts args (chosen call arg w)
      ∙ ap (λ log. log ++ prompts args) (chosen-prompts_of arg w)
      ∙ append_assoc w.1 (prompts_of arg) (prompts args)

-- If the calls of the two tests are wifi_test, which starts a thread, and zib_gsensor_test, then main does
-- the same whatever the devices, the thread and the tests come to: behind the first option, each -g has
-- the wifi test and the prompt for its failure, and each other argument the accelerometer test and the
-- prompt for its success.
pub main-prompts :
    {S : Type 0} (call : Action → S → S × ℤ) (create : S → S × ℤ) (device : S → Option Read)
    (errno : S → ℤ) (program first : Bytes) (args : List Bytes) (s : S)
    → ((t : S) → call call_wifi t ≡ wifi_test create t)
    → ((t : S) → zib_gsensor_test (device t) (errno t) ≡ some (call call_gsensor t).1)
    → (main call (program ∷ first ∷ args) (s, [])).0.1 ≡ prompts args
main-prompts call create device errno program first args s wifi gsensor =
    ap (λ r. r.0.1) (main-chosen call program first args (s, []))
    ∙ all_chosen-prompts call create device errno wifi gsensor args (s, [])
