-- ===== src/Cli.antt =====
-- The command line (main.cpp): `main` chooses the tests by the program's arguments. The tests and the
-- audio prompts are called through a parameter. Cli/Prompts is about the prompts of the real tests.
pub mod Prompts
use multi_test.Prelude.{
  Bool, not, List, [], ◌∷◌, ◌++◌, ◌≡◌, refl, ap, ◌∙◌, sym, if◌then◌else◌, length, drop, ltb, arith,
  Bool-cases, inl, inr,
}
use mathlib.Core.Path.{subst}
use multi_test.Prelude.Int.{is_zero, ℤ, pos}
use multi_test.Prelude.Text.{Bytes, codes, str_eq, str_eq-eq}

-- What `main` calls: a test, or the prompt for a test that passed or failed.
pub data Action : Type 0 where
  call_gsensor call_wifi call_gps call_tel : Action
  play_gsensor_pass play_gsensor_fail play_wifi_pass play_wifi_fail : Action

-- `call` gives the value of each call, by the state that the calls before left.
module _ {S : Type 0} (call : Action → S → S × ℤ) where
  abbrev Log : Type 0
  Log = S × List Action

  abbrev done : Action → Log → Log × ℤ
  done a (s, log) = let (s', v) = call a s in ((s', log ++ a ∷ []), v)

  -- A test with its prompt.
  unfoldable pub announced : Action → Action → Action → Log → Log
  announced test pass fail w =
      let (w', ret) = done test w in if is_zero ret then (done fail w').0 else (done pass w').0

  -- `strcmp(arg, option)`, as a condition.
  abbrev differs : Bytes → Bytes → Bool
  differs arg option = not (str_eq arg option)

  -- One round of the loop.
  unfoldable pub run_option : Bytes → Log → Log
  unfolding announced
  run_option arg w =
      if differs arg (codes "-g")
      then announced call_gsensor play_gsensor_pass play_gsensor_fail w
      else if differs arg (codes "-w")
      then announced call_wifi play_wifi_pass play_wifi_fail w
      else if differs arg (codes "-k")
      then w
      else if differs arg (codes "-b")
      then w
      else if differs arg (codes "-gps")
      then (done call_gps w).0
      else if differs arg (codes "-t")
      then (done call_tel w).0
      else w

  unfoldable pub run_options : List Bytes → Log → Log
  unfolding run_option
  run_options [] w = w
  run_options (arg ∷ args) w = run_options args (run_option arg w)

  -- `argv` with the program's name first, which the system always gives; the value that is returned.
  -- The loop starts two places on.
  unfoldable pub main : List Bytes → Log → Log × ℤ
  unfolding run_options
  main argv w = if ltb (length argv) 2 then (w, pos 1) else (run_options (drop 2 argv) w, pos 0)

  -- What happens for an argument: the accelerometer test for all but -g, which is the wifi test.
  unfoldable pub chosen : Bytes → Log → Log
  unfolding announced
  chosen arg w =
      if str_eq arg (codes "-g")
      then announced call_wifi play_wifi_pass play_wifi_fail w
      else announced call_gsensor play_gsensor_pass play_gsensor_fail w

  abbrev pub all_chosen : List Bytes → Log → Log
  all_chosen [] w = w
  all_chosen (arg ∷ args) w = all_chosen args (chosen arg w)

  run_option-chosen : (arg : Bytes) (w : Log) → run_option arg w ≡ chosen arg w
  unfolding run_option chosen
  run_option-chosen arg w = elim (Bool-cases (str_eq arg (codes "-g"))) [
    | inl e ↦
        let q : arg ≡ codes "-g" = str_eq-eq arg (codes "-g") e in
        subst (λ a. run_option a w ≡ chosen a w) (sym q) refl
    | inr e ↦ rw e refl
  ]

  run_options-chosen : (args : List Bytes) (w : Log) → run_options args w ≡ all_chosen args w
  unfolding run_options
  run_options-chosen [] w = refl
  run_options-chosen (arg ∷ args) w =
      run_options-chosen args (run_option arg w) ∙ ap (all_chosen args) (run_option-chosen arg w)

  -- The first option is never looked at; each later one runs the wifi test if it is -g, and the
  -- accelerometer test if it is anything else. No other test is ever run.
  pub main-chosen :
      (program first : Bytes) (args : List Bytes) (w : Log)
      → main (program ∷ first ∷ args) w ≡ (all_chosen args w, pos 0)
  unfolding main
  main-chosen program first args w = ground (arith, run_options-chosen args w)
