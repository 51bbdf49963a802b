-- ===== src/Key/Thread.antt =====
-- The loop of `input_thread` (key_app.cpp). It never ends: the model runs it over the outcomes of
-- its calls of `ev_get`.
use multi_test.Prelude.{
  ℕ, Bool, true, false, ◌&&◌, List, [], ◌∷◌, ◌++◌, Option, none, some, ◌≡◌, refl, arith, ◌==◌,
  if◌then◌else◌, inl, inr, Option-cases,
}
use multi_test.Key.{all_release, TimeVal, KeyPressInfo, InputEvent}
use multi_test.Key.Machine.{Outcome, input_keys_analyse}

abbrev pub zib_key_power : ℕ
zib_key_power = 0x74

abbrev pub zib_key_back : ℕ
zib_key_back = 0x75

abbrev pub zib_key_ok : ℕ
zib_key_ok = 0x76

abbrev pub ev_key : ℕ
ev_key = 1

-- One call of `ev_get`: the event, or none for -1; `stale` is what the event buffer holds in that
-- case. The two times are the clock readings of `input_keys_analyse`.
pub record Poll : Type 0 where
  pub got : Option InputEvent
  pub stale : InputEvent
  pub now : TimeVal
  pub later : TimeVal

-- The test in front of the second call of `input_keys_analyse`.
unfoldable pub is_function_key : InputEvent → Bool
is_function_key ev = ev.code == zib_key_power && ev.code == zib_key_back && ev.code == zib_key_ok

unfoldable pub thread_step : Poll → KeyPressInfo → Outcome
thread_step p k = elim p.got [
  | none ↦ input_keys_analyse false p.stale p.now p.later k
  | some ev ↦
      if ev.type == ev_key && is_function_key ev
      then input_keys_analyse true ev p.now p.later k
      else (k, [])
]

unfoldable pub input_thread : List Poll → KeyPressInfo → Outcome
input_thread [] k = (k, [])
input_thread (p ∷ ps) k =
    let (k', out) = thread_step p k in let (k'', more) = input_thread ps k' in (k'', out ++ more)

not-is_function_key : (ev : InputEvent) → is_function_key ev ≡ false
unfolding is_function_key
not-is_function_key ev = ground arith

thread_step-idle :
    (p : Poll) (k : KeyPressInfo)
    → k.state ≡ all_release
    → ((thread_step p k).1 ≡ []) × ((thread_step p k).0.state ≡ all_release)
unfolding thread_step input_keys_analyse
thread_step-idle p k s = elim (Option-cases p.got) [
  | inl e ↦ ground arith
  | inr (ev, e) ↦ ground (arith, not-is_function_key ev)
]

-- From the idle state the thread reports nothing, whatever keys are pressed: its test asks for
-- three codes at once, so no key event reaches the state machine.
pub input_thread-silent :
    (ps : List Poll) (k : KeyPressInfo)
    → k.state ≡ all_release
    → ((input_thread ps k).1 ≡ []) × ((input_thread ps k).0.state ≡ all_release)
unfolding input_thread
input_thread-silent [] k s = (refl, s)
input_thread-silent (p ∷ ps) k s =
    ground (arith, thread_step-idle p k s, input_thread-silent ps (thread_step p k).0)
