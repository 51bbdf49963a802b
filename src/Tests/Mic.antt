-- ===== src/Tests/Mic.antt =====
-- The microphone test at concrete inputs.
use multi_test.Prelude.{true, [], ◌++◌, some, ◌≡◌, refl, arith}
use multi_test.Prelude.Int.{pos}
use multi_test.Prelude.Text.{codes}
use multi_test.Mic.{Mic, Recording, session, mic_test}
use multi_test.Mic.Played.{IsRecording, mic_test-plays}

-- Four bytes, of which the recorder stores three.
abbrev recording : Recording
recording = record { removes = true; opens = true; rcrd = codes "...."; recorded = codes "abc" }

abbrev before : Mic
before = record { file = some (codes "old file"); rec_stop = 0; calls = [] }

recording-IsRecording : IsRecording 4 recording
recording-IsRecording = ground arith

mic_test-plays_example :
    (w' : Mic) × (mic_test 4 recording before ≡ some (w', pos 0))
    × (w'.file ≡ some (codes "abc."))
    × (w'.calls ≡ [] ++ session (codes "abc."))
mic_test-plays_example = mic_test-plays 4 recording before recording-IsRecording refl
