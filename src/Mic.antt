-- ===== src/Mic.antt =====
-- The microphone test (mic_test/mic_test.cpp): a recording is written to a file, read back and played.
-- The audio library and the file system are parameters, and so is the number RCRD_CNT of bytes.
pub mod Played
use multi_test.Prelude.{
  ℕ, ◌+◌, ◌-◌, ◌≤◌, ◌<◌, ◌≡◌, Bool, true, false, List, [], ◌∷◌, ◌++◌, Option, none, some, arith,
  if◌then◌else◌, ltb, length, take, drop, refl, take-append_length, take-length_le, length-append,
  length-take, take-append_le,
}
use mathlib.Core.List.{append-nil}
use multi_test.Prelude.Int.{ℤ, pos}
use multi_test.Prelude.Text.{Bytes}
use multi_test.Prelude.Fault.{◌>>=◌, ◌>>◌, require}
use multi_test.Prelude.Buffer.{store_at, zeros}

-- Calls of the audio library and of the player.
pub data AudioCall : Type 0 where
  set_volume open_recorder play_music read_recorder stop_recorder close_recorder : AudioCall
  open_player close_player : AudioCall
  play : Bytes → AudioCall

-- What the platform does: whether the file can be removed and opened for writing, what stands in the
-- array `new unsigned char[RCRD_CNT]` and what the recorder stores in it.
pub record Recording : Type 0 where
  pub removes : Bool
  pub opens : Bool
  pub rcrd : Bytes
  pub recorded : Bytes

-- The recording's file, none if there is no such file, the static `rec_stop`, and the calls made.
pub record Mic : Type 0 where
  pub file : Option Bytes
  pub rec_stop : ℕ
  pub calls : List AudioCall

abbrev pub called : List AudioCall → Mic → Mic
called cs w = record w { calls = w.calls ++ cs }

abbrev text_of : Option Bytes → Bytes
text_of none = []
text_of (some text) = text

-- `remove`, for a file that is there.
abbrev pub removed : Bool → Option Bytes → Option Bytes
removed removes none = none
removed removes (some text) = if removes then none else some text

-- `fopen` with "a+", `fwrite` and `fclose`: the bytes stand behind the file's. None is the use of NULL.
unfoldable pub append_file : Bool → Bytes → Mic → Option Mic
append_file opens text w =
    if opens then some (record w { file = some (text_of w.file ++ text) }) else none

unfoldable pub zib_audio_record_test : Recording → Mic → Option Mic
unfolding append_file
zib_audio_record_test r w = do
  let w1 =
      called (open_recorder ∷ play_music ∷ read_recorder ∷ stop_recorder ∷ close_recorder ∷ [])
        (record w { file = removed r.removes w.file; rec_stop = 0 })
  rcrd ← store_at r.rcrd 0 r.recorded
  w2 ← append_file r.opens rcrd w1
  some (record w2 { rec_stop = 1 })

-- The array that is played, of `count` bytes: what is read of the file, and zeros.
abbrev pub read_into : ℕ → Bytes → Bytes
read_into count text = take count text ++ drop (length (take count text)) (zeros count)

-- An empty file is not played. None is the use of NULL, for a file that is not there.
unfoldable pub zib_audio_recordplay_test : ℕ → Mic → Option Mic
zib_audio_recordplay_test count w = elim w.file [
  | none ↦ none
  | some text ↦
      if ltb 0 (length (take count text))
      then some (called (open_player ∷ play (read_into count text) ∷ close_player ∷ []) w)
      else some w
]

unfoldable pub mic_test : ℕ → Recording → Mic → Option (Mic × ℤ)
unfolding zib_audio_record_test zib_audio_recordplay_test
mic_test count r w = do
  w1 ← zib_audio_record_test r (called (set_volume ∷ []) w)
  w2 ← zib_audio_recordplay_test count w1
  some (w2, pos 0)

-- All calls of a test that plays `text`.
abbrev pub session : Bytes → List AudioCall
session text =
    set_volume
    ∷ open_recorder
    ∷ play_music
    ∷ read_recorder
    ∷ stop_recorder
    ∷ close_recorder
    ∷ open_player
    ∷ play text
    ∷ close_player
    ∷ []
