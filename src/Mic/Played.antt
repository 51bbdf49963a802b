-- ===== src/Mic/Played.antt =====
-- What the microphone test plays (mic_test/mic_test.cpp).
use multi_test.Prelude.{
  ℕ, ◌≤◌, ◌<◌, ◌≡◌, ◌∙◌, ap, true, false, List, [], ◌∷◌, ◌++◌, none, some, arith, length, take,
  drop, refl, take-length_le, length-append, length-take, take-append_le, drop-length_le,
  length-replicate, length-drop,
}
use mathlib.Core.List.{append-nil, append_assoc}
use multi_test.Prelude.Int.{pos}
use multi_test.Prelude.Text.{Bytes}
use multi_test.Prelude.Buffer.{store_at, store_at-append, zeros}
use multi_test.Mic.{
  AudioCall, set_volume, called, open_recorder, play_music, read_recorder, stop_recorder,
  close_recorder, open_player, play, close_player, Mic, Recording, removed, text_of, read_into,
  session, append_file, zib_audio_record_test, zib_audio_recordplay_test, mic_test,
}

-- The array is of `count` bytes, the recorder stores no more, and the file can be written.
pub record IsRecording (count : ℕ) (r : Recording) : Type 0 where
  pub opened : r.opens ≡ true
  pub some_bytes : 0 < count
  pub whole : length r.rcrd ≡ count
  pub stored : length r.recorded ≤ count

-- The array behind the recording.
abbrev pub recorded_array : Recording → Bytes
recorded_array r = r.recorded ++ drop (length r.recorded) r.rcrd

-- The file behind a test.
abbrev pub file_of : Recording → Mic → Bytes
file_of r w = text_of (removed r.removes w.file) ++ recorded_array r

abbrev tested : ℕ → Recording → Mic → Mic
tested count r w = record {
  file = some (file_of r w);
  rec_stop = 1;
  calls = w.calls ++ session (read_into count (file_of r w));
}

stored_array :
    (count : ℕ) (r : Recording)
    → IsRecording count r
    → store_at r.rcrd 0 r.recorded ≡ some (recorded_array r)
stored_array count r h =
    store_at-append [] r.recorded r.rcrd 0 refl (omega (arith, h.whole, h.stored))

length-recorded_array :
    (count : ℕ) (r : Recording) → IsRecording count r → length (recorded_array r) ≡ count
length-recorded_array count r h = omega (
  arith,
  h.whole,
  h.stored,
  length-append r.recorded (drop (length r.recorded) r.rcrd),
  length-drop (length r.recorded) r.rcrd,
)

abbrev recorded_calls : List AudioCall
recorded_calls = open_recorder ∷ play_music ∷ read_recorder ∷ stop_recorder ∷ close_recorder ∷ []

-- The state behind the recording.
abbrev recorded_state : Recording → Mic → Mic
recorded_state r w = record {
  file = some (file_of r w);
  rec_stop = 1;
  calls = w.calls ++ recorded_calls;
}

zib_audio_record_test_lem :
    (count : ℕ) (r : Recording) (w : Mic)
    → IsRecording count r
    → zib_audio_record_test r w ≡ some (recorded_state r w)
unfolding zib_audio_record_test append_file
zib_audio_record_test_lem count r w h = ground (arith, stored_array count r h, h.opened)

zib_audio_recordplay_test_lem :
    (count : ℕ) (w : Mic) (text : Bytes)
    → w.file ≡ some text
    → 0 < length (take count text)
    → zib_audio_recordplay_test count w
      ≡ some (record w {
        calls = w.calls ++ (open_player ∷ play (read_into count text) ∷ close_player ∷ []);
      })
unfolding zib_audio_recordplay_test
zib_audio_recordplay_test_lem count w text e h = ground arith

length-file_of :
    (count : ℕ) (r : Recording) (w : Mic)
    → IsRecording count r
    → 0 < length (take count (file_of r w))
length-file_of count r w h = omega (
  arith,
  h.some_bytes,
  length-take count (file_of r w),
  length-append (text_of (removed r.removes w.file)) (recorded_array r),
  length-recorded_array count r h,
)

read_into-filled :
    (count : ℕ) (text : Bytes)
    → length (take count text) ≡ count
    → read_into count text ≡ take count text
read_into-filled count text h =
    let n : ℕ = 0 in
    ap (λ b. take count text ++ b)
      (drop-length_le (length (take count text)) (zeros count)
        (omega (arith, h, length-replicate count n)))
    ∙ append-nil (take count text)

read_into-full : (count : ℕ) (text : Bytes) → length text ≡ count → read_into count text ≡ text
read_into-full count text h =
    read_into-filled count text (omega (arith, h, length-take count text))
    ∙ take-length_le count text (omega (arith, h))

read_into-long :
    (count : ℕ) (old text : Bytes)
    → count ≤ length old
    → read_into count (old ++ text) ≡ take count old
read_into-long count old text h =
    read_into-filled count (old ++ text)
      (omega (arith, h, length-append old text, length-take count (old ++ text)))
    ∙ take-append_le count old text h

-- The test appends what the recorder gave to what is left of the file, plays the first bytes of the
-- file, whatever they are, and gives 0.
pub mic_test-tested :
    (count : ℕ) (r : Recording) (w : Mic)
    → IsRecording count r
    → mic_test count r w ≡ some (tested count r w, pos 0)
unfolding mic_test
mic_test-tested count r w h =
    let text = file_of r w in
    let player = open_player ∷ play (read_into count text) ∷ close_player ∷ [] in
    let w0 = called (set_volume ∷ []) w in
    rw
      (
        zib_audio_record_test_lem count r w0 h,
        zib_audio_recordplay_test_lem count (recorded_state r w0) text refl
            (length-file_of count r w h),
        append_assoc w0.calls recorded_calls player,
        append_assoc w.calls (set_volume ∷ []) (recorded_calls ++ player),
      )
      refl

-- If no file is left from before, what is played is the array behind the recording.
pub mic_test-plays :
    (count : ℕ) (r : Recording) (w : Mic)
    → IsRecording count r
    → removed r.removes w.file ≡ none
    → (w' : Mic) × (mic_test count r w ≡ some (w', pos 0))
      × (w'.file ≡ some (recorded_array r))
      × (w'.calls ≡ w.calls ++ session (recorded_array r))
mic_test-plays count r w h gone =
    let text = recorded_array r in
    let left : file_of r w ≡ text = ap (λ f. text_of f ++ text) gone in
    let array : read_into count (file_of r w) ≡ text =
      ap (read_into count) left ∙ read_into-full count text (length-recorded_array count r h) in
    (
      tested count r w,
      mic_test-tested count r w h,
      ap some left,
      ap (λ b. w.calls ++ session b) array,
    )

-- If an earlier recording stays, it is played again in place of the new one.
mic_test-stale :
    (count : ℕ) (r : Recording) (w : Mic) (old : Bytes)
    → IsRecording count r
    → r.removes ≡ false
    → w.file ≡ some old
    → count ≤ length old
    → (w' : Mic) × (mic_test count r w ≡ some (w', pos 0))
      × (w'.calls ≡ w.calls ++ session (take count old))
mic_test-stale count r w old h kept e l = (
  tested count r w,
  mic_test-tested count r w h,
  let stays : removed r.removes w.file ≡ some old = rw (kept, e) refl in
      let left : file_of r w ≡ old ++ recorded_array r =
        ap (λ f. text_of f ++ recorded_array r) stays in
      let array : read_into count (file_of r w) ≡ take count old =
        ap (read_into count) left ∙ read_into-long count old (recorded_array r) l in
      ap (λ b. w.calls ++ session b) array,
)
