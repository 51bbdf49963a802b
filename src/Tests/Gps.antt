-- ===== src/Tests/Gps.antt =====
-- The GPS modules at concrete inputs.
use multi_test.Prelude.{
  ℕ, ◌+◌, Bool, true, false, [], ◌∷◌, some, ◌≡◌, arith, leb, if◌then◌else◌, ltb,
}
use multi_test.Prelude.{List, ◌||◌, refl}
use multi_test.Prelude.Text.{Bytes, codes, str_eq, str_eq_refl}
use multi_test.Gps.Files.{Files, IsFiles, create_dir, create_dir-makes}
use multi_test.Prelude.Int.{pos}
use multi_test.Gps.Provider.{Gps, Hal, Device, no_pointers, class_init}
use multi_test.Gps.Operations.{gps_start, is_geofence_supported}
use multi_test.Gps.Offered.{all_offered}
use multi_test.Gps.Steps.{begun, goes_on, loads, starts, Reached-all_offered}
use multi_test.Gps.Session.{
  GpsResult, success, testing, Ending, Sky, gps_processthread_show, Decides, Waited,
  gps_processthread_show-Decides, test_gps_start,
}
use multi_test.Gps.Verdict.{Concluded, test_gps_start-Concluded}

-- A HAL that succeeds and counts its calls.
abbrev counting : Hal ℕ ℕ
counting n c = (n + 1, pos 0)

abbrev device : Device
device = record {
  module_err = pos 0;
  open_err = pos 0;
  gps_interface = true;
  extension = λ i. false;
}

abbrev fresh : Gps ℕ ℕ
fresh = record { ptrs = no_pointers; hal = 0; calls = [] }

abbrev loaded : Gps ℕ ℕ
loaded = record fresh { ptrs = class_init device no_pointers }

is_geofence_supported-loaded : is_geofence_supported loaded ≡ pos 0
unfolding is_geofence_supported class_init
is_geofence_supported-loaded = refl

Reached-all_offered_example : all_offered device (gps_start counting loaded).0.calls ≡ true
Reached-all_offered_example =
    Reached-all_offered counting device 0 (gps_start counting loaded).0
      (goes_on (goes_on begun loads) starts)

-- Five satellites, strong from the third second on.
abbrev sky : ℕ → Sky ℕ
sky i =
    let snr = if ltb i 3 then 20 else 40 in
    record { elapsed = i; snrs = snr ∷ 10 ∷ 10 ∷ 10 ∷ 10 ∷ [] }

abbrev strong : ℕ → Bool
strong snr = leb 35 snr

gps_processthread_show-Decides_example :
    (v : GpsResult) × (j : ℕ) × (gps_processthread_show strong sky ≡ some (v, j))
    × Decides strong sky (v, j)
    × Waited strong j sky
gps_processthread_show-Decides_example =
    gps_processthread_show-Decides strong sky (λ i. omega arith)

test_gps_start-Concluded_example :
    (end : Gps ℕ ℕ × Ending) × (u : GpsResult) × (test_gps_start counting device
        (some (success, 3))
        testing
        fresh
      ≡ some (end, u))
    × Concluded counting loaded end
test_gps_start-Concluded_example = test_gps_start-Concluded counting device testing fresh success 3

-- The directories that are there.
abbrev known : List Bytes → Bytes → Bool
known [] p = false
known (q ∷ qs) p = str_eq q p || known qs p

abbrev listing : Files (List Bytes)
listing = record {
  access = known;
  mkdir = λ s p. (p ∷ s, true);
  remove = λ s p. s;
  system = λ s p. s;
}

listing-IsFiles : IsFiles listing
listing-IsFiles = record {
  makes = λ s p e. ground (arith, str_eq_refl p);
  keeps = λ s p q e. ground arith;
}

abbrev log_made : List Bytes
log_made = codes "/data/log" ∷ codes "/data" ∷ []

create_dir-makes_example : listing.access log_made (codes "/data") ≡ true
unfolding create_dir
create_dir-makes_example =
    create_dir-makes listing listing-IsFiles (codes "/data/log") [] log_made b'/' (codes "data")
      (codes "log/") refl refl
