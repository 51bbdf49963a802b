-- ===== src/Gps/Files.antt =====
-- The files of the GPS test (gps_test/gps_test.c): `create_dir`, `gps_Open`, and the texts of the
-- receiver, `nmea_callback` and `gps_read_nmea`. The file system is a parameter.
use multi_test.Prelude.{
  ℕ, ◌≡◌, Bool, true, false, not, ◌&&◌, [], ◌∷◌, ◌++◌, Option, none, some, arith, if◌then◌else◌,
  ltb, leb, ◌==◌, length, take, Bool-cases, Option-cases, inl, inr,
}
use mathlib.Core.List.{append_assoc, append-nil}
use mathlib.Core.Path.{subst}
use multi_test.Prelude.Int.{ℤ, pos, negsuc, ltb_ℤ}
use multi_test.Prelude.Text.{Bytes, codes}
use multi_test.Prelude.Fault.{>>=-eq-some, ◌>>=◌, ◌>>◌, require}
use multi_test.Prelude.Buffer.{store_at}
use multi_test.Gps.Provider.{Gps, Device, class_init}

-- `access(path, F_OK) == 0`, `mkdir` with whether it succeeds, `remove` and `system`.
pub record Files (S : Type 0) : Type 0 where
  pub access : S → Bytes → Bool
  pub mkdir : S → Bytes → S × Bool
  pub remove : S → Bytes → S
  pub system : S → Bytes → S

-- `char DirName[256]`
abbrev pub dir_name_size : ℕ
dir_name_size = 256

abbrev ends_in_slash : Bytes → Bool
ends_in_slash [] = false
ends_in_slash (c ∷ []) = c == b'/'
ends_in_slash (c ∷ d ∷ cs) = ends_in_slash (d ∷ cs)

-- The path with a slash at its end.
unfoldable pub with_slash : Bytes → Bytes
with_slash path = if ends_in_slash path then path else path ++ b'/' ∷ []

-- The path is not empty, and with its slash it fits the array.
abbrev fits : Bytes → Option (Unit {0})
unfolding with_slash
fits path = require (ltb 0 (length path) && ltb (length (with_slash path)) dir_name_size)

module _ {S : Type 0} (f : Files S) where
  -- A round of the loop: the byte behind `dir`.
  unfoldable pub make_dir : Bytes → ℕ → S → S × Bool
  make_dir dir c s = if (c == b'/') && not (f.access s dir) then f.mkdir s dir else (s, true)

  -- The loop, over the bytes behind `dir`: whether no `mkdir` fails.
  unfoldable pub make_dirs : Bytes → Bytes → S → S × Bool
  unfolding make_dir
  make_dirs dir [] s = (s, true)
  make_dirs dir (c ∷ cs) s =
      let (s', made) = make_dir dir c s in
      let rest = make_dirs (dir ++ c ∷ []) cs s' in if made then rest else (s', false)

  abbrev make_all : Bytes → S → S × ℤ
  make_all [] s = (s, pos 0)
  make_all (c ∷ cs) s =
      let (s', made) = make_dirs (c ∷ []) cs s in (s', if made then pos 0 else negsuc 0)

  -- None is an access in front of the array or behind it.
  unfoldable pub create_dir : Bytes → S → Option (S × ℤ)
  unfolding with_slash make_dirs
  create_dir path s = fits path >> some (make_all (with_slash path) s)

abbrev log_dir : Bytes
log_dir = codes "/data/gps_test/log/"

-- `gps_is_enable`, the file system, and the provider.
pub record Receiver (S T D : Type 0) : Type 0 where
  pub gps_is_enable : Bool
  pub files : S
  pub gps : Gps T D

module _ {S : Type 0} (f : Files S) where
  -- The files in front of the loading.
  clear_log : S → Option S
  unfolding create_dir
  clear_log s =
      let s1 = f.remove s (codes "data/gps_outdirfile.txt") in
      let made = if f.access s1 log_dir then some (s1, pos 0) else create_dir f log_dir s1 in
      made >>= λ (s2, status). some (f.system s2 (codes "rm /data/gps_test/log/*"))

module _ {S T D : Type 0} (f : Files S) (d : Device) where
  unfoldable pub gps_open : Receiver S T D → Option (Receiver S T D × ℤ)
  unfolding clear_log
  gps_open w =
      let load = λ (s : S).
        let g : Gps T D = record w.gps { ptrs = class_init d w.gps.ptrs } in
        let w' : Receiver S T D = record { gps_is_enable = g.ptrs.gps_ptr; files = s; gps = g } in
        some (w', if g.ptrs.gps_ptr then pos 0 else negsuc 0) in
      if w.gps_is_enable then some (w, pos 0) else (clear_log f w.files >>= load)

  -- A receiver that was opened stays as it is when it is opened again.
  gps_open-again :
      (w w' : Receiver S T D) → gps_open w ≡ some (w', pos 0) → gps_open w' ≡ some (w', pos 0)
  unfolding gps_open
  gps_open-again w w' h = elim (Bool-cases w.gps_is_enable) [
    | inl t ↦ ground arith
    | inr t ↦ elim (Option-cases (clear_log f w.files)) [
      | inl e ↦ absurd (ground arith)
      | inr (s, e) ↦ elim (Bool-cases (class_init d w.gps.ptrs).gps_ptr) [
        | inl g ↦ ground arith
        | inr g ↦ absurd (ground arith)
      ]
    ]
  ]

-- `nmea_callback` keeps the address of the HAL's text, and the length. `text` is what stands there
-- now. None is an access behind an array, which a negative size gives as well.
unfoldable pub gps_read_nmea : Bytes → ℤ → Bytes → ℤ → Option (Bytes × ℤ)
gps_read_nmea text length_told nmea buffer_size =
    let n = if ltb_ℤ buffer_size length_told then buffer_size else length_told in
    elim n [
      | negsuc k ↦ none
      | pos k ↦
          require (leb k (length text))
          >> (store_at nmea 0 (take k text) >>= λ nmea'. some (nmea', pos k))
    ]

-- What can be relied on: a directory that was made is there, and none goes.
pub record IsFiles {S : Type 0} (f : Files S) : Type 0 where
  pub makes : (s : S) (p : Bytes) → (f.mkdir s p).1 ≡ true → f.access (f.mkdir s p).0 p ≡ true
  pub keeps : (s : S) (p q : Bytes) → f.access s q ≡ true → f.access (f.mkdir s p).0 q ≡ true

module _ {S : Type 0} (f : Files S) (h : IsFiles f) where
  make_dir-keeps :
      (dir : Bytes) (c : ℕ) (s : S) (q : Bytes)
      → f.access s q ≡ true
      → f.access (make_dir f dir c s).0 q ≡ true
  unfolding make_dir
  make_dir-keeps dir c s q e = elim (Bool-cases ((c == b'/') && not (f.access s dir))) [
    | inl t ↦ rw t (h.keeps s dir q e)
    | inr t ↦ rw t e
  ]

  make_dirs-keeps :
      (dir cs : Bytes) (s : S) (q : Bytes)
      → f.access s q ≡ true
      → f.access (make_dirs f dir cs s).0 q ≡ true
  unfolding make_dirs
  make_dirs-keeps dir [] s q e = e
  make_dirs-keeps dir (c ∷ cs) s q e =
      let s' = (make_dir f dir c s).0 in
      let e' = make_dir-keeps dir c s q e in
      elim (Bool-cases (make_dir f dir c s).1) [
        | inl t ↦ rw t (make_dirs-keeps (dir ++ c ∷ []) cs s' q e')
        | inr t ↦ rw t e'
      ]

  make_dir-makes :
      (dir : Bytes) (s : S)
      → (make_dir f dir b'/' s).1 ≡ true
      → f.access (make_dir f dir b'/' s).0 dir ≡ true
  unfolding make_dir
  make_dir-makes dir s e = elim (Bool-cases (f.access s dir)) [
    | inl t ↦ rw t t
    | inr t ↦ rw t (h.makes s dir (rw t at e))
  ]

  -- Every directory that the loop passes is there.
  make_dirs-makes :
      (dir q r : Bytes) (s : S)
      → (make_dirs f dir (q ++ b'/' ∷ r) s).1 ≡ true
      → f.access (make_dirs f dir (q ++ b'/' ∷ r) s).0 (dir ++ q) ≡ true
  unfolding make_dirs
  make_dirs-makes dir [] r s e = elim (Bool-cases (make_dir f dir b'/' s).1) [
    | inl t ↦
        rw (t, append-nil dir)
          (make_dirs-keeps (dir ++ b'/' ∷ []) r (make_dir f dir b'/' s).0 dir
            (make_dir-makes dir s t))
    | inr t ↦ absurd (ground arith)
  ]
  make_dirs-makes dir (c ∷ q) r s e = elim (Bool-cases (make_dir f dir c s).1) [
    | inl t ↦
        let next : (dir ++ c ∷ []) ++ q ≡ dir ++ c ∷ q = append_assoc dir (c ∷ []) q in
        rw (t, ← next) (make_dirs-makes (dir ++ c ∷ []) q r (make_dir f dir c s).0 (rw t at e))
    | inr t ↦ absurd (ground arith)
  ]

  -- If create_dir gives 0, then every directory of the path is there: each part of it in front of a
  -- slash, but for the root.
  pub create_dir-makes :
      (path : Bytes) (s s' : S) (c : ℕ) (dir rest : Bytes)
      → create_dir f path s ≡ some (s', pos 0)
      → with_slash path ≡ (c ∷ dir) ++ b'/' ∷ rest
      → f.access s' (c ∷ dir) ≡ true
  unfolding create_dir
  create_dir-makes path s s' c dir rest e q =
      let (s1, ok) = make_dirs f (c ∷ []) (dir ++ b'/' ∷ rest) s in
      let (u, long, k) = >>=-eq-some (fits path) (λ _. some (make_all f (with_slash path) s)) _ e in
      let k' = rw q at k in
      elim (Bool-cases ok) [
        | inl t ↦
            let same : s1 ≡ s' = ground (arith, t, k') in
            subst (λ v. f.access v (c ∷ dir) ≡ true) same (make_dirs-makes (c ∷ []) dir rest s t)
        | inr t ↦ absurd (ground (arith, t, k'))
      ]
