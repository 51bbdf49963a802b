-- ===== src/Prelude/Buffer.antt =====
-- Char arrays: all bytes of the array, whose length stays the same.
use multi_test.Prelude.{
  ℕ, zero, suc, ◌+◌, ◌≤◌, ◌≡◌, ◌≢◌, refl, ap, Bool, true, false, ◌||◌, [], ◌∷◌, ◌++◌, Option, none,
  some, arith, leb, ◌==◌, if◌then◌else◌, length, take, drop, replicate, length-append,
  take-append_length, ◌∙◌, ◌-◌,
}
use multi_test.Prelude.Text.{Bytes, c_str}

-- `memcpy(buf + i, bytes, length)`; none is a store behind the array.
abbrev pub store_at : Bytes → ℕ → Bytes → Option Bytes
store_at buf i bytes =
    if leb (i + length bytes) (length buf)
    then some (take i buf ++ (bytes ++ drop (i + length bytes) buf))
    else none

abbrev pub has_end : Bytes → Bool
has_end [] = false
has_end (c ∷ cs) = c == 0 || has_end cs

-- The string at `buf + i`; none if no 0 follows in the array.
abbrev pub string_at : Bytes → ℕ → Option Bytes
string_at buf i = if has_end (drop i buf) then some (c_str (drop i buf)) else none

-- A C string's bytes: none is 0.
abbrev pub IsText : Bytes → Type 0
IsText [] = Unit
IsText (c ∷ cs) = (c ≢ 0) × IsText cs

pub c_str-append : (s rest : Bytes) → IsText s → c_str (s ++ 0 ∷ rest) ≡ s
c_str-append [] rest h = refl
c_str-append (c ∷ s) rest h = ground (arith, c_str-append s rest)

pub has_end-append : (s rest : Bytes) → has_end (s ++ 0 ∷ rest) ≡ true
has_end-append [] rest = refl
has_end-append (c ∷ s) rest = ground (arith, has_end-append s rest)

drop-add-append : (a r : Bytes) (k : ℕ) → drop (length a + k) (a ++ r) ≡ drop k r
drop-add-append [] r k = let e : 0 + k ≡ k = omega arith in ap (λ i. drop i r) e
drop-add-append (x ∷ a) r k =
    let e : suc (length a) + k ≡ suc (length a + k) = omega arith in
    ap (λ i. drop i (x ∷ a ++ r)) e ∙ drop-add-append a r k

-- A store behind a first part `a`.
pub store_at-append :
    (a w r : Bytes) (i : ℕ)
    → i ≡ length a
    → length w ≤ length r
    → store_at (a ++ r) i w ≡ some (a ++ (w ++ drop (length w) r))
store_at-append a w r i e h = rw e (
    ground (
      arith,
      length-append a r,
      take-append_length (length a) a r refl,
      drop-add-append a r (length w),
    ))

abbrev pub zeros : ℕ → Bytes
zeros n = replicate n 0

pub zeros-split : (k n : ℕ) → k ≤ n → zeros n ≡ zeros k ++ zeros (n - k)
zeros-split zero n h = let e : n ≡ n - 0 = omega arith in ap zeros e
zeros-split (suc k) zero h = absurd (omega arith)
zeros-split (suc k) (suc n) h =
    let e : n - k ≡ suc n - suc k = omega arith in
    ap (◌∷◌ 0) (zeros-split k n (omega arith) ∙ ap (λ j. zeros k ++ zeros j) e)

pub take-IsText : (n : ℕ) (s : Bytes) → IsText s → IsText (take n s)
take-IsText zero s h = tt
take-IsText (suc n) [] h = tt
take-IsText (suc n) (c ∷ s) h = (h.0, take-IsText n s h.1)
