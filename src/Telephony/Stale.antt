-- ===== src/Telephony/Stale.antt =====
-- What the static arrays keep of earlier texts (tel_test/ls_telephony_util.cpp).
use multi_test.Prelude.{
  ℕ, zero, suc, ◌≤◌, ◌≡◌, refl, sym, ap, ◌∙◌, [], ◌∷◌, ◌++◌, some, arith, length, drop,
  length-append, drop-append_le,
}
use mathlib.Core.List.{append_assoc}
use multi_test.Prelude.Text.{Bytes, c_str}
use multi_test.Prelude.Buffer.{IsText, store_at-append, c_str-append}
use multi_test.Telephony.Memory.{copy_over}

c_str-IsText : (s : Bytes) → IsText s → c_str s ≡ s
c_str-IsText [] h = refl
c_str-IsText (c ∷ s) h = ground (arith, c_str-IsText s h.1)

append-drop-IsText : (n : ℕ) (s t : Bytes) → IsText s → IsText t → IsText (s ++ drop n t)
append-drop-IsText zero [] t h k = k
append-drop-IsText (suc n) [] [] h k = tt
append-drop-IsText (suc n) [] (c ∷ t) h k = append-drop-IsText n [] t h k.1
append-drop-IsText n (c ∷ s) t h k = (h.0, append-drop-IsText n s t h.1 k)

-- A text that is copied over a longer one keeps the longer one's end: the array then holds both.
copy_over-stale :
    (old text rest : Bytes)
    → IsText old
    → IsText text
    → length text ≤ length old
    → (array : Bytes) × (copy_over (old ++ 0 ∷ rest) (some text) ≡ some array)
      × (c_str array ≡ text ++ drop (length text) old)
copy_over-stale old text rest h k l =
    let n = length text in
    let whole = old ++ 0 ∷ rest in
    let stored =
      store_at-append [] text whole 0 refl (omega (arith, length-append old (0 ∷ rest))) in
    let split : text ++ drop n whole ≡ (text ++ drop n old) ++ 0 ∷ rest =
      ap (λ d. text ++ d) (drop-append_le n old (0 ∷ rest) l)
      ∙ sym (append_assoc text (drop n old) (0 ∷ rest)) in
    (
      text ++ drop n whole,
      rw (c_str-IsText text k) stored,
      rw split (c_str-append (text ++ drop n old) rest (append-drop-IsText n text old k h)),
    )
