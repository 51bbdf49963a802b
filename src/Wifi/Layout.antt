-- ===== src/Wifi/Layout.antt =====
-- Text in memory, and where the parser's pointer loops stop on it (ls_wifi_test.c).
use mathlib.Core.Path.{subst}
use multi_test.Prelude.{
  ℕ, zero, suc, ◌+◌, ◌<◌, ◌≤◌, [], ◌∷◌, ◌++◌, ◌≡◌, ◌≢◌, refl, ◌∙◌, ◌⊎◌, inl, inr, arith, get_or,
  length,
}
use multi_test.Prelude.Text.{Bytes}
use multi_test.Wifi.Line.{Memory, field, skip_tab}
use multi_test.Wifi.Results.{skip_line, line_end}

-- The bytes stand in memory from a position on.
abbrev pub At : Memory → ℕ → Bytes → Type 0
At mem p [] = Unit
At mem p (b ∷ bs) = (mem p ≡ b) × At mem (p + 1) bs

-- A text without the bytes that end a field or a line.
abbrev pub IsPlain : Bytes → Type 0
IsPlain [] = Unit
IsPlain (b ∷ bs) = (b ≢ b'\t') × (b ≢ b'\n') × IsPlain bs

pub At-append :
    (mem : Memory) (p : ℕ) (xs ys : Bytes)
    → At mem p (xs ++ ys)
    → At mem p xs × At mem (p + length xs) ys
At-append mem p [] ys h = (tt, subst (λ q. At mem q ys) (omega arith) h)
At-append mem p (x ∷ xs) ys h =
    let (l, r) = At-append mem (p + 1) xs ys h.1 in
    ((h.0, l), subst (λ q. At mem q ys) (omega arith) r)

-- A field ends at a tab, or where the line ends.
abbrev pub Ends : Memory → ℕ → ℕ → Bytes → Type 0
Ends mem n q bs = (n ≡ length bs) ⊎ ((length bs < n) × (mem q ≡ b'\t'))

pub Ends-tail :
    (mem : Memory) (n q b : ℕ) (bs : Bytes) → Ends mem (suc n) q (b ∷ bs) → Ends mem n q bs
Ends-tail mem n q b bs (inl h) = inl (omega arith)
Ends-tail mem n q b bs (inr (h, e)) = inr (omega arith, e)

pub field-At :
    (mem : Memory) (n p q : ℕ) (bs : Bytes)
    → At mem p bs
    → IsPlain bs
    → p + length bs ≡ q
    → Ends mem n q bs
    → field mem n p ≡ (bs, q)
unfolding field
field-At mem zero p q [] a t g h = ground arith
field-At mem (suc n) p q [] a t g (inl h) = absurd (omega arith)
field-At mem (suc n) p q [] a t g (inr (h, e)) =
    let e' : p ≡ q = omega arith in rw e' (ground arith)
field-At mem zero p q (b ∷ bs) a t g (inl h) = absurd (omega arith)
field-At mem zero p q (b ∷ bs) a t g (inr (h, e)) = absurd (omega arith)
field-At mem (suc n) p q (b ∷ bs) a t g h =
    ground (arith, field-At mem n (p + 1) q bs a.1 t.2 (omega arith) (Ends-tail mem n q b bs h))

-- A byte that is read behind a plain text, or its first one, is no tab.
pub skip_tab-At :
    (mem : Memory) (q : ℕ) (bs : Bytes)
    → At mem (q + 1) bs
    → IsPlain bs
    → 0 < length bs
    → skip_tab mem q ≡ q + 1
unfolding skip_tab
skip_tab-At mem q [] a t h = absurd (omega arith)
skip_tab-At mem q (b ∷ bs) a t h = ground arith

pub skip_tab-last :
    (mem : Memory) (q : ℕ) (bs : Bytes)
    → At mem (q + 1) bs
    → IsPlain bs
    → mem (q + 1 + length bs) ≢ b'\t'
    → skip_tab mem q ≡ q + 1
unfolding skip_tab
skip_tab-last mem q [] a t h =
    let e : q + 1 + 0 ≡ q + 1 = omega arith in
    let h' : mem (q + 1) ≢ b'\t' = rw e at h in ground arith
skip_tab-last mem q (b ∷ bs) a t h = ground arith

-- A text without a newline.
abbrev pub IsLine : Bytes → Type 0
IsLine [] = Unit
IsLine (b ∷ bs) = (b ≢ b'\n') × IsLine bs

pub IsPlain-IsLine : (bs : Bytes) → IsPlain bs → IsLine bs
IsPlain-IsLine [] h = tt
IsPlain-IsLine (b ∷ bs) h = (h.1, IsPlain-IsLine bs h.2)

pub IsLine-append : (xs ys : Bytes) → IsLine xs → IsLine ys → IsLine (xs ++ ys)
IsLine-append [] ys h k = k
IsLine-append (x ∷ xs) ys h k = (h.0, IsLine-append xs ys h.1 k)

pub line_end-At :
    (mem : Memory) (n p q : ℕ) (bs : Bytes)
    → At mem p bs
    → IsLine bs
    → p + length bs ≡ q
    → length bs < n
    → mem q ≡ b'\n'
    → line_end mem n p ≡ q
unfolding line_end
line_end-At mem zero p q bs a t g l e = absurd (omega arith)
line_end-At mem (suc n) p q [] a t g l e = let e' : p ≡ q = omega arith in rw e' (ground arith)
line_end-At mem (suc n) p q (b ∷ bs) a t g l e =
    ground (arith, line_end-At mem n (p + 1) q bs a.1 t.1 (omega arith) (omega arith) e)

pub skip_line-At :
    (mem : Memory) (n p q : ℕ) (bs : Bytes)
    → At mem p bs
    → IsLine bs
    → p + length bs ≡ q
    → length bs ≤ n
    → mem q ≡ b'\n'
    → skip_line mem n p ≡ q + 1
unfolding skip_line
skip_line-At mem zero p q [] a t g l e = omega arith
skip_line-At mem zero p q (b ∷ bs) a t g l e = absurd (omega arith)
skip_line-At mem (suc n) p q [] a t g l e = let e' : p ≡ q = omega arith in rw e' (ground arith)
skip_line-At mem (suc n) p q (b ∷ bs) a t g l e =
    ground (arith, skip_line-At mem n (p + 1) q bs a.1 t.1 (omega arith) (omega arith) e)

-- The memory that holds a reply: its bytes, and 0 behind them.
abbrev pub memory_of : Bytes → Memory
memory_of reply i = get_or reply i 0

pub At-shift :
    (mem mem' : Memory) (p : ℕ) (bs : Bytes)
    → ((i : ℕ) → mem (suc i) ≡ mem' i)
    → At mem' p bs
    → At mem (suc p) bs
At-shift mem mem' p [] h a = tt
At-shift mem mem' p (b ∷ bs) h a =
    (h p ∙ a.0, subst (λ q. At mem q bs) (omega arith) (At-shift mem mem' (p + 1) bs h a.1))

pub memory_of-At : (bs : Bytes) → At (memory_of bs) 0 bs
memory_of-At [] = tt
memory_of-At (b ∷ bs) =
    (refl, At-shift (memory_of (b ∷ bs)) (memory_of bs) 0 bs (λ i. refl) (memory_of-At bs))
