-- ===== src/Klog/Line.antt =====
-- The line builder of src/klog.rs: the text of the line after an append.
use rynex.Prelude.{
  ℕ, zero, suc, ◌≤◌, ◌<◌, ◌≡◌, refl, ap, sym, ◌∙◌, arith, true, false, List, [], ◌∷◌, ◌++◌, ◌||◌,
  ◌==◌, if◌then◌else◌, take, length, inl, inr, Bool-cases, ltb_cases,
}
use mathlib.Core.List.{append_assoc, append-nil}
use rynex.Prelude.Ring.{window-push, length-window}
use rynex.Klog.State.{Klog, log_msg_max, text, append_byte, append_bytes}

-- The bytes that end no line.
pub printable : List ℕ → List ℕ
printable [] = []
printable (b ∷ bytes) = if b == 10 || b == 13 then printable bytes else b ∷ printable bytes

abbrev pub line_text : Klog → List ℕ
line_text k = text k.line k.line_len

-- Behind a full row nothing is kept.
take_full : (n : ℕ) (xs ys : List ℕ) → length xs ≡ n → take n (xs ++ ys) ≡ xs
take_full zero [] ys e = refl
take_full zero (x ∷ xs) ys e = absurd (omega (arith, e))
take_full (suc n) [] ys e = absurd (omega (arith, e))
take_full (suc n) (x ∷ xs) ys e = ap (◌∷◌ x) (take_full n xs ys (omega (arith, e)))

take_short : (n : ℕ) (xs : List ℕ) → length xs ≤ n → take n xs ≡ xs
take_short zero [] e = refl
take_short zero (x ∷ xs) e = absurd (omega (arith, e))
take_short (suc n) [] e = refl
take_short (suc n) (x ∷ xs) e = ap (◌∷◌ x) (take_short n xs (omega (arith, e)))

append_byte-text :
    (b : ℕ) (k : Klog)
    → k.line_len < log_msg_max
    → (b == 10 || b == 13) ≡ false
    → line_text (append_byte b k) ≡ line_text k ++ b ∷ []
unfolding append_byte
append_byte-text b k lt e =
    ground (arith, e, window-push log_msg_max k.line 0 k.line_len k.line_len b lt)

pub append_byte-len :
    (b : ℕ) (k : Klog) → k.line_len ≤ log_msg_max → (append_byte b k).line_len ≤ log_msg_max
unfolding append_byte
append_byte-len b k le = ground arith

kept : (b : ℕ) (k : Klog) → (b == 10 || b == 13) ≡ true → append_byte b k ≡ k
unfolding append_byte
kept b k e = ground (arith, e)

kept_full : (b : ℕ) (k : Klog) → log_msg_max ≤ k.line_len → append_byte b k ≡ k
unfolding append_byte
kept_full b k le = ground arith

line_text-length : (k : Klog) → length (line_text k) ≡ k.line_len
line_text-length k = length-window log_msg_max k.line 0 k.line_len

-- Appending bytes makes the text longer by those of them that end no line, cut to 160 bytes.
pub line_text-append_bytes :
    (bytes : List ℕ) (k : Klog)
    → k.line_len ≤ log_msg_max
    → line_text (append_bytes bytes k) ≡ take log_msg_max (line_text k ++ printable bytes)
unfolding append_bytes printable
line_text-append_bytes [] k le = sym (
    ap (take log_msg_max) (append-nil (line_text k))
    ∙ take_short log_msg_max (line_text k) (omega (arith, le, line_text-length k)))
line_text-append_bytes (b ∷ bytes) k le = elim (Bool-cases (b == 10 || b == 13)) [
  | inl e ↦
      ap (λ t. line_text (append_bytes bytes t)) (kept b k e)
      ∙ line_text-append_bytes bytes k le
      ∙ ap
          (λ c.
            take log_msg_max (line_text k ++ (if c then printable bytes else b ∷ printable bytes)))
          (sym e)
  | inr e ↦ elim (ltb_cases k.line_len log_msg_max) [
    | inl lt ↦
        line_text-append_bytes bytes (append_byte b k) (append_byte-len b k le)
        ∙ ap (λ t. take log_msg_max (t ++ printable bytes)) (append_byte-text b k lt e)
        ∙ ap (take log_msg_max) (append_assoc (line_text k) (b ∷ []) (printable bytes))
        ∙ ap
            (λ c.
              take log_msg_max
                (line_text k ++ (if c then printable bytes else b ∷ printable bytes)))
            (sym e)
    | inr full ↦
        let exact : length (line_text k) ≡ log_msg_max =
          omega (arith, le, full, line_text-length k) in
        ap (λ t. line_text (append_bytes bytes t)) (kept_full b k full)
        ∙ line_text-append_bytes bytes k le
        ∙ take_full log_msg_max (line_text k) (printable bytes) exact
        ∙ sym (take_full log_msg_max (line_text k) _ exact)
  ]
]
