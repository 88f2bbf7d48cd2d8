-- ===== src/Prelude/Bytes.antt =====
-- Byte arrays as functions of the index: reading a stretch as a list, and writing a list over one.
use Prim.Native.Nat.{ℕ, zero, suc, ◌+◌, ◌-◌, ◌≤◌, ◌<◌, min}
use mathlib.Core.Path.{◌≡◌, refl, ap, ap₂, ◌∙◌, sym}
use mathlib.Core.Bool.{◌&&◌}
use mathlib.Core.List.{List, [], ◌∷◌, ◌++◌}
use native.Mathlib.Omega.{arith}
use rynex.Prelude.Tests.{leb, ltb, if◌then◌else◌}
use rynex.Prelude.Lists.{length, take}

abbrev pub drop {ℓ} : {A : Type ℓ} → ℕ → List A → List A
drop zero xs = xs
drop (suc n) [] = []
drop (suc n) (x ∷ xs) = drop n xs

-- The byte at an index, 0 behind the end.
abbrev pub nth : List ℕ → ℕ → ℕ
nth [] i = 0
nth (x ∷ xs) zero = x
nth (x ∷ xs) (suc i) = nth xs i

-- The `n` bytes from an address on.
abbrev pub slice : (ℕ → ℕ) → ℕ → ℕ → List ℕ
slice mem at zero = []
slice mem at (suc n) = mem at ∷ slice mem (at + 1) n

-- The bytes of a list are written from an address on.
abbrev pub put : ℕ → List ℕ → (ℕ → ℕ) → ℕ → ℕ
put at xs mem a = if leb at a && ltb a (at + length xs) then nth xs (a - at) else mem a

pub length-take : {A : Type 0} (n : ℕ) (xs : List A) → length (take n xs) ≡ min n (length xs)
length-take zero xs = ground arith
length-take (suc n) [] = ground arith
length-take (suc n) (x ∷ xs) = omega (arith, length-take n xs)

pub length-drop : {A : Type 0} (n : ℕ) (xs : List A) → length (drop n xs) ≡ length xs - n
length-drop zero xs = omega arith
length-drop (suc n) [] = omega arith
length-drop (suc n) (x ∷ xs) = omega (arith, length-drop n xs)

pub length-slice : (mem : ℕ → ℕ) (at n : ℕ) → length (slice mem at n) ≡ n
length-slice mem at zero = refl
length-slice mem at (suc n) = ap suc (length-slice mem (at + 1) n)

pub nth-take : (n : ℕ) (xs : List ℕ) (i : ℕ) → i < n → nth (take n xs) i ≡ nth xs i
nth-take zero xs i h = absurd (omega arith)
nth-take (suc n) [] i h = refl
nth-take (suc n) (x ∷ xs) zero h = refl
nth-take (suc n) (x ∷ xs) (suc i) h = nth-take n xs i (omega arith)

pub nth-drop : (n : ℕ) (xs : List ℕ) (i : ℕ) → nth (drop n xs) i ≡ nth xs (n + i)
nth-drop zero xs i = ap (nth xs) (omega arith)
nth-drop (suc n) [] i = refl
nth-drop (suc n) (x ∷ xs) i = nth-drop n xs i ∙ ap (nth (x ∷ xs)) shift
  where
    shift : suc (n + i) ≡ suc n + i
    shift = omega arith

pub nth-slice : (mem : ℕ → ℕ) (at n i : ℕ) → i < n → nth (slice mem at n) i ≡ mem (at + i)
nth-slice mem at zero i h = absurd (omega arith)
nth-slice mem at (suc n) zero h = ap mem (omega arith)
nth-slice mem at (suc n) (suc i) h = nth-slice mem (at + 1) n i (omega arith) ∙ ap mem (omega arith)

-- A stretch that agrees with a list byte by byte is the list.
pub slice_only :
    (mem : ℕ → ℕ) (at : ℕ) (xs : List ℕ)
    → ((i : ℕ) → i < length xs → mem (at + i) ≡ nth xs i)
    → slice mem at (length xs) ≡ xs
slice_only mem at [] h = refl
slice_only mem at (x ∷ xs) h =
    ap₂ (λ y ys. y ∷ ys) (ap mem (omega arith) ∙ h 0 (omega arith))
      (slice_only mem (at + 1) xs (λ i lt. ap mem (omega arith) ∙ h (suc i) (omega arith)))

pub put_inside :
    (at : ℕ) (xs : List ℕ) (mem : ℕ → ℕ) (i : ℕ) → i < length xs → put at xs mem (at + i) ≡ nth xs i
put_inside at xs mem i h =
    let same : at + i - at ≡ i = omega arith in ground (arith, ap (nth xs) same)

pub slice-put : (at : ℕ) (xs : List ℕ) (mem : ℕ → ℕ) → slice (put at xs mem) at (length xs) ≡ xs
slice-put at xs mem = slice_only (put at xs mem) at xs (put_inside at xs mem)

minus_zero : (i : ℕ) → i - 0 ≡ i
minus_zero i = omega arith

pub nth-append :
    (xs ys : List ℕ) (i : ℕ)
    → nth (xs ++ ys) i ≡ (if ltb i (length xs) then nth xs i else nth ys (i - length xs))
nth-append [] ys i = ground (arith, ap (nth ys) (minus_zero i))
nth-append (x ∷ xs) ys zero = ground arith
nth-append (x ∷ xs) ys (suc i) = ground (arith, nth-append xs ys i)

pub take-drop : (n : ℕ) (xs : List ℕ) → take n xs ++ drop n xs ≡ xs
take-drop zero xs = refl
take-drop (suc n) [] = refl
take-drop (suc n) (x ∷ xs) = ap (λ ys. x ∷ ys) (take-drop n xs)

take_none : (k : ℕ) → take {A = ℕ} k [] ≡ []
take_none zero = refl
take_none (suc k) = refl

pub take_more : (n m : ℕ) (xs : List ℕ) → take n xs ++ take m (drop n xs) ≡ take (n + m) xs
take_more zero m xs = ap (λ k. take k xs) (omega arith)
take_more (suc n) m [] = take_none m ∙ sym (take_none (suc n + m))
take_more (suc n) m (x ∷ xs) =
    ap (λ ys. x ∷ ys) (take_more n m xs) ∙ ap (λ k. take k (x ∷ xs)) shift
  where
    shift : suc (n + m) ≡ suc n + m
    shift = omega arith

pub slice-append :
    (mem : ℕ → ℕ) (at m n : ℕ) → slice mem at (m + n) ≡ slice mem at m ++ slice mem (at + m) n
slice-append mem at zero n = ap₂ (slice mem) (omega arith) (omega arith)
slice-append mem at (suc m) n =
    ap (slice mem at) left
    ∙ ap (λ ys. mem at ∷ ys)
        (slice-append mem (at + 1) m n
          ∙ ap (λ b. slice mem (at + 1) m ++ slice mem b n) (omega arith))
  where
    left : suc m + n ≡ suc (m + n)
    left = omega arith

pub take-append : (xs ys : List ℕ) (k : ℕ) → take (length xs + k) (xs ++ ys) ≡ xs ++ take k ys
take-append [] ys k = ap (λ n. take n ys) (omega arith)
take-append (x ∷ xs) ys k =
    ap (λ n. take n (x ∷ xs ++ ys)) left ∙ ap (λ zs. x ∷ zs) (take-append xs ys k)
  where
    left : suc (length xs) + k ≡ suc (length xs + k)
    left = omega arith

-- Stretches that agree byte by byte.
pub slice_congr :
    (f g : ℕ → ℕ) (x y n : ℕ)
    → ((k : ℕ) → k < n → f (x + k) ≡ g (y + k))
    → slice f x n ≡ slice g y n
slice_congr f g x y zero h = refl
slice_congr f g x y (suc n) h =
    ap₂ (λ b bs. b ∷ bs) (ap f (omega arith) ∙ h 0 (omega arith) ∙ ap g (omega arith))
      (slice_congr f g (x + 1) (y + 1) n
        (λ k lt. ap f (omega arith) ∙ h (suc k) (omega arith) ∙ ap g (omega arith)))

pub take_all : (n : ℕ) (xs : List ℕ) → length xs ≤ n → take n xs ≡ xs
take_all zero [] h = refl
take_all zero (x ∷ xs) h = absurd (omega (arith, h))
take_all (suc n) [] h = refl
take_all (suc n) (x ∷ xs) h = ap (λ ys. x ∷ ys) (take_all n xs (omega (arith, h)))
