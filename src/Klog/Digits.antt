-- ===== src/Klog/Digits.antt =====
-- The digits that `append_dec` and `append_hex` of src/klog.rs write, read back as numbers.
use rynex.Prelude.{
  ℕ, zero, suc, ◌+◌, ◌-◌, ◌*◌, ◌/◌, ◌%◌, ◌^◌, ◌<◌, ◌≡◌, refl, ap, sym, ◌∙◌, arith, List, [], ◌∷◌,
  Option, none, some, ltb, if◌then◌else◌,
}
use native.Mathlib.Nat.{pow-suc, div-add-mod, add-mul, add-mul-mod_self_left, mod-eq_of_lt, mod-lt}
use rynex.Prelude.Bits.{two_pow_pos}
use rynex.Klog.State.{dec_digits, hex_digit, hex_digits}

-- The number that a row of decimal digits stands for, behind the digits read already.
pub decimal : ℕ → List ℕ → ℕ
decimal acc [] = acc
decimal acc (d ∷ ds) = decimal (acc * 10 + (d - 48)) ds

-- The value of a hexadecimal digit.
abbrev hex_value : ℕ → ℕ
hex_value d = if ltb d 58 then d - 48 else d - 55

pub hexadecimal : ℕ → List ℕ → ℕ
hexadecimal acc [] = acc
hexadecimal acc (d ∷ ds) = hexadecimal (acc * 16 + hex_value d) ds

-- The row written, with the digits behind it, reads as `v` followed by those.
abbrev Reads : ℕ → List ℕ → Option (List ℕ) → Type 0
Reads v ds none = zero ≡ 1
Reads v ds (some row) = decimal 0 row ≡ decimal v ds

carried :
    (v : ℕ) (ds : List ℕ) (o : Option (List ℕ))
    → Reads (v / 10) ((v % 10 + 48) ∷ ds) o
    → Reads v ds o
unfolding decimal
carried v ds none r = r
carried v ds (some row) r =
    let e : v / 10 * 10 + (v % 10 + 48 - 48) ≡ v = omega arith in r ∙ ap (λ acc. decimal acc ds) e

dec_digits-Reads : (i v : ℕ) (ds : List ℕ) → v < 10 ^ i → Reads v ds (dec_digits i v ds)
unfolding dec_digits
dec_digits-Reads zero v ds lt = let z : v ≡ 0 = omega (arith, lt) in ground (arith, z)
dec_digits-Reads (suc i) v ds lt =
    let power : 10 ^ suc i ≡ 10 ^ i * 10 = pow-suc 10 i in
    let less : v / 10 < 10 ^ i = omega (arith, lt, power) in
    ground (
      arith,
      carried v ds (dec_digits i (v / 10) ((v % 10 + 48) ∷ ds))
          (dec_digits-Reads i (v / 10) ((v % 10 + 48) ∷ ds) less),
    )

hex_value-hex_digit : (n : ℕ) → n < 16 → hex_value (hex_digit n) ≡ n
hex_value-hex_digit n lt = ground arith

regroup : (p k d r : ℕ) → p * (16 * k + d) + r ≡ d * p + r + p * 16 * k
regroup p k d r = grind arith

nibble_mod : (v p : ℕ) → 0 < p → v % (p * 16) ≡ (v / p) % 16 * p + v % p
nibble_mod v p pos =
    ap (λ x. x % (p * 16)) whole
    ∙ add-mul-mod_self_left ((v / p) % 16 * p + v % p) (p * 16) (v / p / 16)
    ∙ mod-eq_of_lt (grind (arith, mod-lt))
  where
    whole : v ≡ (v / p) % 16 * p + v % p + p * 16 * (v / p / 16)
    whole =
        sym (div-add-mod v p)
        ∙ ap (λ q. p * q + v % p) (sym (div-add-mod (v / p) 16))
        ∙ regroup p (v / p / 16) ((v / p) % 16) (v % p)

-- The last `n` digits stand for the number modulo 16 ^ n.
hex_digits-mod :
    (n acc v : ℕ) → hexadecimal acc (hex_digits n v) ≡ acc * 2 ^ (n * 4) + v % 2 ^ (n * 4)
unfolding hex_digits hexadecimal
hex_digits-mod zero acc v = omega arith
hex_digits-mod (suc n) acc v =
    let d = (v / 2 ^ (n * 4)) % 16 in
    ap (λ x. hexadecimal (acc * 16 + x) (hex_digits n v)) (hex_value-hex_digit d (omega arith))
    ∙ hex_digits-mod n (acc * 16 + d) v
    ∙ ap (λ t. t + v % 2 ^ (n * 4)) (add-mul (acc * 16) d (2 ^ (n * 4)))
    ∙ rw power (grind (arith, nibble_mod v (2 ^ (n * 4)) (two_pow_pos (n * 4))))
  where
    power : 2 ^ (suc n * 4) ≡ 2 ^ (n * 4) * 16
    power =
        let e : suc n * 4 ≡ suc (suc (suc (suc (n * 4)))) = omega arith in
        rw (e, pow-suc, pow-suc, pow-suc, pow-suc) (omega arith)

-- `append_dec` writes at most 20 digits for a 64-bit number, so its buffer is large enough, and the
-- digits read as the number; the 16 digits of `append_hex` do too.
pub digits_read :
    (v : ℕ)
    → v < 2 ^ 64
    → ((row : List ℕ) × (dec_digits 20 v [] ≡ some row) × (decimal 0 row ≡ v))
      × (hexadecimal 0 (hex_digits 16 v) ≡ v)
unfolding decimal
digits_read v lt = (
  row (dec_digits 20 v []) (dec_digits-Reads 20 v [] (omega (arith, lt))),
  hex_digits-mod 16 0 v ∙ omega (arith, lt),
)
  where
    row : (o : Option (List ℕ)) → Reads v [] o → (r : List ℕ) × (o ≡ some r) × (decimal 0 r ≡ v)
    row none r = absurd (omega (arith, r))
    row (some ds) r = (ds, refl, r)
