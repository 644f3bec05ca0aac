-- ===== src/StringTools/Number.antt =====
-- Decimal output (`str_from_number` of src/string_tools.cpp) read back by `strtol` and `atoi`.
use ipvshttpd.Libc.{
  is_digit, is_space, skip_spaces, digits_of, after_digits, value_from, strtol, atoi, decimal,
  decimal_fuel, decimal_ℤ,
}
use ipvshttpd.Prelude.Bytes.{Bytes}
use ipvshttpd.Prelude.Int.{ℤ, pos, negsuc, neg}
use ipvshttpd.Prelude.{
  ℕ, zero, suc, ◌+◌, ◌-◌, ◌*◌, ◌/◌, ◌%◌, ◌^◌, ◌<◌, true, false, [], ◌∷◌, ◌++◌, ◌≡◌, ◌≢◌, refl, ap,
  ◌∙◌, inl, inr, arith, All, All-append, Bool-cases, ltb, lt→ltb, ◌==◌,
}
use ipvshttpd.StringTools.{str_from_int}

abbrev pub IsDigit : ℕ → Type 0
IsDigit c = is_digit c ≡ true

value_from-append : (a b : Bytes) (n : ℕ) → value_from n (a ++ b) ≡ value_from (value_from n a) b
value_from-append [] b n = refl
value_from-append (c ∷ a) b n = value_from-append a b (n * 10 + (c - b'0'))

decimal_fuel_small : (f n : ℕ) → ltb n 10 ≡ true → decimal_fuel (suc f) n ≡ (b'0' + n) ∷ []
unfolding decimal_fuel
decimal_fuel_small f n h = ground arith

decimal_fuel_large :
    (f n : ℕ)
    → ltb n 10 ≡ false
    → decimal_fuel (suc f) n ≡ decimal_fuel f (n / 10) ++ (b'0' + n % 10) ∷ []
unfolding decimal_fuel
decimal_fuel_large f n h = ground arith

decimal_fuel-value : (f n : ℕ) → n < f → value_from 0 (decimal_fuel f n) ≡ n
decimal_fuel-value zero n h = absurd (omega arith)
decimal_fuel-value (suc f) n h = elim (Bool-cases (ltb n 10)) [
  | inl e ↦ rw (decimal_fuel_small f n e) (omega arith)
  | inr e ↦ rw (decimal_fuel_large f n e) (
      value_from-append (decimal_fuel f (n / 10)) ((b'0' + n % 10) ∷ []) 0
      ∙ ap (λ (k : ℕ). k * 10 + (b'0' + n % 10 - b'0'))
          (decimal_fuel-value f (n / 10) (ground arith))
      ∙ omega arith)
]

decimal_fuel-IsDigit : (f n : ℕ) → All IsDigit (decimal_fuel f n)
decimal_fuel-IsDigit zero n = unfold decimal_fuel in tt
decimal_fuel-IsDigit (suc f) n = elim (Bool-cases (ltb n 10)) [
  | inl e ↦ rw (decimal_fuel_small f n e) (ground arith, tt)
  | inr e ↦ rw (decimal_fuel_large f n e) (
      All-append IsDigit (decimal_fuel f (n / 10)) ((b'0' + n % 10) ∷ [])
        (decimal_fuel-IsDigit f (n / 10)) (ground arith, tt))
]

concat-ne-nil : (a : Bytes) (c : ℕ) → a ++ c ∷ [] ≢ []
concat-ne-nil [] c = cc
concat-ne-nil (x ∷ a) c = λ h. cc

decimal_fuel-ne-nil : (f n : ℕ) → decimal_fuel (suc f) n ≢ []
decimal_fuel-ne-nil f n = elim (Bool-cases (ltb n 10)) [
  | inl e ↦ rw (decimal_fuel_small f n e) (λ h. cc)
  | inr e ↦ rw (decimal_fuel_large f n e) (concat-ne-nil (decimal_fuel f (n / 10)) (b'0' + n % 10))
]

pub decimal-value : (n : ℕ) → value_from 0 (decimal n) ≡ n
unfolding decimal
decimal-value n = decimal_fuel-value (n + 1) n (omega arith)

pub decimal-IsDigit : (n : ℕ) → All IsDigit (decimal n)
unfolding decimal
decimal-IsDigit n = decimal_fuel-IsDigit (n + 1) n

pub decimal-ne-nil : (n : ℕ) → decimal n ≢ []
unfolding decimal
decimal-ne-nil n = let e : n + 1 ≡ suc n = omega arith in rw e (decimal_fuel-ne-nil n n)

digits_of-All : (s : Bytes) → All IsDigit s → digits_of s ≡ s
unfolding digits_of
digits_of-All [] h = refl
digits_of-All (c ∷ s) h = rw h.0 (ap (λ t. c ∷ t) (digits_of-All s h.1))

after_digits-All : (s : Bytes) → All IsDigit s → after_digits s ≡ []
unfolding after_digits
after_digits-All [] h = refl
after_digits-All (c ∷ s) h = rw h.0 (after_digits-All s h.1)

digit_class :
    (c : ℕ) → IsDigit c → (is_space c ≡ false) × ((c == b'-') ≡ false) × ((c == b'+') ≡ false)
digit_class c h = ground arith

skip_digit : (c : ℕ) (s : Bytes) → IsDigit c → skip_spaces (c ∷ s) ≡ c ∷ s
unfolding skip_spaces
skip_digit c s h = rw ((digit_class c h).0)

-- A text of one digit or more is read whole, and means the number that its digits spell.
pub strtol-digits :
    (s : Bytes)
    → s ≢ []
    → All IsDigit s
    → value_from 0 s < 2 ^ 63
    → strtol s
      ≡ record { number = pos (value_from 0 s); out_of_range = false; rest = []; moved = true }
unfolding strtol
strtol-digits [] ne h lt = absurd (ne refl)
strtol-digits (c ∷ s) ne h lt =
    rw
      (
        skip_digit c s h.0,
        (digit_class c h.0).1,
        (digit_class c h.0).2,
        digits_of-All (c ∷ s) h,
        after_digits-All (c ∷ s) h,
      )
      (ground (arith, lt→ltb (value_from 0 (c ∷ s)) (2 ^ 63) lt))

-- The same behind a minus sign.
pub strtol-minus :
    (s : Bytes)
    → s ≢ []
    → All IsDigit s
    → value_from 0 s < 2 ^ 63
    → strtol (b'-' ∷ s)
      ≡ record { number = neg (value_from 0 s); out_of_range = false; rest = []; moved = true }
unfolding strtol skip_spaces
strtol-minus [] ne h lt = absurd (ne refl)
strtol-minus (c ∷ s) ne h lt =
    rw (digits_of-All (c ∷ s) h, after_digits-All (c ∷ s) h) (ground arith)

-- The values that an `int` holds.
abbrev pub IsInt : ℤ → Type 0
IsInt (pos n) = n < 2 ^ 31
IsInt (negsuc n) = n < 2 ^ 31

pub strtol-decimal :
    (n : ℕ)
    → n < 2 ^ 63
    → strtol (decimal n) ≡ record { number = pos n; out_of_range = false; rest = []; moved = true }
strtol-decimal n h =
    strtol-digits (decimal n) (decimal-ne-nil n) (decimal-IsDigit n) (rw (decimal-value n) h)
    ∙ rw (decimal-value n)

-- `atoi` reads back every `int` that `str_from_number` printed.
pub atoi-str_from_int : (z : ℤ) → IsInt z → atoi (str_from_int z) ≡ z
unfolding str_from_int decimal_ℤ atoi
atoi-str_from_int (pos n) h = rw (strtol-decimal n (omega arith)) (ground arith)
atoi-str_from_int (negsuc n) h =
    rw
      (
        strtol-minus (decimal (n + 1)) (decimal-ne-nil (n + 1)) (decimal-IsDigit (n + 1))
            (rw (decimal-value (n + 1)) (omega arith)),
        decimal-value (n + 1),
      )
      (ground arith)

-- A printed `int` has no space in it.
abbrev pub IsGraph : ℕ → Type 0
IsGraph c = is_space c ≡ false

digits-IsGraph : (s : Bytes) → All IsDigit s → All IsGraph s
digits-IsGraph [] h = tt
digits-IsGraph (c ∷ s) h = ((digit_class c h.0).0, digits-IsGraph s h.1)

pub str_from_int-IsGraph : (z : ℤ) → All IsGraph (str_from_int z)
unfolding str_from_int decimal_ℤ
str_from_int-IsGraph (pos n) = digits-IsGraph (decimal n) (decimal-IsDigit n)
str_from_int-IsGraph (negsuc n) = (refl, digits-IsGraph (decimal (n + 1)) (decimal-IsDigit (n + 1)))
