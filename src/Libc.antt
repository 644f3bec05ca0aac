-- ===== src/Libc.antt =====
-- What the source uses of the C and C++ standard libraries, in the "C" locale: character classes,
-- C strings inside a buffer, `strtol` and `atoi` over a 64-bit `long`, decimal output, byte order.
use ipvshttpd.Prelude.{
  ℕ, zero, suc, ◌+◌, ◌-◌, ◌*◌, ◌/◌, ◌%◌, ◌^◌, Bool, true, false, not, ◌&&◌, ◌||◌, [], ◌∷◌, ◌++◌,
  Option, none, some, ltb, leb, ◌==◌, if◌then◌else◌,
}
use ipvshttpd.Prelude.Int.{ℤ, pos, negsuc, neg, to_int}
use ipvshttpd.Prelude.Bytes.{Bytes}
use mathlib.Core.Option

-- `isspace`: tab, newline, vertical tab, form feed, carriage return and space.
abbrev pub is_space : ℕ → Bool
is_space c = leb 9 c && leb c 13 || c == 32

abbrev pub is_digit : ℕ → Bool
is_digit c = leb b'0' c && leb c b'9'

abbrev pub to_lower : ℕ → ℕ
to_lower c = if leb b'A' c && leb c b'Z' then c + 32 else c

-- What `*p` reads at the start of a text: its first byte, or the terminator.
abbrev pub first : Bytes → ℕ
first [] = 0
first (c ∷ s) = c

-- The C string that starts a buffer.
abbrev pub c_str : Bytes → Bytes
c_str [] = []
c_str (c ∷ s) = if c == 0 then [] else c ∷ c_str s

-- `strncmp(a, b, n) == 0`.
abbrev pub strncmp_eq : Bytes → Bytes → ℕ → Bool
strncmp_eq a b zero = true
strncmp_eq [] [] (suc n) = true
strncmp_eq [] (d ∷ b) (suc n) = d == 0
strncmp_eq (c ∷ a) [] (suc n) = c == 0
strncmp_eq (c ∷ a) (d ∷ b) (suc n) = c == d && (c == 0 || strncmp_eq a b n)

-- `strchr` and `strrchr` for a byte other than 0, as an index from the start of the text.
abbrev pub strchr : Bytes → ℕ → Option ℕ
strchr [] k = none
strchr (c ∷ s) k =
    let later = Option.map suc (strchr s k) in
    if c == k then some 0 else if c == 0 then none else later

abbrev pub strrchr : Bytes → ℕ → Option ℕ
strrchr [] k = none
strrchr (c ∷ s) k =
    let later = strrchr s k in
    if c == 0
    then none
    else elim later [ some i ↦ some (suc i) | none ↦ if c == k then some 0 else none ]

unfoldable pub skip_spaces : Bytes → Bytes
skip_spaces [] = []
skip_spaces (c ∷ s) = if is_space c then skip_spaces s else c ∷ s

unfoldable pub digits_of : Bytes → Bytes
digits_of [] = []
digits_of (c ∷ s) = if is_digit c then c ∷ digits_of s else []

unfoldable pub after_digits : Bytes → Bytes
after_digits [] = []
after_digits (c ∷ s) = if is_digit c then after_digits s else c ∷ s

-- The number that digits spell behind `n`, with no bound.
abbrev pub value_from : ℕ → Bytes → ℕ
value_from n [] = n
value_from n (c ∷ s) = value_from (n * 10 + (c - b'0')) s

-- `strtol(s, &end, 10)`: the number, clamped to a `long`; whether `errno` is ERANGE; the text from
-- `end` on, and whether `end` has moved from the start of the text.
pub record Strtol : Type 0 where
  pub number : ℤ
  pub out_of_range : Bool
  pub rest : Bytes
  pub moved : Bool

abbrev pub is_negative : Bytes → Bool
is_negative s = first s == b'-'

abbrev pub skip_sign : Bytes → Bytes
skip_sign [] = []
skip_sign (c ∷ s) = if c == b'-' || c == b'+' then s else c ∷ s

abbrev pub clamp_long : Bool → ℕ → ℤ
clamp_long false n = if ltb n (2 ^ 63) then pos n else pos (2 ^ 63 - 1)
clamp_long true n = if leb n (2 ^ 63) then neg n else negsuc (2 ^ 63 - 1)

abbrev pub exceeds_long : Bool → ℕ → Bool
exceeds_long false n = not (ltb n (2 ^ 63))
exceeds_long true n = not (leb n (2 ^ 63))

unfoldable pub strtol_digits : Bytes → Bool → Bytes → Bytes → Strtol
strtol_digits s minus [] rest = record {
  number = pos 0;
  out_of_range = false;
  rest = s;
  moved = false;
}
strtol_digits s minus (c ∷ ds) rest =
    let n = value_from 0 (c ∷ ds) in
    record {
      number = clamp_long minus n;
      out_of_range = exceeds_long minus n;
      rest = rest;
      moved = true;
    }

unfoldable pub strtol : Bytes → Strtol
unfolding strtol_digits skip_spaces digits_of after_digits
strtol s =
    let t = skip_spaces s in
    let body = skip_sign t in strtol_digits s (is_negative t) (digits_of body) (after_digits body)

-- `atoi`: `strtol` with the `long` cut down to an `int`.
unfoldable pub atoi : Bytes → ℤ
unfolding strtol
atoi s = to_int (strtol s).number

-- Decimal digits on fuel; `n + 1` rounds are more than enough for `n`.
unfoldable pub decimal_fuel : ℕ → ℕ → Bytes
decimal_fuel zero n = []
decimal_fuel (suc f) n = elim (ltb n 10) [
  | true ↦ (b'0' + n) ∷ []
  | false ↦ decimal_fuel f (n / 10) ++ (b'0' + n % 10) ∷ []
]

unfoldable pub decimal : ℕ → Bytes
unfolding decimal_fuel
decimal n = decimal_fuel (n + 1) n

-- `operator<<` of a stream on an `int`.
unfoldable pub decimal_ℤ : ℤ → Bytes
unfolding decimal
decimal_ℤ (pos n) = decimal n
decimal_ℤ (negsuc n) = b'-' ∷ decimal (n + 1)

-- `htons` and `ntohs` on a little-endian machine: the two bytes change places.
unfoldable pub htons : ℕ → ℕ
htons n = n % 256 * 256 + n / 256 % 256
