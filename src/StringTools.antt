-- ===== src/StringTools.antt =====
-- src/string_tools.cpp: trimming, splitting, lower case, prefix test and decimal output.
-- A string is a list of bytes; the functions take the source's arguments in its order.
pub mod Trim
pub mod Split
pub mod Prefix
pub mod Number
use mathlib.Core.List.{reverse}
use mathlib.Core.Option
use ipvshttpd.Libc.{skip_spaces, to_lower, strncmp_eq, decimal, decimal_ℤ}
use ipvshttpd.Prelude.Bytes.{Bytes}
use ipvshttpd.Prelude.Int.{ℤ, pos, negsuc, ltb_ℤ, eq_ℤ}
use ipvshttpd.Prelude.{
  ℕ, zero, suc, ◌+◌, Bool, true, false, not, ◌||◌, List, [], ◌∷◌, ◌++◌, map, Option, none, some,
  ◌==◌, ◌&&◌, if◌then◌else◌, length, take, drop,
}

-- `str_from_number(int)`.
unfoldable pub str_from_int : ℤ → Bytes
unfolding decimal_ℤ
str_from_int num = decimal_ℤ num

-- `str_from_number(size_t)`.
unfoldable pub str_from_size : ℕ → Bytes
unfolding decimal
str_from_size num = decimal num

-- The bytes before the first that is no space are erased.
unfoldable pub str_ltrim : Bytes → Bytes
unfolding skip_spaces
str_ltrim str = skip_spaces str

-- The search runs on the reverse iterators, and its `base()` is where the erased tail begins.
unfoldable pub str_rtrim : Bytes → Bytes
unfolding skip_spaces
str_rtrim str = reverse (skip_spaces (reverse str))

unfoldable pub str_trim : Bytes → Bytes
unfolding str_ltrim str_rtrim
str_trim str = str_ltrim (str_rtrim str)

-- `s.find(delim)`: the least index at which `delim` stands in `s`.
abbrev pub has_prefix : Bytes → Bytes → Bool
has_prefix [] s = true
has_prefix (d ∷ ds) [] = false
has_prefix (d ∷ ds) (c ∷ s) = d == c && has_prefix ds s

abbrev pub find : Bytes → Bytes → Option ℕ
find delim [] = if has_prefix delim [] then some 0 else none
find delim (c ∷ s) =
    let later = Option.map suc (find delim s) in if has_prefix delim (c ∷ s) then some 0 else later

-- The loop's guard on the tokens, `(max_elem < 0) or (tokens != max_elem)`.
abbrev pub wants_more : ℤ → ℕ → Bool
wants_more max_elem tokens = ltb_ℤ max_elem (pos 0) || not (eq_ℤ (pos tokens) max_elem)

-- The default of `max_elem`: no limit.
abbrev pub no_limit : ℤ
no_limit = negsuc 0

-- What stands behind the loop.
abbrev pub push_rest : ℤ → Bytes → List Bytes → List Bytes
push_rest max_elem s result = if not (eq_ℤ max_elem (pos 0)) then result ++ s ∷ [] else result

-- One call is one evaluation of the `while` test; `none` means that the fuel ran out first.
unfoldable pub split_loop : ℕ → Bytes → ℤ → ℕ → Bytes → List Bytes → Option (List Bytes)
split_loop zero delim max_elem tokens s result = none
split_loop (suc fuel) delim max_elem tokens s result = elim (find delim s) [
  | none ↦ some (push_rest max_elem s result)
  | some i ↦ elim (wants_more max_elem tokens) [
    | true ↦
        split_loop fuel delim max_elem (tokens + 1) (drop (i + length delim) s)
          (result ++ take i s ∷ [])
    | false ↦ some (push_rest max_elem s result)
  ]
]

-- How many parts the limit allows; without a limit, 0.
abbrev pub limit : ℤ → ℕ
limit (pos k) = k
limit (negsuc k) = 0

-- A round takes at least one byte off `s` unless `delim` is empty, and with a positive limit there are
-- fewer rounds than it says, so this fuel is enough wherever the loop of the source ends.
unfoldable pub str_split : Bytes → Bytes → ℤ → Option (List Bytes)
unfolding split_loop
str_split str delim max_elem =
    split_loop (suc (length str + limit max_elem)) delim max_elem 1 str []

unfoldable pub str_to_lower : Bytes → Bytes
str_to_lower str = map to_lower str

unfoldable pub str_starts_with : Bytes → Bytes → Bool
str_starts_with needle haystack = strncmp_eq haystack needle (length needle)
