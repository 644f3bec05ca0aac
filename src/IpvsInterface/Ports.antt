-- ===== src/IpvsInterface/Ports.antt =====
-- Port numbers in src/ipvs_interface.cpp: their text, their range and their byte order.
use ipvshttpd.IpvsInterface.{string_to_number}
use ipvshttpd.Libc.{first, htons, strtol, decimal}
use ipvshttpd.Prelude.Bytes.{Bytes}
use ipvshttpd.Prelude.Int.{ℤ, pos, negsuc, leb_ℤ, to_int}
use ipvshttpd.Prelude.{
  ℕ, ◌^◌, ◌<◌, ◌≤◌, Bool, true, false, not, ◌&&◌, ◌≡◌, refl, ◌⊎◌, inl, inr, arith, Bool-cases, leb,
  ◌==◌, if◌then◌else◌,
}
use ipvshttpd.StringTools.Number.{strtol-decimal}

-- The bytes of a port change places and back.
pub htons-htons : (n : ℕ) → n < 2 ^ 16 → htons (htons n) ≡ n
unfolding htons
htons-htons n h = omega arith

pub htons-lt : (n : ℕ) → htons n < 2 ^ 16
unfolding htons
htons-lt n = omega arith

pub htons_zero : (n : ℕ) → n < 2 ^ 16 → htons n ≡ 0 → n ≡ 0
unfolding htons
htons_zero n h e = omega arith

abbrev kept : Bool → Bool → ℤ → ℤ → ℤ → ℤ
kept whole exact z min max =
    if whole then (if exact && leb_ℤ min z && leb_ℤ z max then to_int z else negsuc 0) else negsuc 0

kept_range :
    (whole exact : Bool) (z : ℤ) (lo hi : ℕ)
    → hi < 2 ^ 31
    → (kept whole exact z (pos lo) (pos hi) ≡ negsuc 0)
      ⊎ ((n : ℕ) × (kept whole exact z (pos lo) (pos hi) ≡ pos n) × (lo ≤ n) × (n ≤ hi))
kept_range false exact z lo hi h = inl refl
kept_range true false z lo hi h = inl refl
kept_range true true (negsuc n) lo hi h = inl refl
kept_range true true (pos n) lo hi h = elim (Bool-cases (leb lo n && leb n hi)) [
  | inl e ↦ inr (n, ground arith, ground arith, ground arith)
  | inr e ↦ inl (ground arith)
]

-- The result is -1 or a number in the range, for every text.
pub string_to_number_range :
    (s : Bytes) (lo hi : ℕ)
    → hi < 2 ^ 31
    → (string_to_number s (pos lo) (pos hi) ≡ negsuc 0)
      ⊎ ((n : ℕ) × (string_to_number s (pos lo) (pos hi) ≡ pos n) × (lo ≤ n) × (n ≤ hi))
unfolding string_to_number
string_to_number_range s lo hi h =
    kept_range (first (strtol s).rest == 0 && (strtol s).moved) (not (strtol s).out_of_range)
      (strtol s).number lo hi h

-- With the bounds 0 and `hi`, an `int`, the decimal text of a number below 2 ^ 63 is read as that
-- number, if it is at most `hi`, and else refused.
pub string_to_number-decimal :
    (n hi : ℕ)
    → hi < 2 ^ 31
    → n < 2 ^ 63
    → string_to_number (decimal n) (pos 0) (pos hi) ≡ (if leb n hi then pos n else negsuc 0)
unfolding string_to_number
string_to_number-decimal n hi h lt = rw (strtol-decimal n lt) (ground arith)
