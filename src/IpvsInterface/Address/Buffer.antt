-- ===== src/IpvsInterface/Address/Buffer.antt =====
-- C strings inside a buffer: where they end, and where a separator is found and written over.
use ipvshttpd.Libc.{c_str, strchr, strrchr, is_digit}
use ipvshttpd.IpvsInterface.{str_is_digit}
use ipvshttpd.Prelude.Bytes.{Bytes}
use ipvshttpd.Prelude.{
  ℕ, false, [], ◌∷◌, ◌++◌, none, some, ◌≡◌, ◌≢◌, refl, ap, arith, All, length, set, drop, suc,
}
use ipvshttpd.StringTools.Number.{IsDigit}
use ipvshttpd.StringTools.Prefix.{NoNul}
use ipvshttpd.StringTools.Split.{Lacks}

pub c_str-NoNul : (s : Bytes) → NoNul s → c_str s ≡ s
c_str-NoNul [] h = refl
c_str-NoNul (c ∷ s) h = ground (arith, h.0, c_str-NoNul s h.1)

pub c_str_nul : (a b : Bytes) → NoNul a → c_str (a ++ 0 ∷ b) ≡ a
c_str_nul [] b h = refl
c_str_nul (c ∷ a) b h = ground (arith, h.0, c_str_nul a b h.1)

pub set_at : (a : Bytes) (c v : ℕ) (b : Bytes) → set (a ++ c ∷ b) (length a) v ≡ a ++ v ∷ b
set_at [] c v b = refl
set_at (x ∷ a) c v b = ap (λ t. x ∷ t) (set_at a c v b)

pub strchr_first :
    (a : Bytes) (k : ℕ) (b : Bytes) → NoNul a → Lacks k a → strchr (a ++ k ∷ b) k ≡ some (length a)
strchr_first [] k b nn h = ground arith
strchr_first (c ∷ a) k b nn h = ground (arith, strchr_first a k b nn.1 h.1, nn.0, h.0)

pub strrchr-Lacks : (s : Bytes) (k : ℕ) → Lacks k s → strrchr s k ≡ none
strrchr-Lacks [] k h = refl
strrchr-Lacks (c ∷ s) k h = ground (arith, strrchr-Lacks s k h.1, h.0)

-- A terminator hides what stands behind it.
pub strrchr_nul : (a b : Bytes) (k : ℕ) → Lacks k a → strrchr (a ++ 0 ∷ b) k ≡ none
strrchr_nul [] b k h = refl
strrchr_nul (c ∷ a) b k h = ground (arith, strrchr_nul a b k h.1, h.0)

pub strrchr_last :
    (a : Bytes) (k : ℕ) (b : Bytes)
    → k ≢ 0
    → NoNul a
    → Lacks k b
    → strrchr (a ++ k ∷ b) k ≡ some (length a)
strrchr_last [] k b nz nn h = ground (arith, strrchr-Lacks b k h)
strrchr_last (c ∷ a) k b nz nn h = ground (arith, strrchr_last a k b nz nn.1 h, nn.0)

pub digit-NoNul : (s : Bytes) → All IsDigit s → NoNul s
digit-NoNul [] h = tt
digit-NoNul (c ∷ s) h = (ground (arith, h.0), digit-NoNul s h.1)

pub digit-Lacks : (s : Bytes) (k : ℕ) → is_digit k ≡ false → All IsDigit s → Lacks k s
digit-Lacks [] k nk h = tt
digit-Lacks (c ∷ s) k nk h = (ground (arith, h.0), digit-Lacks s k nk h.1)

pub not_all_digits :
    (a : Bytes) (k : ℕ) (b : Bytes) → is_digit k ≡ false → str_is_digit (a ++ k ∷ b) ≡ false
not_all_digits [] k b h = rw h refl
not_all_digits (c ∷ a) k b h = ground (arith, not_all_digits a k b h)

pub drop_after : (a : Bytes) (k : ℕ) (b : Bytes) → drop (suc (length a)) (a ++ k ∷ b) ≡ b
drop_after [] k b = refl
drop_after (c ∷ a) k b = drop_after a k b

pub set_after :
    (a : Bytes) (k c v : ℕ) (b : Bytes)
    → set (a ++ k ∷ (c ∷ b)) (suc (length a)) v ≡ a ++ k ∷ (v ∷ b)
set_after [] k c v b = refl
set_after (x ∷ a) k c v b = ap (λ t. x ∷ t) (set_after a k c v b)
