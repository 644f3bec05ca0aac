-- ===== src/IpvsInterface/Frame/Overwrites.antt =====
-- The buffer of `m_parse_service` of src/ipvs_interface.cpp: which of its bytes are overwritten.
use ipvshttpd.Libc.{first, strchr, strrchr}
use ipvshttpd.Prelude.Bytes.{Bytes}
use ipvshttpd.Prelude.{
  ℕ, zero, suc, ◌+◌, [], ◌∷◌, some, ◌≡◌, ◌≢◌, refl, sym, ◌⊎◌, inl, arith, drop, set,
}

-- One byte of a buffer that was written: kept, or a `]` or `:` overwritten by 0.
abbrev pub Kept : ℕ → ℕ → Type 0
Kept b b' = (b' ≡ b) ⊎ ((b' ≡ 0) × ((b ≡ b']') ⊎ (b ≡ b':')))

-- The buffer keeps its length, and byte for byte only separators are overwritten.
abbrev pub Cut : Bytes → Bytes → Type 0
Cut [] [] = Unit
Cut (b ∷ s) (c ∷ t) = Kept b c × Cut s t
Cut _ _ = ⊥

pub Cut-refl : (s : Bytes) → Cut s s
Cut-refl [] = tt
Cut-refl (b ∷ s) = (inl refl, Cut-refl s)

pub Cut-trans : (s t u : Bytes) → Cut s t → Cut t u → Cut s u
Cut-trans [] [] [] h k = tt
Cut-trans (b ∷ s) (c ∷ t) (d ∷ u) (h, hs) (k, ks) = (ground arith, Cut-trans s t u hs ks)
Cut-trans [] [] (d ∷ u) h k = absurd k
Cut-trans [] (c ∷ t) u h k = absurd h
Cut-trans (b ∷ s) [] u h k = absurd h
Cut-trans (b ∷ s) (c ∷ t) [] h k = absurd k

-- The byte at an index of a buffer.
abbrev pub At : Bytes → ℕ → ℕ → Type 0
At [] i k = ⊥
At (c ∷ s) zero k = c ≡ k
At (c ∷ s) (suc i) k = At s i k

pub strchr-At : (s : Bytes) (k i : ℕ) → strchr s k ≡ some i → At s i k
strchr-At [] k i h = cc
strchr-At (c ∷ s) k zero h = ground arith
strchr-At (c ∷ s) k (suc i) h = strchr-At s k i (ground arith)

pub strrchr-At : (s : Bytes) (k i : ℕ) → strrchr s k ≡ some i → At s i k
strrchr-At [] k i h = cc
strrchr-At (c ∷ s) k zero h = ground arith
strrchr-At (c ∷ s) k (suc i) h = strrchr-At s k i (ground arith)

pub At-drop : (start : ℕ) (s : Bytes) (j k : ℕ) → At (drop start s) j k → At s (start + j) k
At-drop zero s j k h = let e : 0 + j ≡ j = omega arith in rw e h
At-drop (suc start) [] j k h = absurd h
At-drop (suc start) (c ∷ s) j k h =
    let e : suc start + j ≡ suc (start + j) = omega arith in rw e (At-drop start s j k h)

pub first-At : (p : ℕ) (s : Bytes) (k : ℕ) → k ≢ 0 → first (drop p s) ≡ k → At s p k
first-At zero [] k nz h = nz (sym h)
first-At zero (c ∷ s) k nz h = h
first-At (suc p) [] k nz h = nz (sym h)
first-At (suc p) (c ∷ s) k nz h = first-At p s k nz h

pub set-Cut : (s : Bytes) (i k : ℕ) → At s i k → (k ≡ b']') ⊎ (k ≡ b':') → Cut s (set s i 0)
set-Cut [] i k a h = tt
set-Cut (c ∷ s) zero k a h = (ground arith, Cut-refl s)
set-Cut (c ∷ s) (suc i) k a h = (inl refl, set-Cut s i k a h)
