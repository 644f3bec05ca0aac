-- ===== src/StringTools/Split/Byte.antt =====
-- `str_split` of src/string_tools.cpp at a delimiter of one byte, as its callers use it.
use ipvshttpd.Prelude.Bytes.{Bytes}
use ipvshttpd.Prelude.Int.{pos}
use ipvshttpd.Prelude.{
  ℕ, suc, ◌+◌, List, [], ◌∷◌, ◌++◌, none, some, ◌≡◌, refl, ◌∙◌, inl, inr, arith, Option-cases,
  length, drop, length-append, take-append_length,
}
use ipvshttpd.StringTools.Split.{Lacks, round_none, round_stop, round_more}
use ipvshttpd.StringTools.{find, split_loop, str_split}

pub find-Lacks : (k : ℕ) (s : Bytes) → Lacks k s → find (k ∷ []) s ≡ none
find-Lacks k [] h = refl
find-Lacks k (c ∷ s) h = ground (arith, find-Lacks k s h.1, h.0)

pub find_first : (k : ℕ) (a b : Bytes) → Lacks k a → find (k ∷ []) (a ++ k ∷ b) ≡ some (length a)
find_first k [] b h = ground arith
find_first k (c ∷ a) b h = ground (arith, find_first k a b h.1, h.0)

pub drop_past : (a : Bytes) (k : ℕ) (b : Bytes) → drop (length a + 1) (a ++ k ∷ b) ≡ b
drop_past [] k b = let e : 0 + 1 ≡ 1 = refl in refl
drop_past (c ∷ a) k b =
    let e : suc (length a) + 1 ≡ suc (length a + 1) = omega arith in rw e (drop_past a k b)

split_two_round :
    (fuel k : ℕ) (b : Bytes) (acc : List Bytes)
    → split_loop (suc fuel) (k ∷ []) (pos 2) 2 b acc ≡ some (acc ++ b ∷ [])
split_two_round fuel k b acc = elim (Option-cases (find (k ∷ []) b)) [
  | inl e ↦ round_none fuel (k ∷ []) (pos 2) 2 b acc e
  | inr (i, e) ↦ round_stop fuel (k ∷ []) (pos 2) 2 b acc e refl
]

-- At a limit of 2 a text is cut at the first delimiter only.
pub split_two :
    (k : ℕ) (a b : Bytes) → Lacks k a → str_split (a ++ k ∷ b) (k ∷ []) (pos 2) ≡ some (a ∷ b ∷ [])
unfolding str_split
split_two k a b h =
    let e : length (a ++ k ∷ b) + 2 ≡ suc (length a + length b + 2) =
      omega (arith, length-append a (k ∷ b)) in
    rw e (
      round_more (suc (length a + length b + 2)) (k ∷ []) (pos 2) 1 (a ++ k ∷ b) []
        (find_first k a b h) refl
      ∙ rw (drop_past a k b, take-append_length a (k ∷ b))
          (split_two_round (length a + length b + 2) k b (a ∷ [])))

-- A text without the delimiter is one part.
pub split_one : (k : ℕ) (a : Bytes) → Lacks k a → str_split a (k ∷ []) (pos 2) ≡ some (a ∷ [])
unfolding str_split
split_one k a h = round_none (length a + 2) (k ∷ []) (pos 2) 1 a [] (find-Lacks k a h)
