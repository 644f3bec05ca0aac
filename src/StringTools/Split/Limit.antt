-- ===== src/StringTools/Split/Limit.antt =====
-- The argument `max_elem` of `str_split` in src/string_tools.cpp.
use ipvshttpd.Prelude.Bytes.{Bytes}
use ipvshttpd.Prelude.Int.{ℤ, pos, negsuc}
use ipvshttpd.Prelude.{
  ℕ, zero, suc, ◌+◌, ◌<◌, ◌≤◌, List, [], ◌∷◌, ◌++◌, none, some, ◌≡◌, ◌≢◌, refl, sym, ap, ◌∙◌, inl,
  inr, arith, Bool-cases, Option-cases, length, take, drop, length-append,
}
use ipvshttpd.StringTools.Split.Join.{some-eq}
use ipvshttpd.StringTools.Split.{round_none, round_stop, round_more, loop_total, split_total}
use ipvshttpd.StringTools.{find, wants_more, push_rest, split_loop, str_split}

length-push_rest :
    (m : ℤ) (s : Bytes) (acc : List Bytes) → length (push_rest m s acc) ≤ length acc + 1
length-push_rest m s acc = ground (arith, length-append acc (s ∷ []))

loop-length :
    (fuel : ℕ) (d : Bytes) (k t : ℕ) (s : Bytes) (acc r : List Bytes)
    → t ≤ k
    → length acc + 1 ≤ t
    → split_loop fuel d (pos k) t s acc ≡ some r
    → length r ≤ k
loop-length zero d k t s acc r lt la h = unfold split_loop in cc
loop-length (suc fuel) d k t s acc r lt la h = elim (Option-cases (find d s)) [
  | inl e ↦ omega (
    arith,
    ap length (some-eq _ h (round_none fuel d (pos k) t s acc e)),
    length-push_rest (pos k) s acc,
  )
  | inr (i, e) ↦ elim (Bool-cases (wants_more (pos k) t)) [
    | inl w ↦
        loop-length fuel d k (t + 1) (drop (i + length d) s) (acc ++ take i s ∷ []) r (ground arith)
          (omega (arith, length-append acc (take i s ∷ [])))
          (sym (round_more fuel d (pos k) t s acc e w) ∙ h)
    | inr w ↦ omega (
      arith,
      ap length (some-eq _ h (round_stop fuel d (pos k) t s acc e w)),
      length-push_rest (pos k) s acc,
    )
  ]
]

-- With a positive limit `str_split` returns, whatever the delimiter is, and at most that many parts.
pub length-split :
    (str delim : Bytes) (k : ℕ)
    → 0 < k
    → (r : List Bytes) × (str_split str delim (pos k) ≡ some r) × (length r ≤ k)
unfolding str_split
length-split str delim k lt =
    let (r, h) = split_total str delim (pos k) (inr lt) in
    (r, h, loop-length (suc (length str + k)) delim k 1 str [] r (omega arith) (omega arith) h)

loop_zero :
    (fuel : ℕ) (d : Bytes) (t : ℕ) (s : Bytes) (acc r : List Bytes)
    → 0 < t
    → split_loop fuel d (negsuc 0) t s acc ≡ some r
    → (front : List Bytes) × (last : Bytes) × (r ≡ front ++ last ∷ [])
      × (split_loop fuel d (pos 0) t s acc ≡ some front)
loop_zero zero d t s acc r lt h = unfold split_loop in cc
loop_zero (suc fuel) d t s acc r lt h = elim (Option-cases (find d s)) [
  | inl e ↦ (
    acc,
    s,
    some-eq _ h (round_none fuel d (negsuc 0) t s acc e),
    round_none fuel d (pos 0) t s acc e,
  )
  | inr (i, e) ↦
      let (front, last, p, q) =
        loop_zero fuel d (t + 1) (drop (i + length d) s) (acc ++ take i s ∷ []) r (omega arith)
          (sym (round_more fuel d (negsuc 0) t s acc e refl) ∙ h) in
      (front, last, p, round_more fuel d (pos 0) t s acc e (ground arith) ∙ q)
]

-- With a delimiter that is not empty, a limit of 0 cuts at every place of the delimiter, as no limit
-- does, and then loses the last part.
pub split_zero :
    (str delim : Bytes)
    → delim ≢ []
    → (front : List Bytes) × (last : Bytes) × (str_split str delim (pos 0) ≡ some front)
      × (str_split str delim (negsuc 0) ≡ some (front ++ last ∷ []))
unfolding str_split
split_zero str delim ne =
    let (r, h) = loop_total (suc (length str + 0)) delim (negsuc 0) 1 str [] ne (omega arith) in
    let (front, last, p, q) = loop_zero (suc (length str + 0)) delim 1 str [] r (omega arith) h in
    (front, last, q, h ∙ ap some p)

-- With an empty delimiter and no limit the loop of `str_split` never ends: no fuel is enough.
pub empty_delimiter_loops :
    (fuel k t : ℕ) (s : Bytes) (acc : List Bytes) → split_loop fuel [] (negsuc k) t s acc ≡ none
empty_delimiter_loops zero k t s acc = unfold split_loop in refl
empty_delimiter_loops (suc fuel) k t s acc =
    round_more fuel [] (negsuc k) t s acc (found s) refl
    ∙ empty_delimiter_loops fuel k (t + 1) (drop (0 + 0) s) (acc ++ take 0 s ∷ [])
  where
    found : (s : Bytes) → find [] s ≡ some 0
    found [] = refl
    found (c ∷ s) = refl
