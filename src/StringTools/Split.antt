-- ===== src/StringTools/Split.antt =====
-- `str_split` of src/string_tools.cpp: it returns, what it returns, and what its limit does.
pub mod Join
pub mod Limit
pub mod Byte
pub mod Fields
use mathlib.Core.Option
use ipvshttpd.Prelude.Bytes.{Bytes}
use ipvshttpd.Prelude.Int.{ℤ, pos, negsuc, ltb_ℤ, eq_ℤ}
use ipvshttpd.Prelude.{
  ℕ, zero, suc, ◌+◌, ◌-◌, ◌<◌, ◌≤◌, Bool, true, false, not, ◌||◌, ◌&&◌, List, [], ◌∷◌, ◌++◌,
  append-nil, append_assoc, Option, none, some, ◌≡◌, ◌≢◌, refl, sym, ap, ◌∙◌, ◌⊎◌, inl, inr, arith,
  Bool-cases, Option-cases, All, length, take, drop, length-drop, length-append, if◌then◌else◌,
  ◌==◌,
}
use ipvshttpd.StringTools.Prefix.{has_prefix_sound, has_prefix-append}
use ipvshttpd.StringTools.{has_prefix, find, wants_more, push_rest, limit, split_loop, str_split}

-- The parts of a text with the delimiter between them.
abbrev pub join : Bytes → List Bytes → Bytes
join delim [] = []
join delim (p ∷ []) = p
join delim (p ∷ (q ∷ ps)) = p ++ (delim ++ join delim (q ∷ ps))

-- The text does not hold the byte.
abbrev pub Lacks : ℕ → Bytes → Type 0
Lacks k = All (λ c. c ≢ k)

prefix_split : (d s : Bytes) → has_prefix d s ≡ true → s ≡ d ++ drop (length d) s
prefix_split [] s h = refl
prefix_split (x ∷ d) [] h = cc
prefix_split (x ∷ d) (c ∷ s) h = ground (arith, prefix_split d s)

find_zero : (d s : Bytes) → find d s ≡ some 0 → has_prefix d s ≡ true
find_zero d [] h = ground arith
find_zero d (c ∷ s) h = ground arith

find-suc :
    (d : Bytes) (c : ℕ) (s : Bytes) (i : ℕ)
    → find d (c ∷ s) ≡ some (suc i)
    → (has_prefix d (c ∷ s) ≡ false) × (find d s ≡ some i)
find-suc d c s i h = ground arith

not_find-suc : (d : Bytes) (i : ℕ) → find d [] ≢ some (suc i)
not_find-suc d i h = ground arith

drop-suc : (i n c : ℕ) (s : Bytes) → drop (suc i + n) (c ∷ s) ≡ drop (i + n) s
drop-suc i n c s = let e : suc i + n ≡ suc (i + n) = omega arith in rw e refl

-- A text splits where `find` finds the delimiter.
pub find_sound :
    (d s : Bytes) (i : ℕ) → find d s ≡ some i → s ≡ take i s ++ (d ++ drop (i + length d) s)
find_sound d s zero h =
    let e : 0 + length d ≡ length d = omega arith in rw e (prefix_split d s (find_zero d s h))
find_sound d [] (suc i) h = absurd (not_find-suc d i h)
find_sound d (c ∷ s) (suc i) h =
    rw drop-suc (ap (λ t. c ∷ t) (find_sound d s i (find-suc d c s i h).1))

length-take-le : (n : ℕ) (s : Bytes) → length (take n s) ≤ length s
length-take-le zero s = omega arith
length-take-le (suc n) [] = omega arith
length-take-le (suc n) (c ∷ s) = omega (arith, length-take-le n s)

pub find-le : (d s : Bytes) (i : ℕ) → find d s ≡ some i → i + length d ≤ length s
find-le d s zero h =
    let e = ap length (prefix_split d s (find_zero d s h)) in
    omega (arith, e, length-append d (drop (length d) s))
find-le d [] (suc i) h = absurd (not_find-suc d i h)
find-le d (c ∷ s) (suc i) h = omega (arith, find-le d s i (find-suc d c s i h).1)

-- The three ways through one round of the loop.
module _ (fuel : ℕ) (d : Bytes) (m : ℤ) (t : ℕ) (s : Bytes) (acc : List Bytes) where
  pub round_none : find d s ≡ none → split_loop (suc fuel) d m t s acc ≡ some (push_rest m s acc)
  unfolding split_loop
  round_none h = ground arith

  pub round_stop :
      {i : ℕ}
      → find d s ≡ some i
      → wants_more m t ≡ false
      → split_loop (suc fuel) d m t s acc ≡ some (push_rest m s acc)
  unfolding split_loop
  round_stop h w = rw (h, split_loop) (rw w refl)

  pub round_more :
      {i : ℕ}
      → find d s ≡ some i
      → wants_more m t ≡ true
      → split_loop (suc fuel) d m t s acc
        ≡ split_loop fuel d m (t + 1) (drop (i + length d) s) (acc ++ take i s ∷ [])
  unfolding split_loop
  round_more h w = rw (h, split_loop) (rw w refl)

length_pos : (d : Bytes) → d ≢ [] → 0 < length d
length_pos [] ne = absurd (ne refl)
length_pos (x ∷ d) ne = omega arith

-- No round is lost and none is repeated: with a non-empty delimiter the loop ends.
pub loop_total :
    (fuel : ℕ) (d : Bytes) (m : ℤ) (t : ℕ) (s : Bytes) (acc : List Bytes)
    → d ≢ []
    → length s < fuel
    → (r : List Bytes) × (split_loop fuel d m t s acc ≡ some r)
loop_total zero d m t s acc ne h = absurd (omega arith)
loop_total (suc fuel) d m t s acc ne h = elim (Option-cases (find d s)) [
  | inl e ↦ (push_rest m s acc, round_none fuel d m t s acc e)
  | inr (i, e) ↦ elim (Bool-cases (wants_more m t)) [
    | inl w ↦
        let (r, q) =
          loop_total fuel d m (t + 1) (drop (i + length d) s) (acc ++ take i s ∷ []) ne
            (omega (arith, length-drop (i + length d) s, find-le d s i e, length_pos d ne)) in
        (r, round_more fuel d m t s acc e w ∙ q)
    | inr w ↦ (push_rest m s acc, round_stop fuel d m t s acc e w)
  ]
]

-- With a positive limit the loop ends whatever the delimiter is, since each round adds a part.
loop_limited :
    (fuel : ℕ) (d : Bytes) (k t : ℕ) (s : Bytes) (acc : List Bytes)
    → t ≤ k
    → k < fuel + t
    → (r : List Bytes) × (split_loop fuel d (pos k) t s acc ≡ some r)
loop_limited zero d k t s acc le h = absurd (omega arith)
loop_limited (suc fuel) d k t s acc le h = elim (Option-cases (find d s)) [
  | inl e ↦ (push_rest (pos k) s acc, round_none fuel d (pos k) t s acc e)
  | inr (i, e) ↦ elim (Bool-cases (wants_more (pos k) t)) [
    | inl w ↦
        let (r, q) =
          loop_limited fuel d k (t + 1) (drop (i + length d) s) (acc ++ take i s ∷ [])
            (ground arith) (omega arith) in
        (r, round_more fuel d (pos k) t s acc e w ∙ q)
    | inr w ↦ (push_rest (pos k) s acc, round_stop fuel d (pos k) t s acc e w)
  ]
]

limited_total :
    (str delim : Bytes) (m : ℤ) → 0 < limit m → (r : List Bytes) × (str_split str delim m ≡ some r)
unfolding str_split
limited_total str d (pos k) h =
    loop_limited (suc (length str + k)) d k 1 str [] (omega arith) (omega arith)
limited_total str d (negsuc j) h = absurd (omega arith)

-- `str_split` returns for every text, unless the delimiter is empty and the limit is not positive.
pub split_total :
    (str delim : Bytes) (m : ℤ)
    → (delim ≢ []) ⊎ (0 < limit m)
    → (r : List Bytes) × (str_split str delim m ≡ some r)
unfolding str_split
split_total str d m (inl ne) = loop_total (suc (length str + limit m)) d m 1 str [] ne (omega arith)
split_total str d m (inr lt) = limited_total str d m lt
