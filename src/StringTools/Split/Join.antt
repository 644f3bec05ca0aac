-- ===== src/StringTools/Split/Join.antt =====
-- The parts that `str_split` of src/string_tools.cpp returns, joined again.
use ipvshttpd.Prelude.Bytes.{Bytes}
use ipvshttpd.Prelude.Int.{ℤ, pos, negsuc, eq_ℤ}
use ipvshttpd.Prelude.{
  ℕ, zero, suc, ◌+◌, ◌≤◌, ◌<◌, ◌⊎◌, true, false, List, [], ◌∷◌, ◌++◌, append_assoc, Option, none,
  some, ◌≡◌, ◌≢◌, refl, sym, ap, ◌∙◌, inl, inr, arith, Bool-cases, Option-cases, All, length, take,
  drop,
}
use ipvshttpd.StringTools.Split.{
  split_total, join, find_sound, find-suc, round_none, round_stop, round_more,
}
use ipvshttpd.StringTools.{has_prefix, find, wants_more, push_rest, limit, split_loop, str_split}

pub some-eq {ℓ} : {A : Type ℓ} {a b : A} (o : Option A) → o ≡ some a → o ≡ some b → a ≡ b
some-eq o p q = cc

join-cons :
    (d p : Bytes) (ps : List Bytes) → 1 ≤ length ps → join d (p ∷ ps) ≡ p ++ (d ++ join d ps)
join-cons d p [] h = absurd (omega arith)
join-cons d p (q ∷ ps) h = refl

push_rest_eq :
    (m : ℤ) (s : Bytes) (acc : List Bytes)
    → eq_ℤ m (pos 0) ≡ false
    → push_rest m s acc ≡ acc ++ s ∷ []
push_rest_eq m s acc h = rw h

-- What the loop adds to the parts so far: at least one part, and they spell the unread text.
record Adds (d s : Bytes) (acc r : List Bytes) : Type 0 where
  parts : List Bytes
  appended : r ≡ acc ++ parts
  some_part : 1 ≤ length parts
  spells : join d parts ≡ s

add_last : (d s : Bytes) (acc r : List Bytes) → r ≡ acc ++ s ∷ [] → Adds d s acc r
add_last d s acc r h = record {
  parts = s ∷ [];
  appended = h;
  some_part = omega arith;
  spells = refl;
}

add_part :
    (d s : Bytes) (acc r : List Bytes) (i : ℕ)
    → find d s ≡ some i
    → Adds d (drop (i + length d) s) (acc ++ take i s ∷ []) r
    → Adds d s acc r
add_part d s acc r i e a = record {
  parts = take i s ∷ a.parts;
  appended = a.appended ∙ append_assoc acc (take i s ∷ []) a.parts;
  some_part = omega arith;
  spells =
      join-cons d (take i s) a.parts a.some_part
      ∙ ap (λ t. take i s ++ (d ++ t)) a.spells
      ∙ sym (find_sound d s i e);
}

loop-Adds :
    (fuel : ℕ) (d : Bytes) (m : ℤ) (t : ℕ) (s : Bytes) (acc r : List Bytes)
    → eq_ℤ m (pos 0) ≡ false
    → split_loop fuel d m t s acc ≡ some r
    → Adds d s acc r
loop-Adds zero d m t s acc r nz h = unfold split_loop in cc
loop-Adds (suc fuel) d m t s acc r nz h = elim (Option-cases (find d s)) [
  | inl e ↦
      add_last d s acc r (some-eq _ h (round_none fuel d m t s acc e) ∙ push_rest_eq m s acc nz)
  | inr (i, e) ↦ elim (Bool-cases (wants_more m t)) [
    | inl w ↦ add_part d s acc r i e (
        loop-Adds fuel d m (t + 1) (drop (i + length d) s) (acc ++ take i s ∷ []) r nz
          (sym (round_more fuel d m t s acc e w) ∙ h))
    | inr w ↦
        add_last d s acc r (some-eq _ h (round_stop fuel d m t s acc e w) ∙ push_rest_eq m s acc nz)
  ]
]

-- With any limit but 0, `str_split` returns, unless the delimiter is empty and there is no limit, and
-- joining the parts by the delimiter gives the text back.
pub join-split :
    (str delim : Bytes) (m : ℤ)
    → m ≢ pos 0
    → (delim ≢ []) ⊎ (0 < limit m)
    → (r : List Bytes) × (str_split str delim m ≡ some r) × (join delim r ≡ str)
unfolding str_split
join-split str delim m nz ends =
    let (r, h) = split_total str delim m ends in
    let a = loop-Adds (suc (length str + limit m)) delim m 1 str [] r (nonzero m nz) h in
    (r, h, ap (join delim) a.appended ∙ a.spells)
  where
    nonzero : (m : ℤ) → m ≢ pos 0 → eq_ℤ m (pos 0) ≡ false
    nonzero m nz = ground arith

prefix_take : (d s : Bytes) (n : ℕ) → has_prefix d (take n s) ≡ true → has_prefix d s ≡ true
prefix_take [] s n h = refl
prefix_take (x ∷ d) s zero h = cc
prefix_take (x ∷ d) [] (suc n) h = cc
prefix_take (x ∷ d) (c ∷ s) (suc n) h = ground (arith, prefix_take d s n)

find-nil : (d : Bytes) → d ≢ [] → find d [] ≡ none
find-nil [] h = absurd (h refl)
find-nil (x ∷ d) h = refl

-- Before the first place of the delimiter there is no other.
pub find-take : (d s : Bytes) (i : ℕ) → d ≢ [] → find d s ≡ some i → find d (take i s) ≡ none
find-take d s zero ne h = find-nil d ne
find-take d [] (suc i) ne h = find-nil d ne
find-take d (c ∷ s) (suc i) ne h =
    ground (arith, find-suc d c s i h, find-take d s i ne, prefix_take d (c ∷ s) (suc i))

abbrev pub Unsplit : Bytes → List Bytes → Type 0
Unsplit d = All (λ p. find d p ≡ none)

Unsplit-concat :
    (d : Bytes) (acc : List Bytes) (p : Bytes)
    → Unsplit d acc
    → find d p ≡ none
    → Unsplit d (acc ++ p ∷ [])
Unsplit-concat d [] p h e = (e, tt)
Unsplit-concat d (q ∷ acc) p h e = (h.0, Unsplit-concat d acc p h.1 e)

loop-Unsplit :
    (fuel : ℕ) (d : Bytes) (k t : ℕ) (s : Bytes) (acc r : List Bytes)
    → d ≢ []
    → Unsplit d acc
    → split_loop fuel d (negsuc k) t s acc ≡ some r
    → Unsplit d r
loop-Unsplit zero d k t s acc r ne u h = unfold split_loop in cc
loop-Unsplit (suc fuel) d k t s acc r ne u h = elim (Option-cases (find d s)) [
  | inl e ↦ rw (some-eq _ h (round_none fuel d (negsuc k) t s acc e)) (Unsplit-concat d acc s u e)
  | inr (i, e) ↦
      loop-Unsplit fuel d k (t + 1) (drop (i + length d) s) (acc ++ take i s ∷ []) r ne
        (Unsplit-concat d acc (take i s) u (find-take d s i ne e))
        (sym (round_more fuel d (negsuc k) t s acc e refl) ∙ h)
]

-- Where the delimiter is not empty and there is no limit, `str_split` cuts at every place of the
-- delimiter: no part that it returns holds it.
pub split-Unsplit :
    (str delim : Bytes) (k : ℕ) {r : List Bytes}
    → delim ≢ []
    → str_split str delim (negsuc k) ≡ some r
    → Unsplit delim r
unfolding str_split
split-Unsplit str delim k {r} ne h =
    loop-Unsplit (suc (length str + 0)) delim k 1 str [] r ne (tt) h
