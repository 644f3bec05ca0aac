-- ===== src/StringTools/Split/Fields.antt =====
-- `str_split` of src/string_tools.cpp at one byte and without a limit, against a split byte by byte.
use ipvshttpd.Prelude.Bytes.{Bytes}
use ipvshttpd.Prelude.Int.{negsuc}
use ipvshttpd.Prelude.{
  ℕ, zero, suc, ◌+◌, ◌<◌, true, false, List, [], ◌∷◌, ◌++◌, append_assoc, none, some, ◌≡◌, refl,
  sym, ap, ◌∙◌, inl, inr, arith, Option-cases, length, take, drop, length-drop, ◌==◌, if◌then◌else◌,
}
use ipvshttpd.StringTools.Split.Join.{find-take}
use ipvshttpd.StringTools.Split.{Lacks, find_sound, find-le, round_none, round_more}
use ipvshttpd.StringTools.{find, split_loop, str_split}

-- The byte goes to the front of the first part.
abbrev pub put_first : ℕ → List Bytes → List Bytes
put_first c [] = (c ∷ []) ∷ []
put_first c (p ∷ ps) = (c ∷ p) ∷ ps

-- The parts of a text, read from its end: the separator opens a new part, any other byte joins one.
abbrev pub fields : ℕ → Bytes → List Bytes
fields k [] = [] ∷ []
fields k (c ∷ s) = let later = fields k s in if c == k then [] ∷ later else put_first c later

not_found-Lacks : (k : ℕ) (s : Bytes) → find (k ∷ []) s ≡ none → Lacks k s
not_found-Lacks k [] h = tt
not_found-Lacks k (c ∷ s) h = (ground arith, not_found-Lacks k s (ground arith))

fields_alone : (k : ℕ) (s : Bytes) → Lacks k s → fields k s ≡ s ∷ []
fields_alone k [] h = refl
fields_alone k (c ∷ s) h =
    let e : (c == k) ≡ false = ground (arith, h.0) in rw (e, fields_alone k s h.1) refl

fields_cut : (k : ℕ) (a b : Bytes) → Lacks k a → fields k (a ++ k ∷ b) ≡ a ∷ fields k b
fields_cut k [] b h = let e : (k == k) ≡ true = ground arith in rw e refl
fields_cut k (c ∷ a) b h =
    let e : (c == k) ≡ false = ground (arith, h.0) in rw (e, fields_cut k a b h.1) refl

loop-fields :
    (fuel k j t : ℕ) (s : Bytes) (acc : List Bytes)
    → length s < fuel
    → split_loop fuel (k ∷ []) (negsuc j) t s acc ≡ some (acc ++ fields k s)
loop-fields zero k j t s acc h = absurd (omega arith)
loop-fields (suc fuel) k j t s acc h = elim (Option-cases (find (k ∷ []) s)) [
  | inl e ↦
      round_none fuel (k ∷ []) (negsuc j) t s acc e
      ∙ ap (λ ps. some (acc ++ ps)) (sym (fields_alone k s (not_found-Lacks k s e)))
  | inr (i, e) ↦
      round_more fuel (k ∷ []) (negsuc j) t s acc e refl
      ∙ loop-fields fuel k j (t + 1) (drop (i + 1) s) (acc ++ take i s ∷ [])
          (omega (arith, length-drop (i + 1) s, find-le (k ∷ []) s i e))
      ∙ ap some (append_assoc acc (take i s ∷ []) (fields k (drop (i + 1) s)))
      ∙ ap (λ ps. some (acc ++ ps))
          (sym (
            ap (fields k) (find_sound (k ∷ []) s i e)
            ∙ fields_cut k (take i s) (drop (i + 1) s)
                (not_found-Lacks k (take i s) (find-take (k ∷ []) s i (λ n. cc) e))))
]

-- At a delimiter of one byte and without a limit, `str_split` returns exactly the parts of the text that
-- one pass over its bytes finds.
pub str_split-fields :
    (str : Bytes) (k j : ℕ) → str_split str (k ∷ []) (negsuc j) ≡ some (fields k str)
unfolding str_split
str_split-fields str k j = loop-fields (suc (length str + 0)) k j 1 str [] (omega arith)
