-- ===== src/StringTools/Trim.antt =====
-- What the three trimming functions of src/string_tools.cpp keep and what they erase.
use mathlib.Core.List.{reverse, reverse-append, reverse-cons, reverse-reverse}
use ipvshttpd.Libc.{is_space, skip_spaces}
use ipvshttpd.Prelude.Bytes.{Bytes}
use ipvshttpd.Prelude.{
  ℕ, true, false, [], ◌∷◌, ◌++◌, append_assoc, ◌≡◌, refl, sym, ap, ◌∙◌, inl, inr, All, All-append,
  Bool-cases, if◌then◌else◌,
}
use ipvshttpd.StringTools.{str_ltrim, str_rtrim, str_trim}

abbrev pub IsSpace : ℕ → Type 0
IsSpace c = is_space c ≡ true

-- The text does not begin with a space.
abbrev pub StartsClean : Bytes → Type 0
StartsClean [] = Unit
StartsClean (c ∷ s) = is_space c ≡ false

-- The text does not end with a space.
abbrev pub EndsClean : Bytes → Type 0
EndsClean s = StartsClean (reverse s)

skipped : Bytes → Bytes
skipped [] = []
skipped (c ∷ s) = if is_space c then c ∷ skipped s else []

skipped-All : (s : Bytes) → All IsSpace (skipped s)
unfolding skipped
skipped-All [] = tt
skipped-All (c ∷ s) = elim (Bool-cases (is_space c)) [
  | inl h ↦ rw h (h, skipped-All s)
  | inr h ↦ rw h tt
]

skipped-append : (s : Bytes) → skipped s ++ skip_spaces s ≡ s
unfolding skipped skip_spaces
skipped-append [] = refl
skipped-append (c ∷ s) = elim (Bool-cases (is_space c)) [
  | inl h ↦ rw h (ap (λ t. c ∷ t) (skipped-append s))
  | inr h ↦ rw h refl
]

pub skip_spaces-StartsClean : (s : Bytes) → StartsClean (skip_spaces s)
unfolding skip_spaces
skip_spaces-StartsClean [] = tt
skip_spaces-StartsClean (c ∷ s) = elim (Bool-cases (is_space c)) [
  | inl h ↦ rw h (skip_spaces-StartsClean s)
  | inr h ↦ rw h h
]

pub skip_spaces_clean : (s : Bytes) → StartsClean s → skip_spaces s ≡ s
unfolding skip_spaces
skip_spaces_clean [] h = refl
skip_spaces_clean (c ∷ s) h = rw h

-- Spaces are skipped up to the first byte that is none, whatever stands behind it.
pub skip_spaces-append :
    (a : Bytes) (c : ℕ) (b : Bytes)
    → is_space c ≡ false
    → skip_spaces (a ++ c ∷ b) ≡ skip_spaces a ++ c ∷ b
unfolding skip_spaces
skip_spaces-append [] c b h = rw h
skip_spaces-append (x ∷ a) c b h = elim (Bool-cases (is_space x)) [
  | inl e ↦ rw e (skip_spaces-append a c b h)
  | inr e ↦ rw e refl
]

All-reverse : (s : Bytes) → All IsSpace s → All IsSpace (reverse s)
All-reverse [] h = tt
All-reverse (c ∷ s) h =
    rw reverse-cons (All-append IsSpace (reverse s) (c ∷ []) (All-reverse s h.1) (h.0, tt))

rtrim_tail : Bytes → Bytes
rtrim_tail s = reverse (skipped (reverse s))

rtrim-append : (s : Bytes) → str_rtrim s ++ rtrim_tail s ≡ s
unfolding rtrim_tail str_rtrim
rtrim-append s =
    sym (reverse-append (skipped (reverse s)) (skip_spaces (reverse s)))
    ∙ ap reverse (skipped-append (reverse s))
    ∙ reverse-reverse s

pub rtrim-EndsClean : (s : Bytes) → EndsClean (str_rtrim s)
unfolding str_rtrim
rtrim-EndsClean s =
    rw (reverse-reverse (skip_spaces (reverse s))) (skip_spaces-StartsClean (reverse s))

pub rtrim_clean : (s : Bytes) → EndsClean s → str_rtrim s ≡ s
unfolding str_rtrim
rtrim_clean s h = ap reverse (skip_spaces_clean (reverse s) h) ∙ reverse-reverse s

-- A byte that is no space shields all before it from the trimming of the right end.
pub rtrim-shield :
    (a : Bytes) (c : ℕ) (b : Bytes)
    → is_space c ≡ false
    → str_rtrim (a ++ c ∷ b) ≡ a ++ c ∷ str_rtrim b
unfolding str_rtrim
rtrim-shield a c b h =
    ap (λ t. reverse (skip_spaces t)) (reverse-append a (c ∷ b))
    ∙ ap (λ t. reverse (skip_spaces (t ++ reverse a))) (reverse-cons c b)
    ∙ ap (λ t. reverse (skip_spaces t)) (append_assoc (reverse b) (c ∷ []) (reverse a))
    ∙ ap reverse (skip_spaces-append (reverse b) c (reverse a) h)
    ∙ reverse-append (skip_spaces (reverse b)) (c ∷ reverse a)
    ∙ ap (λ t. t ++ reverse (skip_spaces (reverse b))) (reverse-cons c (reverse a))
    ∙ append_assoc (reverse (reverse a)) (c ∷ []) (reverse (skip_spaces (reverse b)))
    ∙ ap (λ t. t ++ c ∷ reverse (skip_spaces (reverse b))) (reverse-reverse a)

StartsClean-left : (a b : Bytes) → StartsClean (a ++ b) → StartsClean a
StartsClean-left [] b h = tt
StartsClean-left (c ∷ a) b h = h

-- Erasing spaces at the left end keeps the right end clean.
skip_spaces-EndsClean : (s : Bytes) → EndsClean s → EndsClean (skip_spaces s)
skip_spaces-EndsClean s h =
    StartsClean-left (reverse (skip_spaces s)) (reverse (skipped s))
      (rw (← reverse-append (skipped s) (skip_spaces s), skipped-append s) h)

pub trim-StartsClean : (s : Bytes) → StartsClean (str_trim s)
unfolding str_trim
trim-StartsClean s = skip_spaces-StartsClean (str_rtrim s)

pub trim-EndsClean : (s : Bytes) → EndsClean (str_trim s)
unfolding str_trim
trim-EndsClean s = skip_spaces-EndsClean (str_rtrim s) (rtrim-EndsClean s)

pub trim_clean : (s : Bytes) → StartsClean s → EndsClean s → str_trim s ≡ s
unfolding str_trim
trim_clean s hs he = rw (rtrim_clean s he) (skip_spaces_clean s hs)

-- Trimming a trimmed text changes nothing.
pub trim_idem : (s : Bytes) → str_trim (str_trim s) ≡ str_trim s
trim_idem s = trim_clean (str_trim s) (trim-StartsClean s) (trim-EndsClean s)

-- `str_trim` erases spaces at the two ends and nothing else: the text is the result between two
-- runs of spaces, and the result neither begins nor ends with a space.
pub trim_cuts :
    (s : Bytes)
    → (l : Bytes) × (r : Bytes) × (s ≡ l ++ str_trim s ++ r)
      × All IsSpace l
      × All IsSpace r
      × StartsClean (str_trim s)
      × EndsClean (str_trim s)
unfolding str_trim
trim_cuts s = (
  skipped (str_rtrim s),
  rtrim_tail s,
  sym (rtrim-append s) ∙ ap (λ t. t ++ rtrim_tail s) (sym (skipped-append (str_rtrim s))),
  skipped-All (str_rtrim s),
  unfold rtrim_tail in All-reverse _ (skipped-All (reverse s)),
  trim-StartsClean s,
  trim-EndsClean s,
)

StartsClean-more :
    (x : Bytes) (a b : ℕ) → StartsClean (x ++ a ∷ []) → StartsClean ((x ++ a ∷ []) ++ b ∷ [])
StartsClean-more [] a b h = h
StartsClean-more (c ∷ x) a b h = h

EndsClean-cons : (b a : ℕ) (s : Bytes) → EndsClean (a ∷ s) → EndsClean (b ∷ (a ∷ s))
EndsClean-cons b a s h =
    rw (reverse-cons b (a ∷ s), reverse-cons a s)
      (StartsClean-more (reverse s) a b (rw (← reverse-cons a s) h))

-- One more space in front of a trimmed text is trimmed away.
pub trim-space_cons : (v : Bytes) → str_trim v ≡ v → str_trim (b' ' ∷ v) ≡ v
trim-space_cons [] h = unfold str_trim in refl
trim-space_cons (a ∷ s) h =
    let starts : StartsClean (a ∷ s) = rw h at (trim-StartsClean (a ∷ s)) in
    let ends : EndsClean (a ∷ s) = rw h at (trim-EndsClean (a ∷ s)) in
    unfold str_trim str_ltrim in
    rw (rtrim_clean (b' ' ∷ (a ∷ s)) (EndsClean-cons b' ' a s ends))
      (skip_spaces_clean (a ∷ s) starts)

abbrev pub NoSpace : Bytes → Type 0
NoSpace = All (λ c. is_space c ≡ false)

NoSpace-StartsClean : (s : Bytes) → NoSpace s → StartsClean s
NoSpace-StartsClean [] h = tt
NoSpace-StartsClean (c ∷ s) h = h.0

NoSpace-reverse : (s : Bytes) → NoSpace s → NoSpace (reverse s)
NoSpace-reverse [] h = tt
NoSpace-reverse (c ∷ s) h =
    rw reverse-cons
      (All-append (λ c. is_space c ≡ false) (reverse s) (c ∷ []) (NoSpace-reverse s h.1) (h.0, tt))

pub trim-NoSpace : (s : Bytes) → NoSpace s → str_trim s ≡ s
trim-NoSpace s h =
    trim_clean s (NoSpace-StartsClean s h) (NoSpace-StartsClean (reverse s) (NoSpace-reverse s h))
