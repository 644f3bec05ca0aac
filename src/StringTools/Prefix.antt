-- ===== src/StringTools/Prefix.antt =====
-- `str_starts_with` of src/string_tools.cpp against the plain notion of a prefix.
use ipvshttpd.Prelude.Bytes.{Bytes}
use ipvshttpd.Prelude.{true, [], ◌∷◌, ◌++◌, ◌≡◌, ◌≢◌, ◌↔◌, refl, ◌∙◌, arith, All, length}
use ipvshttpd.Libc.{strncmp_eq}
use ipvshttpd.StringTools.{has_prefix, str_starts_with}

-- No byte of the text is the terminator.
abbrev pub NoNul : Bytes → Type 0
NoNul = All (λ c. c ≢ 0)

pub has_prefix_sound : (a s : Bytes) → has_prefix a s ≡ true → (rest : Bytes) × (s ≡ a ++ rest)
has_prefix_sound [] s h = (s, refl)
has_prefix_sound (d ∷ a) [] h = cc
has_prefix_sound (d ∷ a) (c ∷ s) h =
    let (rest, e) = has_prefix_sound a s (ground arith) in (rest, ground arith)

pub has_prefix-append : (a rest : Bytes) → has_prefix a (a ++ rest) ≡ true
has_prefix-append [] rest = refl
has_prefix-append (d ∷ a) rest = ground (arith, has_prefix-append a rest)

strncmp_eq-has_prefix : (a s : Bytes) → NoNul a → strncmp_eq s a (length a) ≡ has_prefix a s
strncmp_eq-has_prefix [] s h = refl
strncmp_eq-has_prefix (d ∷ a) [] h = ground (arith, h.0)
strncmp_eq-has_prefix (d ∷ a) (c ∷ s) h = ground (arith, h.0, strncmp_eq-has_prefix a s h.1)

pub starts_with-has_prefix :
    (needle haystack : Bytes)
    → NoNul needle
    → str_starts_with needle haystack ≡ has_prefix needle haystack
unfolding str_starts_with
starts_with-has_prefix needle haystack h = strncmp_eq-has_prefix needle haystack h

-- For a needle with no NUL byte `str_starts_with` answers true exactly when the haystack is the
-- needle with something behind it.
pub starts_with_iff :
    (needle haystack : Bytes)
    → NoNul needle
    → (str_starts_with needle haystack ≡ true) ↔ ((rest : Bytes) × (haystack ≡ needle ++ rest))
starts_with_iff needle haystack h = (
  λ e. has_prefix_sound needle haystack (rw (← starts_with-has_prefix needle haystack h) e),
  λ p. starts_with-has_prefix needle haystack h ∙ rw (p.1) (has_prefix-append needle p.0),
)
