-- ===== src/Configuration/Lines.antt =====
-- One line of the configuration file of src/configuration.cpp.
use ipvshttpd.Libc.{is_space}
use ipvshttpd.Configuration.{Config, set_key, set_pair, line_effect}
use ipvshttpd.Prelude.Bytes.{Bytes, codes}
use ipvshttpd.Prelude.{
  ℕ, false, [], ◌∷◌, ◌++◌, none, some, ◌≡◌, ◌≢◌, refl, ap, ◌∙◌, ◌⊎◌, inl, inr, arith, ◌==◌,
}
use ipvshttpd.StringTools.Prefix.{starts_with-has_prefix}
use ipvshttpd.StringTools.Split.Byte.{split_two, split_one}
use ipvshttpd.StringTools.Split.{Lacks}
use ipvshttpd.StringTools.Trim.{rtrim-shield, rtrim_clean, rtrim-EndsClean, skip_spaces_clean}
use ipvshttpd.StringTools.{str_ltrim, str_rtrim, str_trim, str_to_lower, str_starts_with}

-- A key as a line may begin with it: no space and no `#` in front, and no colon inside.
abbrev pub IsKey : Bytes → Type 0
IsKey [] = ⊥
IsKey (a ∷ k) = (is_space a ≡ false) × (a ≢ b'#') × Lacks b':' (a ∷ k)

trim-rtrim : (x : Bytes) → str_trim (str_rtrim x) ≡ str_trim x
unfolding str_trim
trim-rtrim x = ap str_ltrim (rtrim_clean (str_rtrim x) (rtrim-EndsClean x))

trim-colon :
    (a : ℕ) (k x : Bytes)
    → is_space a ≡ false
    → str_trim (a ∷ (k ++ b':' ∷ x)) ≡ a ∷ (k ++ b':' ∷ str_rtrim x)
unfolding str_trim str_ltrim
trim-colon a k x h =
    rw (rtrim-shield (a ∷ k) b':' x refl) (skip_spaces_clean (a ∷ (k ++ b':' ∷ str_rtrim x)) h)

hash_first : (a : ℕ) (s : Bytes) → str_starts_with (codes "#") (a ∷ s) ≡ (b'#' == a)
hash_first a s =
    starts_with-has_prefix (codes "#") (a ∷ s) (λ (e : b'#' ≡ 0). omega arith, tt) ∙ ground arith

not_hash : (a : ℕ) → a ≢ b'#' → (b'#' == a) ≡ false
not_hash a h = ground arith

-- A line `key:rest`, whose key begins with neither a space nor `#` and has no colon, sets the key, in
-- lower case, to what stands behind the first colon, trimmed, whatever further colons stand there.
pub line_effect-colon :
    (k x : Bytes) (c : Config)
    → IsKey k
    → line_effect (k ++ b':' ∷ x) c ≡ set_key (str_to_lower k) (str_trim x) c
unfolding line_effect
line_effect-colon [] x c h = absurd h
line_effect-colon (a ∷ k) x c h =
    rw
      (
        trim-colon a k x h.0,
        hash_first a (k ++ b':' ∷ str_rtrim x),
        not_hash a h.1,
        split_two b':' (a ∷ k) (str_rtrim x) h.2,
      )
      (unfold set_pair in rw (trim-rtrim x))

-- The lines that are skipped: those of spaces alone, and those whose first byte that is no space
-- is `#`.
pub line_effect-skip :
    (raw : Bytes) (c : Config)
    → (str_trim raw ≡ []) ⊎ ((s : Bytes) × (str_trim raw ≡ b'#' ∷ s))
    → line_effect raw c ≡ some c
unfolding line_effect
line_effect-skip raw c (inl e) = rw e refl
line_effect-skip raw c (inr (s, e)) = rw (e, hash_first b'#' s) refl

-- A line with another first byte and no colon is invalid.
pub line_effect_no_colon :
    (raw : Bytes) (c : Config)
    → str_trim raw ≢ []
    → str_starts_with (codes "#") (str_trim raw) ≡ false
    → Lacks b':' (str_trim raw)
    → line_effect raw c ≡ none
unfolding line_effect set_pair
line_effect_no_colon raw c ne nh lacks = go (str_trim raw) refl
  where
    go : (t : Bytes) → str_trim raw ≡ t → line_effect raw c ≡ none
    go [] e = absurd (ne e)
    go (a ∷ s) e = rw (nh, split_one b':' (str_trim raw) lacks) (rw e refl)
