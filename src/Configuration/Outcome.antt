-- ===== src/Configuration/Outcome.antt =====
-- What `configuration_manager::open` of src/configuration.cpp leaves behind: the settings of all lines
-- if every line is valid, else those of the lines above the first invalid one.
use ipvshttpd.Configuration.{
  Config, set_key, set_pair, line_effect, Opened, invalid_line, read_lines, getlines, open_config,
}
use ipvshttpd.Logging.{Logger, log_error, log_message}
use ipvshttpd.Prelude.Bytes.{Bytes, codes}
use ipvshttpd.Prelude.Int.{pos}
use ipvshttpd.StringTools.{str_trim, str_to_lower, str_split}
use ipvshttpd.Prelude.{
  ℕ, ◌+◌, true, false, List, [], ◌∷◌, ◌++◌, Option, none, some, ◌≡◌, refl, ap, ◌∙◌, ◌⊎◌, inl, inr,
  arith, Option-cases, length,
}

-- The lines, one after the other, turn the first settings into the last.
pub data Applies : List Bytes → Config → Config → Type 0 where
  done : {c : Config} → Applies [] c c
  line :
      {l : Bytes} {ls : List Bytes} {c c' c'' : Config}
      → line_effect l c ≡ some c'
      → Applies ls c' c''
      → Applies (l ∷ ls) c c''

-- `ls` is read without an error, and leaves the settings `c'` and the logger as it was.
abbrev AllValid : List Bytes → Config → Logger → Opened → Type 0
AllValid ls c g o = Applies ls c o.config × (o.valid ≡ true) × (o.logger ≡ g)

-- `bad` is the first invalid line, and the only error that is logged names its number.
pub record StopsAt (filename : Bytes) (n : ℕ) (ls : List Bytes) (c : Config) (g : Logger)
    (o : Opened) : Type 0 where
  pub above : List Bytes
  pub bad : Bytes
  pub below : List Bytes
  pub shape : ls ≡ above ++ bad ∷ below
  pub applied : Applies above c o.config
  pub refused : line_effect bad o.config ≡ none
  pub invalid : o.valid ≡ false
  pub logged : o.logger ≡ log_error (invalid_line filename (n + length above + 1)) g

pub read_some :
    (filename : Bytes) (n : ℕ) (l : Bytes) (ls : List Bytes) (c c' : Config) (g : Logger)
    → line_effect l c ≡ some c'
    → read_lines filename n (l ∷ ls) c g ≡ read_lines filename (n + 1) ls c' g
unfolding read_lines
read_some filename n l ls c c' g h = rw (h, read_lines) refl

pub Applies-read :
    {ls : List Bytes} {c c' : Config} (filename : Bytes) (n : ℕ) (g : Logger)
    → Applies ls c c'
    → read_lines filename n ls c g ≡ record { valid = true; config = c'; logger = g }
Applies-read filename n g done = unfold read_lines in refl
Applies-read filename n g (line {l} {ls} {c} {c'} e a) =
    read_some filename n l ls c c' g e ∙ Applies-read filename (n + 1) g a

stop_later :
    (filename : Bytes) (n : ℕ) (l : Bytes) (ls : List Bytes) (c c' : Config) (g : Logger)
    (o : Opened)
    → line_effect l c ≡ some c'
    → StopsAt filename (n + 1) ls c' g o
    → StopsAt filename n (l ∷ ls) c g o
stop_later filename n l ls c c' g o e s = record {
  above = l ∷ s.above;
  bad = s.bad;
  below = s.below;
  shape = ap (λ t. l ∷ t) s.shape;
  applied = line e s.applied;
  refused = s.refused;
  invalid = s.invalid;
  logged = s.logged ∙ ap (λ k. log_error (invalid_line filename k) g) (omega arith);
}

read_none :
    (filename : Bytes) (n : ℕ) (l : Bytes) (ls : List Bytes) (c : Config) (g : Logger)
    → line_effect l c ≡ none
    → read_lines filename n (l ∷ ls) c g
      ≡ record { valid = false; config = c; logger = log_error (invalid_line filename (n + 1)) g }
unfolding read_lines
read_none filename n l ls c g h = rw (h, read_lines) refl

read_outcome :
    (filename : Bytes) (n : ℕ) (ls : List Bytes) (c : Config) (g : Logger)
    → AllValid ls c g (read_lines filename n ls c g)
      ⊎ StopsAt filename n ls c g (read_lines filename n ls c g)
read_outcome filename n [] c g = unfold read_lines in inl (done, refl, refl)
read_outcome filename n (l ∷ ls) c g = elim (Option-cases (line_effect l c)) [
  | inl h ↦ rw (read_none filename n l ls c g h) (
      inr (record {
        above = [];
        bad = l;
        below = ls;
        shape = refl;
        applied = done;
        refused = h;
        invalid = refl;
        logged = ap (λ k. log_error (invalid_line filename k) g) (omega arith);
      }))
  | inr (c', h) ↦
      rw (read_some filename n l ls c c' g h) (elim (read_outcome filename (n + 1) ls c' g) [
        | inl a ↦ inl (line h a.0, a.1, a.2)
        | inr s ↦ inr (stop_later filename n l ls c c' g _ h s)
      ])
]

-- Reading an open file has one of two outcomes. Either every line is valid: `open` answers true, the
-- settings are those that the lines make one after the other, and no error is logged. Or there is a
-- first invalid line: `open` answers false, the settings of the lines above it stay, and the one error
-- logged names its number, counted from 1.
pub open_outcome :
    (filename content : Bytes) (c : Config) (g : Logger)
    → (Applies (getlines content) c (open_config filename (some content) c g).config
        × ((open_config filename (some content) c g).valid ≡ true)
        × ((open_config filename (some content) c g).logger
            ≡ log_message (codes "Reading configuration...") g))
      ⊎ StopsAt filename 0
          (getlines content)
          c
          (log_message (codes "Reading configuration...") g)
          (open_config filename (some content) c g)
unfolding open_config
open_outcome filename content c g =
    read_outcome filename 0 (getlines content) c (log_message (codes "Reading configuration...") g)

set_key_keeps_ssl :
    (key value : Bytes) (c : Config) {c' : Config}
    → c.use_ssl ≡ true
    → set_key key value c ≡ some c'
    → c'.use_ssl ≡ true
unfolding set_key
set_key_keeps_ssl key value c on h = ground arith

pair_keeps_ssl :
    (kvp : Option (List Bytes)) (c : Config) {c' : Config}
    → c.use_ssl ≡ true
    → set_pair kvp c ≡ some c'
    → c'.use_ssl ≡ true
unfolding set_pair
pair_keeps_ssl (some (k ∷ (v ∷ []))) c on h = set_key_keeps_ssl (str_to_lower k) (str_trim v) c on h
pair_keeps_ssl _ c on h = cc

line_keeps_ssl :
    (raw : Bytes) (c : Config) {c' : Config}
    → c.use_ssl ≡ true
    → line_effect raw c ≡ some c'
    → c'.use_ssl ≡ true
unfolding line_effect
line_keeps_ssl raw c {c'} on h =
    ground (arith, pair_keeps_ssl (str_split (str_trim raw) (codes ":") (pos 2)) c {c' = c'} on)

Applies-keeps_ssl :
    {ls : List Bytes} {c c' : Config} → Applies ls c c' → c.use_ssl ≡ true → c'.use_ssl ≡ true
Applies-keeps_ssl done on = on
Applies-keeps_ssl (line {l} {c = c} e a) on = Applies-keeps_ssl a (line_keeps_ssl l c on e)

-- Where SSL is on, no configuration file turns it off again, neither by `use_ssl: no` nor by an error.
pub open_keeps_ssl :
    (filename : Bytes) (file : Option Bytes) (c : Config) (g : Logger)
    → c.use_ssl ≡ true
    → (open_config filename file c g).config.use_ssl ≡ true
open_keeps_ssl filename none c g on = unfold open_config in on
open_keeps_ssl filename (some content) c g on = elim (open_outcome filename content c g) [
  | inl a ↦ Applies-keeps_ssl a.0 on
  | inr s ↦ Applies-keeps_ssl s.applied on
]
