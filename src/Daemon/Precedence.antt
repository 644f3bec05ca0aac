-- ===== src/Daemon/Precedence.antt =====
-- Who decides the log in `main` of src/ipvshttpd.cpp: the names of the levels and the sinks, and what the
-- command line and the configuration file ask for.
pub mod Loading
use Prim.Native.Nat.{bit_or}
use ipvshttpd.Configuration.Outcome.{open_outcome}
use ipvshttpd.Configuration.{Config, Opened, default_config, open_config}
use ipvshttpd.Daemon.Options.{
  Options, parse_log_sink, parse_log_level, parse_sinks, sink_list, parts_of,
}
use ipvshttpd.Daemon.Run.{
  Host, Loaded, load_failed, loaded, loaded_if, configure_level, configure_sinks, configure_logging,
  after_open, load_config,
}
use ipvshttpd.FileTools.{file_exists}
use ipvshttpd.Logging.Sinks.{message_routed, error_only_std}
use ipvshttpd.Logging.{
  log_level_none, log_level_error, log_level_info, log_level_debug, log_sink_none, log_sink_std,
  log_sink_syslog, Logger, log_error, log_message,
}
use ipvshttpd.Prelude.Bytes.{Bytes, codes, equal, equal_iff}
use ipvshttpd.Prelude.{
  ℕ, Bool, true, false, not, ◌&&◌, ◌||◌, List, [], ◌∷◌, ◌++◌, Option, none, some, ◌≡◌, ◌≢◌, refl,
  sym, ap, ◌∙◌, ◌⊎◌, inl, inr, arith, Bool-cases, Option-cases, if◌then◌else◌,
}
use ipvshttpd.StringTools.Split.Fields.{fields, str_split-fields}
use ipvshttpd.StringTools.{str_to_lower}
use mathlib.Core.Path.{subst}

-- The levels and the sinks by their names.
abbrev pub named_level : Bytes → Option ℕ
named_level name =
    if equal name (codes "none")
    then some log_level_none
    else if equal name (codes "error")
    then some log_level_error
    else if equal name (codes "info")
    then some log_level_info
    else if equal name (codes "debug")
    then some log_level_debug
    else none

abbrev pub named_sink : Bytes → Option ℕ
named_sink name =
    if equal name (codes "none")
    then some log_sink_none
    else if equal name (codes "stdout")
    then some log_sink_std
    else if equal name (codes "syslog")
    then some log_sink_syslog
    else none

-- All the names are sinks, and these are added to those there are.
abbrev pub adding : List Bytes → ℕ → Option ℕ
adding [] sinks = some sinks
adding (name ∷ names) sinks = elim (named_sink (str_to_lower name)) [
  | none ↦ none
  | some sink ↦ adding names (bit_or sinks sink)
]

-- The level and the sinks that the command line and the settings ask for, over those chosen before.
abbrev pub level_asked : Options → Config → Logger → Option ℕ
level_asked o c g =
    if o.log_level_set || equal c.log_verbosity []
    then some g.level
    else named_level c.log_verbosity

abbrev pub sinks_asked : Options → Config → Logger → Option ℕ
sinks_asked o c g =
    if o.log_sinks_set || equal c.log_sinks []
    then some g.sinks
    else adding (fields b',' c.log_sinks) g.sinks

-- A parser of a choice is right about a level, and leaves the sinks.
LevelRight : Option ℕ → Logger → Logger × Bool → Type 0
LevelRight none g r = r.1 ≡ false
LevelRight (some level) g r = (r.1 ≡ true) × (r.0.level ≡ level) × (r.0.sinks ≡ g.sinks)

level-LevelRight :
    (name : Bytes) (g : Logger) → LevelRight (named_level name) g (parse_log_level name g)
unfolding parse_log_level LevelRight
level-LevelRight name g = ground arith

SinksRight : Option ℕ → Logger → Logger × Bool → Type 0
SinksRight none g r = r.1 ≡ false
SinksRight (some sinks) g r = (r.1 ≡ true) × (r.0.level ≡ g.level) × (r.0.sinks ≡ sinks)

abbrev sink_added : Bytes → Logger → Option ℕ
sink_added name g = elim (named_sink name) [ none ↦ none | some sink ↦ some (bit_or g.sinks sink) ]

sink-SinksRight :
    (name : Bytes) (g : Logger) → SinksRight (sink_added name g) g (parse_log_sink name g)
unfolding parse_log_sink SinksRight
sink-SinksRight name g = elim (Bool-cases (equal name (codes "none"))) [
  | inl e ↦ rw ((equal_iff name (codes "none")).0 e) (refl, refl, refl)
  | inr e ↦ elim (Bool-cases (equal name (codes "stdout"))) [
    | inl e' ↦ rw ((equal_iff name (codes "stdout")).0 e') (refl, refl, refl)
    | inr e' ↦ elim (Bool-cases (equal name (codes "syslog"))) [
      | inl e'' ↦ rw ((equal_iff name (codes "syslog")).0 e'') (refl, refl, refl)
      | inr e'' ↦
          let no_name : sink_added name g ≡ none = rw (e, e', e'', sink_added, named_sink) refl in
          subst (λ a. SinksRight a g (parse_log_sink name g)) (sym no_name) (rw (e, e', e'') refl)
    ]
  ]
]

SinksRight-level :
    (o : Option ℕ) (g g' : Logger) (r : Logger × Bool)
    → g'.level ≡ g.level
    → SinksRight o g' r
    → SinksRight o g r
unfolding SinksRight
SinksRight-level none g g' r e h = h
SinksRight-level (some sinks) g g' r e h = (h.0, h.1 ∙ e, h.2)

sinks-SinksRight :
    (names : List Bytes) (g : Logger) → SinksRight (adding names g.sinks) g (parse_sinks names g)
unfolding parse_sinks SinksRight
sinks-SinksRight [] g = (refl, refl, refl)
sinks-SinksRight (name ∷ names) g =
    let r = parse_log_sink (str_to_lower name) g in
    let one = sink-SinksRight (str_to_lower name) g in
    let all = λ (a : Option ℕ). SinksRight a g (parse_sinks (name ∷ names) g) in
    elim (Option-cases (named_sink (str_to_lower name))) [
      | inl e ↦
          let no_name : sink_added (str_to_lower name) g ≡ none = rw (e, sink_added) refl in
          let no_names : adding (name ∷ names) g.sinks ≡ none = rw (e, adding) refl in
          let bad : r.1 ≡ false = subst (λ a. SinksRight a g r) no_name one in
          subst all (sym no_names) (rw bad refl)
      | inr (sink, e) ↦
          let added : sink_added (str_to_lower name) g ≡ some (bit_or g.sinks sink) =
            rw (e, sink_added) refl in
          let more : adding (name ∷ names) g.sinks ≡ adding names (bit_or g.sinks sink) =
            rw (e, adding) refl in
          let good : SinksRight (some (bit_or g.sinks sink)) g r =
            subst (λ a. SinksRight a g r) added one in
          let later : SinksRight (adding names (bit_or g.sinks sink)) r.0 (parse_sinks names r.0) =
            subst (λ n. SinksRight (adding names n) r.0 (parse_sinks names r.0)) good.2
              (sinks-SinksRight names r.0) in
          subst all (sym more) (
            rw good.0 (
              SinksRight-level (adding names (bit_or g.sinks sink)) g r.0 (parse_sinks names r.0)
                good.1 later))
    ]

sink_list-fields : (text : Bytes) → sink_list text ≡ fields b',' text
sink_list-fields text = ap parts_of (str_split-fields text b',' 0)

-- What the log is behind the level only, and behind the sinks.
abbrev pub LevelDone : Option ℕ → Config → Logger → Loaded → Type 0
LevelDone none c g l = (g' : Logger) × (l ≡ load_failed g')
LevelDone (some level) c g l =
    (g' : Logger) × (l ≡ loaded c g') × (g'.level ≡ level) × (g'.sinks ≡ g.sinks)

level_if :
    (c : Config) (g : Logger) (a : Option ℕ) (r : Logger × Bool)
    → LevelRight a g r
    → LevelDone a c g (loaded_if c r)
unfolding LevelRight
level_if c g none (g', true) h = cc
level_if c g none (g', false) h = (g', refl)
level_if c g (some level) (g', true) h = (g', refl, h.1, h.2)
level_if c g (some level) (g', false) h = cc

pub level-LevelDone :
    (o : Options) (c : Config) (g : Logger)
    → LevelDone (level_asked o c g) c g (configure_level o c g)
unfolding configure_level
level-LevelDone o c g = elim (Bool-cases (o.log_level_set || equal c.log_verbosity [])) [
  | inl e ↦ rw e ((g, refl, refl, refl))
  | inr e ↦ rw e (
      level_if c g (named_level c.log_verbosity) (parse_log_level c.log_verbosity g)
        (level-LevelRight c.log_verbosity g))
]

abbrev pub SinksDone : Option ℕ → Config → Logger → Loaded → Type 0
SinksDone none c g l = (g' : Logger) × (l ≡ load_failed g')
SinksDone (some sinks) c g l =
    (g' : Logger) × (l ≡ loaded c g') × (g'.level ≡ g.level) × (g'.sinks ≡ sinks)

sinks_if :
    (c : Config) (g : Logger) (a : Option ℕ) (r : Logger × Bool)
    → SinksRight a g r
    → SinksDone a c g (loaded_if c r)
unfolding SinksRight
sinks_if c g none (g', true) h = cc
sinks_if c g none (g', false) h = (g', refl)
sinks_if c g (some sinks) (g', true) h = (g', refl, h.1, h.2)
sinks_if c g (some sinks) (g', false) h = cc

pub sinks-SinksDone :
    (o : Options) (c : Config) (g : Logger)
    → SinksDone (sinks_asked o c g) c g (configure_sinks o c g)
unfolding configure_sinks
sinks-SinksDone o c g = elim (Bool-cases (o.log_sinks_set || equal c.log_sinks [])) [
  | inl e ↦ rw e ((g, refl, refl, refl))
  | inr e ↦
      rw (e, sink_list-fields c.log_sinks)
        (sinks_if c g (adding (fields b',' c.log_sinks) g.sinks)
          (parse_sinks (fields b',' c.log_sinks) g) (sinks-SinksRight (fields b',' c.log_sinks) g))
]
