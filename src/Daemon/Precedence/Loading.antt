-- ===== src/Daemon/Precedence/Loading.antt =====
-- What `main` of src/ipvshttpd.cpp decides when it loads the configuration.
use ipvshttpd.Configuration.Outcome.{open_outcome}
use ipvshttpd.Configuration.{Config, Opened, default_config, invalid_line, open_config}
use ipvshttpd.Daemon.Options.{Options}
use ipvshttpd.Daemon.Precedence.{
  level_asked, sinks_asked, LevelDone, level-LevelDone, SinksDone, sinks-SinksDone,
}
use ipvshttpd.Daemon.Run.{
  Host, Loaded, load_failed, loaded, configure_sinks, configure_logging, load_config,
}
use ipvshttpd.FileTools.{file_exists}
use ipvshttpd.Logging.Sinks.{message_routed, error_only_std}
use ipvshttpd.Logging.{Logger, log_error, log_message}
use ipvshttpd.Prelude.Bytes.{Bytes, codes}
use ipvshttpd.Prelude.{
  ℕ, ◌+◌, length, ◌++◌, arith, ◌||◌, Option, none, some, ◌≡◌, refl, sym, ap, ◌∙◌, ◌⊎◌, inl, inr,
  Bool-cases, if◌then◌else◌,
}

-- The log has the same level and sinks.
abbrev pub SameChoice : Logger → Logger → Type 0
SameChoice g g' = (g'.level ≡ g.level) × (g'.sinks ≡ g.sinks)

-- What is decided once the settings are there: the log has the level and the sinks asked for, or `main`
-- gives up because one of them is no name.
pub data Decided (o : Options) (c : Config) (g : Logger) : Loaded → Type 0 where
  chosen :
      (g' : Logger)
      → level_asked o c g ≡ some g'.level
      → sinks_asked o c g ≡ some g'.sinks
      → Decided o c g (loaded c g')
  bad_name :
      (g' : Logger)
      → (level_asked o c g ≡ none) ⊎ (sinks_asked o c g ≡ none)
      → Decided o c g (load_failed g')

level_same :
    (o : Options) (c : Config) (g g' : Logger)
    → SameChoice g g'
    → level_asked o c g' ≡ level_asked o c g
level_same o c g g' h = rw h.0 refl

sinks_same :
    (o : Options) (c : Config) (g g' : Logger)
    → g'.sinks ≡ g.sinks
    → sinks_asked o c g' ≡ sinks_asked o c g
sinks_same o c g g' h = rw h refl

module _ (o : Options) (c : Config) (g : Logger) where
  decide_sinks :
      (g' : Logger)
      → level_asked o c g ≡ some g'.level
      → g'.sinks ≡ g.sinks
      → (a : Option ℕ) → sinks_asked o c g' ≡ a
      → SinksDone a c g' (configure_sinks o c g')
      → Decided o c g (configure_sinks o c g')
  decide_sinks g' e r none es (g'', p) =
      rw p (bad_name g'' (inr (sym (sinks_same o c g g' r) ∙ es)))
  decide_sinks g' e r (some sinks) es (g'', p, q, t) =
      rw p (chosen g'' (e ∙ ap some (sym q)) (sym (sinks_same o c g g' r) ∙ es ∙ ap some (sym t)))

  behind_level : Loaded → Loaded
  behind_level l = elim l [
    | load_failed g' ↦ load_failed g'
    | loaded c' g' ↦ configure_sinks o c' g'
  ]

  decide_level :
      (a : Option ℕ) (l : Loaded)
      → level_asked o c g ≡ a
      → LevelDone a c g l
      → Decided o c g (behind_level l)
  unfolding behind_level
  decide_level none l e (g', p) = rw p (bad_name g' (inl e))
  decide_level (some level) l e (g', p, q, r) =
      rw p
        (decide_sinks g' (e ∙ ap some (sym q)) r (sinks_asked o c g') refl (sinks-SinksDone o c g'))

  configure-Decided : Decided o c g (configure_logging o c g)
  unfolding configure_logging behind_level
  configure-Decided = decide_level (level_asked o c g) _ refl (level-LevelDone o c g)

Decided-same :
    (o : Options) (c : Config) (g g' : Logger) (l : Loaded)
    → SameChoice g g'
    → Decided o c g' l
    → Decided o c g l
Decided-same o c g g' l h (chosen g'' e s) =
    chosen g'' (sym (level_same o c g g' h) ∙ e) (sym (sinks_same o c g g' h.1) ∙ s)
Decided-same o c g g' l h (bad_name g'' (inl e)) =
    bad_name g'' (inl (sym (level_same o c g g' h) ∙ e))
Decided-same o c g g' l h (bad_name g'' (inr e)) =
    bad_name g'' (inr (sym (sinks_same o c g g' h.1) ∙ e))

message-SameChoice : (m : Bytes) (g : Logger) → SameChoice g (log_message m g)
message-SameChoice m g = rw ((message_routed m g).0) (refl, refl)

error-SameChoice : (m : Bytes) (g : Logger) → SameChoice g (log_error m g)
error-SameChoice m g = rw (error_only_std m g) (refl, refl)

SameChoice-trans : (g g' g'' : Logger) → SameChoice g g' → SameChoice g' g'' → SameChoice g g''
SameChoice-trans g g' g'' h k = (k.0 ∙ h.0, k.1 ∙ h.1)

open-SameChoice :
    (filename : Bytes) (file : Option Bytes) (c : Config) (g : Logger)
    → SameChoice g (open_config filename file c g).logger
open-SameChoice filename none c g =
    unfold open_config in
    SameChoice-trans g (log_message (codes "Reading configuration...") g)
      (log_error (codes "Could not open configuration file: " ++ filename)
        (log_message (codes "Reading configuration...") g))
      (message-SameChoice (codes "Reading configuration...") g)
      (error-SameChoice (codes "Could not open configuration file: " ++ filename)
        (log_message (codes "Reading configuration...") g))
open-SameChoice filename (some content) c g =
    let g' : Logger = log_message (codes "Reading configuration...") g in
    let read : SameChoice g g' = message-SameChoice (codes "Reading configuration...") g in
    elim (open_outcome filename content c g) [
      | inl a ↦ rw a.2 read
      | inr s ↦
          let m : Bytes = invalid_line filename (0 + length s.above + 1) in
          rw s.logged (SameChoice-trans g g' (log_error m g') read (error-SameChoice m g'))
    ]

-- The settings that are read: those of the file if it is asked for or there, none if it is not valid.
abbrev pub settings : Host → Options → Logger → Option Config
settings host o g =
    let r = open_config o.config_file (host.read_file o.config_file) default_config g in
    if o.config_set || file_exists host.stat o.config_file
    then if r.valid then some r.config else none
    else some default_config

abbrev pub DecidedBy : Options → Logger → Loaded → Option Config → Type 0
DecidedBy o g l none = (g' : Logger) × (l ≡ load_failed g')
DecidedBy o g l (some c) = Decided o c g l

-- When the configuration has been loaded, the level is the one of the command line if that has one, else
-- the one that the file names, and else the one before; the sinks are those of the command line if that has
-- any, and else those before with those added that the file's list names. `main` gives up if and only if the
-- file is not valid, or a level or a sink that the file decides is no name.
pub load_config-DecidedBy :
    (host : Host) (o : Options) (g : Logger)
    → DecidedBy o g (load_config host o g) (settings host o g)
unfolding load_config
load_config-DecidedBy host o g =
    let r : Opened = open_config o.config_file (host.read_file o.config_file) default_config g in
    elim (Bool-cases (o.config_set || file_exists host.stat o.config_file)) [
      | inl e ↦ rw e (elim (Bool-cases r.valid) [
        | inl v ↦ rw v (
            Decided-same o r.config g r.logger (configure_logging o r.config r.logger)
              (open-SameChoice o.config_file (host.read_file o.config_file) default_config g)
              (configure-Decided o r.config r.logger))
        | inr v ↦ rw v (_, refl)
      ])
      | inr e ↦ rw e (chosen g (ground arith) (ground arith))
    ]
