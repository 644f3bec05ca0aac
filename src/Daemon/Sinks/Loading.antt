-- ===== src/Daemon/Sinks/Loading.antt =====
-- The sinks of the log while `main` of src/ipvshttpd.cpp loads its configuration.
use ipvshttpd.Configuration.Outcome.{open_outcome}
use ipvshttpd.Configuration.{Config, Opened, default_config, open_config}
use ipvshttpd.Daemon.Choices.{Speaks, log_error-Speaks, sinks-Speaks, level-Speaks}
use ipvshttpd.Daemon.Options.{Options, sink_list}
use ipvshttpd.Daemon.Run.{
  Host, Loaded, load_failed, loaded, loaded_if, configure_level, configure_sinks, configure_logging,
  load_config,
}
use ipvshttpd.FileTools.{file_exists}
use ipvshttpd.Logging.Sinks.{message_routed}
use ipvshttpd.Logging.{Logger, log_start, log_stop, log_message}
use ipvshttpd.Prelude.Bytes.{Bytes, codes, equal}
use ipvshttpd.Prelude.{
  Bool, true, false, ◌||◌, [], ◌++◌, Option, none, some, inl, inr, arith, Bool-cases,
}

pub log_message-Speaks : (m : Bytes) (g : Logger) → Speaks g → Speaks (log_message m g)
log_message-Speaks m g h = rw ((message_routed m g).0) h

pub log_start-Speaks : (g : Logger) → Speaks g → Speaks (log_start g)
unfolding log_start
log_start-Speaks g h = ground (arith, h)

pub log_stop-Speaks : (g : Logger) → Speaks g → Speaks (log_stop g)
unfolding log_stop
log_stop-Speaks g h = ground (arith, h)

open-Speaks :
    (filename : Bytes) (file : Option Bytes) (c : Config) (g : Logger)
    → Speaks g
    → Speaks (open_config filename file c g).logger
open-Speaks filename none c g h =
    unfold open_config in
    log_error-Speaks (codes "Could not open configuration file: " ++ filename)
      (log_message (codes "Reading configuration...") g)
      (log_message-Speaks (codes "Reading configuration...") g h)
open-Speaks filename (some content) c g h =
    let read = log_message-Speaks (codes "Reading configuration...") g h in
    elim (open_outcome filename content c g) [
      | inl a ↦ rw a.2 read
      | inr s ↦ rw s.logged (log_error-Speaks _ _ read)
    ]

abbrev pub LoadSpeaks : Loaded → Type 0
LoadSpeaks (load_failed g) = Speaks g
LoadSpeaks (loaded c g) = Speaks g

loaded_if-Speaks : (c : Config) (r : Logger × Bool) → Speaks r.0 → LoadSpeaks (loaded_if c r)
loaded_if-Speaks c (g, true) h = h
loaded_if-Speaks c (g, false) h = h

configure_level-Speaks :
    (o : Options) (c : Config) (g : Logger) → Speaks g → LoadSpeaks (configure_level o c g)
unfolding configure_level
configure_level-Speaks o c g h = elim (Bool-cases (o.log_level_set || equal c.log_verbosity [])) [
  | inl e ↦ rw e h
  | inr e ↦ rw e (loaded_if-Speaks c _ (level-Speaks c.log_verbosity g h))
]

configure_sinks-Speaks :
    (o : Options) (c : Config) (g : Logger) → Speaks g → LoadSpeaks (configure_sinks o c g)
unfolding configure_sinks
configure_sinks-Speaks o c g h = elim (Bool-cases (o.log_sinks_set || equal c.log_sinks [])) [
  | inl e ↦ rw e h
  | inr e ↦ rw e (loaded_if-Speaks c _ (sinks-Speaks (sink_list c.log_sinks) g h))
]

configure-Speaks :
    (o : Options) (c : Config) (g : Logger) → Speaks g → LoadSpeaks (configure_logging o c g)
unfolding configure_logging
configure-Speaks o c g h = go (configure_level o c g) (configure_level-Speaks o c g h)
  where
    go :
        (l : Loaded)
        → LoadSpeaks l
        → LoadSpeaks
            (elim l [ load_failed g' ↦ load_failed g' | loaded c' g' ↦ configure_sinks o c' g' ])
    go (load_failed g') h' = h'
    go (loaded c' g') h' = configure_sinks-Speaks o c' g' h'

pub load-Speaks :
    (host : Host) (o : Options) (g : Logger) → Speaks g → LoadSpeaks (load_config host o g)
unfolding load_config
load-Speaks host o g h =
    let r : Opened = open_config o.config_file (host.read_file o.config_file) default_config g in
    let opened : Speaks r.logger =
      open-Speaks o.config_file (host.read_file o.config_file) default_config g h in
    elim (Bool-cases (o.config_set || file_exists host.stat o.config_file)) [
      | inr e ↦ rw e h
      | inl e ↦ rw e (elim (Bool-cases r.valid) [
        | inl v ↦ rw v (configure-Speaks o r.config r.logger opened)
        | inr v ↦
            rw v (log_error-Speaks (codes "Could not load configuration file.") r.logger opened)
      ])
    ]
