-- ===== src/Daemon/Choices.antt =====
-- The choice of log sinks in src/ipvshttpd.cpp: sinks are added and never taken away.
use Prim.Native.Nat.{bit_or}
use mathlib.Core.Path.{subst}
use ipvshttpd.Daemon.Arguments.{
  next_opt, args_foreground, args_unknown, args_missing, args_taken, args_given_up,
}
use ipvshttpd.Daemon.Options.{
  parse_log_sink, parse_log_level, parse_sinks, sink_list, Options, Parse, exit_one, options,
  Valued, level_option, sinks_option, config_option, pid_option, missing, missing_message, refuse,
  Taken, go_on, give_up, go_on_if, set_option, Current, foreground, with_argument, unknown,
  classify, parse_args,
}
use ipvshttpd.Logging.Sinks.{IsSinks, error_only_std}
use ipvshttpd.Logging.{Logger, has_sink, log_sink_none, log_sink_std, log_sink_syslog, log_error}
use ipvshttpd.Prelude.Bytes.{Bytes, codes}
use ipvshttpd.Prelude.{
  ℕ, zero, suc, ◌<◌, Bool, true, false, List, [], ◌∷◌, ◌++◌, ◌≡◌, refl, sym, inl, inr, arith,
  Bool-cases,
}
use ipvshttpd.StringTools.{str_to_lower}

-- The standard sink is chosen, among the two that there are.
abbrev pub Speaks : Logger → Type 0
Speaks g = IsSinks g.sinks × (has_sink g.sinks log_sink_std ≡ true)

or_sinks :
    (s : ℕ)
    → s < 4
    → has_sink s log_sink_std ≡ true
    → (bit_or s log_sink_none ≡ s)
      × (bit_or s log_sink_std ≡ s)
      × (bit_or s log_sink_syslog < 4)
      × (has_sink (bit_or s log_sink_syslog) log_sink_std ≡ true)
or_sinks zero lt h = cc
or_sinks (suc zero) lt h = (refl, refl, omega arith, refl)
or_sinks (suc (suc zero)) lt h = cc
or_sinks (suc (suc (suc zero))) lt h = (refl, refl, omega arith, refl)
or_sinks (suc (suc (suc (suc s)))) lt h = absurd (omega arith)

pub log_error-Speaks : (m : Bytes) (g : Logger) → Speaks g → Speaks (log_error m g)
log_error-Speaks m g h = rw (error_only_std m g) h

sink-Speaks : (name : Bytes) (g : Logger) → Speaks g → Speaks (parse_log_sink name g).0
unfolding parse_log_sink
sink-Speaks name g h =
    let facts = or_sinks g.sinks h.0 h.1 in
    ground (arith, facts, log_error-Speaks (codes "Invalid log sink: " ++ name) g h)

pub sinks-Speaks : (names : List Bytes) (g : Logger) → Speaks g → Speaks (parse_sinks names g).0
unfolding parse_sinks
sinks-Speaks [] g h = h
sinks-Speaks (s ∷ rest) g h =
    let one = sink-Speaks (str_to_lower s) g h in
    elim (Bool-cases (parse_log_sink (str_to_lower s) g).1) [
      | inl e ↦ simp e (sinks-Speaks rest (parse_log_sink (str_to_lower s) g).0 one)
      | inr e ↦ simp e one
    ]

pub level-Speaks : (choice : Bytes) (g : Logger) → Speaks g → Speaks (parse_log_level choice g).0
unfolding parse_log_level
level-Speaks choice g h =
    ground (arith, log_error-Speaks (codes "Unknown log level: " ++ choice) g h)

abbrev TakenSpeaks : Taken → Type 0
TakenSpeaks (go_on o g) = Speaks g
TakenSpeaks (give_up g) = Speaks g

go_on_if-Speaks : (r : Logger × Bool) (o : Options) → Speaks r.0 → TakenSpeaks (go_on_if r o)
go_on_if-Speaks (g, true) o h = h
go_on_if-Speaks (g, false) o h = h

set_option-Speaks :
    (kind : Valued) (next : Bytes) (o : Options) (g : Logger)
    → Speaks g
    → TakenSpeaks (set_option kind next o g)
unfolding set_option
set_option-Speaks level_option next o g h =
    go_on_if-Speaks _ _ (level-Speaks (str_to_lower next) g h)
set_option-Speaks sinks_option next o g h = go_on_if-Speaks _ _ (sinks-Speaks (sink_list next) g h)
set_option-Speaks config_option next o g h = h
set_option-Speaks pid_option next o g h = h

-- The log behind the loop over the arguments.
abbrev pub ParseSpeaks : Parse → Type 0
ParseSpeaks (exit_one g) = Speaks g
ParseSpeaks (options o g) = Speaks g

refuse-Speaks : (argv0 m : Bytes) (g : Logger) → Speaks g → ParseSpeaks (refuse argv0 m g)
refuse-Speaks argv0 m g h = rw (error_only_std m g) h

taken-Speaks :
    (argv0 : Bytes) (opt next : Bytes) (rest : List Bytes) (kind : Valued) (o : Options)
    (g : Logger)
    → ((o' : Options) (g' : Logger) → Speaks g' → ParseSpeaks (parse_args argv0 rest o' g'))
    → classify opt ≡ with_argument kind
    → missing next ≡ false
    → Speaks g
    → (t : Taken) → set_option kind next o g ≡ t
    → ParseSpeaks (parse_args argv0 (opt ∷ (next ∷ rest)) o g)
taken-Speaks argv0 opt next rest kind o g later c m h (go_on o' g') e =
    let s : Speaks g' = subst TakenSpeaks e (set_option-Speaks kind next o g h) in
    subst ParseSpeaks (sym (args_taken argv0 opt o g next rest c m e)) (later o' g' s)
taken-Speaks argv0 opt next rest kind o g later c m h (give_up g') e =
    let s : Speaks g' = subst TakenSpeaks e (set_option-Speaks kind next o g h) in
    subst ParseSpeaks (sym (args_given_up argv0 opt o g next rest c m e)) s

-- One option, by its kind; the two rests are what may follow it.
option-Speaks :
    (argv0 : Bytes) (opt : Bytes) (rest : List Bytes) (o : Options) (g : Logger)
    → Speaks g
    → ((o' : Options) → ParseSpeaks (parse_args argv0 rest o' g))
    → ((kind : Valued)
        → classify opt ≡ with_argument kind
        → missing (next_opt rest) ≡ false
        → ParseSpeaks (parse_args argv0 (opt ∷ rest) o g))
    → (k : Current) → classify opt ≡ k
    → ParseSpeaks (parse_args argv0 (opt ∷ rest) o g)
option-Speaks argv0 opt rest o g h later value foreground c =
    subst ParseSpeaks (sym (args_foreground argv0 opt o g rest c)) (later _)
option-Speaks argv0 opt rest o g h later value unknown c =
    subst ParseSpeaks (sym (args_unknown argv0 opt o g rest c))
      (refuse-Speaks argv0 (codes "Unknown option: " ++ opt) g h)
option-Speaks argv0 opt rest o g h later value (with_argument kind) c =
    elim (Bool-cases (missing (next_opt rest))) [
      | inl m ↦
          subst ParseSpeaks (sym (args_missing argv0 opt o g rest c m))
            (refuse-Speaks argv0 (missing_message kind) g h)
      | inr m ↦ value kind c m
    ]

-- Whatever the arguments are, the standard sink, if it is on at the start, stays chosen to the end of
-- the loop, and no other sinks than the two there are come to be chosen: no option turns a sink off.
pub args-Speaks :
    (argv0 : Bytes) (args : List Bytes) (o : Options) (g : Logger)
    → Speaks g
    → ParseSpeaks (parse_args argv0 args o g)
args-Speaks argv0 [] o g h = unfold parse_args in h
args-Speaks argv0 (opt ∷ []) o g h =
    option-Speaks argv0 opt [] o g h (λ o'. unfold parse_args in h) (λ kind c m. cc) (classify opt)
      refl
args-Speaks argv0 (opt ∷ (next ∷ rest)) o g h =
    option-Speaks argv0 opt (next ∷ rest) o g h (λ o'. args-Speaks argv0 (next ∷ rest) o' g h)
      (λ kind c m.
        taken-Speaks argv0 opt next rest kind o g (λ o' g'. args-Speaks argv0 rest o' g') c m h
          (set_option kind next o g) refl)
      (classify opt) refl
