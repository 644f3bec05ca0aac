-- ===== src/Daemon/Arguments.antt =====
-- The loop over the arguments in `main` of src/ipvshttpd.cpp, option by option.
use ipvshttpd.Daemon.Options.{
  Options, Parse, exit_one, options, Valued, level_option, sinks_option, config_option, pid_option,
  missing, missing_message, refuse, Taken, go_on, give_up, set_option, foreground, with_argument,
  unknown, classify, parse_args,
}
use ipvshttpd.Logging.{Logger}
use ipvshttpd.Prelude.Bytes.{Bytes, codes}
use ipvshttpd.Prelude.{true, false, List, [], ◌∷◌, ◌++◌, ◌≡◌, refl, ◌∙◌, All}

-- `next_opt`: the argument behind the current one, or the empty text.
abbrev pub next_opt : List Bytes → Bytes
next_opt [] = []
next_opt (a ∷ rest) = a

module _ (argv0 opt : Bytes) (o : Options) (g : Logger) where
  pub args_foreground :
      (rest : List Bytes)
      → classify opt ≡ foreground
      → parse_args argv0 (opt ∷ rest) o g ≡ parse_args argv0 rest (record o { daemonize = false }) g
  unfolding parse_args
  args_foreground [] e = rw (e, parse_args) refl
  args_foreground (next ∷ rest) e = rw (e, parse_args) refl

  pub args_unknown :
      (rest : List Bytes)
      → classify opt ≡ unknown
      → parse_args argv0 (opt ∷ rest) o g ≡ refuse argv0 (codes "Unknown option: " ++ opt) g
  unfolding parse_args
  args_unknown [] e = rw (e, parse_args) refl
  args_unknown (next ∷ rest) e = rw (e, parse_args) refl

  pub args_missing :
      (rest : List Bytes) {kind : Valued}
      → classify opt ≡ with_argument kind
      → missing (next_opt rest) ≡ true
      → parse_args argv0 (opt ∷ rest) o g ≡ refuse argv0 (missing_message kind) g
  unfolding parse_args
  args_missing [] e m = rw (e, parse_args) refl
  args_missing (next ∷ rest) e m = rw (e, parse_args) (rw m refl)

  pub args_taken :
      (next : Bytes) (rest : List Bytes) {kind : Valued} {o' : Options} {g' : Logger}
      → classify opt ≡ with_argument kind
      → missing next ≡ false
      → set_option kind next o g ≡ go_on o' g'
      → parse_args argv0 (opt ∷ (next ∷ rest)) o g ≡ parse_args argv0 rest o' g'
  unfolding parse_args
  args_taken next rest e m s = rw (e, parse_args) (rw (m, s) refl)

  pub args_given_up :
      (next : Bytes) (rest : List Bytes) {kind : Valued} {g' : Logger}
      → classify opt ≡ with_argument kind
      → missing next ≡ false
      → set_option kind next o g ≡ give_up g'
      → parse_args argv0 (opt ∷ (next ∷ rest)) o g ≡ exit_one g'
  unfolding parse_args
  args_given_up next rest e m s = rw (e, parse_args) (rw (m, s) refl)

-- A setting as the user means it, and the arguments that say it.
pub data Setting : Type 0 where
  in_foreground : Setting
  valued : Valued → Bytes → Setting

abbrev pub option_of : Valued → Bytes
option_of level_option = codes "-l"
option_of sinks_option = codes "-L"
option_of config_option = codes "-c"
option_of pid_option = codes "-p"

abbrev pub arguments : List Setting → List Bytes
arguments [] = []
arguments (in_foreground ∷ ss) = codes "-f" ∷ arguments ss
arguments (valued kind v ∷ ss) = option_of kind ∷ (v ∷ arguments ss)

-- A value that can be told from an option: not empty, and not beginning with a dash.
abbrev pub IsArgument : Setting → Type 0
IsArgument in_foreground = Unit
IsArgument (valued kind v) = missing v ≡ false

abbrev pub then_take : (Options → Logger → Parse) → Taken → Parse
then_take k (go_on o g) = k o g
then_take k (give_up g) = exit_one g

-- The settings one after the other, up to the first that is given up.
abbrev pub in_turn : List Setting → Options → Logger → Parse
in_turn [] o g = options o g
in_turn (in_foreground ∷ ss) o g = in_turn ss (record o { daemonize = false }) g
in_turn (valued kind v ∷ ss) o g = then_take (in_turn ss) (set_option kind v o g)

classify-option_of : (kind : Valued) → classify (option_of kind) ≡ with_argument kind
unfolding classify
classify-option_of level_option = refl
classify-option_of sinks_option = refl
classify-option_of config_option = refl
classify-option_of pid_option = refl

pub parse_args-arguments :
    (argv0 : Bytes) (ss : List Setting) (o : Options) (g : Logger)
    → All IsArgument ss
    → parse_args argv0 (arguments ss) o g ≡ in_turn ss o g
parse_args-arguments argv0 [] o g h = unfold parse_args in refl
parse_args-arguments argv0 (in_foreground ∷ ss) o g h =
    args_foreground argv0 (codes "-f") o g (arguments ss) (unfold classify in refl)
    ∙ parse_args-arguments argv0 ss (record o { daemonize = false }) g h.1
parse_args-arguments argv0 (valued kind v ∷ ss) o g h =
    take_one (set_option kind v o g) refl (λ o' g'. parse_args-arguments argv0 ss o' g' h.1)
  where
    take_one :
        (t : Taken)
        → set_option kind v o g ≡ t
        → ((o' : Options) (g' : Logger) → parse_args argv0 (arguments ss) o' g' ≡ in_turn ss o' g')
        → parse_args argv0 (option_of kind ∷ (v ∷ arguments ss)) o g
          ≡ then_take (in_turn ss) (set_option kind v o g)
    take_one (go_on o' g') e later =
        args_taken argv0 (option_of kind) o g v (arguments ss) (classify-option_of kind) h.0 e
        ∙ later o' g'
        ∙ rw e refl
    take_one (give_up g') e later =
        args_given_up argv0 (option_of kind) o g v (arguments ss) (classify-option_of kind) h.0 e
        ∙ rw e refl

-- An option whose value is missing is refused with its own message and the usage text: where the line
-- ends, and where the next argument is empty or begins with a dash.
pub args_missing_refused :
    (argv0 : Bytes) (kind : Valued) (rest : List Bytes) (o : Options) (g : Logger)
    → missing (next_opt rest) ≡ true
    → parse_args argv0 (option_of kind ∷ rest) o g ≡ refuse argv0 (missing_message kind) g
args_missing_refused argv0 kind rest o g =
    args_missing argv0 (option_of kind) o g rest (classify-option_of kind)
