-- ===== src/Tests/Launch.antt =====
-- `main` of src/ipvshttpd.cpp from a command line and a configuration file to its server.
use ipvshttpd.Configuration.RoundTrip.{entries, as_file}
use ipvshttpd.Daemon.Arguments.{Setting, IsArgument, valued, in_foreground, arguments, in_turn}
use ipvshttpd.Daemon.Launch.OneServer.{Launched}
use ipvshttpd.Daemon.Launch.{main-Launched}
use ipvshttpd.Daemon.Options.{
  Options, options, sinks_option, config_option, default_options, set_option, parse_log_sink,
  parse_sinks,
}
use ipvshttpd.Daemon.Run.{Host, initial_logger, main}
use ipvshttpd.HttpServer.Server.{by_itself}
use ipvshttpd.Logging.{Logger}
use ipvshttpd.Prelude.Bytes.{codes}
use ipvshttpd.Prelude.{true, false, List, [], ◌∷◌, some, ◌≡◌, refl, All}
use ipvshttpd.StringTools.{str_starts_with, str_split, split_loop, str_to_lower}
use ipvshttpd.Tests.Files.{plain, plain-IsConfig}
use ipvshttpd.Tests.Program.{demo_host}
use ipvshttpd.Tests.{smooth}

-- A system that has the file, and on which libipvs comes up.
abbrev good_host : Host
good_host = record demo_host {
  read_file = λ _. some (as_file (entries plain));
  init_answers = smooth;
  netlib = record (demo_host.netlib) { run_end = by_itself };
}

abbrev line : List Setting
line =
    valued config_option (codes "/etc/my.conf")
    ∷ (valued sinks_option (codes "Syslog") ∷ (in_foreground ∷ []))

line-IsArgument : All IsArgument line
unfolding str_starts_with
line-IsArgument = (refl, (refl, (tt, tt)))

abbrev chosen_options : Options
chosen_options = record default_options {
  config_file = codes "/etc/my.conf";
  config_set = true;
  log_sinks_set = true;
  daemonize = false;
}

abbrev with_syslog : Logger
with_syslog = record initial_logger { sinks = 3 }

taken_in_turn : in_turn line default_options initial_logger ≡ options chosen_options with_syslog
unfolding set_option parse_sinks parse_log_sink str_split split_loop str_to_lower
taken_in_turn = refl

main-Launched_example :
    Launched good_host chosen_options plain by_itself
      (main good_host (codes "ipvshttpd") (arguments line))
main-Launched_example =
    main-Launched good_host (codes "ipvshttpd") line chosen_options with_syslog plain
      line-IsArgument taken_in_turn refl refl plain-IsConfig (λ e. cc) (λ e. cc) refl refl refl refl
