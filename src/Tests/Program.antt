-- ===== src/Tests/Program.antt =====
-- src/ipvshttpd.cpp, src/rate_test.cpp and the server object of src/http_server.cpp on concrete runs.
use ipvshttpd.Configuration.{default_config}
use ipvshttpd.Daemon.Arguments.{in_foreground, valued, Setting}
use ipvshttpd.Daemon.Choices.{Speaks}
use ipvshttpd.Daemon.Ends.{CleanedIf, run_server-CleanedIf}
use ipvshttpd.Daemon.Precedence.Loading
use ipvshttpd.Daemon.Precedence.Loading.{DecidedBy, load_config-DecidedBy}
use ipvshttpd.Daemon.Shutdown.Process.{Closed, main-Closed}
use ipvshttpd.Daemon.Options.{level_option, sinks_option, pid_option, default_options, Options}
use ipvshttpd.Daemon.Run.{main, Host, in_child, run_server, load_config}
use ipvshttpd.HttpServer.Server.Life.{IsBalanced, news, deletes, starts, stops, use_all, one_server}
use ipvshttpd.HttpServer.Server.{by_exception, Netlib, HttpServer, new_server, start, stop}
use ipvshttpd.Daemon.Sinks.{main-Speaks}
use ipvshttpd.IpvsInterface.{
  new_interface, string_to_number, close_bracket, open_bracket, parse_port, parse_ipv4, cut_port,
  parse_opened, parse_service, make_dest, update_checked, with_server, with_vip, set_weight, init,
}
use ipvshttpd.Libc.{skip_spaces, strtol, strtol_digits, digits_of, after_digits, htons, atoi}
use ipvshttpd.NetTools.{host_to_addr}
use ipvshttpd.Prelude.Bytes.{codes}
use ipvshttpd.Prelude.Int.{pos, negsuc}
use ipvshttpd.Prelude.{true, false, [], ◌∷◌, none, some, ◌≡◌, refl, List}
use ipvshttpd.RateTest.Result.{Done, rate_main-Done}
use ipvshttpd.RateTest.{update, rate_main}
use ipvshttpd.Tests.{demo_net, demo_logger, smooth}

abbrev fresh : HttpServer
fresh = new_server (codes "0.0.0.0") (pos 8080) (pos 2) (new_interface demo_logger) false

abbrev settings : List Setting
settings =
    in_foreground
    ∷ (valued sinks_option (codes "syslog,NONE")
        ∷ (valued level_option (codes "Debug") ∷ (valued pid_option (codes "/run/pid") ∷ [])))

-- No port of this system can be bound.
abbrev demo_netlib : Netlib
demo_netlib = record {
  takes_chain = λ _. true;
  takes_key = λ _. true;
  takes_dh = λ _. true;
  makes = λ _. true;
  run_end = by_exception;
}

abbrev pub demo_host : Host
demo_host = record {
  stat = λ _. negsuc 0;
  read_file = λ _. none;
  fork = in_child;
  getpid = 42;
  can_write = λ _. true;
  remove = λ _. pos 0;
  init_answers = record smooth { first_fails = true; second_fails = true };
  netlib = demo_netlib;
}

abbrev with_pid : Options
with_pid = record default_options { pid_file = codes "/run/pid" }

run_server-CleanedIf_example :
    CleanedIf true fresh
      (start demo_host.init_answers demo_host.netlib default_config fresh)
      demo_host
      with_pid
      (run_server demo_host with_pid default_config fresh)
run_server-CleanedIf_example = run_server-CleanedIf demo_host with_pid default_config fresh

one_server_example :
    let s = use_all fresh (
      starts smooth demo_netlib default_config
      ∷ (starts smooth demo_netlib default_config ∷ (stops ∷ []))) in
    IsBalanced s × (news (stop s).events ≡ deletes (stop s).events) × ((stop s).has_server ≡ false)
one_server_example =
    one_server (codes "0.0.0.0") (pos 8080) (pos 2) (new_interface demo_logger) false (
      starts smooth demo_netlib default_config
      ∷ (starts smooth demo_netlib default_config ∷ (stops ∷ [])))

rate_run :
    (rate_main demo_net smooth
      (codes "rate_test")
      (codes "10.0.0.1:80" ∷ (codes "10.0.0.2" ∷ (codes "5" ∷ [])))
      demo_logger).code
    ≡ 0
unfolding rate_main update init set_weight with_vip with_server update_checked make_dest
    parse_service open_bracket close_bracket parse_opened cut_port parse_ipv4 parse_port
    string_to_number host_to_addr strtol strtol_digits skip_spaces digits_of after_digits htons atoi
rate_run = refl

rate_main-Done_example : Done demo_net smooth (atoi (codes "5")) (
    rate_main demo_net smooth
      (codes "rate_test")
      (codes "10.0.0.1:80" ∷ (codes "10.0.0.2" ∷ (codes "5" ∷ [])))
      demo_logger)
rate_main-Done_example =
    rate_main-Done demo_net smooth (codes "rate_test") (codes "10.0.0.1:80") (codes "10.0.0.2")
      (codes "5") demo_logger rate_run

-- A system whose configuration file asks for no sink at all.
abbrev silent_host : Host
silent_host = record demo_host {
  read_file = λ _. some (codes "log_sinks: none\nlog_verbosity: none\n");
  stat = λ _. pos 0;
}

main-Speaks_example :
    Speaks (main silent_host (codes "ipvshttpd") (codes "-p" ∷ (codes "/run/pid" ∷ []))).logger
main-Speaks_example =
    main-Speaks silent_host (codes "ipvshttpd") (codes "-p" ∷ (codes "/run/pid" ∷ []))

main-Closed_example :
    Closed silent_host (main silent_host (codes "ipvshttpd") (codes "-p" ∷ (codes "/run/pid" ∷ [])))
main-Closed_example =
    main-Closed silent_host (codes "ipvshttpd") (codes "-p" ∷ (codes "/run/pid" ∷ []))

-- The level is chosen on the command line, the sinks in the file.
abbrev with_level : Options
with_level = record default_options { log_level_set = true }

load_config-DecidedBy_example :
    DecidedBy with_level demo_logger
      (load_config silent_host with_level demo_logger)
      (Loading.settings silent_host with_level demo_logger)
load_config-DecidedBy_example = load_config-DecidedBy silent_host with_level demo_logger
