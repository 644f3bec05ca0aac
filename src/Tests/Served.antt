-- ===== src/Tests/Served.antt =====
-- src/http_server.cpp from its `start` to the end of two handlers in turns.
use ipvshttpd.HttpServer.Post.{report_error}
use ipvshttpd.HttpServer.Served.{
  handlers_world, AllServed, start-AllServed, Finishes, start-Finishes,
}
use ipvshttpd.HttpServer.Server.{
  by_itself, Netlib, HttpServer, new_server, create, ready, make_server, prepare,
}
use ipvshttpd.HttpServer.Threads.Answered.{returned_stuck}
use ipvshttpd.HttpServer.Threads.Schedule.{turn, run_schedule, run_schedule-Reach}
use ipvshttpd.HttpServer.Threads.{
  here, judge_kernels, judge_host, judge_key, judge_parsed, judge, done, update_step, answer_step,
  step_pc, Pool, opening,
}
use ipvshttpd.IpvsInterface.{
  new_interface, init, string_to_number, close_bracket, open_bracket, parse_port, parse_ipv4,
  cut_port, parse_opened, parse_service, make_dest, update_checked, with_server, with_vip,
  set_weight,
}
use ipvshttpd.Libc.{skip_spaces, strtol, strtol_digits, digits_of, after_digits, htons}
use ipvshttpd.NetTools.{host_to_addr}
use ipvshttpd.Prelude.Bytes.{codes}
use ipvshttpd.Prelude.Int.{pos}
use ipvshttpd.Prelude.{true, false, ◌≡◌, refl, All}
use ipvshttpd.Tests.Requests.{demo_json, demo_world, two}
use ipvshttpd.Tests.Threads.{mixed, two-IsSmooth}
use ipvshttpd.Tests.{demo_net, demo_logger, smooth}

abbrev taking_all : Netlib
taking_all = record {
  takes_chain = λ _. true;
  takes_key = λ _. true;
  takes_dh = λ _. true;
  makes = λ _. true;
  run_end = by_itself;
}

abbrev fresh : HttpServer
fresh = new_server (codes "0.0.0.0") (pos 8080) (pos 2) (new_interface demo_logger) false

-- The object whose server is to be run.
abbrev running : HttpServer
running =
    create demo_world.config
      (record fresh { interface = (init smooth fresh.interface).0; ipvs_locked = false })

prepared : prepare smooth taking_all demo_world.config fresh ≡ ready running
unfolding prepare make_server init
prepared = refl

abbrev opened : Pool demo_net demo_json
opened = opening demo_net demo_json (handlers_world demo_world.config running) two

abbrev ended : Pool demo_net demo_json
ended = run_schedule demo_net demo_json mixed opened

everyone_returned : All (λ h. h.pc ≡ done) ended.threads
unfolding run_schedule turn step_pc judge judge_parsed judge_key judge_host judge_kernels
    update_step answer_step report_error set_weight with_vip with_server update_checked make_dest
    parse_service open_bracket close_bracket parse_opened cut_port parse_ipv4 parse_port
    string_to_number host_to_addr strtol strtol_digits skip_spaces digits_of after_digits htons
everyone_returned = (refl, (refl, tt))

start-AllServed_example :
    AllServed demo_net demo_json (handlers_world demo_world.config running) two ended
start-AllServed_example =
    start-AllServed demo_net demo_json smooth taking_all demo_world.config fresh two prepared
      two-IsSmooth (run_schedule-Reach demo_net demo_json mixed opened)
      (λ s st. returned_stuck demo_net demo_json everyone_returned st)

start-Finishes_example :
    Finishes demo_net demo_json smooth taking_all demo_world.config fresh two prepared two-IsSmooth
      opened
start-Finishes_example =
    start-Finishes demo_net demo_json smooth taking_all demo_world.config fresh two prepared
      two-IsSmooth here
