-- ===== src/Tests/Threads.antt =====
-- The handlers of src/http_server.cpp, two of them in turns.
use ipvshttpd.HttpServer.Post.Outcome.{Authorized}
use ipvshttpd.HttpServer.Post.{Ended, report_error}
use ipvshttpd.HttpServer.Threads.Alone.{drive, end_of, drive-Promise}
use ipvshttpd.HttpServer.Post.Outcome.Promise.{Promise}
use ipvshttpd.HttpServer.Threads.Answered.{IsSmooth}
use ipvshttpd.HttpServer.Threads.Completion.{IsTame}
use ipvshttpd.HttpServer.Threads.Invariant.{total}
use ipvshttpd.HttpServer.Threads.Locals.{in_config, in_ipvs}
use ipvshttpd.HttpServer.Threads.Owed.{account, all_asks, Reach-account}
use ipvshttpd.HttpServer.Threads.Refinement.{Serves, seen_as, Reach-Serves}
use ipvshttpd.HttpServer.Threads.Exceptions.{left_locked, left_locked_forever}
use ipvshttpd.HttpServer.Threads.Safety.{mutual_exclusion}
use ipvshttpd.HttpServer.Threads.Schedule.{turn, run_schedule, run_schedule-Reach}
use ipvshttpd.HttpServer.Threads.{
  judge_kernels, judge_host, judge_key, judge_parsed, judge, arrived, done, update_step,
  answer_step, step_pc, Pool, Reach, opening,
}
use ipvshttpd.IpvsInterface.{
  string_to_number, close_bracket, open_bracket, parse_port, parse_ipv4, cut_port, parse_opened,
  parse_service, make_dest, update_checked, with_server, with_vip, set_weight,
}
use ipvshttpd.Libc.{skip_spaces, strtol, strtol_digits, digits_of, after_digits, htons}
use ipvshttpd.NetTools.{host_to_addr}
use ipvshttpd.Prelude.Bytes.{Bytes, codes}
use ipvshttpd.Prelude.Int.{pos}
use ipvshttpd.Prelude.{
  ℕ, ◌≤◌, true, List, [], ◌∷◌, ◌++◌, length, ◌≡◌, refl, sym, ap, ◌∙◌, some, arith, All,
}
use ipvshttpd.Tests.Requests.{DemoValue, request, text, int, demo_json, demo_world, two}
use ipvshttpd.Tests.{demo_net}
use mathlib.Core.Option.{some-injective}
use mathlib.Mathlib.Data.Multiset.Defs.{of_list}

drive-Promise_example :
    (e : Ended) × (end_of demo_net demo_json
        (drive demo_net demo_json 12 (codes "good") demo_world arrived)
      ≡ some e)
    × Promise demo_net demo_json (codes "good") demo_world e
drive-Promise_example = drive-Promise demo_net demo_json (codes "good") demo_world refl refl

abbrev start_pool : Pool demo_net demo_json
start_pool = opening demo_net demo_json demo_world two

-- Both handlers, in turns.
abbrev pub mixed : List ℕ
mixed =
    0
    ∷ (1
        ∷ (0
            ∷ (0
                ∷ (0
                    ∷ (0
                        ∷ (1
                            ∷ (1
                                ∷ (0
                                    ∷ (1
                                        ∷ (1
                                            ∷ (1
                                                ∷ (1
                                                    ∷ (1
                                                        ∷ (1
                                                            ∷ (1
                                                            ∷ (1 ∷ (1 ∷ (0 ∷ []))))))))))))))))))

abbrev mixed_end : Pool demo_net demo_json
mixed_end = run_schedule demo_net demo_json mixed start_pool

abbrev mixed-Reach : Reach demo_net demo_json start_pool mixed_end
mixed-Reach = run_schedule-Reach demo_net demo_json mixed start_pool

one_call : length mixed_end.world.calls ≡ 1
unfolding run_schedule turn step_pc judge judge_parsed judge_key judge_host judge_kernels
    update_step answer_step report_error set_weight with_vip with_server update_checked make_dest
    parse_service open_bracket close_bracket parse_opened cut_port parse_ipv4 parse_port
    string_to_number host_to_addr strtol strtol_digits skip_spaces digits_of after_digits htons
one_call = refl

Reach-Serves_example :
    Serves demo_net demo_json demo_world.config
      (record { waiting = two; calls = demo_world.calls })
      (seen_as demo_net demo_json mixed_end)
Reach-Serves_example = Reach-Serves demo_net demo_json demo_world two refl refl mixed-Reach

mutual_exclusion_example :
    (total demo_net demo_json (in_ipvs demo_net demo_json) mixed_end.threads ≤ 1)
    × (total demo_net demo_json (in_config demo_net demo_json) mixed_end.threads ≤ 1)
mutual_exclusion_example = mutual_exclusion demo_net demo_json demo_world two refl refl mixed-Reach

everyone_done : All (λ t. t.pc ≡ done) mixed_end.threads
unfolding run_schedule turn step_pc judge judge_parsed judge_key judge_host judge_kernels
    update_step answer_step report_error set_weight with_vip with_server update_checked make_dest
    parse_service open_bracket close_bracket parse_opened cut_port parse_ipv4 parse_port
    string_to_number host_to_addr strtol strtol_digits skip_spaces digits_of after_digits htons
everyone_done = (refl, (refl, tt))

-- A host that is a list throws behind the lock; a good request comes behind it.
abbrev spoiled : List Bytes
spoiled = codes "odd" ∷ (codes "good" ∷ [])

abbrev spoiled_pool : Pool demo_net demo_json
spoiled_pool = opening demo_net demo_json demo_world spoiled

abbrev spoiled_mid : Pool demo_net demo_json
spoiled_mid =
    run_schedule demo_net demo_json (0 ∷ (0 ∷ (0 ∷ (0 ∷ (0 ∷ (0 ∷ (0 ∷ (0 ∷ [])))))))) spoiled_pool

abbrev spoiled-Reach : Reach demo_net demo_json spoiled_pool spoiled_mid
spoiled-Reach = run_schedule-Reach demo_net demo_json _ spoiled_pool

abbrev later_ones : List ℕ
later_ones = 1 ∷ (1 ∷ (1 ∷ (1 ∷ (1 ∷ (1 ∷ (1 ∷ []))))))

abbrev spoiled_end : Pool demo_net demo_json
spoiled_end = run_schedule demo_net demo_json later_ones spoiled_mid

one_left : 1 ≤ total demo_net demo_json (left_locked demo_net demo_json) spoiled_mid.threads
unfolding run_schedule turn step_pc judge judge_parsed judge_key judge_host judge_kernels
one_left = omega arith

left_locked_forever_example :
    (spoiled_end.world.ipvs_locked ≡ true) × (spoiled_end.world.calls ≡ spoiled_mid.world.calls)
left_locked_forever_example =
    left_locked_forever demo_net demo_json demo_world spoiled refl refl spoiled-Reach one_left
      (run_schedule-Reach demo_net demo_json later_ones spoiled_mid)

bad-IsTame : IsTame demo_net demo_json (codes "secret") (codes "bad")
bad-IsTame = record {
  host_converts = λ h k c. absurd (cc (c.auth.parsed));
  kernels_converts = λ h k c. absurd (cc (c.auth.parsed));
}

abbrev good_value : DemoValue
good_value = request (text (codes "secret")) (text (codes "10.0.0.2")) (int (pos 5))

-- What the parsed request has under a name.
member_is :
    (u v : DemoValue) (name : Bytes)
    (a : Authorized demo_net demo_json (codes "good") (codes "secret"))
    → demo_json.index good_value name ≡ some u
    → demo_json.index a.root name ≡ some v
    → v ≡ u
member_is u v name a e f =
    some-injective v u (
      sym f
      ∙ ap (λ r. demo_json.index r name) (sym (some-injective good_value a.root a.parsed))
      ∙ e)

good-IsTame : IsTame demo_net demo_json (codes "secret") (codes "good")
good-IsTame = record {
  host_converts = λ h k c. (
    codes "10.0.0.2",
    ap demo_json.as_text (member_is _ h (codes "host") c.auth refl c.host_found),
  );
  kernels_converts = λ h k c. (
    pos 5,
    ap demo_json.as_int (member_is _ k (codes "available_kernels") c.auth refl c.kernels_found),
  );
}

pub two-IsSmooth : All (IsSmooth demo_net demo_json (codes "secret")) two
unfolding judge judge_parsed judge_key judge_host judge_kernels
two-IsSmooth = (
  record { tame = bad-IsTame; checks_end = λ e. cc },
  (record { tame = good-IsTame; checks_end = λ e. cc }, tt),
)

Reach-account_example :
    account demo_net demo_json demo_world mixed_end
    ≡ of_list (demo_world.calls ++ all_asks demo_net demo_json demo_world two)
Reach-account_example = Reach-account demo_net demo_json demo_world two refl refl mixed-Reach
