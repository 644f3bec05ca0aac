-- ===== src/Tests/Requests.antt =====
-- `handle_post_request` of src/http_server.cpp with a small JSON library.
use ipvshttpd.Configuration.{default_config}
use ipvshttpd.HttpServer.Post.Outcome.Promise.{
  Promise, post-Promise, Confirmed, Updated, ok-Updated,
}
use ipvshttpd.HttpServer.Post.Outcome.Passing.{Passes, host_throws_deadlocks}
use ipvshttpd.HttpServer.Post.Outcome.{updating}
use ipvshttpd.HttpServer.Post.Sequence.{Served, all_served, serve_next, IsFree}
use ipvshttpd.HttpServer.Post.{
  Json, World, thrown, blocked, report_error, read_config, answer, convert_and_update,
  update_locked, check_kernels, check_host, check_key, handle_parsed, handle_post_request,
}
use ipvshttpd.IpvsInterface.{
  string_to_number, close_bracket, open_bracket, parse_port, parse_ipv4, cut_port, parse_opened,
  parse_service, make_dest, update_checked, with_server, with_vip, set_weight,
}
use ipvshttpd.Libc.{skip_spaces, strtol, strtol_digits, digits_of, after_digits, htons}
use ipvshttpd.NetTools.{host_to_addr}
use ipvshttpd.Prelude.Bytes.{Bytes, codes, equal}
use ipvshttpd.Prelude.Int.{ℤ, pos}
use ipvshttpd.Prelude.{
  true, false, not, List, [], ◌∷◌, Option, none, some, ◌≡◌, refl, if◌then◌else◌,
}
use ipvshttpd.Tests.{demo_net, demo_logger}

-- A request's three members, their values, and a value with no text form.
pub data DemoValue : Type 0 where
  request : DemoValue → DemoValue → DemoValue → DemoValue
  text : Bytes → DemoValue
  int : ℤ → DemoValue
  null list : DemoValue

abbrev member : DemoValue → Bytes → Option DemoValue
member (request key host kernels) name =
    if equal name (codes "api_key")
    then some key
    else if equal name (codes "host")
    then some host
    else if equal name (codes "available_kernels")
    then some kernels
    else some null
member null name = some null
member _ name = none

abbrev pub demo_json : Json
demo_json = record {
  Value = DemoValue;
  parse = λ t.
      if equal t (codes "good")
      then some (request (text (codes "secret")) (text (codes "10.0.0.2")) (int (pos 5)))
      else if equal t (codes "odd")
      then some (request (text (codes "secret")) list (int (pos 5)))
      else none;
  index = member;
  is_null = λ v. elim v [ null ↦ true | _ ↦ false ];
  ne_text = λ v t. elim v [ text s ↦ not (equal s t) | _ ↦ true ];
  is_int = λ v. elim v [ int z ↦ true | _ ↦ false ];
  as_text = λ v. elim v [ text s ↦ some s | null ↦ some [] | _ ↦ none ];
  as_int = λ v. elim v [ int z ↦ some z | null ↦ some (pos 0) | _ ↦ none ];
}

abbrev pub demo_world : World
demo_world = record {
  config = record default_config { api_key = codes "secret"; vip = codes "10.0.0.1:80" };
  logger = demo_logger;
  config_locked = false;
  ipvs_locked = false;
  calls = [];
  responses = [];
}

post-Promise_example :
    Promise demo_net demo_json
      (codes "good")
      demo_world
      (handle_post_request demo_net demo_json (codes "good") demo_world)
post-Promise_example = post-Promise demo_net demo_json (codes "good") demo_world refl refl

confirmed :
    Confirmed demo_net demo_json demo_world
      (handle_post_request demo_net demo_json (codes "good") demo_world)
unfolding handle_post_request handle_parsed check_key check_host check_kernels update_locked
    convert_and_update answer report_error set_weight with_vip with_server update_checked make_dest
    parse_service open_bracket close_bracket parse_opened cut_port parse_ipv4 parse_port
    string_to_number host_to_addr strtol strtol_digits skip_spaces digits_of after_digits htons
confirmed = (_, refl, refl)

ok-Updated_example :
    Updated demo_net demo_json
      (codes "good")
      demo_world
      (handle_post_request demo_net demo_json (codes "good") demo_world)
ok-Updated_example = ok-Updated demo_net demo_json (codes "good") demo_world refl refl confirmed

abbrev odd-Passes : Passes demo_net demo_json (codes "odd") (codes "secret")
odd-Passes = record {
  hostname = list;
  kernels = int (pos 5);
  cleared = record {
    auth = record {
      root = request (text (codes "secret")) list (int (pos 5));
      key = text (codes "secret");
      parsed = refl;
      key_found = refl;
      key_not_null = refl;
      key_matches = refl;
    };
    host_found = refl;
    host_not_null = refl;
    kernels_found = refl;
    kernels_not_null = refl;
    kernels_is_int = refl;
  };
}

host_throws_deadlocks_example :
    (handle_post_request demo_net demo_json (codes "odd") demo_world
      ≡ thrown (updating demo_net demo_json demo_world))
    × ((later : Bytes)
        → Passes demo_net demo_json later (codes "secret")
        → handle_post_request demo_net demo_json later (updating demo_net demo_json demo_world)
          ≡ blocked (read_config (updating demo_net demo_json demo_world)))
host_throws_deadlocks_example =
    host_throws_deadlocks demo_net demo_json (codes "odd") demo_world odd-Passes refl refl refl

demo-IsFree : IsFree demo_net demo_json demo_world
demo-IsFree = record { config_free = refl; ipvs_free = refl }

-- A request that cannot be parsed, and one that is obeyed.
abbrev pub two : List Bytes
two = codes "bad" ∷ (codes "good" ∷ [])

two-Served : (w : World) × Served demo_net demo_json demo_world two w
unfolding handle_post_request handle_parsed check_key check_host check_kernels update_locked
    convert_and_update answer report_error set_weight with_vip with_server update_checked make_dest
    parse_service open_bracket close_bracket parse_opened cut_port parse_ipv4 parse_port
    string_to_number host_to_addr strtol strtol_digits skip_spaces digits_of after_digits htons
two-Served = (_, serve_next refl (serve_next refl all_served))
