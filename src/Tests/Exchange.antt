-- ===== src/Tests/Exchange.antt =====
-- Exchanges of src/http_server.cpp: a request in two chunks, with its length in the headers.
use ipvshttpd.HttpServer.Connection.Reading.{arrive, total}
use ipvshttpd.HttpServer.Exchange.{exchange, Exchanged, exchange-Exchanged}
use ipvshttpd.HttpServer.Post.Outcome.Passing.{Passes}
use ipvshttpd.Libc.{decimal, decimal_fuel}
use ipvshttpd.Prelude.Bytes.{Bytes, codes}
use ipvshttpd.Prelude.Int.{pos}
use ipvshttpd.Prelude.{List, [], ◌∷◌, ◌++◌, ◌≡◌, refl, arith}
use ipvshttpd.StringTools.{str_to_lower}
use ipvshttpd.Tests.Requests.{request, text, int, demo_json, demo_world}
use ipvshttpd.Tests.Weights.{vip, server, vip-IsHost, server-IsHost}
use ipvshttpd.Tests.{demo_net}

abbrev good-Passes : Passes demo_net demo_json (codes "good") (codes "secret")
good-Passes = record {
  hostname = text server;
  kernels = int (pos 5);
  cleared = record {
    auth = record {
      root = request (text (codes "secret")) (text server) (int (pos 5));
      key = text (codes "secret");
      parsed = refl;
      key_found = refl;
      key_not_null = refl;
      key_matches = refl;
    };
    host_found = refl;
    host_not_null = refl;
    kernels_found = refl;
    kernels_not_null = refl;
    kernels_is_int = refl;
  };
}

abbrev chunks : List Bytes
chunks = codes "go" ∷ (codes "od" ∷ [])

abbrev earlier : List (Bytes × Bytes)
earlier = (codes "Host", codes "lb") ∷ []

vip_text : demo_world.config.vip ≡ vip ++ b':' ∷ decimal 80
unfolding decimal decimal_fuel
vip_text = refl

exchange-Exchanged_example : Exchanged demo_net demo_json 80 16777226 33554442 (pos 5) demo_world (
    exchange demo_net demo_json
      (earlier ++ (codes "Content-Length", decimal (total chunks)) ∷ [])
      (arrive chunks)
      demo_world)
unfolding str_to_lower
exchange-Exchanged_example =
    exchange-Exchanged demo_net demo_json earlier [] (codes "Content-Length") chunks demo_world vip
      server 80 16777226 33554442 (pos 5) good-Passes (refl, tt) refl (omega arith) (omega arith)
      refl refl refl refl vip_text vip-IsHost server-IsHost (omega arith) (omega arith)
