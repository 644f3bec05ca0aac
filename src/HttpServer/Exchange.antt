-- ===== src/HttpServer/Exchange.antt =====
-- A whole exchange of src/http_server.cpp: the headers, the body, and the request handler behind it.
use ipvshttpd.HttpServer.Connection.Reading.{arrive, total, joined, reads_within}
use ipvshttpd.HttpServer.Connection.{
  ReadResult, pending, abandoned, complete, Connection, content_length, accept, on_reads,
}
use ipvshttpd.HttpServer.Post.Outcome.Passing.{Passes, passes_update}
use ipvshttpd.HttpServer.Post.Outcome.{updating}
use ipvshttpd.HttpServer.Post.{
  Json, ok, internal_server_error, Response, response_headers, error_text, ok_text, World, Ended,
  returned, report_error, answer, convert_and_update, update_locked, handle_post_request,
}
use ipvshttpd.IpvsInterface.Weight.Hosts.{IsHost, server_takes_vip_port}
use ipvshttpd.IpvsInterface.{Weighed, set_weight}
use ipvshttpd.Libc.{atoi, decimal, htons, decimal_ℤ}
use ipvshttpd.Libipvs.{Service, Dest, Net}
use ipvshttpd.Prelude.Bytes.{Bytes, codes, equal}
use ipvshttpd.Prelude.Int.{ℤ, pos, eq_ℤ}
use ipvshttpd.Prelude.{
  ℕ, ◌%◌, ◌^◌, ◌<◌, Bool, true, false, List, [], ◌∷◌, ◌++◌, Option, none, some, ◌≡◌, refl, ap, ◌∙◌,
  inl, inr, arith, All, Bool-cases, ◌==◌,
}
use ipvshttpd.StringTools.Number.{atoi-str_from_int}
use ipvshttpd.StringTools.{str_to_lower, str_from_int}

module _ (net : Net) (json : Json) where
  -- The last lines of `handle_post_read`: the handler of a body that was read whole, or nothing yet.
  abbrev pub dispatch : Connection → World → Option Ended
  dispatch c w = elim c.phase [
    | pending left ↦ none
    | abandoned ↦ none
    | complete ↦ some (handle_post_request net json c.body w)
  ]

  -- `operator()` and the read callbacks that follow; what is read is the argument.
  unfoldable pub exchange : List (Bytes × Bytes) → List ReadResult → World → Option Ended
  exchange headers reads w = dispatch (on_reads (accept headers) reads) w

  -- The header of that name, and none before it.
  abbrev pub IsLengthName : Bytes → Type 0
  IsLengthName name = equal (str_to_lower name) (codes "content-length") ≡ true

  length_found :
      (before after : List (Bytes × Bytes)) (name value : Bytes)
      → All (λ h. equal (str_to_lower h.0) (codes "content-length") ≡ false) before
      → IsLengthName name
      → content_length (before ++ (name, value) ∷ after) ≡ atoi value
  unfolding content_length
  length_found [] after name value others e = rw e refl
  length_found ((n, v) ∷ before) after name value (other, rest) e =
      rw other (length_found before after name value rest e)

  atoi-decimal : (n : ℕ) → n < 2 ^ 31 → atoi (decimal n) ≡ pos n
  atoi-decimal n lt = unfold str_from_int decimal_ℤ in atoi-str_from_int (pos n) lt

  -- With a `Content-Length` header in decimal, its name in any case and no other before it, that
  -- announces the bytes of a body of one byte or more, below 2 ^ 31, the handler is called with
  -- exactly this body, however it is cut into chunks.
  pub exchange-handle_post_request :
      (before after : List (Bytes × Bytes)) (name : Bytes) (bs : List Bytes) (w : World)
      → All (λ h. equal (str_to_lower h.0) (codes "content-length") ≡ false) before
      → IsLengthName name
      → 0 < total bs
      → total bs < 2 ^ 31
      → exchange (before ++ (name, decimal (total bs)) ∷ after) (arrive bs) w
        ≡ some (handle_post_request net json (joined bs) w)
  unfolding exchange accept
  exchange-handle_post_request before after name bs w others e gt lt =
      let found =
        length_found before after name (decimal (total bs)) others e ∙ atoi-decimal (total bs) lt in
      let small : total bs % 2 ^ 64 ≡ total bs = omega arith in
      let all : (total bs == total bs) ≡ true = ground arith in
      rw (found, small, reads_within bs (total bs) [] gt (omega arith) (omega arith), all) refl

  -- The response to an update by its result.
  abbrev pub update_response : Bool → Response
  update_response true = record { status = ok; headers = response_headers; text = ok_text }
  update_response false = record {
    status = internal_server_error;
    headers = response_headers;
    text = error_text (codes "Could not set weight.");
  }

  answer_sent :
      (r : Weighed) (w : World)
      → ((answer r w).calls ≡ w.calls ++ r.calls)
        × ((answer r w).responses ≡ w.responses ++ update_response r.success ∷ [])
        × ((answer r w).ipvs_locked ≡ false)
  unfolding answer report_error
  answer_sent r w = elim (Bool-cases r.success) [
    | inl e ↦ rw e (refl, refl, refl)
    | inr e ↦ rw e (refl, refl, refl)
  ]

  -- The end of an exchange that sets a weight.
  pub record Exchanged (vport vip_ip server_ip : ℕ) (weight : ℤ) (w : World) (e : Option Ended)
      : Type 0 where
    pub svc : Service
    pub dest : Dest
    pub final : World
    pub ended : e ≡ some (returned final)
    pub one_call : final.calls ≡ w.calls ++ (svc, dest) ∷ []
    pub vip_port : svc.port ≡ htons vport
    pub vip_addr : svc.addr.ip ≡ vip_ip
    pub server_port : dest.port ≡ htons vport
    pub server_addr : dest.addr.ip ≡ server_ip
    pub weight_set : dest.weight ≡ weight
    pub one_response :
        final.responses
        ≡ w.responses ++ update_response (eq_ℤ (net.update_dest svc dest) (pos 0)) ∷ []
    pub ipvs_free : final.ipvs_locked ≡ false

  passed_update :
      (request : Bytes) (w : World) (p : Passes net json request w.config.api_key) (server : Bytes)
      (weight : ℤ)
      → w.config_locked ≡ false
      → w.ipvs_locked ≡ false
      → json.as_text p.hostname ≡ some server
      → json.as_int p.kernels ≡ some weight
      → handle_post_request net json request w
        ≡ returned (
            answer
              (set_weight net w.config.vip server weight (updating net json w).logger)
              (updating net json w))
  unfolding update_locked convert_and_update
  passed_update request w p server weight cf free te ke =
      passes_update net json request w p cf ∙ rw free (rw (te, ke, convert_and_update) refl)

  -- Let a `Content-Length` header in decimal, its name in any case and no other before it, announce
  -- the bytes of a body of one byte or more, below 2 ^ 31, however it is cut into chunks; let both
  -- mutexes be free, and the body be a request that passes the checks and names a server and a
  -- weight; and let the configured VIP be `host:port`, the port from 1 to 65535, where both hosts
  -- are texts with no NUL byte and no colon, not beginning with a bracket, not all digits and no
  -- IPv6 address, also with the port behind it, that resolve to IPv4 addresses. Then the exchange
  -- makes one call of libipvs, which sets the weight of the server's address, at the VIP's port,
  -- under the VIP's address and port, it sends one response, 200 if the call returned 0 and 500
  -- otherwise, and it releases the IPVS mutex.
  pub exchange-Exchanged :
      (before after : List (Bytes × Bytes)) (name : Bytes) (bs : List Bytes) (w : World)
      (vhost shost : Bytes) (vport vip_ip server_ip : ℕ) (weight : ℤ)
      (p : Passes net json (joined bs) w.config.api_key)
      → All (λ h. equal (str_to_lower h.0) (codes "content-length") ≡ false) before
      → IsLengthName name
      → 0 < total bs
      → total bs < 2 ^ 31
      → w.config_locked ≡ false
      → w.ipvs_locked ≡ false
      → json.as_text p.hostname ≡ some shost
      → json.as_int p.kernels ≡ some weight
      → w.config.vip ≡ vhost ++ b':' ∷ decimal vport
      → IsHost net vhost vip_ip
      → IsHost net shost server_ip
      → 0 < vport
      → vport < 2 ^ 16
      → Exchanged vport vip_ip server_ip weight w
          (exchange (before ++ (name, decimal (total bs)) ∷ after) (arrive bs) w)
  exchange-Exchanged before after name bs w vhost shost vport vip_ip server_ip weight p others e gt
        lt cf free te ke ve hv hs vgt vlt =
      let g = (updating net json w).logger in
      let r = set_weight net w.config.vip shost weight g in
      let s = server_takes_vip_port net vhost shost vport vip_ip server_ip weight g hv hs vgt vlt in
      let same : r ≡ set_weight net (vhost ++ b':' ∷ decimal vport) shost weight g =
        ap (λ v. set_weight net v shost weight g) ve in
      let sent = answer_sent r (updating net json w) in
      record {
        svc = s.0.svc;
        dest = s.0.dest;
        final = answer r (updating net json w);
        ended =
            exchange-handle_post_request before after name bs w others e gt lt
            ∙ ap some (passed_update (joined bs) w p shost weight cf free te ke);
        one_call = sent.0 ∙ ap (λ x. w.calls ++ x.calls) same ∙ ap (λ c. w.calls ++ c) s.0.one_call;
        vip_port = s.1;
        vip_addr = s.2;
        server_port = s.3;
        server_addr = s.4;
        weight_set = s.5;
        one_response =
            sent.1
            ∙ ap (λ x. w.responses ++ update_response x.success ∷ []) same
            ∙ ap (λ b. w.responses ++ update_response b ∷ []) s.0.answer;
        ipvs_free = sent.2;
      }
