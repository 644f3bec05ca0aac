-- ===== src/IpvsInterface/Weight.antt =====
-- `set_weight` of src/ipvs_interface.cpp: what its outcomes are, and its steps one by one.
pub mod Outcome
pub mod Hosts
use Prim.Native.Nat.{bit_and}
use ipvshttpd.IpvsInterface.Frame.Fields.{Framed}
use ipvshttpd.IpvsInterface.Frame.{parse_service-Framed}
use ipvshttpd.IpvsInterface.{
  service_none, service_addr, service_addr_port, Parsed, parse_service, Weighed, default_service,
  make_dest, default_sched, flag_set, update_checked, with_server, with_vip, set_weight,
}
use ipvshttpd.Libipvs.{
  af_inet, af_inet6, ipproto_tcp, ipproto_udp, ip_vs_conn_f_droute, ip_vs_svc_f_persistent,
  ip_vs_svc_f_onepacket, Service, Dest, Net,
}
use ipvshttpd.Logging.{Logger, log_error}
use ipvshttpd.Prelude.Bytes.{Bytes, codes, equal}
use ipvshttpd.Prelude.Int.{ℤ, pos, eq_ℤ}
use ipvshttpd.Prelude.{
  ℕ, Bool, true, false, not, ◌&&◌, List, [], ◌∷◌, ◌≡◌, ◌≢◌, refl, sym, ap, ◌∙◌, ◌⊎◌, inl, inr,
  arith, length, ◌≤◌, Bool-cases, ◌==◌, if◌then◌else◌,
}

-- The two parsers of one call: the server is parsed into a copy of the service.
abbrev pub vip_parsed : Net → Bytes → Parsed
vip_parsed net vip = parse_service net vip default_service

abbrev pub server_parsed : Net → Bytes → Bytes → Parsed
server_parsed net vip server = parse_service net server (vip_parsed net vip).svc

-- The inputs that lead to a call: the VIP has an address and a port other than 0, and the server has
-- an address.
pub record Accepted (net : Net) (vip server : Bytes) : Type 0 where
  pub vip_port : (vip_parsed net vip).code ≡ service_addr_port
  pub port_nonzero : (vip_parsed net vip).svc.port ≢ 0
  pub server_addr : (server_parsed net vip server).code ≢ service_none

-- The one call, and what it is made of.
pub record Sent (net : Net) (vip server : Bytes) (weight : ℤ) (g : Logger) (w : Weighed)
    : Type 0 where
  pub svc : Service
  pub dest : Dest
  pub one_call : w.calls ≡ (svc, dest) ∷ []
  pub answer : w.success ≡ eq_ℤ (net.update_dest svc dest) (pos 0)
  pub quiet : w.logger ≡ g
  pub svc_parsed : svc ≡ record ((vip_parsed net vip).svc) { sched_name = codes "wlc" }
  pub tcp : svc.protocol ≡ ipproto_tcp
  pub weight_sent : dest.weight ≡ weight
  pub direct_routing : dest.conn_flags ≡ ip_vs_conn_f_droute
  pub dest_family : dest.af ≡ (server_parsed net vip server).svc.af
  pub dest_addr : dest.addr ≡ (server_parsed net vip server).svc.addr
  pub own_port :
      (server_parsed net vip server).code ≡ service_addr_port
      → dest.port ≡ (server_parsed net vip server).svc.port
  pub vip_port_copied : (server_parsed net vip server).code ≡ service_addr → dest.port ≡ svc.port

-- No call, the answer false, and one error in the log.
pub record Refused (w : Weighed) (g : Logger) : Type 0 where
  pub no_call : w.calls ≡ []
  pub failed : w.success ≡ false
  pub reason : Bytes
  pub logged : w.logger ≡ log_error reason g

module _ (net : Net) (svc : Service) (dest : Dest) (server : Bytes) (g : Logger) where
  update_zero :
      svc.fwmark ≡ 0
      → svc.flags ≡ 0
      → svc.port ≡ 0
      → Refused (update_checked net svc dest server g) g
  unfolding update_checked
  update_zero f fl p =
      rw (f, fl, p) (record { no_call = refl; failed = refl; reason = _; logged = refl })

  update_sends :
      svc.fwmark ≡ 0
      → svc.flags ≡ 0
      → svc.port ≢ 0
      → update_checked net svc dest server g ≡ record {
        success = eq_ℤ (net.update_dest (default_sched svc) dest) (pos 0);
        calls = (default_sched svc, dest) ∷ [];
        logger = g;
        server = server;
      }
  unfolding update_checked
  update_sends f fl p = let e : (svc.port == 0) ≡ false = ground (arith, p) in rw (f, e, fl) refl

abbrev HasAddr : ℕ → Type 0
HasAddr code = (code ≡ service_addr) ⊎ (code ≡ service_addr_port)

has_addr : (code : ℕ) → HasAddr code → (bit_and code service_addr == 0) ≡ false
has_addr code (inl e) = rw e refl
has_addr code (inr e) = rw e refl

module _ (net : Net) (g : Logger) (weight : ℤ) where
  with_vip_none :
      (vip : Parsed) (server : Bytes)
      → vip.code ≡ service_none
      → Refused (with_vip net vip server weight g) g
  unfolding with_vip
  with_vip_none vip server e =
      rw e (record { no_call = refl; failed = refl; reason = _; logged = refl })

  with_vip_addr :
      (vip : Parsed) (server : Bytes)
      → HasAddr vip.code
      → with_vip net vip server weight g
        ≡ with_server net vip.svc weight (parse_service net server vip.svc) g
  unfolding with_vip
  with_vip_addr vip server h = rw (has_addr vip.code h) refl

  with_server_none :
      (svc : Service) (d : Parsed)
      → d.code ≡ service_none
      → Refused (with_server net svc weight d g) g
  unfolding with_server
  with_server_none svc d e =
      rw e (record { no_call = refl; failed = refl; reason = _; logged = refl })

  with_server_addr :
      (svc : Service) (d : Parsed)
      → HasAddr d.code
      → with_server net svc weight d g
        ≡ update_checked net svc (make_dest d.svc d.code weight svc.port) d.buf g
  unfolding with_server
  with_server_addr svc d h = rw (has_addr d.code h) refl

-- What is called does not depend on the log.
update_calls :
    (net : Net) (svc : Service) (dest : Dest) (server : Bytes) (g g' : Logger)
    → (update_checked net svc dest server g).calls ≡ (update_checked net svc dest server g').calls
unfolding update_checked
update_calls net svc dest server g g' =
    elim (Bool-cases
      (svc.fwmark == 0 && svc.port == 0 && not (flag_set svc.flags ip_vs_svc_f_persistent))) [
        | inl e ↦ rw e refl
        | inr e ↦
            elim (Bool-cases (
              flag_set svc.flags ip_vs_svc_f_onepacket
              && svc.fwmark == 0
              && not (svc.protocol == ipproto_udp))) [
                | inl e' ↦ rw (e, e') refl
                | inr e' ↦ rw (e, e') refl
              ]
      ]

server_calls :
    (net : Net) (svc : Service) (weight : ℤ) (d : Parsed) (g g' : Logger)
    → (with_server net svc weight d g).calls ≡ (with_server net svc weight d g').calls
unfolding with_server
server_calls net svc weight d g g' = elim (Bool-cases (bit_and d.code service_addr == 0)) [
  | inl e ↦ rw e refl
  | inr e ↦ rw e (update_calls net svc (make_dest d.svc d.code weight svc.port) d.buf g g')
]

pub set_weight_calls :
    (net : Net) (vip server : Bytes) (weight : ℤ) (g g' : Logger)
    → (set_weight net vip server weight g).calls ≡ (set_weight net vip server weight g').calls
unfolding set_weight with_vip
set_weight_calls net vip server weight g g' =
    elim (Bool-cases (bit_and (vip_parsed net vip).code service_addr == 0)) [
      | inl e ↦ rw e refl
      | inr e ↦
          rw e
            (server_calls net (vip_parsed net vip).svc weight (server_parsed net vip server) g g')
    ]
