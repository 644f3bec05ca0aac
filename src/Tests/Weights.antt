-- ===== src/Tests/Weights.antt =====
-- src/ipvs_interface.cpp on concrete addresses.
use ipvshttpd.IpvsInterface.Address.Brackets.{bracketed_v6, bracketed_port_lost}
use ipvshttpd.IpvsInterface.Address.Names.{port_named, host_service}
use ipvshttpd.IpvsInterface.Address.{host_port}
use ipvshttpd.IpvsInterface.Frame.Fields.{Framed}
use ipvshttpd.IpvsInterface.Frame.{parse_service-Framed}
use ipvshttpd.IpvsInterface.Weight.Hosts.{IsHost, server_takes_vip_port, server_keeps_port}
use ipvshttpd.IpvsInterface.Weight.{Accepted, Sent, Refused}
use ipvshttpd.IpvsInterface.Weight.Outcome.{weight_outcome}
use ipvshttpd.IpvsInterface.{
  service_addr, service_addr_port, set_ip, parse_service, default_service, set_weight,
}
use ipvshttpd.Libc.{htons, decimal}
use ipvshttpd.Libipvs.{af_inet6}
use ipvshttpd.Prelude.Bytes.{Bytes, codes}
use ipvshttpd.Prelude.Int.{pos}
use ipvshttpd.Prelude.{some, ◌∷◌, ◌++◌, ◌≡◌, refl, ◌⊎◌, inl, arith}
use ipvshttpd.Tests.{free-Lacks, demo_net, demo_logger, loopback6}

abbrev pub vip : Bytes
vip = codes "10.0.0.1"

abbrev pub server : Bytes
server = codes "10.0.0.2"

abbrev vip_80 : Bytes
vip_80 = vip ++ b':' ∷ decimal 80

weight_outcome_example :
    (Accepted demo_net vip_80 server
      × Sent demo_net vip_80 server
          (pos 5)
          demo_logger
          (set_weight demo_net vip_80 server (pos 5) demo_logger))
    ⊎ ((¬ Accepted demo_net vip_80 server)
        × Refused (set_weight demo_net vip_80 server (pos 5) demo_logger) demo_logger)
weight_outcome_example = weight_outcome demo_net vip_80 server (pos 5) demo_logger

parse_service-Framed_example :
    Framed default_service vip_80 (parse_service demo_net vip_80 default_service)
parse_service-Framed_example = parse_service-Framed demo_net vip_80 default_service

pub vip-IsHost : IsHost demo_net vip 16777226
vip-IsHost = record {
  no_nul = free-Lacks 0 vip refl;
  no_colon = free-Lacks b':' vip refl;
  no_bracket = omega arith;
  not_a_number = refl;
  not_v6 = refl;
  not_v6_port = λ n. refl;
  resolves = inl refl;
}

pub server-IsHost : IsHost demo_net server 33554442
server-IsHost = record {
  no_nul = free-Lacks 0 server refl;
  no_colon = free-Lacks b':' server refl;
  no_bracket = omega arith;
  not_a_number = refl;
  not_v6 = refl;
  not_v6_port = λ n. refl;
  resolves = inl refl;
}

server_takes_vip_port_example :
    (s : Sent demo_net vip_80 server
      (pos 5)
      demo_logger
      (set_weight demo_net vip_80 server (pos 5) demo_logger))
    × (s.svc.port ≡ htons 80)
    × (s.svc.addr.ip ≡ 16777226)
    × (s.dest.port ≡ htons 80)
    × (s.dest.addr.ip ≡ 33554442)
    × (s.dest.weight ≡ pos 5)
server_takes_vip_port_example =
    server_takes_vip_port demo_net vip server 80 16777226 33554442 (pos 5) demo_logger vip-IsHost
      server-IsHost (omega arith) (omega arith)

server_keeps_port_example :
    (s : Sent demo_net vip_80
      (server ++ b':' ∷ decimal 8080)
      (pos 5)
      demo_logger
      (set_weight demo_net vip_80 (server ++ b':' ∷ decimal 8080) (pos 5) demo_logger))
    × (s.svc.port ≡ htons 80)
    × (s.dest.port ≡ htons 8080)
    × (s.dest.addr.ip ≡ 33554442)
    × (s.dest.weight ≡ pos 5)
server_keeps_port_example =
    server_keeps_port demo_net vip server 80 8080 16777226 33554442 (pos 5) demo_logger vip-IsHost
      server-IsHost (omega arith) (omega arith) (omega arith)

host_port_example : parse_service demo_net vip_80 default_service ≡ record {
  code = service_addr_port;
  svc = record (set_ip default_service 16777226) { port = htons 80 };
  buf = vip ++ 0 ∷ decimal 80;
}
host_port_example =
    host_port demo_net vip 80 default_service 16777226 (free-Lacks 0 vip refl) (omega arith)
      (omega arith) refl (inl refl)

bracketed_v6_example :
    parse_service demo_net (b'[' ∷ (codes "::1" ++ b']' ∷ b':' ∷ decimal 80)) default_service
    ≡ record {
      code = service_addr_port;
      svc = record default_service {
        addr = loopback6;
        af = af_inet6;
        netmask = 128;
        port = htons 80;
      };
      buf = b'[' ∷ (codes "::1" ++ 0 ∷ 0 ∷ decimal 80);
    }
bracketed_v6_example =
    bracketed_v6 demo_net (codes "::1") 80 default_service loopback6
      (free-Lacks 0 (codes "::1") refl) (free-Lacks b']' (codes "::1") refl) (omega arith) refl

bracketed_port_lost_example :
    parse_service demo_net (b'[' ∷ (vip ++ b']' ∷ b':' ∷ codes "80")) default_service ≡ record {
      code = service_addr;
      svc = set_ip default_service 16777226;
      buf = b'[' ∷ (vip ++ 0 ∷ 0 ∷ codes "80");
    }
bracketed_port_lost_example =
    bracketed_port_lost demo_net vip (codes "80") default_service 16777226 (free-Lacks 0 vip refl)
      (free-Lacks b']' vip refl) (free-Lacks b':' vip refl) refl (inl refl)

host_service_example :
    parse_service demo_net (vip ++ b':' ∷ codes "http") default_service
    ≡ port_named (some 20480) (vip ++ 0 ∷ codes "http") (set_ip default_service 16777226)
host_service_example =
    host_service demo_net vip b'h' (codes "ttp") default_service 16777226 (some 20480)
      (free-Lacks 0 vip refl) (omega arith)
      (record { no_digit = refl; no_space = refl; no_minus = refl; no_plus = refl })
      (free-Lacks 0 (codes "http") refl) (free-Lacks b':' (codes "http") refl) refl (inl refl) refl
      refl (omega arith)
