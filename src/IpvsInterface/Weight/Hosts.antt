-- ===== src/IpvsInterface/Weight/Hosts.antt =====
-- `set_weight` of src/ipvs_interface.cpp on `host:port` texts.
use ipvshttpd.IpvsInterface.Address.{Resolves, host_port, host_alone}
use ipvshttpd.IpvsInterface.Ports.{htons_zero}
use ipvshttpd.IpvsInterface.Weight.{Accepted, Sent, vip_parsed, server_parsed}
use ipvshttpd.IpvsInterface.Weight.Outcome.{weight_outcome}
use ipvshttpd.IpvsInterface.{
  service_addr, service_addr_port, default_service, parse_service, set_weight, str_is_digit,
}
use ipvshttpd.Libc.{first, htons, decimal}
use ipvshttpd.Libipvs.{Service, Net}
use ipvshttpd.Logging.{Logger}
use ipvshttpd.Prelude.Bytes.{Bytes}
use ipvshttpd.Prelude.Int.{ℤ}
use ipvshttpd.Prelude.{ℕ, ◌^◌, ◌<◌, false, ◌∷◌, ◌++◌, none, ◌≡◌, ◌≢◌, sym, ap, ◌∙◌, inl, inr, arith}
use ipvshttpd.StringTools.Prefix.{NoNul}
use ipvshttpd.StringTools.Split.{Lacks}

-- A host name, as it may stand before a port.
pub record IsHost (net : Net) (host : Bytes) (ip : ℕ) : Type 0 where
  pub no_nul : NoNul host
  pub no_colon : Lacks b':' host
  pub no_bracket : first host ≢ b'['
  pub not_a_number : str_is_digit host ≡ false
  pub not_v6 : net.inet_pton6 host ≡ none
  pub not_v6_port : (n : ℕ) → net.inet_pton6 (host ++ b':' ∷ decimal n) ≡ none
  pub resolves : Resolves net host ip

module _ (net : Net) {host : Bytes} {ip : ℕ} (h : IsHost net host ip) (svc : Service) where
  bare_code : (parse_service net host svc).code ≡ service_addr
  bare_code =
      ap (λ p. p.code)
        (host_alone net host svc ip h.no_nul h.no_colon h.no_bracket h.not_a_number h.not_v6
          h.resolves)

  bare_ip : (parse_service net host svc).svc.addr.ip ≡ ip
  bare_ip =
      ap (λ p. p.svc.addr.ip)
        (host_alone net host svc ip h.no_nul h.no_colon h.no_bracket h.not_a_number h.not_v6
          h.resolves)

module _ (net : Net) {host : Bytes} {ip : ℕ} (h : IsHost net host ip) (n : ℕ) (lt : n < 2 ^ 16)
    (svc : Service) where
  port_code : (parse_service net (host ++ b':' ∷ decimal n) svc).code ≡ service_addr_port
  port_code =
      ap (λ p. p.code)
        (host_port net host n svc ip h.no_nul h.no_bracket lt (h.not_v6_port n) h.resolves)

  port_ip : (parse_service net (host ++ b':' ∷ decimal n) svc).svc.addr.ip ≡ ip
  port_ip =
      ap (λ p. p.svc.addr.ip)
        (host_port net host n svc ip h.no_nul h.no_bracket lt (h.not_v6_port n) h.resolves)

  port_port : (parse_service net (host ++ b':' ∷ decimal n) svc).svc.port ≡ htons n
  port_port =
      ap (λ p. p.svc.port)
        (host_port net host n svc ip h.no_nul h.no_bracket lt (h.not_v6_port n) h.resolves)

Accepted-Sent :
    (net : Net) (vip server : Bytes) (weight : ℤ) (g : Logger)
    → Accepted net vip server
    → Sent net vip server weight g (set_weight net vip server weight g)
Accepted-Sent net vip server weight g a = elim (weight_outcome net vip server weight g) [
  | inl p ↦ p.1
  | inr q ↦ absurd (q.0 a)
]

-- Let both hosts be texts with no NUL byte and no colon, not beginning with a bracket, not all
-- digits and no IPv6 address, also with the port behind it, that resolve to IPv4 addresses. With a
-- VIP `host:port`, the port from 1 to 65535, and a server without a port, the weight is sent to the
-- server's address at the port of the VIP.
pub server_takes_vip_port :
    (net : Net) (vhost shost : Bytes) (vport vip_ip server_ip : ℕ) (weight : ℤ) (g : Logger)
    → IsHost net vhost vip_ip
    → IsHost net shost server_ip
    → 0 < vport
    → vport < 2 ^ 16
    → (s : Sent net
        (vhost ++ b':' ∷ decimal vport)
        shost
        weight
        g
        (set_weight net (vhost ++ b':' ∷ decimal vport) shost weight g))
      × (s.svc.port ≡ htons vport)
      × (s.svc.addr.ip ≡ vip_ip)
      × (s.dest.port ≡ htons vport)
      × (s.dest.addr.ip ≡ server_ip)
      × (s.dest.weight ≡ weight)
server_takes_vip_port net vhost shost vport vip_ip server_ip weight g hv hs gt lt =
    let vip : Bytes = vhost ++ b':' ∷ decimal vport in
    let vport_eq : (vip_parsed net vip).svc.port ≡ htons vport =
      port_port net hv vport lt default_service in
    let code : (server_parsed net vip shost).code ≡ service_addr =
      bare_code net hs (vip_parsed net vip).svc in
    let s = Accepted-Sent net vip shost weight g (record {
      vip_port = port_code net hv vport lt default_service;
      port_nonzero = λ z. omega (arith, htons_zero vport lt (sym vport_eq ∙ z));
      server_addr = λ z. omega (arith, code, z);
    }) in
    let svc_port : s.svc.port ≡ htons vport = ap (λ t. t.port) s.svc_parsed ∙ vport_eq in
    (
      s,
      svc_port,
      ap (λ t. t.addr.ip) s.svc_parsed ∙ port_ip net hv vport lt default_service,
      s.vip_port_copied code ∙ svc_port,
      ap (λ a. a.ip) s.dest_addr ∙ bare_ip net hs (vip_parsed net vip).svc,
      s.weight_sent,
    )

-- Let both hosts be texts with no NUL byte and no colon, not beginning with a bracket, not all
-- digits and no IPv6 address, also with the port behind it, that resolve to IPv4 addresses. With a
-- VIP `host:port`, the port from 1 to 65535, and a server with a port of its own up to 65535, the
-- weight is sent to the server's address at the server's port.
pub server_keeps_port :
    (net : Net) (vhost shost : Bytes) (vport sport vip_ip server_ip : ℕ) (weight : ℤ) (g : Logger)
    → IsHost net vhost vip_ip
    → IsHost net shost server_ip
    → 0 < vport
    → vport < 2 ^ 16
    → sport < 2 ^ 16
    → (s : Sent net
        (vhost ++ b':' ∷ decimal vport)
        (shost ++ b':' ∷ decimal sport)
        weight
        g
        (set_weight net (vhost ++ b':' ∷ decimal vport) (shost ++ b':' ∷ decimal sport) weight g))
      × (s.svc.port ≡ htons vport)
      × (s.dest.port ≡ htons sport)
      × (s.dest.addr.ip ≡ server_ip)
      × (s.dest.weight ≡ weight)
server_keeps_port net vhost shost vport sport vip_ip server_ip weight g hv hs gt lt slt =
    let vip : Bytes = vhost ++ b':' ∷ decimal vport in
    let server : Bytes = shost ++ b':' ∷ decimal sport in
    let vport_eq : (vip_parsed net vip).svc.port ≡ htons vport =
      port_port net hv vport lt default_service in
    let code : (server_parsed net vip server).code ≡ service_addr_port =
      port_code net hs sport slt (vip_parsed net vip).svc in
    let s = Accepted-Sent net vip server weight g (record {
      vip_port = port_code net hv vport lt default_service;
      port_nonzero = λ z. omega (arith, htons_zero vport lt (sym vport_eq ∙ z));
      server_addr = λ z. omega (arith, code, z);
    }) in
    (
      s,
      ap (λ t. t.port) s.svc_parsed ∙ vport_eq,
      s.own_port code ∙ port_port net hs sport slt (vip_parsed net vip).svc,
      ap (λ a. a.ip) s.dest_addr ∙ port_ip net hs sport slt (vip_parsed net vip).svc,
      s.weight_sent,
    )
