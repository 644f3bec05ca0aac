-- ===== src/IpvsInterface/Address/Brackets.antt =====
-- `[host]:port` in `m_parse_service` of src/ipvs_interface.cpp.
use ipvshttpd.IpvsInterface.Address.{
  Resolves, not_digits, opened_v4, opened_v6, cut_none, parse_ipv4_lem, parse_port_number,
}
use ipvshttpd.IpvsInterface.Address.Buffer.{
  c_str_nul, set_at, strchr_first, strrchr_nul, drop_after, set_after,
}
use ipvshttpd.IpvsInterface.{
  service_none, service_addr, service_addr_port, refused, opened, close_bracket, open_bracket,
  parse_port, set_ip, parse_opened, parse_service,
}
use ipvshttpd.Libc.{c_str, decimal, htons}
use ipvshttpd.Libipvs.{af_inet6, InetAddr, Service, Net}
use ipvshttpd.Prelude.Bytes.{Bytes}
use ipvshttpd.Prelude.{
  ℕ, suc, ◌+◌, ◌^◌, ◌<◌, [], ◌∷◌, ◌++◌, none, some, ◌≡◌, refl, ap, ◌∙◌, arith, length, drop,
}
use ipvshttpd.StringTools.Prefix.{NoNul}
use ipvshttpd.StringTools.Split.{Lacks}

-- The buffer behind the bracket: both separators are overwritten.
bracketed : Bytes → Bytes → Bytes
bracketed host port = b'[' ∷ (host ++ b']' ∷ b':' ∷ port)

cut_bracketed : Bytes → Bytes → Bytes
cut_bracketed host port = b'[' ∷ (host ++ 0 ∷ 0 ∷ port)

open_bracketed :
    (host port : Bytes)
    → NoNul host
    → Lacks b']' host
    → open_bracket (bracketed host port)
      ≡ opened 1 (some (suc (suc (length host)))) (cut_bracketed host port)
unfolding open_bracket bracketed cut_bracketed
open_bracketed host port nn lacks =
    let e1 : 1 + length host ≡ suc (length host) = omega arith in
    let e2 : suc (length host) + 1 ≡ suc (suc (length host)) = omega arith in
    rw (strchr_first host b']' (b':' ∷ port) nn lacks) (
      rw (e1, e2, set_at host b']' 0 (b':' ∷ port))
        (rw (close_bracket, drop_after host 0 (b':' ∷ port), set_after host 0 b':' 0 port) refl))

module _ (net : Net) (host port : Bytes) (svc : Service) (nn : NoNul host)
    (lacks : Lacks b']' host) where
  bracketed_service :
      parse_service net (bracketed host port) svc
      ≡ parse_opened net svc (opened 1 (some (suc (suc (length host)))) (cut_bracketed host port))
  bracketed_service =
      not_digits net svc (bracketed host port) (unfold bracketed in refl)
      ∙ ap (parse_opened net svc) (open_bracketed host port nn lacks)

  bracketed_text : c_str (drop 1 (cut_bracketed host port)) ≡ host
  unfolding cut_bracketed
  bracketed_text = c_str_nul host (0 ∷ port) nn

  bracketed_port : drop (suc (suc (length host)) + 1) (cut_bracketed host port) ≡ port
  unfolding cut_bracketed
  bracketed_port =
      let e : suc (suc (length host)) + 1 ≡ suc (suc (suc (length host))) = omega arith in
      rw e (drop_two host)
    where
      drop_two : (a : Bytes) → drop (suc (suc (length a))) (a ++ 0 ∷ (0 ∷ port)) ≡ port
      drop_two [] = refl
      drop_two (c ∷ a) = drop_two a

-- `[host]:port` with an IPv6 address, which has no NUL byte and no `]`, and a decimal port up to
-- 65535: address and port are both found, and both separators are overwritten.
pub bracketed_v6 :
    (net : Net) (host : Bytes) (n : ℕ) (svc : Service) (a : InetAddr)
    → NoNul host
    → Lacks b']' host
    → n < 2 ^ 16
    → net.inet_pton6 host ≡ some a
    → parse_service net (b'[' ∷ (host ++ b']' ∷ b':' ∷ decimal n)) svc ≡ record {
      code = service_addr_port;
      svc = record svc { addr = a; af = af_inet6; netmask = 128; port = htons n };
      buf = b'[' ∷ (host ++ 0 ∷ 0 ∷ decimal n);
    }
unfolding bracketed cut_bracketed
bracketed_v6 net host n svc a nn lacks lt h =
    bracketed_service net host (decimal n) svc nn lacks
    ∙ opened_v6 net svc 1 (some (suc (suc (length host)))) (cut_bracketed host (decimal n)) host a
        (bracketed_text net host (decimal n) svc nn lacks) h
    ∙ parse_port_number net (suc (suc (length host))) n (cut_bracketed host (decimal n))
        (record svc { addr = a; af = af_inet6; netmask = 128 })
        (bracketed_port net host (decimal n) svc nn lacks) lt

-- With a host in the brackets that has no NUL byte, `]` or colon and that is no IPv6 address but
-- resolves to an IPv4 one, the port is lost: whatever stands behind `]:`, the answer is that of a host
-- alone, and the service keeps the port that it had.
pub bracketed_port_lost :
    (net : Net) (host port : Bytes) (svc : Service) (ip : ℕ)
    → NoNul host
    → Lacks b']' host
    → Lacks b':' host
    → net.inet_pton6 host ≡ none
    → Resolves net host ip
    → parse_service net (b'[' ∷ (host ++ b']' ∷ b':' ∷ port)) svc
      ≡ record { code = service_addr; svc = set_ip svc ip; buf = b'[' ∷ (host ++ 0 ∷ 0 ∷ port) }
unfolding bracketed cut_bracketed
bracketed_port_lost net host port svc ip nn lacks nocolon no6 res =
    let text = bracketed_text net host port svc nn lacks in
    bracketed_service net host port svc nn lacks
    ∙ opened_v4 net svc 1 (some (suc (suc (length host)))) (cut_bracketed host port) host text no6
    ∙ cut_none net svc 1 (cut_bracketed host port) (strrchr_nul host (0 ∷ port) b':' nocolon)
    ∙ parse_ipv4_lem net 1 none (cut_bracketed host port) host svc ip text res
    ∙ unfold parse_port in refl

-- A text in brackets with nothing behind them, and with no NUL byte and no `]` inside, is refused, and
-- nothing is written to the service.
pub bracketed_alone :
    (net : Net) (host : Bytes) (svc : Service)
    → NoNul host
    → Lacks b']' host
    → parse_service net (b'[' ∷ (host ++ b']' ∷ [])) svc
      ≡ record { code = service_none; svc = svc; buf = b'[' ∷ (host ++ 0 ∷ []) }
bracketed_alone net host svc nn lacks =
    let e1 : 1 + length host ≡ suc (length host) = omega arith in
    let e2 : suc (length host) + 1 ≡ suc (suc (length host)) = omega arith in
    not_digits net svc (b'[' ∷ (host ++ b']' ∷ [])) refl
    ∙ ap (parse_opened net svc) {y = refused (b'[' ∷ (host ++ 0 ∷ []))} (
        unfold open_bracket in
        rw (strchr_first host b']' [] nn lacks)
          (rw (e1, e2, set_at host b']' 0 []) (rw (close_bracket, drop_after host 0 []) refl)))
    ∙ unfold parse_opened in refl
