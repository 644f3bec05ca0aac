-- ===== src/IpvsInterface/Address/Names.antt =====
-- `host:port` in src/ipvs_interface.cpp where the port is the name of a service.
use ipvshttpd.IpvsInterface.Address.{Resolves, host_before_port}
use ipvshttpd.IpvsInterface.Address.Buffer.{c_str-NoNul}
use ipvshttpd.IpvsInterface.Ports.{htons-htons, htons-lt}
use ipvshttpd.IpvsInterface.{
  service_none, service_addr_port, Parsed, set_ip, parse_port, parse_service, service_to_port,
  string_to_number,
}
use ipvshttpd.Libc.{
  first, htons, is_digit, is_space, skip_spaces, strtol, strtol_digits, digits_of, after_digits,
}
use ipvshttpd.Libipvs.{ipproto_tcp, Service, Net}
use ipvshttpd.Prelude.Bytes.{Bytes, codes}
use ipvshttpd.Prelude.Int.{pos, negsuc}
use ipvshttpd.Prelude.{
  ℕ, ◌+◌, ◌%◌, ◌^◌, ◌<◌, false, ◌∷◌, ◌++◌, length, drop, Option, none, some, ◌≡◌, ◌≢◌, refl, ◌∙◌,
  arith, ◌==◌,
}
use ipvshttpd.StringTools.Prefix.{NoNul}
use ipvshttpd.StringTools.Split.Byte.{drop_past}
use ipvshttpd.StringTools.Split.{Lacks}

-- A byte that the name of a service may begin with: no digit, space or sign.
pub record IsName (c : ℕ) : Type 0 where
  pub no_digit : is_digit c ≡ false
  pub no_space : is_space c ≡ false
  pub no_minus : (c == b'-') ≡ false
  pub no_plus : (c == b'+') ≡ false

no_number : (c : ℕ) (s : Bytes) → IsName c → string_to_number (c ∷ s) (pos 0) (pos 65535) ≡ negsuc 0
unfolding string_to_number strtol strtol_digits skip_spaces digits_of after_digits
no_number c s h = rw (h.no_space, h.no_minus, h.no_plus, h.no_digit) (ground arith)

-- What the database of services makes of the name, for TCP.
abbrev pub port_named : Option ℕ → Bytes → Service → Parsed
port_named none buf svc = record { code = service_none; svc = svc; buf = buf }
port_named (some s_port) buf svc = record {
  code = service_addr_port;
  svc = record svc { port = s_port };
  buf = buf;
}

-- A port in network byte order, as the database keeps it.
abbrev pub IsPort : Option ℕ → Type 0
IsPort none = Unit
IsPort (some s_port) = s_port < 2 ^ 16

named_some :
    (net : Net) (name : Bytes) (s_port : ℕ)
    → net.getservbyname name (codes "tcp") ≡ some s_port
    → s_port < 2 ^ 16
    → service_to_port net name ipproto_tcp ≡ pos (htons s_port)
unfolding service_to_port
named_some net name s_port f b =
    let small : s_port % 2 ^ 16 ≡ s_port = omega arith in rw f (rw small refl)

named_none :
    (net : Net) (name : Bytes)
    → net.getservbyname name (codes "tcp") ≡ none
    → service_to_port net name ipproto_tcp ≡ negsuc 0
unfolding service_to_port
named_none net name f = rw f refl

parse_port_named :
    (net : Net) (p c : ℕ) (name buf : Bytes) (svc : Service) (found : Option ℕ)
    → drop (p + 1) buf ≡ c ∷ name
    → IsName c
    → NoNul (c ∷ name)
    → svc.protocol ≡ ipproto_tcp
    → net.getservbyname (c ∷ name) (codes "tcp") ≡ found
    → IsPort found
    → parse_port net (some p) buf svc ≡ port_named found buf svc
unfolding parse_port
parse_port_named net p c name buf svc none e h nn tcp f b =
    rw (e, no_number c name h, c_str-NoNul (c ∷ name) nn, tcp, named_none net (c ∷ name) f) refl
parse_port_named net p c name buf svc (some s_port) e h nn tcp f b =
    let small : htons s_port % 65536 ≡ htons s_port = let lt = htons-lt s_port in omega arith in
    let back : htons (htons s_port) ≡ s_port = htons-htons s_port b in
    rw (e, no_number c name h, c_str-NoNul (c ∷ name) nn, tcp, named_some net (c ∷ name) s_port f b)
      (rw (small, back) refl)

-- `host:name`, where the name does not begin with a digit, a space or a sign and has no NUL byte
-- and no colon: where the host has no NUL byte, does not begin with a bracket and resolves by
-- `inet_aton` or else by `host_to_addr`, the whole text is no IPv6 address, and the service's
-- protocol is TCP, the port is the one that the database of services has for the name, with its
-- bytes as they are there; a name that the database does not have is refused.
pub host_service :
    (net : Net) (host : Bytes) (c : ℕ) (name : Bytes) (svc : Service) (ip : ℕ) (found : Option ℕ)
    → NoNul host
    → first host ≢ b'['
    → IsName c
    → NoNul (c ∷ name)
    → Lacks b':' (c ∷ name)
    → net.inet_pton6 (host ++ b':' ∷ (c ∷ name)) ≡ none
    → Resolves net host ip
    → svc.protocol ≡ ipproto_tcp
    → net.getservbyname (c ∷ name) (codes "tcp") ≡ found
    → IsPort found
    → parse_service net (host ++ b':' ∷ (c ∷ name)) svc
      ≡ port_named found (host ++ 0 ∷ (c ∷ name)) (set_ip svc ip)
host_service net host c name svc ip found nn nb h np lp no6 res tcp f b =
    host_before_port net host (c ∷ name) svc ip nn nb np lp no6 res
    ∙ parse_port_named net (length host) c name (host ++ 0 ∷ (c ∷ name)) (set_ip svc ip) found
        (drop_past host 0 (c ∷ name)) h np tcp f b
