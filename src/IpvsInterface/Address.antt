-- ===== src/IpvsInterface/Address.antt =====
-- Addresses as `m_parse_service` of src/ipvs_interface.cpp reads them, with and without a port.
pub mod Buffer
pub mod Brackets
pub mod Names
use ipvshttpd.IpvsInterface.Address.Buffer.{
  c_str_nul, c_str-NoNul, set_at, strchr_first, strrchr_last, strrchr-Lacks, strrchr_nul,
  digit-NoNul, digit-Lacks, not_all_digits, drop_after, set_after,
}
use ipvshttpd.IpvsInterface.Ports.{string_to_number-decimal}
use ipvshttpd.IpvsInterface.{
  service_none, service_addr, service_addr_port, Parsed, Bracket, refused, opened, close_bracket,
  open_bracket, parse_port, parse_ipv4, set_ip, cut_port, parse_opened, parse_service, str_is_digit,
  string_to_number, service_to_port,
}
use ipvshttpd.Libc.{c_str, first, strchr, strrchr, decimal, htons, is_digit}
use ipvshttpd.Libipvs.{af_inet, af_inet6, InetAddr, Service, Net}
use ipvshttpd.NetTools.{host_to_addr}
use ipvshttpd.Prelude.Bytes.{Bytes}
use ipvshttpd.Prelude.Int.{ℤ, pos, negsuc, eq_ℤ, to_unsigned}
use ipvshttpd.Prelude.{
  ℕ, zero, suc, ◌+◌, ◌%◌, ◌^◌, ◌<◌, Bool, true, false, not, ◌&&◌, List, [], ◌∷◌, ◌++◌, Option, none,
  some, ◌≡◌, ◌≢◌, refl, sym, ap, ◌∙◌, ◌⊎◌, inl, inr, arith, Bool-cases, Option-cases, All,
  All-append, length, drop, set, ◌==◌, if◌then◌else◌, leb,
}
use ipvshttpd.StringTools.Number.{decimal-IsDigit}
use ipvshttpd.StringTools.Prefix.{NoNul}
use ipvshttpd.StringTools.Split.Byte.{drop_past}
use ipvshttpd.StringTools.Split.{Lacks}

-- A port number behind the separator is read and stored in network byte order.
pub parse_port_number :
    (net : Net) (p n : ℕ) (buf : Bytes) (svc : Service)
    → drop (p + 1) buf ≡ decimal n
    → n < 2 ^ 16
    → parse_port net (some p) buf svc
      ≡ record { code = service_addr_port; svc = record svc { port = htons n }; buf = buf }
unfolding parse_port
parse_port_number net p n buf svc e h =
    let read : string_to_number (decimal n) (pos 0) (pos 65535) ≡ pos n =
      string_to_number-decimal n 65535 (omega arith) (omega arith) ∙ ground arith in
    let small : n % 65536 ≡ n = omega arith in rw (e, read) (rw small refl)

-- The address before the separator, as the two ways of reading it give it.
abbrev pub Resolves : Net → Bytes → ℕ → Type 0
Resolves net host ip =
    (net.inet_aton host ≡ some ip)
    ⊎ ((net.inet_aton host ≡ none) × (host_to_addr net host ≡ some ip))

pub parse_ipv4_lem :
    (net : Net) (start : ℕ) (portp : Option ℕ) (buf host : Bytes) (svc : Service) (ip : ℕ)
    → c_str (drop start buf) ≡ host
    → Resolves net host ip
    → parse_ipv4 net start portp buf svc ≡ parse_port net portp buf (set_ip svc ip)
unfolding parse_ipv4
parse_ipv4_lem net start portp buf host svc ip e (inl a) = rw (e, a, parse_ipv4) refl
parse_ipv4_lem net start portp buf host svc ip e (inr (na, b)) =
    rw (e, na, parse_ipv4) (rw (e, b) refl)

module _ (net : Net) (svc : Service) where
  pub not_digits :
      (buf : Bytes)
      → str_is_digit (c_str buf) ≡ false
      → parse_service net buf svc ≡ parse_opened net svc (open_bracket buf)
  unfolding parse_service
  not_digits buf h = rw h refl

  pub opened_v4 :
      (start : ℕ) (portp : Option ℕ) (buf text : Bytes)
      → c_str (drop start buf) ≡ text
      → net.inet_pton6 text ≡ none
      → parse_opened net svc (opened start portp buf) ≡ cut_port net start buf svc
  unfolding parse_opened
  opened_v4 start portp buf text e h = rw (e, h, parse_opened) refl

  pub opened_v6 :
      (start : ℕ) (portp : Option ℕ) (buf text : Bytes) (a : InetAddr)
      → c_str (drop start buf) ≡ text
      → net.inet_pton6 text ≡ some a
      → parse_opened net svc (opened start portp buf)
        ≡ parse_port net portp buf (record svc { addr = a; af = af_inet6; netmask = 128 })
  unfolding parse_opened
  opened_v6 start portp buf text a e h = rw (e, h, parse_opened) refl

  pub cut_none :
      (start : ℕ) (buf : Bytes)
      → strrchr (drop start buf) b':' ≡ none
      → cut_port net start buf svc ≡ parse_ipv4 net start none buf svc
  unfolding cut_port
  cut_none start buf h = rw (h, cut_port) refl

  cut_some :
      (start : ℕ) (buf : Bytes) (j : ℕ)
      → strrchr (drop start buf) b':' ≡ some j
      → cut_port net start buf svc
        ≡ parse_ipv4 net start (some (start + j)) (set buf (start + j) 0) svc
  unfolding cut_port
  cut_some start buf j h = rw (h, cut_port) refl

open_plain : (buf : Bytes) → first buf ≢ b'[' → open_bracket buf ≡ opened 0 none buf
unfolding open_bracket
open_plain buf h = ground (arith, h)

first_plain : (a b : Bytes) (k : ℕ) → k ≢ b'[' → first a ≢ b'[' → first (a ++ k ∷ b) ≢ b'['
first_plain [] b k nk h = nk
first_plain (c ∷ a) b k nk h = h

NoNul-digits : (n : ℕ) → NoNul (decimal n)
NoNul-digits n = digit-NoNul (decimal n) (decimal-IsDigit n)

-- `host:port` with any text for the port comes to the reading of that text, with the address found.
pub host_before_port :
    (net : Net) (host port : Bytes) (svc : Service) (ip : ℕ)
    → NoNul host
    → first host ≢ b'['
    → NoNul port
    → Lacks b':' port
    → net.inet_pton6 (host ++ b':' ∷ port) ≡ none
    → Resolves net host ip
    → parse_service net (host ++ b':' ∷ port) svc
      ≡ parse_port net (some (length host)) (host ++ 0 ∷ port) (set_ip svc ip)
host_before_port net host port svc ip nn nb np lp no6 res =
    let buf : Bytes = host ++ b':' ∷ port in
    let whole : c_str buf ≡ buf =
      c_str-NoNul buf (All-append (λ c. c ≢ 0) host (b':' ∷ port) nn (ground arith, np)) in
    let zero_add : 0 + length host ≡ length host = omega arith in
    not_digits net svc buf (rw (whole) (not_all_digits host b':' port refl))
    ∙ ap (parse_opened net svc) (open_plain buf (first_plain host port b':' (ground arith) nb))
    ∙ opened_v4 net svc 0 none buf buf whole no6
    ∙ cut_some net svc 0 buf (length host) (strrchr_last host b':' port (ground arith) nn lp)
    ∙ rw (zero_add, set_at host b':' 0 port)
        (parse_ipv4_lem net 0 (some (length host)) (host ++ 0 ∷ port) host svc ip
          (c_str_nul host port nn) res)

-- `host:port` with a decimal port up to 65535: where the host has no NUL byte, does not begin with a
-- bracket and resolves by `inet_aton` or else by `host_to_addr`, and the whole text is no IPv6
-- address, address and port are both found, and the separator is overwritten.
pub host_port :
    (net : Net) (host : Bytes) (n : ℕ) (svc : Service) (ip : ℕ)
    → NoNul host
    → first host ≢ b'['
    → n < 2 ^ 16
    → net.inet_pton6 (host ++ b':' ∷ decimal n) ≡ none
    → Resolves net host ip
    → parse_service net (host ++ b':' ∷ decimal n) svc ≡ record {
      code = service_addr_port;
      svc = record (set_ip svc ip) { port = htons n };
      buf = host ++ 0 ∷ decimal n;
    }
host_port net host n svc ip nn nb lt no6 res =
    host_before_port net host (decimal n) svc ip nn nb (NoNul-digits n)
      (digit-Lacks (decimal n) b':' refl (decimal-IsDigit n)) no6 res
    ∙ parse_port_number net (length host) n (host ++ 0 ∷ decimal n) (set_ip svc ip)
        (drop_past host 0 (decimal n)) lt

-- A host alone gives its address and leaves the port of the service, where it has no NUL byte and no
-- colon, does not begin with a bracket, is not all digits, is no IPv6 address and resolves to an IPv4
-- one.
pub host_alone :
    (net : Net) (host : Bytes) (svc : Service) (ip : ℕ)
    → NoNul host
    → Lacks b':' host
    → first host ≢ b'['
    → str_is_digit host ≡ false
    → net.inet_pton6 host ≡ none
    → Resolves net host ip
    → parse_service net host svc ≡ record { code = service_addr; svc = set_ip svc ip; buf = host }
host_alone net host svc ip nn lacks nb nd no6 res =
    not_digits net svc host (rw (c_str-NoNul host nn) nd)
    ∙ ap (parse_opened net svc) (open_plain host nb)
    ∙ opened_v4 net svc 0 none host host (c_str-NoNul host nn) no6
    ∙ cut_none net svc 0 host (strrchr-Lacks host b':' lacks)
    ∙ parse_ipv4_lem net 0 none host host svc ip (c_str-NoNul host nn) res
    ∙ unfold parse_port in refl
