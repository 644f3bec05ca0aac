-- ===== src/IpvsInterface/Parsing.antt =====
-- `m_parse_service` of src/ipvs_interface.cpp, and the reading of numbers and service names below it.
use ipvshttpd.Libc.{c_str, first, strchr, strrchr, strtol, is_digit, htons}
use ipvshttpd.Libipvs.{af_inet, af_inet6, ipproto_tcp, ipproto_udp, ipproto_sctp, Service, Net}
use ipvshttpd.NetTools.{host_to_addr}
use ipvshttpd.Prelude.Bytes.{Bytes, codes}
use ipvshttpd.Prelude.Int.{ℤ, pos, negsuc, leb_ℤ, eq_ℤ, to_int, to_unsigned}
use ipvshttpd.Prelude.{
  ℕ, ◌+◌, ◌%◌, ◌^◌, Bool, true, not, ◌&&◌, [], ◌∷◌, Option, none, some, drop, set, ◌==◌,
  if◌then◌else◌,
}

abbrev pub service_none : ℕ
service_none = 0x0000

abbrev pub service_addr : ℕ
service_addr = 0x0001

-- `SERVICE_ADDR` with `SERVICE_PORT` joined to it.
abbrev pub service_addr_port : ℕ
service_addr_port = 0x0003

-- `m_string_to_number`: -1 stands for no number and for one out of the range.
unfoldable pub string_to_number : Bytes → ℤ → ℤ → ℤ
string_to_number s min max =
    let r = strtol s in
    if first r.rest == 0 && r.moved
    then (if not r.out_of_range && leb_ℤ min r.number && leb_ℤ r.number max
        then to_int r.number
        else negsuc 0)
    else negsuc 0

abbrev pub found_port : Option ℕ → ℤ → ℤ
found_port none other = other
found_port (some s_port) other = pos (htons (s_port % 2 ^ 16))

abbrev pub lookup_if : Bool → Option ℕ → Option ℕ
lookup_if b o = if b then o else none

-- `m_service_to_port`: each lookup is made for its own protocol only.
unfoldable pub service_to_port : Net → Bytes → ℕ → ℤ
service_to_port net name proto =
    found_port (lookup_if (proto == ipproto_tcp) (net.getservbyname name (codes "tcp"))) (
      found_port (lookup_if (proto == ipproto_udp) (net.getservbyname name (codes "udp"))) (
        found_port (lookup_if (proto == ipproto_sctp) (net.getservbyname name (codes "sctp")))
          (negsuc 0)))

-- `m_str_is_digit`, which holds of the empty string too.
abbrev pub str_is_digit : Bytes → Bool
str_is_digit [] = true
str_is_digit (c ∷ s) = is_digit c && str_is_digit s

-- What `m_parse_service` leaves: its result, the service and the buffer, both of which it writes to.
pub record Parsed : Type 0 where
  pub code : ℕ
  pub svc : Service
  pub buf : Bytes

-- The state behind the bracket: where the address starts and where the port's separator was.
pub data Bracket : Type 0 where
  refused : Bytes → Bracket
  opened : ℕ → Option ℕ → Bytes → Bracket

-- `portp` has passed the closing bracket, over which a 0 was written.
unfoldable pub close_bracket : Bytes → ℕ → Bracket
close_bracket buf portp =
    if first (drop portp buf) == b':' then opened 1 (some portp) (set buf portp 0) else refused buf

unfoldable pub open_bracket : Bytes → Bracket
unfolding close_bracket
open_bracket buf =
    if first buf == b'['
    then elim (strchr (drop 1 buf) b']') [
      | none ↦ refused buf
      | some i ↦ close_bracket (set buf (1 + i) 0) (1 + i + 1)
    ]
    else opened 0 none buf

-- The last step: the port, if there is a separator.
unfoldable pub parse_port : Net → Option ℕ → Bytes → Service → Parsed
parse_port net none buf svc = record { code = service_addr; svc = svc; buf = buf }
parse_port net (some p) buf svc =
    let text = drop (p + 1) buf in
    let number = string_to_number text (pos 0) (pos 65535) in
    let named = service_to_port net (c_str text) svc.protocol in
    if not (eq_ℤ number (negsuc 0))
    then record {
      code = service_addr_port;
      svc = record svc { port = htons (to_unsigned 16 number) };
      buf = buf;
    }
    else if not (eq_ℤ named (negsuc 0))
    then record {
      code = service_addr_port;
      svc = record svc { port = htons (to_unsigned 16 named) };
      buf = buf;
    }
    else record { code = service_none; svc = svc; buf = buf }

abbrev pub set_ip : Service → ℕ → Service
set_ip svc ip = record svc { addr = record (svc.addr) { ip = ip }; af = af_inet }

-- `inet_aton`, then `host_to_addr`, on the text before the separator.
unfoldable pub parse_ipv4 : Net → ℕ → Option ℕ → Bytes → Service → Parsed
unfolding parse_port
parse_ipv4 net start portp buf svc =
    let host = c_str (drop start buf) in
    elim (net.inet_aton host) [
      | some ip ↦ parse_port net portp buf (set_ip svc ip)
      | none ↦ elim (host_to_addr net host) [
        | some ip ↦ parse_port net portp buf (set_ip svc ip)
        | none ↦ record { code = service_none; svc = svc; buf = buf }
      ]
    ]

-- `portp` is looked for again, from the start of the address, and its byte is made a terminator.
unfoldable pub cut_port : Net → ℕ → Bytes → Service → Parsed
unfolding parse_ipv4
cut_port net start buf svc = elim (strrchr (drop start buf) b':') [
  | some j ↦ parse_ipv4 net start (some (start + j)) (set buf (start + j) 0) svc
  | none ↦ parse_ipv4 net start none buf svc
]

unfoldable pub parse_opened : Net → Service → Bracket → Parsed
unfolding cut_port parse_port
parse_opened net svc (refused buf) = record { code = service_none; svc = svc; buf = buf }
parse_opened net svc (opened start portp buf) = elim (net.inet_pton6 (c_str (drop start buf))) [
  | some a ↦ parse_port net portp buf (record svc { addr = a; af = af_inet6; netmask = 128 })
  | none ↦ cut_port net start buf svc
]

-- `m_parse_service`. The pointer is never null: both callers pass the buffer of a `std::string`.
unfoldable pub parse_service : Net → Bytes → Service → Parsed
unfolding open_bracket parse_opened
parse_service net buf svc =
    if str_is_digit (c_str buf)
    then record { code = service_none; svc = svc; buf = buf }
    else parse_opened net svc (open_bracket buf)
