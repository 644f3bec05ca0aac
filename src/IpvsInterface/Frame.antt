-- ===== src/IpvsInterface/Frame.antt =====
-- What `m_parse_service` of src/ipvs_interface.cpp leaves alone, in the service and in the buffer.
pub mod Overwrites
pub mod Fields
use ipvshttpd.IpvsInterface.Frame.Fields.{
  as_v4, as_v6, Framed, none-Framed, parse_port-Framed, Unported-refl, set_ip-Unported,
  in6-Unported,
}
use ipvshttpd.IpvsInterface.Frame.Overwrites.{
  Kept, Cut, Cut-refl, Cut-trans, At, strchr-At, strrchr-At, At-drop, first-At, set-Cut,
}
use ipvshttpd.IpvsInterface.{
  service_none, service_addr, service_addr_port, Parsed, Bracket, refused, opened, close_bracket,
  open_bracket, parse_port, parse_ipv4, set_ip, cut_port, parse_opened, parse_service, str_is_digit,
  string_to_number, service_to_port,
}
use ipvshttpd.Libc.{c_str, first, strchr, strrchr}
use ipvshttpd.Libipvs.{af_inet, af_inet6, Service, Net}
use ipvshttpd.NetTools.{host_to_addr}
use ipvshttpd.Prelude.Bytes.{Bytes}
use ipvshttpd.Prelude.Int.{pos, negsuc, eq_ℤ}
use ipvshttpd.Prelude.{
  ℕ, zero, suc, ◌+◌, not, [], ◌∷◌, Option, none, some, ◌≡◌, ◌≢◌, refl, sym, ◌⊎◌, inl, inr, arith,
  Bool-cases, Option-cases, drop, set, ◌==◌,
}

module _ (net : Net) (svc : Service) (buf0 : Bytes) where
  parse_ipv4-Framed :
      (start : ℕ) (portp : Option ℕ) (buf : Bytes)
      → Cut buf0 buf
      → Framed svc buf0 (parse_ipv4 net start portp buf svc)
  unfolding parse_ipv4
  parse_ipv4-Framed start portp buf cut =
      elim (Option-cases (net.inet_aton (c_str (drop start buf)))) [
        | inr (ip, e) ↦
            rw (e, parse_ipv4)
              (parse_port-Framed buf0 buf svc (set_ip svc ip) cut (set_ip-Unported svc ip) net portp
                (as_v4 ip refl refl refl))
        | inl e ↦
            rw (e, parse_ipv4)
              (elim (Option-cases (host_to_addr net (c_str (drop start buf)))) [
                | inr (ip, e') ↦ rw e' (
                    parse_port-Framed buf0 buf svc (set_ip svc ip) cut (set_ip-Unported svc ip) net
                      portp (as_v4 ip refl refl refl))
                | inl e' ↦ rw e' (none-Framed buf0 buf svc svc cut (Unported-refl svc))
              ])
      ]

  cut_port-Framed :
      (start : ℕ) (buf : Bytes) → Cut buf0 buf → Framed svc buf0 (cut_port net start buf svc)
  unfolding cut_port
  cut_port-Framed start buf cut = elim (Option-cases (strrchr (drop start buf) b':')) [
    | inl e ↦ rw (e, cut_port) (parse_ipv4-Framed start none buf cut)
    | inr (j, e) ↦
        rw (e, cut_port)
          (parse_ipv4-Framed start (some (start + j)) (set buf (start + j) 0) (
            Cut-trans buf0 buf (set buf (start + j) 0) cut (
              set-Cut buf (start + j) b':'
                (At-drop start buf j b':' (strrchr-At (drop start buf) b':' j e)) (inr refl))))
  ]

  -- A bracket that was read keeps all but its two separators.
  abbrev BracketCut : Bracket → Type 0
  BracketCut (refused buf) = Cut buf0 buf
  BracketCut (opened start portp buf) = Cut buf0 buf

  parse_opened-Framed : (b : Bracket) → BracketCut b → Framed svc buf0 (parse_opened net svc b)
  unfolding parse_opened
  parse_opened-Framed (refused buf) cut = none-Framed buf0 buf svc svc cut (Unported-refl svc)
  parse_opened-Framed (opened start portp buf) cut =
      elim (Option-cases (net.inet_pton6 (c_str (drop start buf)))) [
        | inl e ↦ rw (e, parse_opened) (cut_port-Framed start buf cut)
        | inr (a, e) ↦
            rw (e, parse_opened)
              (parse_port-Framed buf0 buf svc
                (record svc { addr = a; af = af_inet6; netmask = 128 }) cut (in6-Unported svc a) net
                portp (as_v6 refl refl))
      ]

  close_bracket-Cut : (buf : Bytes) (p : ℕ) → Cut buf0 buf → BracketCut (close_bracket buf p)
  unfolding close_bracket
  close_bracket-Cut buf p cut = elim (Bool-cases (first (drop p buf) == b':')) [
    | inr e ↦ rw e cut
    | inl e ↦ rw e (
        Cut-trans buf0 buf (set buf p 0) cut
          (set-Cut buf p b':' (first-At p buf b':' (omega arith) (ground arith)) (inr refl)))
  ]

open_bracket-Cut :
    (net : Net) (svc : Service) (buf : Bytes) → BracketCut net svc buf (open_bracket buf)
unfolding open_bracket
open_bracket-Cut net svc buf = elim (Bool-cases (first buf == b'[')) [
  | inr e ↦ rw e (Cut-refl buf)
  | inl e ↦ rw e (elim (Option-cases (strchr (drop 1 buf) b']')) [
    | inl e' ↦ rw e' (Cut-refl buf)
    | inr (i, e') ↦ rw e' (
        close_bracket-Cut net svc buf (set buf (1 + i) 0) (1 + i + 1) (
          set-Cut buf (1 + i) b']' (At-drop 1 buf i b']' (strchr-At (drop 1 buf) b']' i e'))
            (inl refl)))
  ])
]

-- Whatever text and name service it is given, `m_parse_service` answers one of three codes. Unless the code
-- is that of no address, the service holds an IPv4 address, where the family and the first word of the
-- address are written and the netmask and the other words are kept, or an IPv6 address, with its family and
-- the netmask 128; else it holds one of these or what it held before. The port field is written only
-- where the code is that of an address with a port, no other field of the service is ever written, and
-- in the caller's buffer nothing but `]` and `:` is overwritten.
pub parse_service-Framed :
    (net : Net) (buf : Bytes) (svc : Service) → Framed svc buf (parse_service net buf svc)
unfolding parse_service
parse_service-Framed net buf svc = elim (Bool-cases (str_is_digit (c_str buf))) [
  | inl e ↦ rw e (none-Framed buf buf svc svc (Cut-refl buf) (Unported-refl svc))
  | inr e ↦ rw e (parse_opened-Framed net svc buf (open_bracket buf) (open_bracket-Cut net svc buf))
]
