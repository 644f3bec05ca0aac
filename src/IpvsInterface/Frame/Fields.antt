-- ===== src/IpvsInterface/Frame/Fields.antt =====
-- What `m_parse_service` of src/ipvs_interface.cpp leaves of the service, by its last step.
use ipvshttpd.IpvsInterface.Frame.Overwrites.{Cut}
use ipvshttpd.IpvsInterface.{
  service_none, service_addr, service_addr_port, Parsed, parse_port, set_ip, string_to_number,
  service_to_port,
}
use ipvshttpd.Libc.{c_str}
use ipvshttpd.Libipvs.{af_inet, af_inet6, InetAddr, Service, Net}
use ipvshttpd.Prelude.Bytes.{Bytes}
use ipvshttpd.Prelude.Int.{pos, negsuc, eq_ℤ}
use ipvshttpd.Prelude.{
  ℕ, ◌+◌, not, Option, none, some, ◌≡◌, ◌≢◌, refl, ◌⊎◌, inl, inr, Bool-cases, drop,
}

-- The fields that the parser never writes.
pub record SameRest (s t : Service) : Type 0 where
  pub protocol_kept : t.protocol ≡ s.protocol
  pub addr_v4_kept : t.addr_v4 ≡ s.addr_v4
  pub fwmark_kept : t.fwmark ≡ s.fwmark
  pub sched_kept : t.sched_name ≡ s.sched_name
  pub flags_kept : t.flags ≡ s.flags
  pub timeout_kept : t.timeout ≡ s.timeout
  pub pe_kept : t.pe_name ≡ s.pe_name

-- Family, netmask and address as they were.
pub record SameAddress (s t : Service) : Type 0 where
  pub af_kept : t.af ≡ s.af
  pub netmask_kept : t.netmask ≡ s.netmask
  pub addr_kept : t.addr ≡ s.addr

-- The same three with an address: an IPv4 one, which is the first word, or an IPv6 one, which is all four,
-- with its netmask.
pub data Located (s t : Service) : Type 0 where
  as_v4 :
      (ip : ℕ)
      → t.af ≡ af_inet
      → t.netmask ≡ s.netmask
      → t.addr ≡ record (s.addr) { ip = ip }
      → Located s t
  as_v6 : t.af ≡ af_inet6 → t.netmask ≡ 128 → Located s t

-- The result names what was found: the code is one of three, an address is there unless the code is the
-- first, and only with a port the port field is written.
pub record Framed (s : Service) (buf : Bytes) (p : Parsed) : Type 0 where
  pub code_known :
      (p.code ≡ service_none) ⊎ ((p.code ≡ service_addr) ⊎ (p.code ≡ service_addr_port))
  pub address_set : p.code ≢ service_none → Located s p.svc
  pub address_frame : SameAddress s p.svc ⊎ Located s p.svc
  pub port_kept : p.code ≢ service_addr_port → p.svc.port ≡ s.port
  pub rest_kept : SameRest s p.svc
  pub buffer_cut : Cut buf p.buf

-- The service before its port is set: all but the address is as it came.
pub record Unported (s svc : Service) : Type 0 where
  pub rest_same : SameRest s svc
  pub port_same : svc.port ≡ s.port
  pub place : SameAddress s svc ⊎ Located s svc

module _ (buf0 buf : Bytes) (s svc : Service) (cut : Cut buf0 buf) (u : Unported s svc) where
  pub none-Framed : Framed s buf0 (record { code = service_none; svc = svc; buf = buf })
  none-Framed = record {
    code_known = inl refl;
    address_set = λ ne. absurd (ne refl);
    address_frame = u.place;
    port_kept = λ _. u.port_same;
    rest_kept = u.rest_same;
    buffer_cut = cut;
  }

  bare-Framed : Located s svc → Framed s buf0 (record { code = service_addr; svc = svc; buf = buf })
  bare-Framed place = record {
    code_known = inr (inl refl);
    address_set = λ _. place;
    address_frame = inr place;
    port_kept = λ _. u.port_same;
    rest_kept = u.rest_same;
    buffer_cut = cut;
  }

  Located-port : (port : ℕ) → Located s svc → Located s (record svc { port = port })
  Located-port port (as_v4 ip f n a) = as_v4 ip f n a
  Located-port port (as_v6 f n) = as_v6 f n

  ported-Framed :
      (port : ℕ)
      → Located s svc
      → Framed s buf0
          (record { code = service_addr_port; svc = record svc { port = port }; buf = buf })
  ported-Framed port place = record {
    code_known = inr (inr refl);
    address_set = λ _. Located-port port place;
    address_frame = inr (Located-port port place);
    port_kept = λ ne. absurd (ne refl);
    rest_kept = record {
      protocol_kept = u.rest_same.protocol_kept;
      addr_v4_kept = u.rest_same.addr_v4_kept;
      fwmark_kept = u.rest_same.fwmark_kept;
      sched_kept = u.rest_same.sched_kept;
      flags_kept = u.rest_same.flags_kept;
      timeout_kept = u.rest_same.timeout_kept;
      pe_kept = u.rest_same.pe_kept;
    };
    buffer_cut = cut;
  }

  pub parse_port-Framed :
      (net : Net) (portp : Option ℕ) → Located s svc → Framed s buf0 (parse_port net portp buf svc)
  unfolding parse_port
  parse_port-Framed net none a = bare-Framed a
  parse_port-Framed net (some p) a =
      elim (Bool-cases
        (not (eq_ℤ (string_to_number (drop (p + 1) buf) (pos 0) (pos 65535)) (negsuc 0)))) [
          | inl e ↦ rw e (ported-Framed _ a)
          | inr e ↦
              rw e
                (elim (Bool-cases (
                  not (
                    eq_ℤ (service_to_port net (c_str (drop (p + 1) buf)) svc.protocol)
                      (negsuc 0)))) [
                        | inl e' ↦ rw e' (ported-Framed _ a)
                        | inr e' ↦ rw e' none-Framed
                      ])
        ]

same_rest : (svc : Service) → SameRest svc svc
same_rest svc = record {
  protocol_kept = refl;
  addr_v4_kept = refl;
  fwmark_kept = refl;
  sched_kept = refl;
  flags_kept = refl;
  timeout_kept = refl;
  pe_kept = refl;
}

pub Unported-refl : (svc : Service) → Unported svc svc
Unported-refl svc = record {
  rest_same = same_rest svc;
  port_same = refl;
  place = inl (record { af_kept = refl; netmask_kept = refl; addr_kept = refl });
}

pub set_ip-Unported : (svc : Service) (ip : ℕ) → Unported svc (set_ip svc ip)
set_ip-Unported svc ip = record {
  rest_same = record {
    protocol_kept = refl;
    addr_v4_kept = refl;
    fwmark_kept = refl;
    sched_kept = refl;
    flags_kept = refl;
    timeout_kept = refl;
    pe_kept = refl;
  };
  port_same = refl;
  place = inr (as_v4 ip refl refl refl);
}

pub in6-Unported :
    (svc : Service) (a : InetAddr)
    → Unported svc (record svc { addr = a; af = af_inet6; netmask = 128 })
in6-Unported svc a = record {
  rest_same = record {
    protocol_kept = refl;
    addr_v4_kept = refl;
    fwmark_kept = refl;
    sched_kept = refl;
    flags_kept = refl;
    timeout_kept = refl;
    pe_kept = refl;
  };
  port_same = refl;
  place = inr (as_v6 refl refl);
}
