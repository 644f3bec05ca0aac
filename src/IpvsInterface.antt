-- ===== src/IpvsInterface.antt =====
-- src/ipvs_interface.cpp and src/ipvs_interface.h: the weight update. Parsing has the reading of
-- `host:port`, Object the life of the object.
pub mod Parsing
pub mod Object
pub mod Ports
pub mod Address
pub mod Frame
pub mod Weight
pub mod Life
unfoldable pub use Parsing.*
unfoldable pub use Object.*
use Prim.Native.Nat.{bit_and}
use ipvshttpd.Libc.{c_str, first, strchr, strrchr, strtol, is_digit, htons}
use ipvshttpd.Libipvs.{
  af_inet, af_inet6, ipproto_tcp, ipproto_udp, ipproto_sctp, ip_vs_svc_f_persistent,
  ip_vs_svc_f_onepacket, ip_vs_conn_f_droute, InetAddr, Service, Dest, Net,
}
use ipvshttpd.Logging.{Logger, log_error}
use ipvshttpd.NetTools.{host_to_addr}
use ipvshttpd.Prelude.Bytes.{Bytes, codes, equal}
use ipvshttpd.Prelude.Int.{ℤ, pos, negsuc, leb_ℤ, eq_ℤ, to_int, to_unsigned}
use ipvshttpd.Prelude.{
  ℕ, ◌+◌, ◌-◌, ◌%◌, ◌^◌, Bool, true, false, not, ◌&&◌, ◌||◌, List, [], ◌∷◌, ◌++◌, Option, none,
  some, drop, set, ◌==◌, if◌then◌else◌,
}

-- What `set_weight` does to the world: its result, its calls of `ipvs_update_dest`, its log, and the
-- caller's string `server`, whose characters it writes to through a `const_cast`.
pub record Weighed : Type 0 where
  pub success : Bool
  pub calls : List (Service × Dest)
  pub logger : Logger
  pub server : Bytes

abbrev pub zero_addr : InetAddr
zero_addr = record { ip = 0; word1 = 0; word2 = 0; word3 = 0 }

-- `ce.svc` behind the `memset` and the assignments of the defaults.
abbrev pub default_service : Service
default_service = record {
  protocol = ipproto_tcp;
  addr_v4 = 0;
  port = 0;
  fwmark = 0;
  sched_name = [];
  flags = 0;
  timeout = 0;
  netmask = 0xffffffff;
  af = 0;
  addr = zero_addr;
  pe_name = [];
}

-- `ce.dest` behind the parsing of the server: address, port and weight are from there.
unfoldable pub make_dest : Service → ℕ → ℤ → ℕ → Dest
make_dest t_dest parse weight vport = record {
  addr_v4 = 0;
  port = if parse == service_addr then vport else t_dest.port;
  conn_flags = ip_vs_conn_f_droute;
  weight = weight;
  u_threshold = 0;
  l_threshold = 0;
  af = t_dest.af;
  addr = t_dest.addr;
}

abbrev pub default_sched : Service → Service
default_sched svc = if equal svc.sched_name [] then record svc { sched_name = codes "wlc" } else svc

abbrev pub flag_set : ℕ → ℕ → Bool
flag_set flags flag = not (bit_and flags flag == 0)

-- The checks of the service behind the parsing, and the update.
unfoldable pub update_checked : Net → Service → Dest → Bytes → Logger → Weighed
update_checked net svc dest server g =
    if svc.fwmark == 0 && svc.port == 0 && not (flag_set svc.flags ip_vs_svc_f_persistent)
    then record {
      success = false;
      calls = [];
      logger = log_error (codes "Zero port specified for non-persistent service") g;
      server = server;
    }
    else if flag_set svc.flags ip_vs_svc_f_onepacket
        && svc.fwmark == 0
        && not (svc.protocol == ipproto_udp)
    then record {
      success = false;
      calls = [];
      logger = log_error (codes "One-Packet Scheduling is only for UDP virtual services") g;
      server = server;
    }
    else record {
      success = eq_ℤ (net.update_dest (default_sched svc) dest) (pos 0);
      calls = (default_sched svc, dest) ∷ [];
      logger = g;
      server = server;
    }

-- Behind the parsing of the server. `parse & SERVICE_ADDR` is `bit_and`.
unfoldable pub with_server : Net → Service → ℤ → Parsed → Logger → Weighed
unfolding update_checked make_dest
with_server net svc weight dest g =
    if bit_and dest.code service_addr == 0
    then record {
      success = false;
      calls = [];
      logger = log_error (codes "Illegal server address[:port] specified.") g;
      server = dest.buf;
    }
    else update_checked net svc (make_dest dest.svc dest.code weight svc.port) dest.buf g

-- Behind the parsing of the VIP. The server is parsed into a copy of the service.
unfoldable pub with_vip : Net → Parsed → Bytes → ℤ → Logger → Weighed
unfolding with_server parse_service
with_vip net vip server weight g =
    if bit_and vip.code service_addr == 0
    then record {
      success = false;
      calls = [];
      logger = log_error (codes "Illegal VIP address[:port] specified.") g;
      server = server;
    }
    else with_server net vip.svc weight (parse_service net server vip.svc) g

-- `set_weight`. The VIP is parsed in a copy of the caller's string.
unfoldable pub set_weight : Net → Bytes → Bytes → ℤ → Logger → Weighed
unfolding with_vip parse_service
set_weight net vip server weight g =
    with_vip net (parse_service net vip default_service) server weight g
