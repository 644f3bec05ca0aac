-- ===== src/Libipvs.antt =====
-- The structures of depend/libipvs/ip_vs.h that src/ipvs_interface.cpp fills, and what the program
-- takes from outside: the name services of the C library and the calls of libipvs.
use ipvshttpd.Prelude.Bytes.{Bytes}
use ipvshttpd.Prelude.Int.{ℤ}
use ipvshttpd.Prelude.{ℕ, Option}

abbrev pub af_inet : ℕ
af_inet = 2

abbrev pub af_inet6 : ℕ
af_inet6 = 10

abbrev pub ipproto_tcp : ℕ
ipproto_tcp = 6

abbrev pub ipproto_udp : ℕ
ipproto_udp = 17

abbrev pub ipproto_sctp : ℕ
ipproto_sctp = 132

abbrev pub ip_vs_svc_f_persistent : ℕ
ip_vs_svc_f_persistent = 0x0001

abbrev pub ip_vs_svc_f_onepacket : ℕ
ip_vs_svc_f_onepacket = 0x0004

abbrev pub ip_vs_conn_f_droute : ℕ
ip_vs_conn_f_droute = 0x0003

-- `union nf_inet_addr` as its four words: `ip` is the first, `in6` is all of them.
pub record InetAddr : Type 0 where
  pub ip : ℕ
  pub word1 : ℕ
  pub word2 : ℕ
  pub word3 : ℕ

-- `ipvs_service_t`. Ports are in network byte order; a name is the C string in its array.
pub record Service : Type 0 where
  pub protocol : ℕ
  pub addr_v4 : ℕ
  pub port : ℕ
  pub fwmark : ℕ
  pub sched_name : Bytes
  pub flags : ℕ
  pub timeout : ℕ
  pub netmask : ℕ
  pub af : ℕ
  pub addr : InetAddr
  pub pe_name : Bytes

-- `ipvs_dest_t`.
pub record Dest : Type 0 where
  pub addr_v4 : ℕ
  pub port : ℕ
  pub conn_flags : ℕ
  pub weight : ℤ
  pub u_threshold : ℕ
  pub l_threshold : ℕ
  pub af : ℕ
  pub addr : InetAddr

-- What `gethostbyname` finds: the first address is a word in network byte order.
pub record Hostent : Type 0 where
  pub addrtype : ℕ
  pub addr_length : ℕ
  pub first_addr : ℕ

-- The functions outside the repository, and libipvs, as the program calls them.
pub record Net : Type 0 where
  pub inet_pton6 : Bytes → Option InetAddr
  pub inet_aton : Bytes → Option ℕ
  pub gethostbyname : Bytes → Option Hostent
  pub gethostbyaddr : ℕ → Bytes → Option Bytes
  pub getservbyname : Bytes → Bytes → Option ℕ
  pub update_dest : Service → Dest → ℤ
