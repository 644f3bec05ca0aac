-- ===== src/NetTools.antt =====
-- src/net_tools.cpp: name lookups in both directions.
use ipvshttpd.Libipvs.{Net, Hostent, af_inet}
use ipvshttpd.Prelude.Bytes.{Bytes}
use ipvshttpd.Prelude.{ℕ, not, ◌||◌, [], Option, none, some, ◌==◌, if◌then◌else◌}

accept_host : Hostent → Option ℕ
accept_host host =
    if not (host.addrtype == af_inet) || not (host.addr_length == 4)
    then none
    else some host.first_addr

-- `host_to_addr`: the address, or none for the result -1, where nothing is written.
unfoldable pub host_to_addr : Net → Bytes → Option ℕ
unfolding accept_host
host_to_addr net name = elim (net.gethostbyname name) [ some host ↦ accept_host host | none ↦ none ]

-- `addr_to_host`: the name, or the empty text.
unfoldable pub addr_to_host : Net → ℕ → Bytes → Bytes
addr_to_host net af addr = elim (net.gethostbyaddr af addr) [ some name ↦ name | none ↦ [] ]
