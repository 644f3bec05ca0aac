-- ===== src/Tests.antt =====
-- Runs of the program's functions on concrete inputs, and the theorems applied at such inputs.
mod Text
mod Files
mod Weights
mod Reads
mod Requests
mod Threads
mod Served
mod Exchange
mod Launch
mod Program
use ipvshttpd.Libipvs.{Net, InetAddr, Service}
use ipvshttpd.IpvsInterface.{InitAnswers, default_service}
use ipvshttpd.Logging.{Logger, log_level_debug, log_sink_std}
use ipvshttpd.Prelude.Bytes.{Bytes, codes, equal}
use ipvshttpd.Prelude.Int.{pos}
use ipvshttpd.Prelude.{
  ℕ, Bool, true, false, not, ◌&&◌, [], ◌∷◌, none, some, ◌≡◌, arith, ◌==◌, if◌then◌else◌,
}
use ipvshttpd.StringTools.Split.{Lacks}

-- The byte is nowhere in the text.
abbrev pub free_of : ℕ → Bytes → Bool
free_of k [] = true
free_of k (c ∷ s) = not (c == k) && free_of k s

pub free-Lacks : (k : ℕ) (s : Bytes) → free_of k s ≡ true → Lacks k s
free-Lacks k [] h = tt
free-Lacks k (c ∷ s) h = (ground arith, free-Lacks k s (ground arith))

abbrev pub loopback6 : InetAddr
loopback6 = record { ip = 0; word1 = 0; word2 = 0; word3 = 16777216 }

-- Two IPv4 addresses, an IPv6 address, one service name, and a kernel that accepts every update.
abbrev pub demo_net : Net
demo_net = record {
  inet_pton6 = λ t. if equal t (codes "::1") then some loopback6 else none;
  inet_aton = λ t.
      if equal t (codes "10.0.0.1")
      then some 16777226
      else if equal t (codes "10.0.0.2")
      then some 33554442
      else none;
  gethostbyname = λ _. none;
  gethostbyaddr = λ _ _. none;
  getservbyname = λ name proto. if equal name (codes "http") then some 20480 else none;
  update_dest = λ _ _. pos 0;
}

abbrev pub demo_logger : Logger
demo_logger = record { level = log_level_debug; sinks = log_sink_std; lines = [] }

abbrev pub smooth : InitAnswers
smooth = record {
  first_fails = false;
  waited = record { rc = pos 1; exited = true; exit_status = 0 };
  second_fails = false;
  strerror = [];
}
