-- ===== src/RateTest.antt =====
-- src/rate_test.cpp: one weight update from the command line.
pub mod Result
use ipvshttpd.IpvsInterface.{
  new_interface, Interface, InitAnswers, init, Weighed, set_weight, close,
}
use ipvshttpd.Libc.{atoi}
use ipvshttpd.Libipvs.{Service, Dest, Net}
use ipvshttpd.Logging.{cout, Logger, write}
use ipvshttpd.Prelude.Bytes.{Bytes, codes}
use ipvshttpd.Prelude.{ℕ, Bool, true, false, List, [], ◌∷◌, ◌++◌, if◌then◌else◌}

-- The end of `main`: its result, the interface object behind its destructor, and the calls of libipvs.
pub record RateExit : Type 0 where
  pub code : ℕ
  pub interface : Interface
  pub calls : List (Service × Dest)

abbrev pub usage : Bytes → Logger → Logger
usage progname =
    write (cout (codes "Usage: " ++ (progname ++ codes " [vip] [server name] [weight]")))

abbrev pub weighed : Interface → Weighed → RateExit
weighed i r = record {
  code = if r.success then 0 else 1;
  interface = close (record i { logger = r.logger });
  calls = r.calls;
}

-- Three arguments behind the name of the program.
unfoldable pub update : Net → InitAnswers → Bytes → Bytes → Bytes → Interface → RateExit
update net a vip server weight i =
    let (i', up) = init a i in
    if up
    then weighed i' (set_weight net vip server (atoi weight) i'.logger)
    else record { code = 1; interface = close i'; calls = [] }

unfoldable pub rate_main : Net → InitAnswers → Bytes → List Bytes → Logger → RateExit
unfolding update
rate_main net a progname (vip ∷ (server ∷ (weight ∷ []))) g =
    update net a vip server weight (new_interface g)
rate_main net a progname _ g = record {
  code = 1;
  interface = new_interface (usage progname g);
  calls = [];
}
