-- ===== src/IpvsInterface/Life.antt =====
-- `init`, `m_modprobe_ipvs` and the destructor of src/ipvs_interface.cpp.
use ipvshttpd.IpvsInterface.{
  modprobe_fails, IpvsCall, call_init, call_modprobe, Interface, InitAnswers, init,
}
use ipvshttpd.Logging.{log_error}
use ipvshttpd.Prelude.Bytes.{codes}
use ipvshttpd.Prelude.{
  Bool, not, ◌&&◌, ◌||◌, List, [], ◌∷◌, ◌++◌, append_assoc, ◌≡◌, arith, if◌then◌else◌,
}

-- Whether libipvs can be used: at once, or after the kernel module was loaded.
abbrev pub comes_up : InitAnswers → Bool
comes_up a = not a.first_fails || (not (modprobe_fails a.waited) && not a.second_fails)

-- The calls that `init` makes: `modprobe` only behind a failure, the second `ipvs_init` only behind a
-- `modprobe` that worked.
abbrev pub init_calls : InitAnswers → List IpvsCall
init_calls a =
    if not a.first_fails
    then call_init ∷ []
    else if modprobe_fails a.waited
    then call_init ∷ (call_modprobe ∷ [])
    else call_init ∷ (call_modprobe ∷ (call_init ∷ []))

-- `init` answers whether libipvs came up: at once, or behind a `modprobe` that succeeded. The flag is
-- then set, and else left; the calls are made in that order and no further; one error is logged
-- exactly if libipvs did not come up.
pub init_outcome :
    (a : InitAnswers) (i : Interface)
    → ((init a i).1 ≡ comes_up a)
      × ((init a i).0.initialized ≡ (comes_up a || i.initialized))
      × ((init a i).0.made ≡ i.made ++ init_calls a)
      × ((init a i).0.logger ≡ (
          if comes_up a
          then i.logger
          else log_error (codes "Can't initialize ipvs: " ++ a.strerror) i.logger))
unfolding init
init_outcome a i = ground (
  arith,
  append_assoc i.made (call_init ∷ []) (call_modprobe ∷ []),
  append_assoc i.made (call_init ∷ []) (call_modprobe ∷ (call_init ∷ [])),
  append_assoc (i.made ++ call_init ∷ []) (call_modprobe ∷ []) (call_init ∷ []),
)
