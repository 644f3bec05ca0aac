-- ===== src/IpvsInterface/Object.antt =====
-- The life of an `ipvs_interface` of src/ipvs_interface.cpp: constructor, `init` and destructor.
use ipvshttpd.Logging.{Logger, log_error}
use ipvshttpd.Prelude.Bytes.{Bytes, codes}
use ipvshttpd.Prelude.Int.{ℤ, negsuc, eq_ℤ}
use ipvshttpd.Prelude.{ℕ, Bool, true, false, not, ◌||◌, List, [], ◌∷◌, ◌++◌, ◌==◌, if◌then◌else◌}

-- What the parent sees of the child of `m_modprobe_ipvs`: the result of `waitpid` and its status.
pub record Waited : Type 0 where
  pub rc : ℤ
  pub exited : Bool
  pub exit_status : ℕ

-- `m_modprobe_ipvs`: whether it failed.
abbrev pub modprobe_fails : Waited → Bool
modprobe_fails w = eq_ℤ w.rc (negsuc 0) || not w.exited || not (w.exit_status == 0)

-- The object's flag, and the calls into libipvs and the kernel in their order.
pub data IpvsCall : Type 0 where
  call_init call_modprobe call_close : IpvsCall

pub record Interface : Type 0 where
  pub initialized : Bool
  pub made : List IpvsCall
  pub logger : Logger

-- What the calls of one `init` answer: whether each `ipvs_init` fails, the child's end, and the text
-- of `ipvs_strerror`.
pub record InitAnswers : Type 0 where
  pub first_fails : Bool
  pub waited : Waited
  pub second_fails : Bool
  pub strerror : Bytes

-- The constructor.
abbrev pub new_interface : Logger → Interface
new_interface g = record { initialized = false; made = []; logger = g }

abbrev pub calling : IpvsCall → Interface → Interface
calling k i = record i { made = i.made ++ k ∷ [] }

abbrev pub init_failed : InitAnswers → Interface → Interface × Bool
init_failed a i = (
  record i { logger = log_error (codes "Can't initialize ipvs: " ++ a.strerror) i.logger },
  false,
)

abbrev pub init_done : Interface → Interface × Bool
init_done i = (record i { initialized = true }, true)

-- `ipvs_interface::init`.
unfoldable pub init : InitAnswers → Interface → Interface × Bool
init a i =
    let i1 = calling call_init i in
    let i2 = calling call_modprobe i1 in
    let i3 = calling call_init i2 in
    if a.first_fails
    then (if modprobe_fails a.waited
        then init_failed a i2
        else if a.second_fails
        then init_failed a i3
        else init_done i3)
    else init_done i1

-- The destructor.
unfoldable pub close : Interface → Interface
close i = if i.initialized then calling call_close i else i
