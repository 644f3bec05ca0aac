-- ===== src/Configuration/RoundTrip.antt =====
-- A configuration written as a file and read back by `configuration_manager::open` of
-- src/configuration.cpp.
use ipvshttpd.Configuration.Lines.{IsKey, line_effect-colon}
use ipvshttpd.Configuration.Outcome.{Applies, done, line, Applies-read}
use ipvshttpd.Configuration.{
  Config, default_config, set_key, set_ssl, line_effect, getlines, open_config,
}
use ipvshttpd.Logging.{Logger, log_message}
use ipvshttpd.Prelude.Bytes.{Bytes, codes}
use ipvshttpd.Prelude.Int.{ℤ}
use ipvshttpd.Prelude.{
  Bool, true, false, List, [], ◌∷◌, ◌++◌, some, ◌≡◌, ◌≢◌, refl, ap, ◌∙◌, arith, All, All-append,
  if◌then◌else◌,
}
use ipvshttpd.StringTools.Number.{IsInt, IsGraph, atoi-str_from_int, str_from_int-IsGraph}
use ipvshttpd.StringTools.Split.{Lacks}
use ipvshttpd.StringTools.Trim.{trim-space_cons, trim-NoSpace}
use ipvshttpd.StringTools.{str_trim, str_to_lower, str_from_int}

-- A value that a line can hold: on one line, with no space at its ends.
pub record IsValue (v : Bytes) : Type 0 where
  pub one_line : Lacks b'\n' v
  pub trimmed : str_trim v ≡ v

pub record IsConfig (c : Config) : Type 0 where
  pub port_int : IsInt c.port
  pub threads_int : IsInt c.server_threads
  pub listen_address_value : IsValue c.listen_address
  pub log_verbosity_value : IsValue c.log_verbosity
  pub log_sinks_value : IsValue c.log_sinks
  pub api_key_value : IsValue c.api_key
  pub vip_value : IsValue c.vip
  pub ssl_key_file_value : IsValue c.ssl_key_file
  pub ssl_cert_chain_file_value : IsValue c.ssl_cert_chain_file
  pub ssl_dh_file_value : IsValue c.ssl_dh_file

abbrev pub entry : Bytes → Bytes → Bytes
entry k v = k ++ b':' ∷ b' ' ∷ v

abbrev pub yes_no : Bool → Bytes
yes_no b = if b then codes "yes" else codes "no"

-- Every setting on a line of its own.
abbrev pub entries : Config → List Bytes
entries c =
    entry (codes "port") (str_from_int c.port)
    ∷ (entry (codes "listen_address") c.listen_address
        ∷ (entry (codes "log_verbosity") c.log_verbosity
            ∷ (entry (codes "log_sinks") c.log_sinks
                ∷ (entry (codes "threads") (str_from_int c.server_threads)
                    ∷ (entry (codes "api_key") c.api_key
                        ∷ (entry (codes "vip") c.vip
                            ∷ (entry (codes "use_ssl") (yes_no c.use_ssl)
                                ∷ (entry (codes "ssl_key_file") c.ssl_key_file
                                    ∷ (entry (codes "ssl_cert_chain_file") c.ssl_cert_chain_file
                                        ∷ (entry (codes "ssl_dh_file") c.ssl_dh_file ∷ []))))))))))

abbrev pub as_file : List Bytes → Bytes
as_file [] = []
as_file (l ∷ ls) = l ++ b'\n' ∷ as_file ls

getlines_one : (l s : Bytes) → Lacks b'\n' l → getlines (l ++ b'\n' ∷ s) ≡ l ∷ getlines s
getlines_one [] s h = refl
getlines_one (b ∷ l) s h = rw (getlines_one l s h.1) (ground (arith, h.0))

getlines-as_file : (ls : List Bytes) → All (Lacks b'\n') ls → getlines (as_file ls) ≡ ls
getlines-as_file [] h = refl
getlines-as_file (l ∷ ls) h =
    getlines_one l (as_file ls) h.0 ∙ ap (λ t. l ∷ t) (getlines-as_file ls h.1)

-- The line of a setting has the effect of that setting.
entry_effect :
    (k v : Bytes) (c : Config)
    → IsKey k
    → str_trim v ≡ v
    → line_effect (entry k v) c ≡ set_key (str_to_lower k) v c
entry_effect k v c hk hv =
    line_effect-colon k (b' ' ∷ v) c hk
    ∙ ap (λ t. set_key (str_to_lower k) t c) (trim-space_cons v hv)

-- One line of a file, with the setting that it makes.
setting :
    {ls : List Bytes} {c c' c'' : Config} (k v : Bytes)
    → IsKey k
    → IsValue v
    → set_key (str_to_lower k) v c ≡ some c'
    → Applies ls c' c''
    → Applies (entry k v ∷ ls) c c''
setting {c = c} k v hk hv e a = line (entry_effect k v c hk hv.trimmed ∙ e) a

IsGraph-IsValue : (s : Bytes) → All IsGraph s → IsValue s
IsGraph-IsValue s h = record { one_line = lacks s h; trimmed = trim-NoSpace s h }
  where
    lacks : (s : Bytes) → All IsGraph s → Lacks b'\n' s
    lacks [] h = tt
    lacks (c ∷ s) h = (ground (arith, h.0), lacks s h.1)

int-IsValue : (z : ℤ) → IsValue (str_from_int z)
int-IsValue z = IsGraph-IsValue (str_from_int z) (str_from_int-IsGraph z)

yes_no-IsValue : (b : Bool) → IsValue (yes_no b)
yes_no-IsValue true = IsGraph-IsValue (codes "yes") (refl, (refl, (refl, tt)))
yes_no-IsValue false = IsGraph-IsValue (codes "no") (refl, (refl, tt))

set_ssl-yes_no :
    (b : Bool) (c : Config)
    → c.use_ssl ≡ false
    → set_ssl (str_to_lower (yes_no b)) c ≡ record c { use_ssl = b }
unfolding str_to_lower
set_ssl-yes_no true c h = refl
set_ssl-yes_no false c h = ground arith

entries-Applies : (c : Config) → IsConfig c → Applies (entries c) default_config c
unfolding set_key str_to_lower
entries-Applies c h =
    setting (codes "port") _ (ground arith) (int-IsValue c.port)
      (ap (λ p. some (record default_config { port = p })) (atoi-str_from_int c.port h.port_int))
      (setting (codes "listen_address") _ (ground arith) h.listen_address_value refl (
        setting (codes "log_verbosity") _ (ground arith) h.log_verbosity_value refl (
          setting (codes "log_sinks") _ (ground arith) h.log_sinks_value refl (
            setting (codes "threads") _ (ground arith) (int-IsValue c.server_threads)
              (ap
                (λ t. some (record default_config {
                  port = c.port;
                  listen_address = c.listen_address;
                  log_verbosity = c.log_verbosity;
                  log_sinks = c.log_sinks;
                  server_threads = t;
                }))
                (atoi-str_from_int c.server_threads h.threads_int))
              (setting (codes "api_key") _ (ground arith) h.api_key_value refl (
                setting (codes "vip") _ (ground arith) h.vip_value refl (
                  setting (codes "use_ssl") _ (ground arith) (yes_no-IsValue c.use_ssl)
                    (ap some (set_ssl-yes_no c.use_ssl _ refl))
                    (setting (codes "ssl_key_file") _ (ground arith) h.ssl_key_file_value refl (
                      setting (codes "ssl_cert_chain_file") _ (ground arith)
                        h.ssl_cert_chain_file_value refl
                        (setting (codes "ssl_dh_file") _ (ground arith) h.ssl_dh_file_value refl
                          done))))))))))

entry-Lacks : (k v : Bytes) → Lacks b'\n' k → IsValue v → Lacks b'\n' (entry k v)
entry-Lacks k v hk hv =
    All-append (λ c. c ≢ b'\n') k (b':' ∷ b' ' ∷ v) hk (ground arith, (ground arith, hv.one_line))

entries-Lacks : (c : Config) → IsConfig c → All (Lacks b'\n') (entries c)
entries-Lacks c h = (
  entry-Lacks (codes "port") _ (ground arith) (int-IsValue c.port),
  (
    entry-Lacks (codes "listen_address") _ (ground arith) h.listen_address_value,
    (
      entry-Lacks (codes "log_verbosity") _ (ground arith) h.log_verbosity_value,
      (
        entry-Lacks (codes "log_sinks") _ (ground arith) h.log_sinks_value,
        (
          entry-Lacks (codes "threads") _ (ground arith) (int-IsValue c.server_threads),
          (
            entry-Lacks (codes "api_key") _ (ground arith) h.api_key_value,
            (
              entry-Lacks (codes "vip") _ (ground arith) h.vip_value,
              (
                entry-Lacks (codes "use_ssl") _ (ground arith) (yes_no-IsValue c.use_ssl),
                (
                  entry-Lacks (codes "ssl_key_file") _ (ground arith) h.ssl_key_file_value,
                  (
                    entry-Lacks (codes "ssl_cert_chain_file") _ (ground arith)
                        h.ssl_cert_chain_file_value,
                    (entry-Lacks (codes "ssl_dh_file") _ (ground arith) h.ssl_dh_file_value, tt),
                  ),
                ),
              ),
            ),
          ),
        ),
      ),
    ),
  ),
)

-- A file that holds every setting on a line `key: value` is read, over the default settings, back as
-- those settings, if the two numbers are `int`s and the texts are each on one line and have no space
-- at their ends.
pub open-as_file :
    (filename : Bytes) (c : Config) (g : Logger)
    → IsConfig c
    → open_config filename (some (as_file (entries c))) default_config g ≡ record {
      valid = true;
      config = c;
      logger = log_message (codes "Reading configuration...") g;
    }
unfolding open_config
open-as_file filename c g h = rw (getlines-as_file (entries c) (entries-Lacks c h)) (
    Applies-read filename 0 (log_message (codes "Reading configuration...") g)
      (entries-Applies c h))
