-- ===== src/Configuration.antt =====
-- src/configuration.cpp and src/configuration.h: the settings and the reading of the configuration
-- file. The file system is an argument: the content of the file, or none if it cannot be opened.
pub mod Lines
pub mod Outcome
pub mod RoundTrip
use ipvshttpd.Libc.{atoi}
use ipvshttpd.Logging.{Logger, log_error, log_message}
use ipvshttpd.Prelude.Bytes.{Bytes, codes, equal}
use ipvshttpd.Prelude.Int.{ℤ, pos}
use ipvshttpd.Prelude.{
  ℕ, ◌+◌, Bool, true, false, ◌||◌, List, [], ◌∷◌, ◌++◌, Option, none, some, ◌==◌, if◌then◌else◌,
}
use ipvshttpd.StringTools.{str_trim, str_split, str_to_lower, str_starts_with, str_from_int}

pub record Config : Type 0 where
  pub port : ℤ
  pub server_threads : ℤ
  pub use_ssl : Bool
  pub listen_address : Bytes
  pub log_verbosity : Bytes
  pub log_sinks : Bytes
  pub api_key : Bytes
  pub vip : Bytes
  pub ssl_key_file : Bytes
  pub ssl_cert_chain_file : Bytes
  pub ssl_dh_file : Bytes

-- The constructor of `configuration_manager`.
abbrev pub default_config : Config
default_config = record {
  port = pos 8080;
  server_threads = pos 2;
  use_ssl = false;
  listen_address = codes "0.0.0.0";
  log_verbosity = [];
  log_sinks = [];
  api_key = [];
  vip = [];
  ssl_key_file = [];
  ssl_cert_chain_file = [];
  ssl_dh_file = [];
}

-- Under the key `use_ssl`, on the value in lower case.
abbrev pub set_ssl : Bytes → Config → Config
set_ssl lval c =
    if equal lval (codes "yes") || equal lval (codes "true") then record c { use_ssl = true } else c

-- The ladder on the key; `none` is the last branch, an unknown key.
unfoldable pub set_key : Bytes → Bytes → Config → Option Config
set_key key value c =
    if equal key (codes "port")
    then some (record c { port = atoi value })
    else if equal key (codes "listen_address")
    then some (record c { listen_address = value })
    else if equal key (codes "log_verbosity")
    then some (record c { log_verbosity = value })
    else if equal key (codes "log_sinks")
    then some (record c { log_sinks = value })
    else if equal key (codes "threads")
    then some (record c { server_threads = atoi value })
    else if equal key (codes "api_key")
    then some (record c { api_key = value })
    else if equal key (codes "vip")
    then some (record c { vip = value })
    else if equal key (codes "use_ssl")
    then some (set_ssl (str_to_lower value) c)
    else if equal key (codes "ssl_key_file")
    then some (record c { ssl_key_file = value })
    else if equal key (codes "ssl_cert_chain_file")
    then some (record c { ssl_cert_chain_file = value })
    else if equal key (codes "ssl_dh_file")
    then some (record c { ssl_dh_file = value })
    else none

-- `kvp.size() != 2` is the error, and so is no list at all: `str_split` returns at this delimiter.
unfoldable pub set_pair : Option (List Bytes) → Config → Option Config
set_pair (some (k ∷ (v ∷ []))) c = set_key (str_to_lower k) (str_trim v) c
set_pair _ c = none

-- One round of the loop: the new settings (`continue` keeps the old), or none for an invalid line.
unfoldable pub line_effect : Bytes → Config → Option Config
unfolding set_pair
line_effect raw c =
    let line = str_trim raw in
    if equal line []
    then some c
    else if str_starts_with (codes "#") line
    then some c
    else set_pair (str_split line (codes ":") (pos 2)) c

pub record Opened : Type 0 where
  pub valid : Bool
  pub config : Config
  pub logger : Logger

unfoldable pub invalid_line : Bytes → ℕ → Bytes
invalid_line filename line_nr =
    codes "Invalid configuration in "
    ++ (filename ++ (codes " line " ++ str_from_int (pos line_nr)))

-- The loop over the lines; `line_nr` is the number of the line read last.
unfoldable pub read_lines : Bytes → ℕ → List Bytes → Config → Logger → Opened
read_lines filename line_nr [] c g = record { valid = true; config = c; logger = g }
read_lines filename line_nr (line ∷ rest) c g = elim (line_effect line c) [
  | none ↦ record {
    valid = false;
    config = c;
    logger = log_error (invalid_line filename (line_nr + 1)) g;
  }
  | some c' ↦ read_lines filename (line_nr + 1) rest c' g
]

abbrev pub add_byte : ℕ → List Bytes → List Bytes
add_byte b [] = (b ∷ []) ∷ []
add_byte b (l ∷ ls) = (b ∷ l) ∷ ls

-- The lines that `std::getline` reads, one call after the other: there is none behind a last newline.
abbrev pub getlines : Bytes → List Bytes
getlines [] = []
getlines (b ∷ s) = let rest = getlines s in if b == b'\n' then [] ∷ rest else add_byte b rest

-- `configuration_manager::open`.
unfoldable pub open_config : Bytes → Option Bytes → Config → Logger → Opened
unfolding read_lines
open_config filename none c g = record {
  valid = false;
  config = c;
  logger =
      log_error (codes "Could not open configuration file: " ++ filename)
        (log_message (codes "Reading configuration...") g);
}
open_config filename (some content) c g =
    read_lines filename 0 (getlines content) c (log_message (codes "Reading configuration...") g)
