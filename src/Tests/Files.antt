-- ===== src/Tests/Files.antt =====
-- src/configuration.cpp on concrete configuration files.
use ipvshttpd.Configuration.Outcome.{Applies, StopsAt, open_outcome}
use ipvshttpd.Configuration.RoundTrip.{IsConfig, entries, as_file, open-as_file}
use ipvshttpd.Configuration.{
  Config, default_config, set_pair, set_key, line_effect, invalid_line, read_lines, getlines,
  open_config,
}
use ipvshttpd.Libc.{skip_spaces, atoi, strtol}
use ipvshttpd.Logging.{log_message, log_error}
use ipvshttpd.Prelude.Bytes.{Bytes, codes}
use ipvshttpd.Prelude.Int.{pos, negsuc}
use ipvshttpd.Prelude.{◌≡◌, refl, ◌⊎◌, arith, true, false, some}
use ipvshttpd.StringTools.{
  str_from_int, str_trim, str_ltrim, str_rtrim, str_to_lower, str_split, split_loop,
  str_starts_with,
}
use ipvshttpd.Tests.{free-Lacks, demo_logger}

abbrev content : Bytes
content = codes "# balancer\n\n Port:8443\nvip: 10.0.0.1:80\nuse_ssl: yes\nbad line\nport: 1\n"

-- The settings above the invalid line are kept, and the error names line 6.
open_run : open_config (codes "f") (some content) default_config demo_logger ≡ record {
  valid = false;
  config = record default_config { port = pos 8443; vip = codes "10.0.0.1:80"; use_ssl = true };
  logger =
      log_error
        (codes "Invalid configuration in f line 6")
        (log_message (codes "Reading configuration...") demo_logger);
}
unfolding open_config read_lines line_effect set_pair set_key str_trim str_ltrim str_rtrim
    skip_spaces str_to_lower str_split split_loop str_starts_with atoi strtol invalid_line
    str_from_int
open_run = refl

abbrev pub plain : Config
plain = record default_config {
  port = pos 8443;
  server_threads = negsuc 0;
  use_ssl = true;
  log_verbosity = codes "info";
  api_key = codes "a:b c";
  vip = codes "[::1]:80";
}

pub plain-IsConfig : IsConfig plain
unfolding str_trim str_ltrim str_rtrim skip_spaces
plain-IsConfig = record {
  port_int = omega arith;
  threads_int = omega arith;
  listen_address_value = record {
    one_line = free-Lacks b'\n' plain.listen_address refl;
    trimmed = refl;
  };
  log_verbosity_value = record {
    one_line = free-Lacks b'\n' plain.log_verbosity refl;
    trimmed = refl;
  };
  log_sinks_value = record { one_line = tt; trimmed = refl };
  api_key_value = record { one_line = free-Lacks b'\n' plain.api_key refl; trimmed = refl };
  vip_value = record { one_line = free-Lacks b'\n' plain.vip refl; trimmed = refl };
  ssl_key_file_value = record { one_line = tt; trimmed = refl };
  ssl_cert_chain_file_value = record { one_line = tt; trimmed = refl };
  ssl_dh_file_value = record { one_line = tt; trimmed = refl };
}

open-as_file_example :
    open_config (codes "f") (some (as_file (entries plain))) default_config demo_logger ≡ record {
      valid = true;
      config = plain;
      logger = log_message (codes "Reading configuration...") demo_logger;
    }
open-as_file_example = open-as_file (codes "f") plain demo_logger plain-IsConfig

open_outcome_example :
    (Applies
        (getlines content)
        default_config
        (open_config (codes "f") (some content) default_config demo_logger).config
      × ((open_config (codes "f") (some content) default_config demo_logger).valid ≡ true)
      × ((open_config (codes "f") (some content) default_config demo_logger).logger
          ≡ log_message (codes "Reading configuration...") demo_logger))
    ⊎ StopsAt
        (codes "f")
        0
        (getlines content)
        default_config
        (log_message (codes "Reading configuration...") demo_logger)
        (open_config (codes "f") (some content) default_config demo_logger)
open_outcome_example = open_outcome (codes "f") content default_config demo_logger
