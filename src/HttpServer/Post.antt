-- ===== src/HttpServer/Post.antt =====
-- `report_error` and `handle_post_request` of src/http_server.cpp. The JSON library is a parameter.
-- The world of a request is the configuration, the log, the two mutexes, the calls of libipvs and the
-- responses; a step returns, throws an exception out of the handler, or blocks on a mutex for ever.
pub mod Outcome
pub mod Sequence
pub mod Faults
use ipvshttpd.Configuration.{Config}
use ipvshttpd.IpvsInterface.{Weighed, set_weight}
use ipvshttpd.Libipvs.{Service, Dest, Net}
use ipvshttpd.Logging.{Logger, log_error, log_message}
use ipvshttpd.Prelude.Bytes.{Bytes, codes}
use ipvshttpd.Prelude.Int.{ℤ}
use ipvshttpd.Prelude.{
  Bool, true, false, not, List, [], ◌∷◌, ◌++◌, Option, none, some, if◌then◌else◌,
}

-- What the handler uses of jsoncpp; none stands for a `Json::LogicError`.
pub record Json : Type 1 where
  pub Value : Type 0
  pub parse : Bytes → Option Value
  pub index : Value → Bytes → Option Value
  pub is_null : Value → Bool
  pub ne_text : Value → Bytes → Bool
  pub is_int : Value → Bool
  pub as_text : Value → Option Bytes
  pub as_int : Value → Option ℤ

pub data Status : Type 0 where
  ok bad_request unauthorized internal_server_error : Status

pub record Response : Type 0 where
  pub status : Status
  pub headers : List (Bytes × Bytes)
  pub text : Bytes

pub record World : Type 0 where
  pub config : Config
  pub logger : Logger
  pub config_locked : Bool
  pub ipvs_locked : Bool
  pub calls : List (Service × Dest)
  pub responses : List Response

pub data Ended : Type 0 where
  returned : World → Ended
  thrown : World → Ended
  blocked : World → Ended

abbrev pub response_headers : List (Bytes × Bytes)
response_headers =
    (codes "Connection", codes "close") ∷ ((codes "Content-Type", codes "application/json") ∷ [])

abbrev pub respond : Status → Bytes → World → World
respond status text w = record w {
  responses =
      w.responses ++ record { status = status; headers = response_headers; text = text } ∷ [];
}

abbrev pub error_text : Bytes → Bytes
error_text message =
    codes "\r{\n\t\"error\": true,\n\t\"error_reason\": \"" ++ (message ++ codes "\"\n}\n")

abbrev pub ok_text : Bytes
ok_text = codes "\r{\n\t\"error\": false\n}\n"

unfoldable pub report_error : Bytes → Status → World → World
report_error message status w =
    let w' = respond status (error_text message) w in
    record w' { logger = log_error message w'.logger }

-- The settings are copied and logged under the configuration mutex.
abbrev pub read_config : World → World
read_config w = record w {
  logger =
      log_message (codes "vip : " ++ w.config.vip)
        (log_message (codes "api key : " ++ w.config.api_key) w.logger);
  config_locked = false;
}

-- Behind the update, with the mutex held; it is released at the end.
unfoldable pub answer : Weighed → World → World
answer r w =
    let w' = record w { calls = w.calls ++ r.calls; logger = r.logger } in
    let w'' =
      if r.success
      then respond ok ok_text w'
      else report_error (codes "Could not set weight.") internal_server_error w' in
    record w'' { ipvs_locked = false }

module _ (net : Net) (json : Json) where
  open json use {Value, parse, index, is_null, ne_text, is_int, as_text, as_int}

  -- Under the mutex: both conversions, of which each may throw, and the update.
  unfoldable pub convert_and_update : Value → Value → World → Ended
  convert_and_update hostname kernels w = elim (as_text hostname) [
    | none ↦ thrown w
    | some server ↦ elim (as_int kernels) [
      | none ↦ thrown w
      | some weight ↦ returned (answer (set_weight net w.config.vip server weight w.logger) w)
    ]
  ]

  unfoldable pub update_locked : Value → Value → World → Ended
  unfolding convert_and_update
  update_locked hostname kernels w =
      if w.ipvs_locked
      then blocked w
      else convert_and_update hostname kernels (record w { ipvs_locked = true })

  unfoldable pub check_kernels : Value → Value → World → Ended
  unfolding update_locked
  check_kernels hostname kernels w =
      if is_null kernels
      then returned (report_error (codes "No available_kernels specified.") bad_request w)
      else if not (is_int kernels)
      then returned
          (report_error (codes "available_kernels needs to be an integer value.") bad_request w)
      else update_locked hostname kernels w

  unfoldable pub check_host : Value → Value → World → Ended
  unfolding check_kernels
  check_host root hostname w =
      if is_null hostname
      then returned (report_error (codes "No host specified.") bad_request w)
      else elim (index root (codes "available_kernels")) [
        | none ↦ thrown w
        | some kernels ↦ check_kernels hostname kernels w
      ]

  unfoldable pub check_key : Value → Value → World → Ended
  unfolding check_host
  check_key root api_key w =
      if is_null api_key
      then returned (report_error (codes "Missing API key.") unauthorized w)
      else if ne_text api_key w.config.api_key
      then returned (report_error (codes "Invalid API key.") unauthorized w)
      else elim (index root (codes "host")) [
        | none ↦ thrown w
        | some hostname ↦ check_host root hostname w
      ]

  unfoldable pub handle_parsed : Option Value → World → Ended
  unfolding check_key
  handle_parsed none w = returned (report_error (codes "Could not parse JSON.") bad_request w)
  handle_parsed (some root) w = elim (index root (codes "api_key")) [
    | none ↦ thrown w
    | some api_key ↦ check_key root api_key w
  ]

  unfoldable pub handle_post_request : Bytes → World → Ended
  unfolding handle_parsed
  handle_post_request request_body w =
      if w.config_locked then blocked w else handle_parsed (parse request_body) (read_config w)
