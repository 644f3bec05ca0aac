-- ===== src/HttpServer/Server.antt =====
-- The `http_server` object of src/http_server.cpp: its pointer to the server of cpp-netlib, and what it
-- does to that server. The server of cpp-netlib is what is outside: its events are recorded in order, and
-- what cpp-netlib and Asio answer, exceptions included, is a parameter.
pub mod Keeping
pub mod Life
pub mod Events
use ipvshttpd.Configuration.{Config}
use ipvshttpd.IpvsInterface.{Interface, InitAnswers, init}
use ipvshttpd.Logging.{Logger, log_message}
use ipvshttpd.Prelude.Bytes.{Bytes, codes}
use ipvshttpd.Prelude.Int.{ℤ}
use ipvshttpd.Prelude.{
  Bool, true, false, not, ◌&&◌, List, [], ◌∷◌, ◌++◌, Option, none, some, if◌then◌else◌,
}
use ipvshttpd.StringTools.{str_from_int}

-- The files of the SSL context.
pub record SslFiles : Type 0 where
  pub cert_chain_file : Bytes
  pub key_file : Bytes
  pub dh_file : Bytes

-- The options that the server of cpp-netlib is made with.
pub record ServerOptions : Type 0 where
  pub address : Bytes
  pub port : Bytes
  pub threads : ℤ
  pub context : Option SslFiles

pub data ServerEvent : Type 0 where
  created : ServerOptions → ServerEvent
  run_entered run_left run_threw stopped deleted io_stopped : ServerEvent

-- How `run()` ends: by itself; behind a signal, whose handler calls `stop()` while `run()` has not
-- returned; or by an exception, as where the address cannot be bound. Or it never returns: since nothing
-- ends it, or since a signal has come and the deletion of the server waits for ever, as where its
-- threads wait for a mutex that is not released.
pub data RunEnd : Type 0 where
  by_itself by_signal by_exception endless stuck_in_delete : RunEnd

-- Which files the SSL context takes, which options a server can be made with, and the end of its run;
-- where a file or the options are not taken, an exception is thrown.
pub record Netlib : Type 0 where
  pub takes_chain : Bytes → Bool
  pub takes_key : Bytes → Bool
  pub takes_dh : Bytes → Bool
  pub makes : ServerOptions → Bool
  pub run_end : RunEnd

-- The object, and the two globals that it uses, `ipvs` and `ipvs_mutex`.
pub record HttpServer : Type 0 where
  pub listen_address : Bytes
  pub port : ℤ
  pub num_threads : ℤ
  pub has_server : Bool
  pub events : List ServerEvent
  pub interface : Interface
  pub ipvs_locked : Bool

-- The constructor, with the globals as they are.
abbrev pub new_server : Bytes → ℤ → ℤ → Interface → Bool → HttpServer
new_server listen_address port threads interface ipvs_locked = record {
  listen_address = listen_address;
  port = port;
  num_threads = threads;
  has_server = false;
  events = [];
  interface = interface;
  ipvs_locked = ipvs_locked;
}

abbrev pub happens : ServerEvent → HttpServer → HttpServer
happens e s = record s { events = s.events ++ e ∷ [] }

abbrev pub logs : Bytes → HttpServer → HttpServer
logs message s = record s {
  interface = record (s.interface) { logger = log_message message s.interface.logger };
}

unfoldable pub stop : HttpServer → HttpServer
stop s =
    if s.has_server
    then record (happens deleted (happens stopped (logs (codes "Server stop.") s))) {
      has_server = false;
    }
    else s

abbrev pub ssl_files : Config → Option SslFiles
ssl_files c =
    if c.use_ssl
    then some (record {
      cert_chain_file = c.ssl_cert_chain_file;
      key_file = c.ssl_key_file;
      dh_file = c.ssl_dh_file;
    })
    else none

-- Whether the SSL context is set up without an exception.
abbrev pub takes_files : Netlib → Option SslFiles → Bool
takes_files n none = true
takes_files n (some f) =
    n.takes_chain f.cert_chain_file && (n.takes_key f.key_file && n.takes_dh f.dh_file)

abbrev pub options_of : Config → HttpServer → ServerOptions
options_of c s = record {
  address = s.listen_address;
  port = str_from_int s.port;
  threads = s.num_threads;
  context = ssl_files c;
}

-- `new server_t`, and the pointer to it.
abbrev pub create : Config → HttpServer → HttpServer
create c s = record (happens (created (options_of c s)) s) { has_server = true }

-- What the body of `start` comes to: a result, an exception that leaves it, or a wait that nothing ends,
-- for the IPVS mutex or for `run()`.
pub data Started : Type 0 where
  gave : Bool → Started
  threw stuck : Started

-- Up to `run()`: the server that is to be run, or an earlier end.
pub data Prepared : Type 0 where
  ready : HttpServer → Prepared
  ends : HttpServer → Started → Prepared

-- Behind a successful `init`: a server that is still held is stopped, and another made.
unfoldable pub make_server : Netlib → Config → HttpServer → Prepared
make_server n c s =
    let s' = if s.has_server then stop s else s in
    let s'' = if c.use_ssl then logs (codes "Enabling SSL.") s' else s' in
    if not (takes_files n (ssl_files c))
    then ends s'' threw
    else if not (n.makes (options_of c s''))
    then ends s'' threw
    else ready (create c s'')

-- `init` under the IPVS mutex, which is released on both branches, and the making of the server.
unfoldable pub prepare : InitAnswers → Netlib → Config → HttpServer → Prepared
unfolding make_server stop
prepare a n c s =
    if s.ipvs_locked
    then ends s stuck
    else (let locked = record s { ipvs_locked = true } in
        let (interface, up) = init a locked.interface in
        let tried = record locked { interface = interface } in
        if up
        then make_server n c (record tried { ipvs_locked = false })
        else ends (record tried { ipvs_locked = false }) (gave false))

-- The end of `run()`, and what stands behind it; a deletion that never ends stands in `stop`.
unfoldable pub after_run : RunEnd → HttpServer → HttpServer × Started
unfolding stop
after_run by_itself s = (happens io_stopped (happens run_left s), gave true)
after_run by_signal s = (happens io_stopped (happens run_left (stop s)), gave true)
after_run by_exception s = (happens run_threw s, threw)
after_run endless s = (s, stuck)
after_run stuck_in_delete s = (happens stopped (logs (codes "Server stop.") s), stuck)

unfoldable pub run : RunEnd → HttpServer → HttpServer × Started
unfolding after_run
run e s = after_run e (happens run_entered (logs (codes "Server start.") s))

abbrev pub run_prepared : RunEnd → Prepared → HttpServer × Started
run_prepared e (ready s) = run e s
run_prepared e (ends s r) = (s, r)

-- `http_server::start`.
unfoldable pub start : InitAnswers → Netlib → Config → HttpServer → HttpServer × Started
unfolding run prepare
start a n c s = run_prepared n.run_end (prepare a n c s)
