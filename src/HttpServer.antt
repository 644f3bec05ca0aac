-- ===== src/HttpServer.antt =====
-- src/http_server.cpp and src/http_server.h: the reading of a request's body, the handling of the
-- request, and the life of the server object.
pub mod Connection
pub mod Post
pub mod Server
pub mod Threads
pub mod Served
pub mod Exchange
