-- ===== src/HttpServer/Connection.antt =====
-- The `connection_handler` of src/http_server.cpp up to the end of the request's body: the length in the
-- headers, and the chunks that cpp-netlib hands to the read callback one after the other.
pub mod Reading
use ipvshttpd.Libc.{atoi}
use ipvshttpd.Prelude.Bytes.{Bytes, codes, equal}
use ipvshttpd.Prelude.Int.{ℤ, pos, to_unsigned}
use ipvshttpd.Prelude.{ℕ, ◌+◌, ◌-◌, ◌%◌, ◌^◌, Bool, List, [], ◌∷◌, ◌++◌, take, ltb, if◌then◌else◌}
use ipvshttpd.StringTools.{str_to_lower}

-- The scan of the headers in `operator()`: the first `content-length` in any case, or 0.
unfoldable pub content_length : List (Bytes × Bytes) → ℤ
content_length [] = pos 0
content_length ((name, value) ∷ headers) =
    if equal (str_to_lower name) (codes "content-length")
    then atoi value
    else content_length headers

-- What the callback is given: an error, or a range with the number of its bytes to take.
pub data ReadResult : Type 0 where
  read_error : ReadResult
  chunk : Bytes → ℕ → ReadResult

-- A read is pending with the bytes left; or it failed, and nothing more happens; or the whole body was
-- read, and `handle_post_request` is called with it.
pub data Phase : Type 0 where
  pending : ℕ → Phase
  abandoned : Phase
  complete : Phase

pub record Connection : Type 0 where
  pub phase : Phase
  pub body : Bytes

-- `operator()`, and the `read_chunk` that it calls: the `int` becomes a `size_t`.
unfoldable pub accept : List (Bytes × Bytes) → Connection
unfolding content_length
accept headers = record { phase = pending (to_unsigned 64 (content_length headers)); body = [] }

-- `left_to_read - size` in `size_t`.
abbrev pub sub64 : ℕ → ℕ → ℕ
sub64 a b = (a + 2 ^ 64 - b) % 2 ^ 64

-- `handle_post_read`; with bytes remaining, `read_chunk` binds the callback to them.
unfoldable pub handle_post_read : ℕ → Bytes → ReadResult → Connection
handle_post_read left body read_error = record { phase = abandoned; body = body }
handle_post_read left body (chunk range size) =
    let remaining = sub64 left size in
    record {
      phase = if ltb 0 remaining then pending remaining else complete;
      body = body ++ take size range;
    }

-- A result arrives only while a read is pending.
unfoldable pub on_read : Phase → Bytes → ReadResult → Connection
unfolding handle_post_read
on_read (pending left) body r = handle_post_read left body r
on_read abandoned body r = record { phase = abandoned; body = body }
on_read complete body r = record { phase = complete; body = body }

unfoldable pub on_reads : Connection → List ReadResult → Connection
unfolding on_read
on_reads c [] = c
on_reads c (r ∷ rs) = on_reads (on_read c.phase c.body r) rs
