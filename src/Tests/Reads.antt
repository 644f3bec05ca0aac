-- ===== src/Tests/Reads.antt =====
-- The reading of a request's body in src/http_server.cpp on concrete chunks.
use ipvshttpd.HttpServer.Connection.Reading.{
  arrive, total, joined, reads_within, overrun_stalls, no_length_stalls,
}
use ipvshttpd.HttpServer.Connection.{
  pending, complete, accept, content_length, on_reads, on_read, handle_post_read,
}
use ipvshttpd.Libc.{atoi, strtol}
use ipvshttpd.Prelude.Bytes.{Bytes, codes}
use ipvshttpd.Prelude.{◌+◌, ◌-◌, ◌^◌, List, [], ◌∷◌, ◌≡◌, refl, arith, length, ◌==◌, if◌then◌else◌}
use ipvshttpd.StringTools.{str_to_lower}

abbrev headers : List (Bytes × Bytes)
headers = (codes "Host", codes "lb") ∷ ((codes "CONTENT-Length", codes "5") ∷ [])

abbrev chunks : List Bytes
chunks = codes "{\"a" ∷ (codes "\"}" ∷ [])

-- The length is found whatever the case of the header's name, and the two chunks complete the body.
reads_run :
    on_reads (accept headers) (arrive chunks) ≡ record { phase = complete; body = codes "{\"a\"}" }
unfolding accept content_length on_reads on_read handle_post_read atoi strtol str_to_lower
reads_run = refl

reads_within_example : on_reads (record { phase = pending 5; body = [] }) (arrive chunks) ≡ record {
  phase = if total chunks == 5 then complete else pending (5 - total chunks);
  body = joined chunks;
}
reads_within_example = reads_within chunks 5 [] (omega arith) (omega arith) (omega arith)

overrun_stalls_example :
    on_reads (record { phase = pending 2; body = [] }) (arrive chunks) ≡ record {
      phase = pending (2 ^ 64 + 2 - (length (codes "{\"a") + total (codes "\"}" ∷ [])));
      body = joined chunks;
    }
overrun_stalls_example =
    overrun_stalls (codes "{\"a") (codes "\"}" ∷ []) 2 [] (omega arith) (omega arith)

no_length_stalls_example :
    on_reads (accept ((codes "Host", codes "lb") ∷ [])) (arrive chunks) ≡ record {
      phase = pending (2 ^ 64 - (length (codes "{\"a") + total (codes "\"}" ∷ [])));
      body = joined chunks;
    }
no_length_stalls_example =
    no_length_stalls ((codes "Host", codes "lb") ∷ []) (codes "{\"a") (codes "\"}" ∷ [])
      (unfold str_to_lower in refl, tt) (omega arith) (omega arith)
