-- ===== src/HttpServer/Connection/Reading.antt =====
-- Which bodies the read callback of src/http_server.cpp completes.
use ipvshttpd.HttpServer.Connection.{
  ReadResult, chunk, pending, complete, Connection, content_length, accept, sub64, handle_post_read,
  on_reads,
}
use ipvshttpd.Prelude.Bytes.{Bytes, codes, equal}
use ipvshttpd.Prelude.Int.{pos}
use ipvshttpd.Prelude.{
  ℕ, ◌+◌, ◌-◌, ◌^◌, ◌<◌, ◌≤◌, true, false, List, [], ◌∷◌, ◌++◌, append-nil, append_assoc, ◌≡◌, refl,
  ap, ◌∙◌, inl, inr, arith, All, Bool-cases, length, take-length, ltb, ◌==◌, if◌then◌else◌,
}
use ipvshttpd.StringTools.{str_to_lower}

-- The chunks as cpp-netlib hands them over: the size is that of the range.
abbrev pub arrive : List Bytes → List ReadResult
arrive [] = []
arrive (b ∷ bs) = chunk b (length b) ∷ arrive bs

abbrev pub total : List Bytes → ℕ
total [] = 0
total (b ∷ bs) = length b + total bs

abbrev pub joined : List Bytes → Bytes
joined [] = []
joined (b ∷ bs) = b ++ joined bs

complete_stays :
    (body : Bytes) (bs : List Bytes)
    → on_reads (record { phase = complete; body = body }) (arrive bs)
      ≡ record { phase = complete; body = body }
unfolding on_reads
complete_stays body [] = refl
complete_stays body (b ∷ bs) = complete_stays body bs

empty_chunks : (bs : List Bytes) → total bs ≡ 0 → joined bs ≡ []
empty_chunks [] h = refl
empty_chunks ([] ∷ bs) h = empty_chunks bs (omega arith)
empty_chunks ((c ∷ b) ∷ bs) h = absurd (omega arith)

-- One chunk of at most the bytes left.
step_within :
    (left : ℕ) (body b : Bytes)
    → left < 2 ^ 64
    → length b ≤ left
    → handle_post_read left body (chunk b (length b)) ≡ record {
      phase = if ltb 0 (left - length b) then pending (left - length b) else complete;
      body = body ++ b;
    }
unfolding handle_post_read
step_within left body b lt le =
    let e : sub64 left (length b) ≡ left - length b = omega arith in rw (e, take-length b) refl

abbrev waiting : ℕ → Bytes → Connection
waiting left body = record { phase = pending left; body = body }

reads_step :
    (b : Bytes) (bs : List Bytes) (left : ℕ) (body : Bytes)
    → on_reads (waiting left body) (arrive (b ∷ bs))
      ≡ on_reads (handle_post_read left body (chunk b (length b))) (arrive bs)
unfolding on_reads
reads_step b bs left body = refl

reads_short :
    (bs : List Bytes) (left : ℕ) (body : Bytes)
    → left < 2 ^ 64
    → total bs < left
    → on_reads (waiting left body) (arrive bs) ≡ waiting (left - total bs) (body ++ joined bs)
reads_short [] left body lt h =
    let e : left - 0 ≡ left = omega arith in unfold on_reads in rw (e, append-nil)
reads_short (b ∷ bs) left body lt h =
    let e : left - length b - total bs ≡ left - (length b + total bs) = omega arith in
    let more : ltb 0 (left - length b) ≡ true = ground arith in
    reads_step b bs left body
    ∙ ap (λ c. on_reads c (arrive bs)) (step_within left body b lt (omega arith) ∙ rw more refl)
    ∙ reads_short bs (left - length b) (body ++ b) (omega arith) (omega arith)
    ∙ rw (e, append_assoc) refl

reads_exact :
    (bs : List Bytes) (left : ℕ) (body : Bytes)
    → 0 < left
    → left < 2 ^ 64
    → total bs ≡ left
    → on_reads (waiting left body) (arrive bs)
      ≡ record { phase = complete; body = body ++ joined bs }
reads_exact [] left body gt lt h = absurd (omega arith)
reads_exact (b ∷ bs) left body gt lt h =
    reads_step b bs left body
    ∙ ap (λ c. on_reads c (arrive bs)) (step_within left body b lt (omega arith))
    ∙ elim (Bool-cases (ltb 0 (left - length b))) [
      | inl more ↦ rw more (
          reads_exact bs (left - length b) (body ++ b) (ground arith) (omega arith) (omega arith)
          ∙ rw append_assoc refl)
      | inr last ↦
          let none_left : total bs ≡ 0 = ground arith in
          rw last (complete_stays (body ++ b) bs ∙ rw (empty_chunks bs none_left, append-nil) refl)
    ]

-- With an announced length that is not 0 and fits in 64 bits, while the chunks do not exceed it, every
-- byte is appended in order, and the handler is called exactly when the announced length is reached,
-- with the whole body.
pub reads_within :
    (bs : List Bytes) (left : ℕ) (body : Bytes)
    → 0 < left
    → left < 2 ^ 64
    → total bs ≤ left
    → on_reads (record { phase = pending left; body = body }) (arrive bs) ≡ record {
      phase = if total bs == left then complete else pending (left - total bs);
      body = body ++ joined bs;
    }
reads_within bs left body gt lt le = elim (Bool-cases (total bs == left)) [
  | inl e ↦ rw e (reads_exact bs left body gt lt (ground arith))
  | inr e ↦ rw e (reads_short bs left body lt (ground arith))
]

-- Where the first chunk is longer than what is left to read, the count wraps around: all bytes are
-- appended, but the handler is not called, as long as fewer than 2 ^ 64 bytes come beyond those
-- announced.
pub overrun_stalls :
    (b : Bytes) (bs : List Bytes) (left : ℕ) (body : Bytes)
    → left < length b
    → length b + total bs < 2 ^ 64 + left
    → on_reads (record { phase = pending left; body = body }) (arrive (b ∷ bs)) ≡ record {
      phase = pending (2 ^ 64 + left - (length b + total bs));
      body = body ++ joined (b ∷ bs);
    }
overrun_stalls b bs left body over room =
    let wrap : sub64 left (length b) ≡ 2 ^ 64 + left - length b = omega arith in
    let more : ltb 0 (2 ^ 64 + left - length b) ≡ true = ground arith in
    let e : 2 ^ 64 + left - length b - total bs ≡ 2 ^ 64 + left - (length b + total bs) =
      omega arith in
    reads_step b bs left body
    ∙ ap (λ c. on_reads c (arrive bs)) {y = waiting (2 ^ 64 + left - length b) (body ++ b)}
        (unfold handle_post_read in rw (wrap, more, take-length b) refl)
    ∙ reads_short bs (2 ^ 64 + left - length b) (body ++ b) (omega arith) (omega arith)
    ∙ rw (e, append_assoc) refl

-- Without a `Content-Length` header, a request whose first chunk is not empty never reaches the
-- handler, as long as fewer than 2 ^ 64 bytes come: all are appended, and a read stays pending.
pub no_length_stalls :
    (headers : List (Bytes × Bytes)) (b : Bytes) (bs : List Bytes)
    → All (λ h. equal (str_to_lower h.0) (codes "content-length") ≡ false) headers
    → 0 < length b
    → length b + total bs < 2 ^ 64
    → on_reads (accept headers) (arrive (b ∷ bs))
      ≡ record { phase = pending (2 ^ 64 - (length b + total bs)); body = joined (b ∷ bs) }
unfolding accept
no_length_stalls headers b bs none gt room =
    rw (no_header headers none) (overrun_stalls b bs 0 [] gt (omega arith))
  where
    no_header :
        (hs : List (Bytes × Bytes))
        → All (λ h. equal (str_to_lower h.0) (codes "content-length") ≡ false) hs
        → content_length hs ≡ pos 0
    no_header [] h = refl
    no_header ((name, value) ∷ hs) h = rw h.0 (no_header hs h.1)
