-- ===== src/IpvsInterface/Weight/Outcome.antt =====
-- `set_weight` of src/ipvs_interface.cpp: when it calls libipvs, and with what.
use ipvshttpd.IpvsInterface.Frame.Fields.{Framed}
use ipvshttpd.IpvsInterface.Frame.{parse_service-Framed}
use ipvshttpd.IpvsInterface.Weight.{
  vip_parsed, server_parsed, Accepted, Sent, Refused, HasAddr, update_zero, update_sends,
  with_vip_none, with_vip_addr, with_server_none, with_server_addr,
}
use ipvshttpd.IpvsInterface.{
  service_none, service_addr, Parsed, default_service, make_dest, default_sched, update_checked,
  set_weight,
}
use ipvshttpd.Libipvs.{Service, Net}
use ipvshttpd.Logging.{Logger}
use ipvshttpd.Prelude.Bytes.{Bytes, codes}
use ipvshttpd.Prelude.Int.{ℤ}
use ipvshttpd.Prelude.{
  ℕ, [], ◌≡◌, ◌≢◌, refl, ◌∙◌, ◌⊎◌, inl, inr, arith, length, ◌≤◌, Bool-cases, ◌==◌,
}

module _ (net : Net) (vip server : Bytes) (weight : ℤ) (g : Logger) where
  -- The parts of the two parsers' frames that the checks read.
  vip_fwmark : (vip_parsed net vip).svc.fwmark ≡ 0
  vip_fwmark = (parse_service-Framed net vip default_service).rest_kept.fwmark_kept

  vip_flags : (vip_parsed net vip).svc.flags ≡ 0
  vip_flags = (parse_service-Framed net vip default_service).rest_kept.flags_kept

  vip_sched : (vip_parsed net vip).svc.sched_name ≡ []
  vip_sched = (parse_service-Framed net vip default_service).rest_kept.sched_kept

  sched_set :
      default_sched (vip_parsed net vip).svc
      ≡ record ((vip_parsed net vip).svc) { sched_name = codes "wlc" }
  sched_set = rw vip_sched refl

  reach_update :
      HasAddr (vip_parsed net vip).code
      → HasAddr (server_parsed net vip server).code
      → set_weight net vip server weight g
        ≡ update_checked net
            (vip_parsed net vip).svc
            (make_dest
              (server_parsed net vip server).svc
              (server_parsed net vip server).code
              weight
              (vip_parsed net vip).svc.port)
            (server_parsed net vip server).buf
            g
  unfolding set_weight
  reach_update hv hs =
      with_vip_addr net g weight (vip_parsed net vip) server hv
      ∙ with_server_addr net g weight (vip_parsed net vip).svc (server_parsed net vip server) hs

  sent :
      HasAddr (vip_parsed net vip).code
      → HasAddr (server_parsed net vip server).code
      → (vip_parsed net vip).svc.port ≢ 0
      → Sent net vip server weight g (set_weight net vip server weight g)
  unfolding make_dest
  sent hv hs nz =
      rw
        (reach_update hv hs
          ∙ update_sends net (vip_parsed net vip).svc
              (make_dest (server_parsed net vip server).svc (server_parsed net vip server).code
                weight (vip_parsed net vip).svc.port)
              (server_parsed net vip server).buf g vip_fwmark vip_flags nz)
        (record {
          svc = default_sched (vip_parsed net vip).svc;
          dest = _;
          one_call = refl;
          answer = refl;
          quiet = refl;
          svc_parsed = sched_set;
          tcp =
              rw sched_set ((parse_service-Framed net vip default_service).rest_kept.protocol_kept);
          weight_sent = refl;
          direct_routing = refl;
          dest_family = refl;
          dest_addr = refl;
          own_port = λ e. rw e refl;
          vip_port_copied = λ e. rw (e, sched_set) refl;
        })

  port_zero-Refused :
      HasAddr (vip_parsed net vip).code
      → HasAddr (server_parsed net vip server).code
      → (vip_parsed net vip).svc.port ≡ 0
      → Refused (set_weight net vip server weight g) g
  port_zero-Refused hv hs z =
      rw (reach_update hv hs)
        (update_zero net (vip_parsed net vip).svc _ _ g vip_fwmark vip_flags z)

  bad_server-Refused :
      HasAddr (vip_parsed net vip).code
      → (server_parsed net vip server).code ≡ service_none
      → Refused (set_weight net vip server weight g) g
  unfolding set_weight
  bad_server-Refused hv e =
      rw (with_vip_addr net g weight (vip_parsed net vip) server hv)
        (with_server_none net g weight (vip_parsed net vip).svc (server_parsed net vip server) e)

  bad_vip-Refused :
      (vip_parsed net vip).code ≡ service_none → Refused (set_weight net vip server weight g) g
  unfolding set_weight
  bad_vip-Refused e = with_vip_none net g weight (vip_parsed net vip) server e

  code_cases :
      (p : Parsed) {s : Service} {b : Bytes}
      → Framed s b p
      → (p.code ≡ service_none) ⊎ HasAddr p.code
  code_cases p f = f.code_known

  -- Without a port the VIP's port stays 0.
  bare_port : (vip_parsed net vip).code ≡ service_addr → (vip_parsed net vip).svc.port ≡ 0
  bare_port e = (parse_service-Framed net vip default_service).port_kept (λ p. absurd (omega arith))

  accepted :
      HasAddr (vip_parsed net vip).code
      → HasAddr (server_parsed net vip server).code
      → (vip_parsed net vip).svc.port ≢ 0
      → Accepted net vip server
  accepted (inl e) hs nz = absurd (nz (bare_port e))
  accepted (inr e) hs nz = record { vip_port = e; port_nonzero = nz; server_addr = addr_ne hs }
    where
      addr_ne : {code : ℕ} → HasAddr code → code ≢ service_none
      addr_ne h e = omega arith

  -- `set_weight` makes one call of `ipvs_update_dest` exactly when the VIP has an address and a port
  -- other than 0 and the server has an address. The call then carries the given weight, TCP, direct
  -- routing, the scheduler `wlc`, and the server's own port or else the port of the VIP, the answer is
  -- whether the call returned 0, and nothing is logged. In every other case there is no call, the answer
  -- is false and one error is logged.
  pub weight_outcome :
      (Accepted net vip server × Sent net vip server weight g (set_weight net vip server weight g))
      ⊎ ((¬ Accepted net vip server) × Refused (set_weight net vip server weight g) g)
  weight_outcome =
      elim (code_cases (vip_parsed net vip) (parse_service-Framed net vip default_service)) [
        | inl e ↦
            inr (λ (a : Accepted net vip server). omega (arith, a.vip_port, e), bad_vip-Refused e)
        | inr hv ↦
            elim (code_cases (server_parsed net vip server)
              (parse_service-Framed net server (vip_parsed net vip).svc)) [
                | inl e ↦
                    inr (λ (a : Accepted net vip server). a.server_addr e, bad_server-Refused hv e)
                | inr hs ↦ elim (Bool-cases ((vip_parsed net vip).svc.port == 0)) [
                  | inl z ↦
                      let zero : (vip_parsed net vip).svc.port ≡ 0 = ground arith in
                      inr (
                        λ (a : Accepted net vip server). a.port_nonzero zero,
                        port_zero-Refused hv hs zero,
                      )
                  | inr z ↦
                      let nz : (vip_parsed net vip).svc.port ≢ 0 = ground arith in
                      inl (accepted hv hs nz, sent hv hs nz)
                ]
              ]
      ]

-- At most one call of libipvs comes of one weight.
pub weight_calls :
    (net : Net) (vip server : Bytes) (weight : ℤ) (g : Logger)
    → length (set_weight net vip server weight g).calls ≤ 1
weight_calls net vip server weight g = elim (weight_outcome net vip server weight g) [
  | inl p ↦ rw p.1.one_call (omega arith)
  | inr q ↦ rw q.1.no_call (omega arith)
]
