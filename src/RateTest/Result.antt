-- ===== src/RateTest/Result.antt =====
-- What the exit code of src/rate_test.cpp says.
use ipvshttpd.IpvsInterface.Life.{comes_up, init_outcome}
use ipvshttpd.IpvsInterface.Weight.Outcome.{weight_outcome}
use ipvshttpd.IpvsInterface.{new_interface, Interface, InitAnswers, init, set_weight}
use ipvshttpd.Libc.{atoi}
use ipvshttpd.Libipvs.{Service, Dest, Net}
use ipvshttpd.Logging.{Logger}
use ipvshttpd.Prelude.Bytes.{Bytes}
use ipvshttpd.Prelude.Int.{ℤ, pos, eq_ℤ}
use ipvshttpd.Prelude.{ℕ, true, false, [], ◌∷◌, ◌≡◌, sym, ◌∙◌, inl, inr, arith, Bool-cases}
use ipvshttpd.RateTest.{RateExit, weighed, rate_main}

-- libipvs came up, and the one call that was made carries the weight that was asked for and returned 0.
pub record Done (net : Net) (a : InitAnswers) (weight : ℤ) (x : RateExit) : Type 0 where
  pub up : comes_up a ≡ true
  pub svc : Service
  pub dest : Dest
  pub one_call : x.calls ≡ (svc, dest) ∷ []
  pub sent_weight : dest.weight ≡ weight
  pub accepted : eq_ℤ (net.update_dest svc dest) (pos 0) ≡ true

weighed-Done :
    (net : Net) (a : InitAnswers) (vip server : Bytes) (weight : ℤ) (i : Interface)
    → comes_up a ≡ true
    → (weighed i (set_weight net vip server weight i.logger)).code ≡ 0
    → Done net a weight (weighed i (set_weight net vip server weight i.logger))
weighed-Done net a vip server weight i up h =
    let good : (set_weight net vip server weight i.logger).success ≡ true = ground arith in
    elim (weight_outcome net vip server weight i.logger) [
      | inr q ↦ absurd (clash (sym good ∙ q.1.failed))
      | inl p ↦ record {
        up = up;
        svc = p.1.svc;
        dest = p.1.dest;
        one_call = p.1.one_call;
        sent_weight = p.1.weight_sent;
        accepted = sym p.1.answer ∙ good;
      }
    ]
  where
    clash : true ≡ false → ⊥
    clash q = cc

-- The program exits with 0 on three arguments only if libipvs came up and its one call, with the weight
-- read from the third argument, returned 0.
pub rate_main-Done :
    (net : Net) (a : InitAnswers) (progname vip server weight : Bytes) (g : Logger)
    → (rate_main net a progname (vip ∷ (server ∷ (weight ∷ []))) g).code ≡ 0
    → Done net a (atoi weight) (rate_main net a progname (vip ∷ (server ∷ (weight ∷ []))) g)
unfolding rate_main
rate_main-Done net a progname vip server weight g h =
    let i0 : Interface = new_interface g in
    elim (Bool-cases (init a i0).1) [
      | inl up ↦ simp up (
          weighed-Done net a vip server (atoi weight) (init a i0).0 (sym (init_outcome a i0).0 ∙ up)
            (simp up at h))
      | inr down ↦ absurd (clash (simp down at h))
    ]
  where
    clash : ◌≡◌ {A = ℕ} 1 0 → ⊥
    clash q = omega arith
