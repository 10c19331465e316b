-- ===== src/Analyzer/Openvpn/Total.antt =====
-- The machines of analyzer/udp/openvpn.go: their `Run` returns, whatever the parser of packets does.
use open_gfw_next.Base.{
  ℕ, zero, suc, ◌≤◌, ◌<◌, ◌≡◌, ◌≢◌, ap, false, some, List, [], ◌∷◌, arith, inl, inr, Option-cases,
  drop,
}
use open_gfw_next.Utils.Lsm.{reset}
use open_gfw_next.Utils.Lsm.Total.{IsLinear, total, ahead, run_total}
use open_gfw_next.Utils.Lsm.Steps.{Fixed, run-steps}
use open_gfw_next.Analyzer.Openvpn.{
  Answer, Stream, Shared, Fed, ReqStep, ctl_hard_reset_client, req, RespStep, ctl_hard_reset_server,
  resp, req_steps, resp_steps, exec_req, exec_resp, feed_req, feed_resp, fuel,
}

abbrev one : {K : Type 0} → K → ℕ
one k = 1

-- both machines have their two steps
pub record HasSteps {T : Type 0} (s : Stream T) : Type 0 where
  pub req_has : s.req_lsm.steps ≡ req_steps
  pub resp_has : s.resp_lsm.steps ≡ resp_steps

module _ {T : Type 0} (p q : T → T × Answer) where
  exec_req-appends : Fixed (exec_req p q)
  unfolding exec_req
  exec_req-appends ctl_hard_reset_client s = ground arith
  exec_req-appends req s = ground arith

  exec_resp-appends : Fixed (exec_resp p q)
  unfolding exec_resp
  exec_resp-appends ctl_hard_reset_server s = ground arith
  exec_resp-appends resp s = ground arith

  exec_req-ne-reset : (k : ReqStep) (s : Shared T) → (exec_req p q k s).action ≢ reset
  unfolding exec_req
  exec_req-ne-reset ctl_hard_reset_client s = ground arith
  exec_req-ne-reset req s = ground arith

  exec_resp-ne-reset : (k : RespStep) (s : Shared T) → (exec_resp p q k s).action ≢ reset
  unfolding exec_resp
  exec_resp-ne-reset ctl_hard_reset_server s = ground arith
  exec_resp-ne-reset resp s = ground arith

  exec_req-IsLinear : IsLinear (exec_req p q) one
  exec_req-IsLinear = record {
    no_reset = exec_req-ne-reset;
    lighter = λ k s. rw (exec_req-appends k s) (omega arith);
  }

  exec_resp-IsLinear : IsLinear (exec_resp p q) one
  exec_resp-IsLinear = record {
    no_reset = exec_resp-ne-reset;
    lighter = λ k s. rw (exec_resp-appends k s) (omega arith);
  }

  total-drop-le : {K : Type 0} (ks : List K) (i : ℕ) → total one (drop i ks) ≤ total one ks
  total-drop-le ks zero = omega arith
  total-drop-le [] (suc i) = omega arith
  total-drop-le (k ∷ ks) (suc i) = omega (arith, total-drop-le ks i)

  -- `Feed` in either direction returns, and leaves both machines their steps.
  pub feed_req_total :
      (s : Stream T) → HasSteps s → (r : Fed T) × (feed_req p q s ≡ some r) × HasSteps r.stream
  unfolding feed_req
  feed_req_total s h =
      let sh : Shared T = record (s.shared) { req_updated = false } in
      let two = ap (total one) h.req_has in
      let few : ahead one s.req_lsm < fuel =
        omega (arith, total-drop-le s.req_lsm.steps s.req_lsm.index, two) in
      let (ran, e) = run_total (exec_req p q) one exec_req-IsLinear fuel s.req_lsm sh few in
      let kept = run-steps (exec_req p q) exec_req-appends fuel s.req_lsm sh ran e in
      elim (Option-cases (feed_req p q s)) [
        | inl absent ↦ absurd (ground (arith, e))
        | inr (r, f) ↦ (r, f, ground (arith, e, kept))
      ]

  pub feed_resp_total :
      (s : Stream T) → HasSteps s → (r : Fed T) × (feed_resp p q s ≡ some r) × HasSteps r.stream
  unfolding feed_resp
  feed_resp_total s h =
      let sh : Shared T = record (s.shared) { resp_updated = false } in
      let two = ap (total one) h.resp_has in
      let few : ahead one s.resp_lsm < fuel =
        omega (arith, total-drop-le s.resp_lsm.steps s.resp_lsm.index, two) in
      let (ran, e) = run_total (exec_resp p q) one exec_resp-IsLinear fuel s.resp_lsm sh few in
      let kept = run-steps (exec_resp p q) exec_resp-appends fuel s.resp_lsm sh ran e in
      elim (Option-cases (feed_resp p q s)) [
        | inl absent ↦ absurd (ground (arith, e))
        | inr (r, f) ↦ (r, f, ground (arith, e, kept))
      ]
