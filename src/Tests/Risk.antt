-- ===== src/Tests/Risk.antt =====
-- The risk aggregator at concrete inputs: window 10, alerts from a weight of 2.
use open_gfw_next.Base.{ℕ, ◌≡◌, refl, true, false, none, String, List, [], ◌∷◌, ◌++◌, arith, length}
use open_gfw_next.Engine.Props.{lookup}
use open_gfw_next.Cmd.Risk.{
  has_id, Hit, Event, Bucket, Settings, bucket, put, add_hit, prune_loop, rule_weight,
  risk_aggregation_key,
}
use open_gfw_next.Cmd.Risk.Add.{bucket_count, send, add}
use open_gfw_next.Cmd.Risk.History.{Call, adding, counting, run, history, expected, run-sends}

abbrev settings : Settings
settings = record {
  window = 10;
  alert_threshold = 2;
  response_threshold = 0;
  weights = none;
  has_metrics = false;
  has_alert = true;
  has_response = false;
}

abbrev same : String → String
same mac = mac

abbrev itoa : ℕ → String
itoa n = "2"

abbrev event : Event
event = record {
  kind = "";
  time = 0;
  rule = "scan";
  severity = "low";
  id = 7;
  ip = [];
  meta = ("vm.id", "a") ∷ [];
  risk = none;
}

abbrev calls : List Call
calls = adding 1 event ∷ (counting 2 ∷ [])

run-sends_example :
    (add same itoa settings 5 event (run same itoa settings [] calls)).1
    ≡ expected same itoa settings (history same itoa settings "vm.id" "a" [] calls) 5 event
unfolding risk_aggregation_key lookup
run-sends_example =
    run-sends same itoa settings calls 5 event (ground arith, (ground arith, 0)) (ground arith)

abbrev hit : Hit
hit = record { time = 1; rule = "scan"; severity = "low"; id = 7; weight = 1 }

abbrev held : Bucket
held = record {
  key = "a";
  key_type = "vm.id";
  hits = hit ∷ [];
  score = 1;
  alert_sent = false;
  response_sent = false;
}

-- two hits in the window alert once; the third hit does not, and a hit after the window does not
sends : ℕ → List Call → ℕ
sends now cs = length (add same itoa settings now event (run same itoa settings [] cs)).1

alerts_once : sends 5 calls ≡ 1
unfolding sends add bucket put add_hit prune_loop rule_weight risk_aggregation_key lookup send
    bucket_count has_id
alerts_once = refl

alerts_not_twice : sends 6 (calls ++ (adding 5 event ∷ [])) ≡ 0
unfolding sends add bucket put add_hit prune_loop rule_weight risk_aggregation_key lookup send
    bucket_count has_id
alerts_not_twice = refl

too_late : sends 20 calls ≡ 0
unfolding sends add bucket put add_hit prune_loop rule_weight risk_aggregation_key lookup send
    bucket_count has_id
too_late = refl
