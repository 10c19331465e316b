-- ===== src/Cmd/Risk/Add.antt =====
-- cmd/risk.go: Add and BucketCount on all buckets, and the events that Add sends. The Go map of
-- buckets is a list, whose length is that of the map since ids are put once.
use open_gfw_next.Base.{
  ℕ, Bool, ◌&&◌, ◌||◌, some, String, List, [], ◌∷◌, ◌++◌, ltb, leb, ◌==◌, str_eq, if◌then◌else◌,
  length,
}
use open_gfw_next.Engine.Props.{insert}
use open_gfw_next.Cmd.Risk.{
  Hit, Event, Bucket, Settings, Output, counted, emitted, quarantined, rule_weight,
  risk_aggregation_key, prune, bucket, put, add_hit, duration_seconds,
}

-- `if`, for a list of calls
abbrev pub only_if : Bool → Output → List Output
only_if b o = if b then o ∷ [] else []

abbrev pub severity_of : ℕ → ℕ → String
severity_of threshold score = if ltb 0 threshold && leb threshold score then "high" else "medium"

-- newRiskEvent
unfoldable pub new_risk_event : (ℕ → String) → Settings → Event → Bucket → Event
unfolding duration_seconds
new_risk_event itoa c base b = record base {
  kind = "risk";
  rule = "risk";
  severity = severity_of c.response_threshold b.score;
  risk = some (record {
    key = b.key;
    key_type = b.key_type;
    score = b.score;
    window_seconds = duration_seconds c.window;
    alert_threshold = c.alert_threshold;
    response_threshold = c.response_threshold;
    hits = b.hits;
  });
  meta =
      insert "risk.score" (itoa b.score)
        (insert "risk.key_type" b.key_type (insert "risk.key" b.key base.meta));
}

-- what `Add` calls after it has left the mutex
unfoldable pub send : Settings → Bool → Bool → Event → List Output
send c alert response e =
    only_if ((alert || response) && c.has_metrics) (counted e.severity)
    ++ (only_if (alert && c.has_alert) (emitted e)
        ++ only_if (response && c.has_response) (quarantined e))

-- the hit that `Add` records
abbrev pub hit_of : Settings → ℕ → Event → Hit
hit_of c now e = record {
  time = now;
  rule = e.rule;
  severity = e.severity;
  id = e.id;
  weight = rule_weight c e.rule;
}

module _ (normalize_mac : String → String) (itoa : ℕ → String) (c : Settings) where
  -- `Add` of an event that has the key and a weight
  unfoldable pub add_keyed : String × String → ℕ → Event → List Bucket → List Bucket × List Output
  add_keyed k now e bs =
      let (b, alert, response) = add_hit c now (hit_of c now e) (bucket k.0 k.1 bs) in
      (put b bs, send c alert response (new_risk_event itoa c (record e { time = now }) b))

  -- Add
  unfoldable pub add : ℕ → Event → List Bucket → List Bucket × List Output
  unfolding add_keyed
  add now e bs =
      let k = risk_aggregation_key normalize_mac e in
      if str_eq k.1 "" || (rule_weight c e.rule == 0) then (bs, []) else add_keyed k now e bs

module _ (c : Settings) where
  -- the loop of `BucketCount`
  unfoldable pub prune_all : ℕ → List Bucket → List Bucket
  prune_all now [] = []
  prune_all now (b ∷ bs) =
      let rest = prune_all now bs in
      let b' = prune c.window b now in if length b'.hits == 0 then rest else b' ∷ rest

  -- BucketCount
  unfoldable pub bucket_count : ℕ → List Bucket → List Bucket × ℕ
  unfolding prune_all
  bucket_count now bs = (prune_all now bs, length (prune_all now bs))
