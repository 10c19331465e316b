-- ===== src/Cmd/Risk.antt =====
-- cmd/risk.go. Times and durations are nanoseconds. A negative weight, threshold or window acts as
-- zero in every test of the source and is modelled as zero; scores stay below 2^63. The mutex makes
-- each call one step, and the clock's reading comes with the call. A bucket's id is its key type and
-- key, which the separator keeps apart. `normalize_mac` is normalizeMAC of cmd/identity.go, and
-- `itoa` is strconv.Itoa. Of an event, the fields that risk.go only copies are left out.
pub mod Window
pub mod Add
pub mod Alerts
pub mod Store
pub mod Follows
pub mod History
use open_gfw_next.Base.{
  ℕ, ◌+◌, ◌/◌, Bool, true, false, not, ◌&&◌, Option, none, some, String, List, [], ◌∷◌, ◌++◌, ltb,
  leb, ◌==◌, str_eq, if◌then◌else◌,
}
use open_gfw_next.Engine.Props.{lookup}

-- riskHit
pub record Hit : Type 0 where
  pub time : ℕ
  pub rule : String
  pub severity : String
  pub id : ℕ
  pub weight : ℕ

-- riskDetail
pub record Detail : Type 0 where
  pub key : String
  pub key_type : String
  pub score : ℕ
  pub window_seconds : ℕ
  pub alert_threshold : ℕ
  pub response_threshold : ℕ
  pub hits : List Hit

-- alertEvent; a nil map is the empty list
pub record Event : Type 0 where
  pub kind : String
  pub time : ℕ
  pub rule : String
  pub severity : String
  pub id : ℕ
  pub ip : List (String × String)
  pub meta : List (String × String)
  pub risk : Option Detail

-- riskBucket
pub record Bucket : Type 0 where
  pub key : String
  pub key_type : String
  pub hits : List Hit
  pub score : ℕ
  pub alert_sent : Bool
  pub response_sent : Bool

-- cliConfigRisk
pub record Config : Type 0 where
  pub enabled : Bool
  pub window : ℕ
  pub alert_threshold : ℕ
  pub response_threshold : ℕ
  pub weights : Option (List (String × ℕ))

-- riskAggregator, less the buckets: its settings, and which of its outputs are not nil
pub record Settings : Type 0 where
  pub window : ℕ
  pub alert_threshold : ℕ
  pub response_threshold : ℕ
  pub weights : Option (List (String × ℕ))
  pub has_metrics : Bool
  pub has_alert : Bool
  pub has_response : Bool

-- calls of IncRiskEvent, Emit and Quarantine
pub data Output : Type 0 where
  counted : (severity : String) → Output
  emitted : (event : Event) → Output
  quarantined : (event : Event) → Output

-- the results of newRiskAggregator: nil, an error, or an aggregator without buckets
pub data Created : Type 0 where
  disabled thresholds_missing : Created
  aggregator : (settings : Settings) → Created

-- defaultRiskWindow
abbrev pub default_risk_window : ℕ
default_risk_window = 600000000000

-- newRiskAggregator; the metrics are set by the caller
unfoldable pub new_risk_aggregator : Config → Bool → Bool → Bool → Created
new_risk_aggregator c metrics alert response =
    if not c.enabled
    then disabled
    else (if c.alert_threshold == 0 && c.response_threshold == 0
        then thresholds_missing
        else aggregator (record {
          window = if c.window == 0 then default_risk_window else c.window;
          alert_threshold = c.alert_threshold;
          response_threshold = c.response_threshold;
          weights = c.weights;
          has_metrics = metrics;
          has_alert = alert;
          has_response = response;
        }))

-- m[k] of a map to strings
abbrev pub text_or_empty : Option String → String
text_or_empty none = ""
text_or_empty (some v) = v

abbrev weight_or_one : Option ℕ → ℕ
weight_or_one none = 1
weight_or_one (some w) = w

-- ruleWeight
unfoldable pub rule_weight : Settings → String → ℕ
rule_weight c rule = elim c.weights [ none ↦ 1 | some m ↦ weight_or_one (lookup rule m) ]

-- riskAggregationKey
unfoldable pub risk_aggregation_key : (String → String) → Event → String × String
risk_aggregation_key normalize_mac e =
    let vm = text_or_empty (lookup "vm.id" e.meta) in
    let mac = normalize_mac (text_or_empty (lookup "vm.mac" e.meta)) in
    let src = text_or_empty (lookup "src" e.ip) in
    if not (str_eq vm "")
    then ("vm.id", vm)
    else (if not (str_eq mac "")
        then ("vm.mac", mac)
        else (if not (str_eq src "") && not (str_eq src "<nil>")
            then ("ip.src", src)
            else ("", "")))

-- the loop of `prune`: the hits kept and their score
unfoldable pub prune_loop : ℕ → ℕ → List Hit → List Hit × ℕ
prune_loop window now [] = ([], 0)
prune_loop window now (h ∷ hs) =
    let rest = prune_loop window now hs in
    if ltb (h.time + window) now then rest else (h ∷ rest.0, h.weight + rest.1)

-- prune
unfoldable pub prune : ℕ → Bucket → ℕ → Bucket
prune window b now =
    let (kept, score) = prune_loop window now b.hits in record b { hits = kept; score = score }

-- the buckets, by id
unfoldable pub has_id : String → String → Bucket → Bool
has_id key_type key b = str_eq b.key_type key_type && str_eq b.key key

abbrev pub fresh : String → String → Bucket
fresh key_type key = record {
  key = key;
  key_type = key_type;
  hits = [];
  score = 0;
  alert_sent = false;
  response_sent = false;
}

-- bucket; a new bucket is stored by `put`
unfoldable pub bucket : String → String → List Bucket → Bucket
bucket key_type key [] = fresh key_type key
bucket key_type key (b ∷ bs) = if has_id key_type key b then b else bucket key_type key bs

unfoldable pub put : Bucket → List Bucket → List Bucket
put b [] = b ∷ []
put b (c ∷ bs) = if has_id b.key_type b.key c then b ∷ bs else c ∷ put b bs

-- the flags that a score below the threshold clears
unfoldable pub rearm : Settings → Bucket → Bucket
rearm c b = record b {
  alert_sent =
      if ltb 0 c.alert_threshold && ltb b.score c.alert_threshold then false else b.alert_sent;
  response_sent =
      if ltb 0 c.response_threshold && ltb b.score c.response_threshold
      then false
      else b.response_sent;
}

abbrev pub crossed : ℕ → ℕ → Bool → Bool
crossed threshold score sent = ltb 0 threshold && leb threshold score && not sent

-- what `Add` does under the mutex to the bucket, with alertCrossed and responseCrossed
unfoldable pub add_hit : Settings → ℕ → Hit → Bucket → Bucket × Bool × Bool
unfolding prune rearm
add_hit c now hit b =
    let ready = rearm c (prune c.window b now) in
    let score = ready.score + hit.weight in
    let alert = crossed c.alert_threshold score ready.alert_sent in
    let response = crossed c.response_threshold score ready.response_sent in
    let b' : Bucket = record ready {
      hits = ready.hits ++ (hit ∷ []);
      score = score;
      alert_sent = if alert then true else ready.alert_sent;
      response_sent = if response then true else ready.response_sent;
    } in
    (b', alert, response)

-- durationSeconds of cmd/response.go
unfoldable pub duration_seconds : ℕ → ℕ
duration_seconds d = if d == 0 then 0 else (if d / 1000000000 == 0 then 1 else d / 1000000000)
