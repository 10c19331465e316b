-- ===== src/Cmd/Response/Failures.antt =====
-- What cmd/response.go does after a command that failed.
use open_gfw_next.Base.{
  ℕ, ◌+◌, ◌<◌, ◌≡◌, ◌≢◌, refl, ap, ◌∙◌, Option, none, some, List, [], Bytes, arith,
}
use open_gfw_next.Utils.Strings.Laws.{same_text_refl}
use open_gfw_next.Cmd.Response.{Config, Sink, Alert}
use open_gfw_next.Cmd.Response.Handle.{
  last_at, is_cooling, Answer, cooling, command_failed, candidate_mac, check_mac, response_mac,
  install, conclude, handle,
}
use open_gfw_next.Cmd.Response.Cooldown.{Event, handled}

module _ (parse_mac : Bytes → Option Bytes) where
  check_mac-ne-failed : (mac : Bytes) → (check_mac parse_mac mac).1 ≢ some command_failed
  unfolding check_mac
  check_mac-ne-failed mac = ground arith

  response_mac-ne-failed :
      (c : Config) (e : Alert) → (response_mac parse_mac c e).1 ≢ some command_failed
  unfolding response_mac
  response_mac-ne-failed c e = check_mac-ne-failed (candidate_mac parse_mac c e)

conclude-config :
    (s : Sink) (r : Bytes × Option Answer) (now : ℕ) (done : List (List Bytes) × Answer)
    → (conclude s r now done).sink.config ≡ s.config
unfolding conclude
conclude-config s (mac, some a) now done = refl
conclude-config s (mac, none) now done = ground arith

conclude-failed :
    (s : Sink) (r : Bytes × Option Answer) (now now' : ℕ) (done done' : List (List Bytes) × Answer)
    → r.1 ≢ some command_failed
    → (conclude s r now done).answer ≡ command_failed
    → now' < now + s.config.cooldown
    → conclude (conclude s r now done).sink r now' done'
      ≡ record { sink = (conclude s r now done).sink; commands = []; answer = cooling }
unfolding conclude is_cooling last_at
conclude-failed s (mac, some a) now now' done done' n h k = absurd (n (ap some h))
conclude-failed s (mac, none) now now' done done' n h k = ground (arith, h, k, same_text_refl mac)

module _ (parse_mac : Bytes → Option Bytes) where
  -- A command that fails starts the cooldown all the same: until it has passed, an event about the same
  -- address is passed over without a command and without an error, so that the quarantine is not tried
  -- again.
  pub handle_failed :
      (s : Sink) (e e' : Event)
      → (handled parse_mac s e).answer ≡ command_failed
      → response_mac parse_mac s.config e'.alert ≡ response_mac parse_mac s.config e.alert
      → e'.time < e.time + s.config.cooldown
      → handled parse_mac (handled parse_mac s e).sink e'
        ≡ record { sink = (handled parse_mac s e).sink; commands = []; answer = cooling }
  unfolding handle
  handle_failed s e e' h same soon =
      let r = response_mac parse_mac s.config e.alert in
      let sink = (handled parse_mac s e).sink in
      let kept = conclude-config s r e.time (install s.config e.runs r.0) in
      ap (λ (x : Bytes × Option Answer). conclude sink x e'.time (install sink.config e'.runs x.0))
        (ap (λ c. response_mac parse_mac c e'.alert) kept ∙ same)
      ∙ conclude-failed s r e.time e'.time _ _ (response_mac-ne-failed parse_mac s.config e.alert) h
          soon
