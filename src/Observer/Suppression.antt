-- ===== src/Observer/Suppression.antt =====
-- An anomaly that could not be published.
use dev_ops_agent_swarm.Base.{ℕ, ◌+◌, ◌*◌, ◌≡◌, refl, true, false, ltb}
use dev_ops_agent_swarm.Base.Result.{runtime_error}
use dev_ops_agent_swarm.Messaging.Client.{World, done, fail, effects}
use dev_ops_agent_swarm.Messaging.Message.{second}
use dev_ops_agent_swarm.Observer.Anomaly.{AnomalyResult}
use dev_ops_agent_swarm.Observer.Deduplicator.{Deduplicator, is_duplicate}
use dev_ops_agent_swarm.Observer.Deduplicator.Window.{is_duplicate-is_duplicate}
use dev_ops_agent_swarm.Observer.State.{
  Observer, Texts, report, check_duplicate, publish_anomaly, publish_message,
}

module _ {Own : Type 0} where
  -- the world with another deduplicator
  abbrev pub deduplicated : Deduplicator → World (Observer Own) → World (Observer Own)
  deduplicated d w = record w { agent = record (w.agent) { deduplicator = d } }

  -- one more message was built
  abbrev pub built_one : World (Observer Own) → World (Observer Own)
  built_one w = record w { bus = record (w.bus) { built = w.bus.built + 1 } }

  abbrev pub back_online : World (Observer Own) → World (Observer Own)
  back_online w = record w { bus = record (w.bus) { connected = true } }

module _ {Own : Type 0} (t : Texts) where
  abbrev pub after_check : ℕ → AnomalyResult → World (Observer Own) → World (Observer Own)
  after_check now a w = deduplicated (is_duplicate t.digest t.show now a w.agent.deduplicator).0 w

  report_offline :
      (now : ℕ) (a : AnomalyResult) (w : World (Observer Own))
      → w.bus.connected ≡ false
      → (is_duplicate t.digest t.show now a w.agent.deduplicator).1 ≡ false
      → report t now a w ≡ fail runtime_error (built_one (after_check now a w))
  unfolding report check_duplicate publish_anomaly publish_message effects
  report_offline now a w down new = rw new (rw down refl)

  report_duplicate :
      (now : ℕ) (a : AnomalyResult) (w : World (Observer Own))
      → (is_duplicate t.digest t.show now a w.agent.deduplicator).1 ≡ true
      → report t now a w ≡ done tt (after_check now a w)
  unfolding report check_duplicate effects
  report_duplicate now a w old = rw old refl

  -- With one alert per window, an anomaly that is new while the bus is down: its report raises, but the
  -- deduplicator remembers it. When the bus is back and the anomaly is detected again before the
  -- window has passed, the report returns as for a duplicate: only the deduplicator changes, and
  -- no message is published by either report.
  pub report-suppressed :
      (now later : ℕ) (a : AnomalyResult) (w : World (Observer Own))
      → w.bus.connected ≡ false
      → w.agent.deduplicator.max_per_window ≡ 1
      → (is_duplicate t.digest t.show now a w.agent.deduplicator).1 ≡ false
      → ltb later (now + w.agent.deduplicator.window_seconds * second) ≡ true
      → let v = back_online (built_one (after_check now a w)) in
        (report t now a w ≡ fail runtime_error (built_one (after_check now a w)))
        × (report t later a v ≡ done tt (after_check later a v))
        × ((after_check later a v).bus.outbox ≡ w.bus.outbox)
  report-suppressed now later a w down one new soon = (
    report_offline now a w down new,
    report_duplicate later a (back_online (built_one (after_check now a w))) (
        rw
          (is_duplicate-is_duplicate t.digest t.show now later a a w.agent.deduplicator one new
            refl)
          soon),
    refl,
  )
