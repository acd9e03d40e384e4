-- ===== src/Learner/Optimizer/Tally.antt =====
-- The statistics of a runbook against the reports about it.
use dev_ops_agent_swarm.Base.{
  ℕ, ◌+◌, ◌≡◌, refl, ap, ◌∙◌, sym, String, true, false, List, [], ◌∷◌, length, filter, Option, none,
  some, Dict, lookup, lookup-insert, ltb, arith, ◌==◌, eq_iff, Bool-cases, ◌⊎◌, inl, inr,
}
use dev_ops_agent_swarm.Base.Int.{ℤ, pos, ◌+ℤ◌, +ℤ_assoc, +ℤ_comm, +ℤ_zero}
use dev_ops_agent_swarm.Base.Value.{is_text}
use dev_ops_agent_swarm.Learner.Optimizer.{
  RunbookStats, Report, success_delta, upserted, record_report, Performance, shown, get_stats,
}

-- reports that are recorded one after the other
abbrev pub record_all : List Report → Dict RunbookStats → Dict RunbookStats
record_all [] table = table
record_all (r ∷ rs) table = record_all rs (record_report r table)

abbrev pub reports_on : String → List Report → List Report
reports_on id = filter (λ r. r.runbook_id == id)

abbrev pub succeeded : List Report → List Report
succeeded = filter (λ r. is_text "success" r.outcome)

abbrev pub mttr_sum : List Report → ℤ
mttr_sum [] = pos 0
mttr_sum (r ∷ rs) = r.mttr_seconds +ℤ mttr_sum rs

abbrev pub time_of_last : String → List Report → String
time_of_last t [] = t
time_of_last t (r ∷ rs) = time_of_last r.at rs

-- the row of a runbook after more reports about it
abbrev continued : RunbookStats → List Report → RunbookStats
continued row rs = record {
  total_attempts = row.total_attempts + length rs;
  successes = row.successes + length (succeeded rs);
  total_mttr_sec = row.total_mttr_sec +ℤ mttr_sum rs;
  last_updated_at = time_of_last row.last_updated_at rs;
}

abbrev described : Option RunbookStats → List Report → Option RunbookStats
described none [] = none
described none (r ∷ rs) = some (continued (upserted r none) rs)
described (some row) rs = some (continued row rs)

+ℤ_zero_right : (a : ℤ) → a +ℤ pos 0 ≡ a
+ℤ_zero_right a = +ℤ_comm a (pos 0) ∙ +ℤ_zero a

described_nothing : (o : Option RunbookStats) → described o [] ≡ o
described_nothing none = refl
described_nothing (some row) = ground (arith, +ℤ_zero_right row.total_mttr_sec)

described-upserted :
    (o : Option RunbookStats) (r : Report) (rs : List Report)
    → described (some (upserted r o)) rs ≡ described o (r ∷ rs)
described-upserted none r rs = refl
described-upserted (some row) r rs =
    ground (arith, +ℤ_assoc row.total_mttr_sec r.mttr_seconds (mttr_sum rs))

lookup-record_all :
    (id : String) (rs : List Report) (table : Dict RunbookStats)
    → lookup id (record_all rs table) ≡ described (lookup id table) (reports_on id rs)
unfolding record_report
lookup-record_all id [] table = sym (described_nothing (lookup id table))
lookup-record_all id (r ∷ rs) table =
    lookup-record_all id rs (record_report r table) ∙ step (Bool-cases (r.runbook_id == id))
  where
    step :
        (r.runbook_id == id ≡ true) ⊎ (r.runbook_id == id ≡ false)
        → described (lookup id (record_report r table)) (reports_on id rs)
          ≡ described (lookup id table) (reports_on id (r ∷ rs))
    step (inl same) =
        let name : r.runbook_id ≡ id = (eq_iff r.runbook_id id).0 same in
        let row : lookup id (record_report r table)
            ≡ some (upserted r (lookup r.runbook_id table)) =
          rw (lookup-insert r.runbook_id id (upserted r (lookup r.runbook_id table)) table, same)
            refl in
        let path : lookup id (record_report r table) ≡ some (upserted r (lookup id table)) =
          row ∙ ap (λ k. some (upserted r (lookup k table))) name in
        rw (path, same) (described-upserted (lookup id table) r (reports_on id rs))
    step (inr other) =
        rw (lookup-insert r.runbook_id id (upserted r (lookup r.runbook_id table)) table, other)
          refl

module _ {Float : Type 0} (zero : Float) (rounded : ℕ → ℕ → Float) (average : ℤ → ℕ → ℤ) where
  -- the statistics that reports give
  abbrev pub performance_of : String → List Report → Option (Performance Float)
  performance_of id [] = none
  performance_of id (r ∷ rs) = some (record {
    runbook_id = id;
    total_attempts = length (r ∷ rs);
    successes = length (succeeded (r ∷ rs));
    success_rate = rounded (length (succeeded (r ∷ rs))) (length (r ∷ rs));
    avg_mttr_seconds = average (mttr_sum (r ∷ rs)) (length (r ∷ rs));
    last_updated_at = time_of_last r.at rs;
  })

  shown-described :
      (id : String) (rs : List Report)
      → shown zero rounded average id (described none rs) ≡ performance_of id rs
  shown-described id [] = refl
  shown-described id (r ∷ rs) =
      let total : 1 + length rs ≡ length (r ∷ rs) = omega arith in
      let good : success_delta r + length (succeeded rs) ≡ length (succeeded (r ∷ rs)) =
        ground arith in
      let some_attempt : ltb 0 (length (r ∷ rs)) ≡ true = ground arith in
      rw (total, good, some_attempt) refl

  -- After any reports to an empty table, the statistics of a runbook are those of the reports about
  -- it: their number, the successes among them, the rate, the average of their times to recovery,
  -- and the time of the last. A runbook without reports has none.
  pub get_stats-record_all :
      (id : String) (reports : List Report)
      → get_stats zero rounded average id (record_all reports [])
        ≡ performance_of id (reports_on id reports)
  unfolding get_stats lookup
  get_stats-record_all id reports =
      rw (lookup-record_all id reports []) (shown-described id (reports_on id reports))
