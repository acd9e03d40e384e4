-- ===== src/Diagnoser/Correlation/Severity.antt =====
-- How the severities of the incidents grow.
use dev_ops_agent_swarm.Base.{
  ℕ, ◌≤◌, ◌<◌, ◌≡◌, refl, subst, String, Bool, true, false, List, [], ◌∷◌, Option, none, some, ◌⊎◌,
  inl, inr, All, arith, Bool-cases, Option-cases, ltb, ltb→lt, Dict, lookup, insert, lookup-insert,
  lookup-insert_self, eq_iff, ◌==◌, if◌then◌else◌,
}
use dev_ops_agent_swarm.Base.Result.{ok, >>=-eq-ok, ok-injective}
use dev_ops_agent_swarm.Base.Value.{Value, Fields, str, get_or}
use dev_ops_agent_swarm.Diagnoser.Correlation.{
  Tables, initial_row, is_active, newer_of, latest, find_or_create_incident, severity_val, upgraded,
  correlate,
}
use dev_ops_agent_swarm.Orchestrator.State.{Incident, Anomaly}

-- each row is the one that its id finds
abbrev pub Stored : Dict Incident → Type 0
Stored incidents = All (λ e. lookup e.1.id incidents ≡ some e.1) incidents

module _ (lower : String → String) where
  -- the severity of a row stays, or its value grows; the status stays
  abbrev pub Raised : Incident → Incident → Type 0
  Raised old new =
      (new.status ≡ old.status)
      × ((new.severity ≡ old.severity)
          ⊎ ((a : ℕ) × (b : ℕ) × (severity_val lower old.severity ≡ ok a)
              × (severity_val lower new.severity ≡ ok b)
              × (a < b)))

  -- a row is at least as severe as a report
  abbrev pub Covers : Value → Incident → Type 0
  Covers severity row =
      (a : ℕ) × (b : ℕ) × (severity_val lower severity ≡ ok a)
      × (severity_val lower row.severity ≡ ok b)
      × (a ≤ b)

  upgraded-Raised :
      (now : ℕ) (severity : Value) (inc : Incident) {row : Incident}
      → upgraded lower now severity inc ≡ ok row
      → (row.id ≡ inc.id) × Raised inc row × Covers severity row
  unfolding upgraded
  upgraded-Raised now severity inc {row} e =
      let (reported, e1, r1) = >>=-eq-ok (severity_val lower severity) _ e in
      let (known, e2, r2) = >>=-eq-ok (severity_val lower inc.severity) _ r1 in
      subst (λ r. (r.id ≡ inc.id) × Raised inc r × Covers severity r) (ok-injective r2)
        (branch reported known e1 e2 (Bool-cases (ltb known reported)))
    where
      branch :
          (reported known : ℕ)
          → severity_val lower severity ≡ ok reported
          → severity_val lower inc.severity ≡ ok known
          → (ltb known reported ≡ true) ⊎ (ltb known reported ≡ false)
          → let r =
              (if ltb known reported
                then record inc { severity = severity; updated_at = now }
                else inc) in
            (r.id ≡ inc.id) × Raised inc r × Covers severity r
      branch reported known e1 e2 (inl more) = rw more (
        refl,
        (refl, inr (known, reported, e2, e1, ltb→lt known reported more)),
        (reported, reported, e1, e1, omega arith),
      )
      branch reported known e1 e2 (inr less) =
          rw less (refl, (refl, inl refl), (reported, known, e1, e2, ground arith))

pub latest-All :
    (P : Incident → Type 0) (now : ℕ) (incidents : Dict Incident) {inc : Incident}
    → All (λ e. P e.1) incidents
    → latest now incidents ≡ some inc
    → P inc
unfolding latest
latest-All P now [] h e = cc
latest-All P now ((k, row) ∷ rest) {inc} (p, ps) e = elim (Bool-cases (is_active now row)) [
  | inl active ↦
      newer (latest now rest) (λ x found. latest-All P now rest ps found) (rw active at e)
  | inr passive ↦ latest-All P now rest ps (rw passive at e)
]
  where
    newer :
        (later : Option Incident)
        → ((x : Incident) → later ≡ some x → P x)
        → some (newer_of row later) ≡ some inc
        → P inc
    newer none f e = let same : row ≡ inc = cc in subst P same p
    newer (some y) f e =
        let same : newer_of row (some y) ≡ inc = cc in
        subst P same (choice (ltb row.updated_at y.updated_at) (f y refl))
      where
        choice : (b : Bool) → P y → P (if b then y else row)
        choice true q = q
        choice false q = p

-- what the tables keep of the rows of a table
module _ (lower : String → String) where
  abbrev pub AllRaised : Dict Incident → Dict Incident → Type 0
  AllRaised before after =
      (key : String) (old : Incident)
      → lookup key before ≡ some old
      → (new : Incident) × (lookup key after ≡ some new) × Raised lower old new

  Raised-refl : (row : Incident) → Raised lower row row
  Raised-refl row = (refl, inl refl)

  -- the row of an incident that was found
  insert-AllRaised :
      (incidents : Dict Incident) (inc row : Incident)
      → lookup inc.id incidents ≡ some inc
      → row.id ≡ inc.id
      → Raised lower inc row
      → AllRaised incidents (insert row.id row incidents)
  insert-AllRaised incidents inc row there same raised key old found =
      elim (Bool-cases (row.id == key)) [
        | inl hit ↦
            let one : inc ≡ old = ground (arith, eq_iff row.id key) in
            (
              row,
              rw (lookup-insert row.id key row incidents, hit) refl,
              subst (λ o. Raised lower o row) one raised,
            )
        | inr miss ↦ (old, rw (lookup-insert row.id key row incidents, miss) found, Raised-refl old)
      ]

  -- the row of an incident that was created
  insert-AllRaised_new :
      (incidents : Dict Incident) (id : String) (inc row : Incident)
      → lookup id incidents ≡ none
      → row.id ≡ id
      → AllRaised incidents (insert row.id row (insert id inc incidents))
  insert-AllRaised_new incidents id inc row fresh same key old found =
      elim (Bool-cases (id == key)) [
        | inl hit ↦ absurd (ground (arith, eq_iff id key))
        | inr miss ↦ (
          old,
          rw
              (
                lookup-insert row.id key row (insert id inc incidents),
                same,
                miss,
                lookup-insert id key inc incidents,
                miss,
              )
              found,
          Raised-refl old,
        )
      ]

  -- A correlation that returns, on tables whose rows stand under their ids and with an unused id
  -- for a new row: the incident that it gives is in the new tables and at least as severe as the
  -- anomaly, and each row of the old tables is still there, with its status, and with its severity or a
  -- graver one.
  pub correlate-Raised :
      (id : String) (now : ℕ) (payload : Fields) (t : Tables) {inc : Incident} {created : Bool}
      {t' : Tables}
      → Stored t.incidents
      → lookup id t.incidents ≡ none
      → correlate lower id now payload t ≡ ok ((inc, created), t')
      → (lookup inc.id t'.incidents ≡ some inc)
        × Covers lower (get_or "severity" (str "medium") payload) inc
        × AllRaised t.incidents t'.incidents
  unfolding correlate find_or_create_incident initial_row
  correlate-Raised id now payload t {inc} {created} {t'} stored fresh e =
      elim (Option-cases (latest now t.incidents)) [
        | inl nothing ↦
            let (row, e1, r1) =
              >>=-eq-ok (upgraded lower now severity (initial_row id now)) _ (rw nothing at e) in
            let (same, _, covers) = upgraded-Raised lower now severity (initial_row id now) e1 in
            result row _ _ covers
              (insert-AllRaised_new t.incidents id (initial_row id now) row fresh same)
              (ok-injective r1)
        | inr (found, some_found) ↦
            let (row, e1, r1) =
              >>=-eq-ok (upgraded lower now severity found) _ (rw some_found at e) in
            let (same, raised, covers) = upgraded-Raised lower now severity found e1 in
            let there =
              latest-All (λ x. lookup x.id t.incidents ≡ some x) now t.incidents stored
                some_found in
            result row _ _ covers (insert-AllRaised t.incidents found row there same raised)
              (ok-injective r1)
      ]
    where
      severity : Value
      severity = get_or "severity" (str "medium") payload

      result :
          (row : Incident) (new : Bool) (incidents : Dict Incident) {anomalies : List Anomaly}
          → Covers lower severity row
          → AllRaised t.incidents (insert row.id row incidents)
          → ◌≡◌ {A = (Incident × Bool) × Tables}
              (
                (row, new),
                record { incidents = insert row.id row incidents; anomalies = anomalies },
              )
              ((inc, created), t')
          → (lookup inc.id t'.incidents ≡ some inc)
            × Covers lower severity inc
            × AllRaised t.incidents t'.incidents
      result row new incidents covers all same =
          subst
            (λ r.
              (lookup r.0.0.id r.1.incidents ≡ some r.0.0)
              × Covers lower severity r.0.0
              × AllRaised t.incidents r.1.incidents)
            same (lookup-insert_self row.id row incidents, covers, all)
