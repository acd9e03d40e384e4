-- ===== src/Learner/Recognizer/Counts.antt =====
-- What the loop over the hits counts for each runbook.
use dev_ops_agent_swarm.Base.{
  ◌+◌, ◌≡◌, refl, sym, ap, ◌∙◌, String, true, List, [], ◌∷◌, filter, length, In, Option, none, some,
  Dict, lookup, lookup-insert, In-lookup, In-filter, Distinct, Distinct-insert, arith, ltb, ◌==◌,
  eq_iff, Bool-cases, inl, inr,
}
use dev_ops_agent_swarm.Base.Int.{ℤ, pos, ◌+ℤ◌, +ℤ_assoc, +ℤ_comm, +ℤ_zero}
use dev_ops_agent_swarm.Learner.Recognizer.{Tally, no_hits, or_none, bump, counted, aggregate}
use dev_ops_agent_swarm.Learner.Vectorizer.{Hit}

module _ {Float : Type 0} where
  -- the hits whose incident a runbook was used for
  abbrev pub hits_of : String → List (Hit Float) → List (Hit Float)
  hits_of id = filter (λ h. h.metadata.runbook_id == id)

  abbrev pub successes : List (Hit Float) → List (Hit Float)
  successes = filter (λ h. h.metadata.outcome == "success")

  abbrev pub recovery_times : List (Hit Float) → ℤ
  recovery_times [] = pos 0
  recovery_times (h ∷ hits) = h.metadata.mttr_seconds +ℤ recovery_times hits

  -- the statistics of hits
  abbrev pub tally_of : List (Hit Float) → Tally
  tally_of hits = record {
    success = length (successes hits);
    total = length hits;
    mttr_total = recovery_times hits;
  }

  -- statistics with more hits
  abbrev added : Tally → List (Hit Float) → Tally
  added t hits = record {
    success = t.success + length (successes hits);
    total = t.total + length hits;
    mttr_total = t.mttr_total +ℤ recovery_times hits;
  }

  abbrev grown : Option Tally → List (Hit Float) → Option Tally
  grown none [] = none
  grown none (h ∷ hits) = some (added (bump h no_hits) hits)
  grown (some t) hits = some (added t hits)

  grown-bump :
      (o : Option Tally) (h : Hit Float) (hits : List (Hit Float))
      → grown (some (bump h (or_none o))) hits ≡ grown o (h ∷ hits)
  grown-bump none h hits = refl
  grown-bump (some t) h hits =
      ground (arith, +ℤ_assoc t.mttr_total h.metadata.mttr_seconds (recovery_times hits))

  grown-tally_of :
      (h : Hit Float) (hits : List (Hit Float)) → grown none (h ∷ hits) ≡ some (tally_of (h ∷ hits))
  grown-tally_of h hits = ground (arith, +ℤ_zero h.metadata.mttr_seconds)

  lookup-counted :
      (id : String) (h : Hit Float) (hits : List (Hit Float)) (stats : Dict Tally)
      → grown (lookup id (counted h stats)) (hits_of id hits)
        ≡ grown (lookup id stats) (hits_of id (h ∷ hits))
  lookup-counted id h hits stats = elim (Bool-cases (h.metadata.runbook_id == id)) [
    | inl same ↦
        let name : h.metadata.runbook_id ≡ id = (eq_iff h.metadata.runbook_id id).0 same in
        let row : lookup id (counted h stats) ≡ some (bump h (or_none (lookup id stats))) =
          rw
            (
              lookup-insert h.metadata.runbook_id id
                  (bump h (or_none (lookup h.metadata.runbook_id stats))) stats,
              same,
            )
            refl
          ∙ ap (λ k. some (bump h (or_none (lookup k stats)))) name in
        rw (row, same) (grown-bump (lookup id stats) h (hits_of id hits))
    | inr other ↦
        rw
          (
            lookup-insert h.metadata.runbook_id id
                (bump h (or_none (lookup h.metadata.runbook_id stats))) stats,
            other,
          )
          refl
  ]

  -- what the loop finds of a runbook
  lookup-aggregate :
      (id : String) (hits : List (Hit Float)) (stats : Dict Tally)
      → lookup id (aggregate hits stats) ≡ grown (lookup id stats) (hits_of id hits)
  unfolding aggregate
  lookup-aggregate id [] stats = nothing (lookup id stats)
    where
      nothing : (o : Option Tally) → o ≡ grown o []
      nothing none = refl
      nothing (some t) = ground (arith, +ℤ_comm t.mttr_total (pos 0), +ℤ_zero t.mttr_total)
  lookup-aggregate id (h ∷ hits) stats =
      lookup-aggregate id hits (counted h stats) ∙ lookup-counted id h hits stats

  aggregate-Distinct :
      (hits : List (Hit Float)) (stats : Dict Tally)
      → Distinct stats
      → Distinct (aggregate hits stats)
  unfolding aggregate
  aggregate-Distinct [] stats h = h
  aggregate-Distinct (h ∷ hits) stats d =
      aggregate-Distinct hits (counted h stats) (Distinct-insert h.metadata.runbook_id _ stats d)

  -- the entry of a runbook that a hit has
  pub lookup-aggregate_hit :
      (h : Hit Float) (hits : List (Hit Float))
      → In h hits
      → lookup h.metadata.runbook_id (aggregate hits [])
        ≡ some (tally_of (hits_of h.metadata.runbook_id hits))
  unfolding lookup
  lookup-aggregate_hit h hits here =
      lookup-aggregate h.metadata.runbook_id hits []
      ∙ found (hits_of h.metadata.runbook_id hits) (
          In-filter (λ g. g.metadata.runbook_id == h.metadata.runbook_id) h hits here
            (ground (arith, eq_iff h.metadata.runbook_id h.metadata.runbook_id)))
    where
      found : (mine : List (Hit Float)) → In h mine → grown none mine ≡ some (tally_of mine)
      found [] nowhere = elim nowhere [ ]
      found (g ∷ mine) _ = grown-tally_of g mine

  -- an entry is that of the hits of its runbook
  pub entry-aggregate :
      (hits : List (Hit Float)) (e : String × Tally)
      → In e (aggregate hits [])
      → (e.1 ≡ tally_of (hits_of e.0 hits)) × (ltb 0 e.1.total ≡ true)
  unfolding lookup
  entry-aggregate hits e here =
      let found : lookup e.0 (aggregate hits []) ≡ some e.1 =
        In-lookup e (aggregate hits []) (aggregate-Distinct hits [] tt) here in
      entry (hits_of e.0 hits) (sym (lookup-aggregate e.0 hits []) ∙ found)
    where
      entry :
          (mine : List (Hit Float))
          → grown none mine ≡ some e.1
          → (e.1 ≡ tally_of mine) × (ltb 0 e.1.total ≡ true)
      entry [] h = ground arith
      entry (g ∷ mine) h =
          let same : e.1 ≡ tally_of (g ∷ mine) = ground (arith, grown-tally_of g mine) in
          (same, rw same (ground arith))
