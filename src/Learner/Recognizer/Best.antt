-- ===== src/Learner/Recognizer/Best.antt =====
-- Which runbook is recommended, against the hits.
use dev_ops_agent_swarm.Base.{
  ℕ, ◌≡◌, refl, sym, subst, ap, ◌∙◌, String, Bool, true, false, List, [], ◌∷◌, All, In, some, Dict,
  lookup, All-lookup, arith, ltb, Bool-cases, inl, inr, if◌then◌else◌,
}
use dev_ops_agent_swarm.Base.Int.{ℤ, ltb_ℤ}
use dev_ops_agent_swarm.Learner.Recognizer.{
  Tally, aggregate, worse, best_of, rate, Recommendation, recommendation, of_stats,
  recommend_runbook,
}
use dev_ops_agent_swarm.Learner.Vectorizer.{Hit}
use dev_ops_agent_swarm.Observer.Numbers.{Numbers, IsOrdered}
use dev_ops_agent_swarm.Learner.Recognizer.Counts.{
  hits_of, tally_of, lookup-aggregate_hit, entry-aggregate,
}

module _ (n : Numbers) where
  -- the rate of the first is at least that of the second, and if they are equal its time is not longer
  abbrev pub Wins : Tally → Tally → Type 0
  Wins a b =
      (n.leb (rate n b) (rate n a) ≡ true)
      × (n.leb (rate n a) (rate n b) ≡ true → ltb_ℤ b.mttr_total a.mttr_total ≡ false)

  worse-Wins : (a b : Tally) → worse n a b ≡ false → Wins a b
  unfolding worse
  worse-Wins a b h = elim (Bool-cases (n.leb (rate n b) (rate n a))) [
    | inl below ↦ (below, λ above. conclude below above)
    | inr above ↦ let impossible : true ≡ false = (rw above at h) in cc
  ]
    where
      conclude :
          n.leb (rate n b) (rate n a) ≡ true
          → n.leb (rate n a) (rate n b) ≡ true
          → ltb_ℤ b.mttr_total a.mttr_total ≡ false
      conclude below above = (rw (below, above) at h)

  Wins-worse : (a b : Tally) → Wins a b → worse n a b ≡ false
  unfolding worse
  Wins-worse a b (below, equal) = elim (Bool-cases (n.leb (rate n a) (rate n b))) [
    | inl above ↦ rw (below, above) (equal above)
    | inr strictly ↦ rw (below, strictly) refl
  ]

  -- what is right of a recommendation: it gives a runbook of the hits and the statistics of its
  -- hits, and these win against those of each runbook of the hits
  abbrev pub IsBest : (ℤ → ℕ → ℤ) → List (Hit n.Float) → Recommendation n.Float → Type 0
  IsBest truncated hits r =
      (id : String) × let t = tally_of (hits_of id hits) in
        (r ≡ record {
          runbook_id = some id;
          success_rate = n.rounded 3 (n.div (n.of_nat t.success) (n.of_nat t.total));
          sample_count = t.total;
          avg_mttr_seconds = truncated t.mttr_total t.total;
        })
        × (ltb 0 t.total ≡ true)
        × ((h : Hit n.Float) → In h hits → Wins t (tally_of (hits_of h.metadata.runbook_id hits)))

  module _ (o : IsOrdered n) where
    worse_trans : (a b c : Tally) → worse n a b ≡ false → worse n b c ≡ false → worse n a c ≡ false
    worse_trans a b c h k =
        let (ba, ab) = worse-Wins a b h in
        let (cb, bc) = worse-Wins b c k in
        Wins-worse a c (
          o.trans (rate n c) (rate n b) (rate n a) cb ba,
          λ ac.
              longer (ab (o.trans (rate n a) (rate n c) (rate n b) ac cb))
                (bc (o.trans (rate n b) (rate n a) (rate n c) ba ac)),
        )
      where
        longer :
            ltb_ℤ b.mttr_total a.mttr_total ≡ false
            → ltb_ℤ c.mttr_total b.mttr_total ≡ false
            → ltb_ℤ c.mttr_total a.mttr_total ≡ false
        longer p q = ground arith

    worse_refl : (a : Tally) → worse n a a ≡ false
    worse_refl a = Wins-worse a a (leb_refl (rate n a), λ _. ground arith)
      where
        leb_refl : (x : n.Float) → n.leb x x ≡ true
        leb_refl x = elim (Bool-cases (n.leb x x)) [ inl h ↦ h | inr h ↦ o.total x x h ]

    worse_asym : (a b : Tally) → worse n a b ≡ true → worse n b a ≡ false
    unfolding worse
    worse_asym a b h = elim (Bool-cases (n.leb (rate n b) (rate n a))) [
      | inl below ↦ elim (Bool-cases (n.leb (rate n a) (rate n b))) [
        | inl above ↦
            let longer : ltb_ℤ b.mttr_total a.mttr_total ≡ true = (rw (below, above) at h) in
            Wins-worse b a (above, λ _. ground arith)
        | inr strictly ↦ let impossible : false ≡ true = (rw (below, strictly) at h) in cc
      ]
      | inr strictly ↦ Wins-worse b a (
        o.total (rate n b) (rate n a) strictly,
        λ below. let impossible : false ≡ true = sym strictly ∙ below in cc,
      )
    ]

    -- an entry than which no entry is better
    abbrev Top : String × Tally → Dict Tally → Type 0
    Top b entries = In b entries × All (λ f. worse n b.1 f.1 ≡ false) entries

    best_of-step :
        (e f : String × Tally) (rest : Dict Tally) {less : Bool}
        → worse n e.1 f.1 ≡ less
        → best_of n e (f ∷ rest) ≡ best_of n (if less then f else e) rest
    unfolding best_of
    best_of-step e f rest h = ap (λ b. best_of n (if b then f else e) rest) h

    best_of-Top : (e : String × Tally) (rest : Dict Tally) → Top (best_of n e rest) (e ∷ rest)
    unfolding best_of
    best_of-Top e [] = (inl refl, (worse_refl e.1, tt))
    best_of-Top e (f ∷ rest) = elim (Bool-cases (worse n e.1 f.1)) [
      | inl less ↦
          let (here, (k, ks)) = best_of-Top f rest in
          subst (λ b. Top b (e ∷ f ∷ rest)) (sym (best_of-step e f rest less))
            (
              inr here,
              (worse_trans (best_of n f rest).1 f.1 e.1 k (worse_asym e.1 f.1 less), (k, ks)),
            )
      | inr least ↦
          let (here, (k, ks)) = best_of-Top e rest in
          subst (λ b. Top b (e ∷ f ∷ rest)) (sym (best_of-step e f rest least))
            (skip here, (k, (worse_trans (best_of n e rest).1 e.1 f.1 k least, ks)))
    ]
      where
        skip : {x : String × Tally} → In x (e ∷ rest) → In x (e ∷ f ∷ rest)
        skip (inl same) = inl same
        skip (inr later) = inr (inr later)

    -- a recommendation by the statistics of at least one hit
    recommendation-counted :
        (truncated : ℤ → ℕ → ℤ) (id : String) (t : Tally)
        → ltb 0 t.total ≡ true
        → recommendation n truncated (id, t) ≡ record {
          runbook_id = some id;
          success_rate = n.rounded 3 (n.div (n.of_nat t.success) (n.of_nat t.total));
          sample_count = t.total;
          avg_mttr_seconds = truncated t.mttr_total t.total;
        }
    recommendation-counted truncated id t seen = rw seen refl

    of_stats-IsBest :
        (truncated : ℤ → ℕ → ℤ) (hits : List (Hit n.Float)) (e : String × Tally) (rest : Dict Tally)
        → aggregate hits [] ≡ e ∷ rest
        → IsBest truncated hits (recommendation n truncated (best_of n e rest))
    of_stats-IsBest truncated hits e rest found =
        let best = best_of n e rest in
        let (here, over) = best_of-Top e rest in
        let (same, seen) = entry-aggregate hits best (subst (λ d. In best d) (sym found) here) in
        let some_hit : ltb 0 (tally_of (hits_of best.0 hits)).total ≡ true =
          subst (λ t. ltb 0 t.total ≡ true) same seen in
        (
          best.0,
          (
            ap (λ t. recommendation n truncated (best.0, t)) same
                ∙ recommendation-counted truncated best.0 (tally_of (hits_of best.0 hits)) some_hit,
            some_hit,
            λ h there.
                subst (λ t. Wins t (tally_of (hits_of h.metadata.runbook_id hits))) same
                  (worse-Wins best.1 (tally_of (hits_of h.metadata.runbook_id hits)) (
                    All-lookup (λ f. worse n best.1 f.1 ≡ false) h.metadata.runbook_id (e ∷ rest)
                      over
                      (subst
                        (λ d.
                          lookup h.metadata.runbook_id d
                          ≡ some (tally_of (hits_of h.metadata.runbook_id hits)))
                        found (lookup-aggregate_hit h hits there)))),
          ),
        )

    -- For similar incidents of which there is at least one, where comparison is a total order of the
    -- numbers: the recommendation gives a runbook that one of them was resolved with, the rate of
    -- success among the incidents of this runbook, their number and their average time, and no
    -- runbook of an incident has a higher rate, or the same rate and less time in total.
    pub recommend_runbook-IsBest :
        (truncated : ℤ → ℕ → ℤ) (h : Hit n.Float) (hits : List (Hit n.Float))
        → IsBest truncated (h ∷ hits) (recommend_runbook n truncated (h ∷ hits))
    unfolding recommend_runbook lookup
    recommend_runbook-IsBest truncated h hits =
        chosen (aggregate (h ∷ hits) []) refl (lookup-aggregate_hit h (h ∷ hits) (inl refl))
      where
        chosen :
            (stats : Dict Tally) {t : Tally}
            → aggregate (h ∷ hits) [] ≡ stats
            → lookup h.metadata.runbook_id stats ≡ some t
            → IsBest truncated (h ∷ hits) (of_stats n truncated stats)
        chosen [] found known = cc
        chosen (e ∷ rest) found known = of_stats-IsBest truncated (h ∷ hits) e rest found
