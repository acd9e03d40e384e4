-- ===== src/Observer/Deduplicator/Window.antt =====
-- How many alerts of a kind the deduplicator lets through.
use dev_ops_agent_swarm.Base.{
  ◌∙◌, ℕ, ◌+◌, ◌*◌, ◌≤◌, ◌≡◌, refl, String, true, false, List, [], ◌∷◌, ◌++◌, lookup, insert,
  lookup-insert_self, lookup-insert, length, length-append, length-filter-le, ltb, leb, Bool-cases,
  inl, inr, arith, ◌==◌,
}
use dev_ops_agent_swarm.Base.Value.{Value}
use dev_ops_agent_swarm.Messaging.Message.{second}
use dev_ops_agent_swarm.Observer.Anomaly.{AnomalyResult}
use dev_ops_agent_swarm.Observer.Deduplicator.{
  Deduplicator, init, seen_at, recent, fingerprint, is_duplicate,
}

-- The history of each fingerprint has at most `max_per_window` times.
abbrev pub IsBounded : Deduplicator → Type 0
IsBounded d = (fp : String) → length (seen_at fp d) ≤ d.max_per_window

init-IsBounded : IsBounded init
unfolding init lookup
init-IsBounded fp = omega arith

empty_lem : (n : ℕ) (ts : List ℕ) → n ≡ 1 → leb n (length ts) ≡ false → ts ≡ []
empty_lem n [] one h = refl
empty_lem n (t ∷ ts) one h = absurd (ground (arith, one, h))

module _ (digest : String → String) (show : String → Value → String → String) where
  -- the deduplicator after some anomalies, each at its time
  abbrev pub observe : List (ℕ × AnomalyResult) → Deduplicator → Deduplicator
  observe [] d = d
  observe ((now, a) ∷ rest) d = observe rest (is_duplicate digest show now a d).0

  stored_bound :
      (d : Deduplicator) (fp : String) (ts : List ℕ)
      → IsBounded d
      → length ts ≤ d.max_per_window
      → IsBounded (record d { seen = insert fp ts d.seen })
  stored_bound d fp ts v h other = elim (Bool-cases (fp == other)) [
    | inl same ↦ rw (lookup-insert fp other ts d.seen, same) h
    | inr apart ↦ rw (lookup-insert fp other ts d.seen, apart) (v other)
  ]

  is_duplicate-IsBounded :
      (now : ℕ) (a : AnomalyResult) (d : Deduplicator)
      → IsBounded d
      → IsBounded (is_duplicate digest show now a d).0
  unfolding is_duplicate
  is_duplicate-IsBounded now a d v =
      let fp = fingerprint digest show a in
      let kept = recent now d (seen_at fp d) in
      elim (Bool-cases (leb d.max_per_window (length kept))) [
        | inl full ↦ rw full (
            stored_bound d fp kept v (
              omega (
                arith,
                length-filter-le (λ t. ltb now (t + d.window_seconds * second)) (seen_at fp d),
                v fp,
              )))
        | inr free ↦
            rw free (
              stored_bound d fp (kept ++ now ∷ []) v
                (ground (arith, length-append kept (now ∷ []))))
      ]

  max_kept :
      (now : ℕ) (a : AnomalyResult) (d : Deduplicator)
      → (is_duplicate digest show now a d).0.max_per_window ≡ d.max_per_window
  unfolding is_duplicate
  max_kept now a d =
      elim (Bool-cases
        (leb d.max_per_window (length (recent now d (seen_at (fingerprint digest show a) d))))) [
          | inl full ↦ rw full refl
          | inr free ↦ rw free refl
        ]

  observe_lem :
      (steps : List (ℕ × AnomalyResult)) (d : Deduplicator)
      → IsBounded d
      → ((observe steps d).max_per_window ≡ d.max_per_window) × IsBounded (observe steps d)
  observe_lem [] d v = (refl, v)
  observe_lem ((now, a) ∷ rest) d v =
      let later = observe_lem rest _ (is_duplicate-IsBounded now a d v) in
      (later.0 ∙ max_kept now a d, later.1)

  -- Whatever the anomalies and their times after the start, the deduplicator remembers at most one
  -- alert of each kind.
  pub observe-seen_at :
      (steps : List (ℕ × AnomalyResult)) (fp : String)
      → length (seen_at fp (observe steps init)) ≤ 1
  unfolding init
  observe-seen_at steps fp =
      let all = observe_lem steps init init-IsBounded in omega (arith, all.0, all.1 fp)

  -- an alert that was let through is the only one remembered
  first_seen :
      (now : ℕ) (a : AnomalyResult) (d : Deduplicator)
      → d.max_per_window ≡ 1
      → (is_duplicate digest show now a d).1 ≡ false
      → (is_duplicate digest show now a d).0
        ≡ record d { seen = insert (fingerprint digest show a) (now ∷ []) d.seen }
  unfolding is_duplicate
  first_seen now a d one through =
      let kept = recent now d (seen_at (fingerprint digest show a) d) in
      elim (Bool-cases (leb d.max_per_window (length kept))) [
        | inl full ↦ absurd (passed_full (rw full at through))
        | inr free ↦ rw (free, empty_lem d.max_per_window kept one free) refl
      ]
    where
      passed_full : true ≡ false → ⊥
      passed_full e = cc

  -- With one alert per window: when an alert was let through at `now`, the next anomaly with its
  -- fingerprint is a duplicate exactly if it comes before the window has passed.
  pub is_duplicate-is_duplicate :
      (now later : ℕ) (a b : AnomalyResult) (d : Deduplicator)
      → d.max_per_window ≡ 1
      → (is_duplicate digest show now a d).1 ≡ false
      → fingerprint digest show b ≡ fingerprint digest show a
      → (is_duplicate digest show later b (is_duplicate digest show now a d).0).1
        ≡ ltb later (now + d.window_seconds * second)
  unfolding is_duplicate
  is_duplicate-is_duplicate now later a b d one through same =
      rw (first_seen now a d one through) second_seen
    where
      second_seen :
          (is_duplicate digest show later b
            (record d { seen = insert (fingerprint digest show a) (now ∷ []) d.seen })).1
          ≡ ltb later (now + d.window_seconds * second)
      second_seen =
          rw (same, lookup-insert_self (fingerprint digest show a) (now ∷ []) d.seen, one)
            (ground arith)
