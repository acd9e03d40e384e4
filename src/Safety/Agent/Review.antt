-- ===== src/Safety/Agent/Review.antt =====
-- What the decisions of the safety agent rest on, and what the reviews leave in the limiter.
use dev_ops_agent_swarm.Base.{
  ℕ, ◌≡◌, refl, sym, subst, ap, String, true, false, List, ◌⊎◌, inl, inr, Bool-cases,
}
use dev_ops_agent_swarm.Base.Int.{ℤ}
use dev_ops_agent_swarm.Base.Result.{Result, ok, >>=-eq-ok, ok-injective}
use dev_ops_agent_swarm.Base.Value.{Value, Fields, end, null, str, dict, get, get_or, as_dict}
use dev_ops_agent_swarm.Safety.Agent.{
  evaluate_action, rule, settle, in_context, format_approval_request,
}
use dev_ops_agent_swarm.Safety.BlastRadius.{Blast, calculate}
use dev_ops_agent_swarm.Safety.Policy.{Ruling, evaluate}
use dev_ops_agent_swarm.Safety.RateLimiter.{
  Limiter, prune, matching, judge, fingerprint_of, check_by, note_by,
}
use dev_ops_agent_swarm.Safety.RateLimiter.Spacing.{pruned, noted, check_by-eq-ok, note_by-eq-ok}

abbrev pub status : Fields → Value
status = get_or "status" null

-- the request to a human carries its status
request_status :
    (incident_id : String) (diagnosis : Value) (action : Fields) (why : Value) (blast : Blast)
    {d : Fields}
    → format_approval_request incident_id diagnosis action why blast ≡ ok d
    → status d ≡ str "pending_human_approval"
unfolding format_approval_request get
request_status incident_id diagnosis action why blast {d} e =
    let (dd, _, e1) = >>=-eq-ok (as_dict diagnosis) _ e in
    let (cause, _, e2) = >>=-eq-ok (as_dict (get_or "root_cause" (dict end) dd)) _ e1 in
    subst (λ x. status x ≡ str "pending_human_approval") (ok-injective e2) refl

module _ (sha256 : String → String) (show : Value → Value → String) (to_int : Value → Result ℤ)
    (ancestors : String → List String) (clock : Result ℕ) where
  -- the action was allowed by the limiter and the policies, and one entry was added
  pub record IsApproved (action : Fields) (l l' : Limiter) : Type 0 where
    pub fp : String
    pub now : ℕ
    pub blast : Blast
    pub ruling : Ruling
    pub found : fingerprint_of sha256 show action ≡ ok fp
    pub read : clock ≡ ok now
    pub measured : calculate ancestors action ≡ ok blast
    pub allowed : (judge now l (matching fp (prune now l.action_history))).allowed ≡ true
    pub evaluated : evaluate to_int (in_context action blast) ≡ ok ruling
    pub approved : ruling.approved ≡ true
    pub left :
        l' ≡ noted (record { fingerprint = fp; timestamp = now; action = action }) (pruned now l)

  -- the limiter said no
  pub record IsLimited (action : Fields) (l l' : Limiter) : Type 0 where
    pub fp : String
    pub now : ℕ
    pub found : fingerprint_of sha256 show action ≡ ok fp
    pub limited : (judge now l (matching fp (prune now l.action_history))).allowed ≡ false
    pub left : l' ≡ pruned now l

  -- the policies said no
  pub record IsReferred (action : Fields) (l l' : Limiter) : Type 0 where
    pub now : ℕ
    pub blast : Blast
    pub ruling : Ruling
    pub measured : calculate ancestors action ≡ ok blast
    pub evaluated : evaluate to_int (in_context action blast) ≡ ok ruling
    pub refused : ruling.approved ≡ false
    pub left : l' ≡ pruned now l

  -- the three ways in which a review returns
  abbrev pub Course : Fields → Limiter → Limiter → Fields → Type 0
  Course action l l' d =
      ((status d ≡ str "approved") × IsApproved action l l')
      ⊎ (((status d ≡ str "rejected") × IsLimited action l l')
          ⊎ ((status d ≡ str "pending_human_approval") × IsReferred action l l'))

  module _ (incident_id : String) (diagnosis : Value) (action : Fields) (l : Limiter) where
    settle_lem :
        (fp : String) (now : ℕ) (blast : Blast) (ruling : Ruling) {l' : Limiter} {d : Fields}
        → fingerprint_of sha256 show action ≡ ok fp
        → clock ≡ ok now
        → calculate ancestors action ≡ ok blast
        → (judge now l (matching fp (prune now l.action_history))).allowed ≡ true
        → evaluate to_int (in_context action blast) ≡ ok ruling
        → settle sha256 show to_int ancestors clock incident_id diagnosis action blast
            (pruned now l)
            ruling
          ≡ ok (l', d)
        → Course action l l' d
    unfolding settle get
    settle_lem fp now blast ruling {l'} {d} found read measured allowed evaluated e =
        elim (Bool-cases ruling.approved) [
          | inl pass ↦
              let (l2, noted_ok, e2) =
                >>=-eq-ok (note_by sha256 show clock action (pruned now l)) _ (rw pass at e) in
              let same = ok-injective e2 in
              inl (
                subst (λ x. status x ≡ str "approved") (ap (λ p. p.1) same) refl,
                record {
                  fp = fp;
                  now = now;
                  blast = blast;
                  ruling = ruling;
                  found = found;
                  read = read;
                  measured = measured;
                  allowed = allowed;
                  evaluated = evaluated;
                  approved = pass;
                  left =
                      subst
                        (λ x.
                          x
                          ≡ noted (record { fingerprint = fp; timestamp = now; action = action })
                              (pruned now l))
                        (ap (λ p. p.0) same)
                        (note_by-eq-ok sha256 show clock action (pruned now l) fp now found read
                          noted_ok);
                },
              )
          | inr stop ↦
              let (request, made, e2) =
                >>=-eq-ok (format_approval_request incident_id diagnosis action ruling.reason blast)
                  _ (rw stop at e) in
              let same = ok-injective e2 in
              inr (
                inr (
                  subst (λ x. status x ≡ str "pending_human_approval") (ap (λ p. p.1) same)
                      (request_status incident_id diagnosis action ruling.reason blast made),
                  record {
                    now = now;
                    blast = blast;
                    ruling = ruling;
                    measured = measured;
                    evaluated = evaluated;
                    refused = stop;
                    left = sym (ap (λ p. p.0) same);
                  },
                ))
        ]

    rule_lem :
        (fp : String) (now : ℕ) (blast : Blast) {l' : Limiter} {d : Fields}
        → fingerprint_of sha256 show action ≡ ok fp
        → clock ≡ ok now
        → calculate ancestors action ≡ ok blast
        → rule sha256 show to_int ancestors clock incident_id diagnosis action blast
            (pruned now l)
            (judge now l (matching fp (prune now l.action_history)))
          ≡ ok (l', d)
        → Course action l l' d
    unfolding rule get
    rule_lem fp now blast {l'} {d} found read measured e =
        elim (Bool-cases (judge now l (matching fp (prune now l.action_history))).allowed) [
          | inl pass ↦
              let (ruling, evaluated, e2) =
                >>=-eq-ok (evaluate to_int (in_context action blast)) _ (rw pass at e) in
              settle_lem fp now blast ruling found read measured pass evaluated e2
          | inr stop ↦
              let same = ok-injective (rw stop at e) in
              inr (
                inl (
                  subst (λ x. status x ≡ str "rejected") (ap (λ p. p.1) same) refl,
                  record {
                    fp = fp;
                    now = now;
                    found = found;
                    limited = stop;
                    left = sym (ap (λ p. p.0) same);
                  },
                ))
        ]

    -- A review that returns ends in one of three ways. It approves: then the limiter and the policies
    -- allowed the action, and the pruned history has one more entry, of this action at this time. It
    -- rejects: then the limiter refused, and the history is only pruned. It asks a human: then the
    -- policies refused, and the history is only pruned.
    pub evaluate_action-Course :
        {l' : Limiter} {d : Fields}
        → evaluate_action sha256 show to_int ancestors clock incident_id diagnosis action l
          ≡ ok (l', d)
        → Course action l l' d
    unfolding evaluate_action
    evaluate_action-Course {l'} {d} e =
        let (blast, measured, e1) = >>=-eq-ok (calculate ancestors action) _ e in
        let (lv, checked, e2) = >>=-eq-ok (check_by sha256 show clock action l) _ e1 in
        let (fp, now, found, read, kept, judged) =
          check_by-eq-ok sha256 show clock action l checked in
        rule_lem fp now blast found read measured (
          subst
            (λ x.
              rule sha256 show to_int ancestors clock incident_id diagnosis action blast x
                (judge now l (matching fp (prune now l.action_history)))
              ≡ ok (l', d))
            kept
            (subst
              (λ v.
                rule sha256 show to_int ancestors clock incident_id diagnosis action blast lv.0 v
                ≡ ok (l', d))
              judged e2))
