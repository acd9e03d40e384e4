-- ===== src/Safety/Policy/Rules.antt =====
-- What a ruling of the policy engine says of the action.
use dev_ops_agent_swarm.Base.{
  Bool, true, false, ◌≡◌, refl, sym, subst, arith, Bool-cases, inl, inr, ◌⊎◌, if◌then◌else◌,
}
use dev_ops_agent_swarm.Base.Int.{ℤ, pos, ltb_ℤ}
use dev_ops_agent_swarm.Base.Result.{Result, ok, >>=-eq-ok, ok-injective}
use dev_ops_agent_swarm.Base.Value.{
  Value, Fields, end, null, bool, formatted, list, int, str, dict, get_or, as_dict, as_key, or_else,
  is_text, is_true, truthy,
}
use dev_ops_agent_swarm.Safety.Policy.{
  Ruling, refusal, within_limit, ban_rule, among, banned_targets, int_of, scale_rule, apply_rules,
  evaluate,
}
use dev_ops_agent_swarm.Safety.RateLimiter.{target_of}

-- the limits of rule 4 hold of a scaling
abbrev pub IsScalable : (Value → Result ℤ) → Fields → Type 0
IsScalable to_int params =
    (r : ℤ) × (m : ℤ) × (int_of to_int (get_or "replicas" (int (pos 0)) params) ≡ ok r)
    × (int_of to_int (get_or "max_replicas" (int (pos 5)) params) ≡ ok m)
    × (ltb_ℤ m r ≡ false)

-- What an approval by the policies means: no flag, no high risk, no banned target, and a scaling
-- within its limit.
pub record IsPermitted (to_int : Value → Result ℤ) (action params : Fields) : Type 0 where
  pub unflagged : is_true (get_or "approval_required" null action) ≡ false
  pub tame : is_text "high" (get_or "risk" null action) ≡ false
  pub allowed_target :
      among
        (banned_targets (get_or "type" (str "unknown") action))
        (or_else (target_of params) (str "unknown"))
      ≡ false
  pub scaled :
      (is_text "container_scale" (get_or "type" (str "unknown") action) ≡ false)
      ⊎ IsScalable to_int params

-- a branch that refuses is not the one that approved
refused-else :
    (b : Bool) (why : Value) (other : Result Ruling) {r : Ruling}
    → (if b then ok (refusal why) else other) ≡ ok r
    → r.approved ≡ true
    → (b ≡ false) × (other ≡ ok r)
refused-else true why other {r} e h = absurd (not_refused (refusal why) r (ok-injective e) refl h)
  where
    not_refused : (q r : Ruling) → q ≡ r → q.approved ≡ false → r.approved ≡ true → ⊥
    not_refused q r e f h = ground arith
refused-else false why other e h = (refl, e)

within_limit-approved :
    (to_int : Value → Result ℤ) (n k : ℤ) {r : Ruling}
    → within_limit to_int n k ≡ r
    → r.approved ≡ true
    → ltb_ℤ k n ≡ false
within_limit-approved to_int n k {r} e h = ground arith

-- a key is the value itself
as_key-eq-ok : (v : Value) {k : Value} → as_key v ≡ ok k → v ≡ k
as_key-eq-ok null e = ok-injective e
as_key-eq-ok (bool b) e = ok-injective e
as_key-eq-ok (int n) e = ok-injective e
as_key-eq-ok (str s) e = ok-injective e
as_key-eq-ok (formatted xs) e = ok-injective e
as_key-eq-ok (list xs) e = cc
as_key-eq-ok (dict d) e = cc

module _ (to_int : Value → Result ℤ) where
  scale_rule-approved :
      (kind : Value) (params : Fields) {r : Ruling}
      → scale_rule to_int kind params ≡ ok r
      → r.approved ≡ true
      → (is_text "container_scale" kind ≡ false) ⊎ IsScalable to_int params
  unfolding scale_rule
  scale_rule-approved kind params {r} e h = elim (Bool-cases (is_text "container_scale" kind)) [
    | inr other ↦ inl other
    | inl scale ↦
        let (n, en, rest) =
          >>=-eq-ok (int_of to_int (get_or "replicas" (int (pos 0)) params)) _ (rw scale at e) in
        let (k, ek, last) =
          >>=-eq-ok (int_of to_int (get_or "max_replicas" (int (pos 5)) params)) _ rest in
        inr (n, k, en, ek, within_limit-approved to_int n k (ok-injective last) h)
  ]

  ban_rule-approved :
      (kind key target : Value) (params : Fields) {r : Ruling}
      → ban_rule to_int kind key target params ≡ ok r
      → r.approved ≡ true
      → (among (banned_targets key) target ≡ false) × (scale_rule to_int kind params ≡ ok r)
  unfolding ban_rule
  ban_rule-approved kind key target params e h = refused-else _ _ _ e h

  apply_rules-approved :
      (action params : Fields) {r : Ruling}
      → apply_rules to_int action params ≡ ok r
      → r.approved ≡ true
      → IsPermitted to_int action params
  unfolding apply_rules
  apply_rules-approved action params {r} e h =
      let kind = get_or "type" (str "unknown") action in
      let target = or_else (target_of params) (str "unknown") in
      let (unflagged, e1) = refused-else _ _ _ e h in
      let (tame, e2) = refused-else _ _ _ e1 h in
      let (key, hashed, e3) =
        >>=-eq-ok (as_key kind) (λ k. ban_rule to_int kind k target params) e2 in
      let (free, e4) = ban_rule-approved kind key target params e3 h in
      record {
        unflagged = unflagged;
        tame = tame;
        allowed_target =
            subst (λ k. among (banned_targets k) target ≡ false) (sym (as_key-eq-ok kind hashed))
              free;
        scaled = scale_rule-approved kind params e4 h;
      }

  -- If the policies approve an action, it is not empty, its parameters are a `dict`, it carries no
  -- approval flag and no high risk, its target is not banned for its type, and a scaling asks for no
  -- more replicas than its limit.
  pub evaluate-approved :
      (action : Fields) {r : Ruling}
      → evaluate to_int action ≡ ok r
      → r.approved ≡ true
      → (truthy (dict action) ≡ true)
        × ((params : Fields) × (as_dict (get_or "params" (dict end) action) ≡ ok params)
            × IsPermitted to_int action params)
  unfolding evaluate
  evaluate-approved action {r} e h = elim (Bool-cases (truthy (dict action))) [
    | inl full ↦
        let (params, found, rest) =
          >>=-eq-ok (as_dict (get_or "params" (dict end) action)) (apply_rules to_int action)
            (rw full at e) in
        (full, (params, found, apply_rules-approved action params rest h))
    | inr empty ↦ absurd (refused-here (rw empty at e) h)
  ]
    where
      refused-here : ok (refusal (str "Empty action payload")) ≡ ok r → r.approved ≡ true → ⊥
      refused-here e h = ground (arith, ok-injective e)
