-- ===== src/Remediator/Runbooks/Matching.antt =====
-- Which runbook is found, and what an interpolation leaves of an action.
use dev_ops_agent_swarm.Base.{
  ◌≡◌, refl, ap, subst, String, Bool, true, false, List, [], ◌∷◌, ◌++◌, Option, none, some, All,
  arith, ◌==◌, eq_iff, if◌then◌else◌, ◌⊎◌, inl, inr, Bool-cases,
}
use dev_ops_agent_swarm.Base.Compare.{value_eq, at_least}
use dev_ops_agent_swarm.Base.Int.{pos}
use dev_ops_agent_swarm.Base.Result.{ok, >>=-eq-ok, ok-injective}
use dev_ops_agent_swarm.Base.Value.{
  Value, Fields, end, field, null, int, dict, get, get_or, set, as_dict, truthy,
}
use dev_ops_agent_swarm.Remediator.Runbooks.{
  fits, first_match, find_match, render_params, render_action,
}

module _ (category confidence : Value) where
  -- A category equal to this one, and a least confidence that is reached, where there is one.
  abbrev pub IsMet : Fields → Type 0
  IsMet matches =
      (value_eq (get_or "root_cause_category" null matches) category ≡ true)
      × (at_least confidence (get_or "confidence_minimum" (int (pos 0)) matches) ≡ ok true)

  -- another category, or a confidence below the least
  abbrev pub IsMissed : Fields → Type 0
  IsMissed matches =
      (value_eq (get_or "root_cause_category" null matches) category ≡ false)
      ⊎ (at_least confidence (get_or "confidence_minimum" (int (pos 0)) matches) ≡ ok false)

  -- The runbook's `matches` is a `dict` that is met, or missed.
  abbrev pub Fit : Bool → Fields → Type 0
  Fit b rb =
      (matches : Fields) × (as_dict (get_or "matches" (dict end) rb) ≡ ok matches)
      × (if b then IsMet matches else IsMissed matches)

  fits_lem :
      (matches : Fields) (b : Bool)
      → fits category confidence matches ≡ ok b
      → if b then IsMet matches else IsMissed matches
  unfolding fits
  fits_lem matches b e =
      elim (Bool-cases (value_eq (get_or "root_cause_category" null matches) category)) [
        | inl same ↦ reached b same (rw same at e)
        | inr other ↦ missed b other (ok-injective (rw other at e))
      ]
    where
      reached :
          (b : Bool)
          → value_eq (get_or "root_cause_category" null matches) category ≡ true
          → at_least confidence (get_or "confidence_minimum" (int (pos 0)) matches) ≡ ok b
          → if b then IsMet matches else IsMissed matches
      reached true same test = (same, test)
      reached false same test = inr test

      missed :
          (b : Bool)
          → value_eq (get_or "root_cause_category" null matches) category ≡ false
          → false ≡ b
          → if b then IsMet matches else IsMissed matches
      missed true other wrong = cc
      missed false other _ = inl other

  -- the first runbook that fits, or none does
  abbrev pub Chosen : List Fields → Option Fields → Type 0
  Chosen runbooks none = All (Fit false) runbooks
  Chosen runbooks (some rb) =
      (before : List Fields) × (after : List Fields) × (runbooks ≡ before ++ rb ∷ after)
      × All (Fit false) before
      × Fit true rb

  Chosen-cons :
      (rb : Fields) (rest : List Fields) (r : Option Fields)
      → Fit false rb
      → Chosen rest r
      → Chosen (rb ∷ rest) r
  Chosen-cons rb rest none h c = (h, c)
  Chosen-cons rb rest (some found) h (before, after, split, passed, fit) =
      (rb ∷ before, after, ap (λ rbs. rb ∷ rbs) split, (h, passed), fit)

  first_match-Chosen :
      (runbooks : List Fields) {r : Option Fields}
      → first_match category confidence runbooks ≡ ok r
      → Chosen runbooks r
  unfolding first_match
  first_match-Chosen [] e = subst (Chosen []) (ok-injective e) tt
  first_match-Chosen (rb ∷ rest) {r} e =
      let (matches, found, e1) = >>=-eq-ok (as_dict (get_or "matches" (dict end) rb)) _ e in
      let (fit, tested, e2) = >>=-eq-ok (fits category confidence matches) _ e1 in
      branch fit matches found tested e2 (λ q. first_match-Chosen rest {r = q})
    where
      branch :
          (b : Bool) (matches : Fields)
          → as_dict (get_or "matches" (dict end) rb) ≡ ok matches
          → fits category confidence matches ≡ ok b
          → (if b then ok (some rb) else first_match category confidence rest) ≡ ok r
          → ((q : Option Fields) → first_match category confidence rest ≡ ok q → Chosen rest q)
          → Chosen (rb ∷ rest) r
      branch true matches found tested e ih =
          subst (Chosen (rb ∷ rest)) (ok-injective e)
            ([], rest, refl, tt, (matches, found, fits_lem matches true tested))
      branch false matches found tested e ih =
          Chosen-cons rb rest r (matches, found, fits_lem matches false tested) (ih r e)

-- A search that returns, for a diagnosis with a category: it gives the first runbook whose category is
-- the diagnosis's and whose least confidence the diagnosis reaches, all runbooks before it do not
-- fit, or no runbook fits.
pub find_match-Chosen :
    (runbooks : List Fields) (diagnosis rc : Fields) {r : Option Fields}
    → as_dict (get_or "root_cause" (dict end) diagnosis) ≡ ok rc
    → truthy (get_or "category" null rc) ≡ true
    → find_match runbooks diagnosis ≡ ok r
    → Chosen (get_or "category" null rc) (get_or "confidence" (int (pos 0)) rc) runbooks r
unfolding find_match
find_match-Chosen runbooks diagnosis rc cause known e =
    first_match-Chosen _ _ runbooks (rw (cause, known) at e)

get-set_ne :
    (k j : String) (v : Value) (d : Fields) → (k == j) ≡ false → get k (set j v d) ≡ get k d
unfolding get set
get-set_ne k j v end h = ground (arith, eq_iff k j, eq_iff j k)
get-set_ne k j v (field i w d) h =
    ground (arith, eq_iff k j, eq_iff j k, eq_iff i j, eq_iff i k, get-set_ne k j v d h)

-- An interpolation that returns changes nothing of the action but its parameters: not its type, its
-- risk, its approval flag or its rollback.
pub get-render_action :
    (k : String) (action diagnosis : Fields) {rendered : Fields}
    → (k == "params") ≡ false
    → render_action (dict action) diagnosis ≡ ok rendered
    → get k rendered ≡ get k action
unfolding render_action
get-render_action k action diagnosis {rendered} other e =
    let (params, found, e1) = >>=-eq-ok (as_dict (get_or "params" (dict end) action)) _ e in
    let (interpolated, done, e2) = >>=-eq-ok (render_params diagnosis params) _ e1 in
    subst (λ r. get k r ≡ get k action) (ok-injective e2)
      (get-set_ne k "params" (dict interpolated) action other)
