-- ===== src/Safety/RateLimiter/Spacing.antt =====
-- What the rate limiter's checks and records keep of its history.
use dev_ops_agent_swarm.Base.{
  ℕ, ◌+◌, ◌≤◌, ◌<◌, ◌≡◌, refl, sym, ap, String, Bool, true, false, List, [], ◌∷◌, ◌++◌, length,
  filter, All, length-append, length-filter-le, arith, ◌==◌, eq_iff, Bool-cases, inl, inr,
}
use dev_ops_agent_swarm.Base.Result.{Result, ok, >>=-eq-ok, ok-injective}
use dev_ops_agent_swarm.Base.Value.{Fields, Value}
use dev_ops_agent_swarm.Safety.RateLimiter.{
  Entry, Limiter, Verdict, init, cooldown, latest, matching, prune, judge, fingerprint_of, check_by,
  note_by,
}

-- Each entry is at least `gap` before every later one.
abbrev pub Apart : ℕ → List Entry → Type 0
Apart gap [] = Unit
Apart gap (e ∷ es) = All (λ f. e.timestamp + gap ≤ f.timestamp) es × Apart gap es

-- For each kind of action the history holds at most `limit_per_hour` entries, each a cooldown
-- after the one before.
pub record IsPaced (l : Limiter) : Type 0 where
  pub few : (fp : String) → length (matching fp l.action_history) ≤ l.limit_per_hour
  pub apart : (fp : String) → Apart (cooldown l) (matching fp l.action_history)

All-filter :
    (P : Entry → Type 0) (p : Entry → Bool) (es : List Entry) → All P es → All P (filter p es)
All-filter P p [] h = tt
All-filter P p (e ∷ es) h = elim (Bool-cases (p e)) [
  | inl keep ↦ rw keep (h.0, All-filter P p es h.1)
  | inr drop ↦ rw drop (All-filter P p es h.1)
]

Apart-filter :
    (gap : ℕ) (p : Entry → Bool) (es : List Entry) → Apart gap es → Apart gap (filter p es)
Apart-filter gap p [] h = tt
Apart-filter gap p (e ∷ es) h = elim (Bool-cases (p e)) [
  | inl keep ↦ rw keep (All-filter _ p es h.0, Apart-filter gap p es h.1)
  | inr drop ↦ rw drop (Apart-filter gap p es h.1)
]

filter_comm :
    (p q : Entry → Bool) (es : List Entry) → filter p (filter q es) ≡ filter q (filter p es)
filter_comm p q [] = refl
filter_comm p q (e ∷ es) = ground (arith, filter_comm p q es)

latest_bound :
    (es : List Entry) (gap now : ℕ) → latest es + gap ≤ now → All (λ e. e.timestamp + gap ≤ now) es
latest_bound [] gap now h = tt
latest_bound (e ∷ es) gap now h = (ground arith, latest_bound es gap now (ground arith))

-- what an allowed check has tested
judge-allowed :
    (now : ℕ) (l : Limiter) (es : List Entry)
    → (judge now l es).allowed ≡ true
    → (length es < l.limit_per_hour) × All (λ e. e.timestamp + cooldown l ≤ now) es
unfolding judge
judge-allowed now l [] h = (ground arith, tt)
judge-allowed now l (e ∷ es) h =
    (ground arith, latest_bound (e ∷ es) (cooldown l) now (ground arith))

Apart-snoc :
    (gap : ℕ) (es : List Entry) (f : Entry)
    → Apart gap es
    → All (λ e. e.timestamp + gap ≤ f.timestamp) es
    → Apart gap (es ++ f ∷ [])
Apart-snoc gap [] f h k = (tt, tt)
Apart-snoc gap (e ∷ es) f h k = (All-snoc es h.0 k.0, Apart-snoc gap es f h.1 k.1)
  where
    All-snoc :
        (xs : List Entry)
        → All (λ x. e.timestamp + gap ≤ x.timestamp) xs
        → e.timestamp + gap ≤ f.timestamp
        → All (λ x. e.timestamp + gap ≤ x.timestamp) (xs ++ f ∷ [])
    All-snoc [] h k = (k, tt)
    All-snoc (x ∷ xs) h k = (h.0, All-snoc xs h.1 k)

abbrev pub pruned : ℕ → Limiter → Limiter
pruned now l = record l { action_history = prune now l.action_history }

pub prune-IsPaced : (now : ℕ) (l : Limiter) → IsPaced l → IsPaced (pruned now l)
prune-IsPaced now l v = record {
  few = λ fp.
      rw (filter_comm (λ e. e.fingerprint == fp)) (omega (arith, length-filter-le {0}, v.few fp));
  apart = λ fp.
      rw (filter_comm (λ e. e.fingerprint == fp)) (Apart-filter (cooldown l) _ _ (v.apart fp));
}

-- the limiter with one more entry
abbrev pub noted : Entry → Limiter → Limiter
noted e l = record l { action_history = l.action_history ++ e ∷ [] }

matching-snoc_same :
    (fp : String) (h : List Entry) (e : Entry)
    → e.fingerprint ≡ fp
    → matching fp (h ++ e ∷ []) ≡ matching e.fingerprint h ++ e ∷ []
matching-snoc_same fp [] e p = ground (arith, eq_iff e.fingerprint fp)
matching-snoc_same fp (x ∷ h) e p = ground (arith, matching-snoc_same fp h e p)

matching-snoc_other :
    (fp : String) (h : List Entry) (e : Entry)
    → (e.fingerprint == fp) ≡ false
    → matching fp (h ++ e ∷ []) ≡ matching fp h
matching-snoc_other fp [] e p = ground arith
matching-snoc_other fp (x ∷ h) e p = ground (arith, matching-snoc_other fp h e p)

pub noted-IsPaced :
    (e : Entry) (l : Limiter)
    → IsPaced l
    → (judge e.timestamp l (matching e.fingerprint l.action_history)).allowed ≡ true
    → IsPaced (noted e l)
noted-IsPaced e l v h = record { few = few; apart = apart }
  where
    old : List Entry
    old = matching e.fingerprint l.action_history

    tested : (length old < l.limit_per_hour) × All (λ x. x.timestamp + cooldown l ≤ e.timestamp) old
    tested = judge-allowed e.timestamp l old h

    few : (fp : String) → length (matching fp (l.action_history ++ e ∷ [])) ≤ l.limit_per_hour
    few fp = elim (Bool-cases (e.fingerprint == fp)) [
      | inl same ↦
          rw (matching-snoc_same fp l.action_history e ((eq_iff e.fingerprint fp).0 same))
            (omega (arith, length-append old (e ∷ []), tested.0))
      | inr other ↦ rw (matching-snoc_other fp l.action_history e other) (v.few fp)
    ]

    apart : (fp : String) → Apart (cooldown l) (matching fp (l.action_history ++ e ∷ []))
    apart fp = elim (Bool-cases (e.fingerprint == fp)) [
      | inl same ↦
          rw (matching-snoc_same fp l.action_history e ((eq_iff e.fingerprint fp).0 same))
            (Apart-snoc (cooldown l) old e (v.apart e.fingerprint) tested.1)
      | inr other ↦ rw (matching-snoc_other fp l.action_history e other) (v.apart fp)
    ]

pub init-IsPaced : IsPaced init
unfolding init
init-IsPaced = record { few = λ fp. omega arith; apart = λ fp. tt }

module _ (sha256 : String → String) (show : Value → Value → String) where
  -- A check that returns has pruned the history and judged the entries of the action's kind.
  pub check_by-eq-ok :
      (clock : Result ℕ) (action : Fields) (l : Limiter) {l' : Limiter} {verdict : Verdict}
      → check_by sha256 show clock action l ≡ ok (l', verdict)
      → (fp : String) × (now : ℕ) × (fingerprint_of sha256 show action ≡ ok fp)
        × (clock ≡ ok now)
        × (l' ≡ pruned now l)
        × (verdict ≡ judge now l (matching fp (prune now l.action_history)))
  unfolding check_by
  check_by-eq-ok clock action l {l'} {verdict} e =
      let (fp, found, rest) = >>=-eq-ok (fingerprint_of sha256 show action) _ e in
      let (now, read, last) = >>=-eq-ok clock _ rest in
      let same = ok-injective last in
      (fp, now, found, read, sym (ap (λ p. p.0) same), sym (ap (λ p. p.1) same))

  -- A record that returns has added one entry.
  pub note_by-eq-ok :
      (clock : Result ℕ) (action : Fields) (l : Limiter) {l' : Limiter} (fp : String) (now : ℕ)
      → fingerprint_of sha256 show action ≡ ok fp
      → clock ≡ ok now
      → note_by sha256 show clock action l ≡ ok l'
      → l' ≡ noted (record { fingerprint = fp; timestamp = now; action = action }) l
  unfolding note_by
  note_by-eq-ok clock action l fp now found read e = sym (ok-injective (rw (found, read) at e))
