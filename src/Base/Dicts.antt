-- ===== src/Base/Dicts.antt =====
-- A Python `dict` with text keys: an association list in insertion order. An assignment to a
-- present key keeps its place, and a new key goes to the end.
use Prim.Native.String.{String}
use mathlib.Core.List.{List, [], ◌∷◌}
use mathlib.Core.Logic.{◌≢◌, inl, inr}
use mathlib.Core.Option.{Option, none, some}
use mathlib.Core.Path.{◌≡◌, refl, subst, sym}
use native.Mathlib.Omega.{arith}
use text.Mathlib.Text.{◌==◌}
use text.Mathlib.TextEquality.{eq_iff}
use dev_ops_agent_swarm.Base.Lists.{All, In}
use dev_ops_agent_swarm.Base.Tests.{Bool-cases, if◌then◌else◌}

abbrev pub Dict {ℓ} : Type ℓ → Type ℓ
Dict V = List (String × V)

module _ {ℓ} {V : Type ℓ} where
  -- `d.get(k)`
  unfoldable pub lookup : String → Dict V → Option V
  lookup k [] = none
  lookup k ((j, v) ∷ d) = if j == k then some v else lookup k d

  -- `d[k] = v`
  unfoldable pub insert : String → V → Dict V → Dict V
  insert k v [] = (k, v) ∷ []
  insert k v ((j, w) ∷ d) = if j == k then (j, v) ∷ d else (j, w) ∷ insert k v d

  -- `del d[k]`, where `k` is present; keys are distinct
  unfoldable pub remove : String → Dict V → Dict V
  remove k [] = []
  remove k ((j, w) ∷ d) = let rest = remove k d in if j == k then rest else (j, w) ∷ rest

module _ {ℓ} {V : Type ℓ} where
  pub lookup-insert :
      (k j : String) (v : V) (d : Dict V)
      → lookup j (insert k v d) ≡ (if k == j then some v else lookup j d)
  unfolding lookup insert
  lookup-insert k j v [] = refl
  lookup-insert k j v ((i, w) ∷ d) =
      ground (arith, eq_iff k j, eq_iff i k, eq_iff i j, lookup-insert k j v d)

  pub lookup-insert_self : (k : String) (v : V) (d : Dict V) → lookup k (insert k v d) ≡ some v
  lookup-insert_self k v d = ground (arith, lookup-insert k k v d, eq_iff k k)

  pub lookup-insert_ne :
      (k j : String) (v : V) (d : Dict V) → k ≢ j → lookup j (insert k v d) ≡ lookup j d
  lookup-insert_ne k j v d h = ground (arith, lookup-insert k j v d, eq_iff k j)

  pub lookup-remove :
      (k j : String) (d : Dict V) → lookup j (remove k d) ≡ (if k == j then none else lookup j d)
  unfolding lookup remove
  lookup-remove k j [] = ground arith
  lookup-remove k j ((i, w) ∷ d) =
      ground (arith, eq_iff k j, eq_iff i k, eq_iff i j, lookup-remove k j d)

  pub lookup-remove_self : (k : String) (d : Dict V) → lookup k (remove k d) ≡ none
  lookup-remove_self k d = ground (arith, lookup-remove k k d, eq_iff k k)

  -- What holds of each entry holds of an entry that is found, and survives an assignment.
  pub All-lookup {κ} :
      (P : String × V → Type κ) (k : String) (d : Dict V) {v : V}
      → All P d
      → lookup k d ≡ some v
      → P (k, v)
  unfolding lookup
  All-lookup P k [] h e = cc
  All-lookup P k ((j, w) ∷ d) {v = v} h e = elim (Bool-cases (j == k)) [
    | inl same ↦ let eq : (j, w) ≡ (k, v) = ground (arith, eq_iff j k) in subst P eq h.0
    | inr other ↦ All-lookup P k d h.1 (ground (arith, eq_iff j k))
  ]

  pub All-insert {κ} :
      (P : String × V → Type κ) (k : String) (v : V) (d : Dict V)
      → All P d
      → P (k, v)
      → All P (insert k v d)
  unfolding insert
  All-insert P k v [] h p = (p, tt)
  All-insert P k v ((j, w) ∷ d) h p = ground (arith, eq_iff j k, All-insert P k v d h.1 p)

  -- The keys of a dictionary are distinct.
  abbrev pub Distinct : Dict V → Type ℓ
  Distinct [] = Unit
  Distinct ((k, _) ∷ d) = (lookup k d ≡ none) × Distinct d

  pub Distinct-insert : (k : String) (v : V) (d : Dict V) → Distinct d → Distinct (insert k v d)
  unfolding insert lookup
  Distinct-insert k v [] h = (refl, tt)
  Distinct-insert k v ((j, w) ∷ d) h = elim (Bool-cases (j == k)) [
    | inl same ↦ rw same h
    | inr other ↦ rw other (
      ground (arith, eq_iff j k, eq_iff k j, lookup-insert k j v d, h.0),
      Distinct-insert k v d h.1,
    )
  ]

module _ {V : Type 0} where
  -- the value of an entry is found under its key
  pub In-lookup : (e : String × V) (d : Dict V) → Distinct d → In e d → lookup e.0 d ≡ some e.1
  unfolding lookup
  In-lookup e [] h nowhere = elim nowhere [ ]
  In-lookup e ((j, w) ∷ d) h (inl here) = rw here (ground (arith, eq_iff j j))
  In-lookup e ((j, w) ∷ d) h (inr there) = elim (Bool-cases (j == e.0)) [
    | inl same ↦
        let later : lookup j d ≡ some e.1 =
          subst (λ i. lookup i d ≡ some e.1) (sym ((eq_iff j e.0).0 same))
            (In-lookup e d h.1 there) in
        ground (arith, h.0, later)
    | inr other ↦ rw other (In-lookup e d h.1 there)
  ]
