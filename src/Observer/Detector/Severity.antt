-- ===== src/Observer/Detector/Severity.antt =====
-- Which threshold of a severity map a value is reported with.
use dev_ops_agent_swarm.Base.{
  ◌≡◌, String, true, false, [], ◌∷◌, Option, none, some, Dict, All, In, ◌⊎◌,
}
use dev_ops_agent_swarm.Base.Value.{Value}
use dev_ops_agent_swarm.Observer.Detector.{Detector}
use dev_ops_agent_swarm.Observer.Numbers.{Numbers}

module _ (n : Numbers) where
  open n use {Float, to_value}

  -- what is right of a choice among the entries for a value: none is reached, or the chosen entry is
  -- reached and each other is not, or is not higher
  abbrev pub Highest : Float → Dict Float → Option (String × Float) → Type 0
  Highest x entries none = All (λ e. n.leb e.1 x ≡ false) entries
  Highest x entries (some e) =
      In e entries
      × (n.leb e.1 x ≡ true)
      × All (λ f. (n.leb f.1 x ≡ false) ⊎ (n.leb f.1 e.1 ≡ true)) entries

  abbrev Descending : Dict Float → Type 0
  Descending [] = Unit
  Descending (e ∷ es) = All (λ f. n.leb f.1 e.1 ≡ true) es × Descending es
