-- ===== src/Messaging/Wire/RoundTrip.antt =====
-- What a message keeps on the wire.
use dev_ops_agent_swarm.Base.{ℕ, ◌≡◌, refl, true}
use dev_ops_agent_swarm.Base.Result.{Result, ok}
use dev_ops_agent_swarm.Base.Value.{Value, get}
use dev_ops_agent_swarm.Messaging.Message.{Fresh}
use dev_ops_agent_swarm.Messaging.Wire.{Envelope, is_str, to_dict, from_dict}

module _ (isoformat : ℕ → Value) (fromisoformat : Value → Result ℕ) where
  -- If `isoformat` gives a text that `fromisoformat` reads back, what `from_dict` makes of `to_dict`
  -- is the same message, whatever the values of its fields and whatever the defaults would draw.
  pub from_dict-to_dict :
      ((t : ℕ) → (is_str (isoformat t) ≡ true) × (fromisoformat (isoformat t) ≡ ok t))
      → (fresh : Fresh) (e : Envelope)
      → from_dict isoformat fromisoformat fresh (to_dict isoformat fromisoformat e) ≡ ok e
  unfolding from_dict to_dict get
  from_dict-to_dict reads fresh e = let (text, back) = reads e.timestamp in rw (text, back) refl
