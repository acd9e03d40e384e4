-- ===== src/Observer/Detector/Window.antt =====
-- What a detector's windows hold.
use dev_ops_agent_swarm.Base.{
  ℕ, ◌+◌, ◌≤◌, ◌≡◌, refl, ap, ◌∙◌, sym, String, false, List, [], ◌∷◌, ◌++◌, length, length-append,
  last_of, lookup, lookup-insert, leb, arith, ◌==◌, eq_iff, Bool-cases, inl, inr, if◌then◌else◌,
}
use dev_ops_agent_swarm.Base.Value.{Value}
use dev_ops_agent_swarm.Observer.Detector.{Detector, window, record_value}
use dev_ops_agent_swarm.Observer.Numbers.{Numbers}

module _ {A : Type 0} where
  last_of-all : (n : ℕ) (xs : List A) → length xs ≤ n → last_of n xs ≡ xs
  unfolding last_of
  last_of-all n [] h = refl
  last_of-all n (x ∷ xs) h = ground arith

  -- dropping from the front before an append changes nothing of what is kept after it
  last_of-last_of : (n : ℕ) (xs ys : List A) → last_of n (last_of n xs ++ ys) ≡ last_of n (xs ++ ys)
  unfolding last_of
  last_of-last_of n [] ys = refl
  last_of-last_of n (x ∷ xs) ys = elim (Bool-cases (leb (length xs + 1) n)) [
    | inl fits ↦ rw fits refl
    | inr long ↦
        let longer : leb (length (xs ++ ys) + 1) n ≡ false = ground (arith, length-append xs ys) in
        rw (long, longer) (last_of-last_of n xs ys)
  ]

  length-last_of : (n : ℕ) (xs : List A) → length (last_of n xs) ≤ n
  unfolding last_of
  length-last_of n [] = omega arith
  length-last_of n (x ∷ xs) = ground (arith, length-last_of n xs)

module _ (n : Numbers) (key : String → Value → String) where
  open n use {Float}

  -- readings that are recorded one after the other
  abbrev pub record_all : List (String × Value × Float) → Detector Float → Detector Float
  record_all [] d = d
  record_all ((metric, service, value) ∷ rest) d =
      record_all rest (record_value n key metric service value d)

  -- the values among them of one metric and service
  abbrev pub readings_of : String → List (String × Value × Float) → List Float
  readings_of k [] = []
  readings_of k ((metric, service, value) ∷ rest) =
      if key metric service == k then value ∷ readings_of k rest else readings_of k rest

  size-record_value :
      (metric : String) (service : Value) (value : Float) (d : Detector Float)
      → (record_value n key metric service value d).window_size ≡ d.window_size
  unfolding record_value
  size-record_value metric service value d = refl

  window-record_value :
      (k metric : String) (service : Value) (value : Float) (d : Detector Float)
      → window k (record_value n key metric service value d) ≡ (
          if key metric service == k
          then last_of d.window_size (window k d ++ value ∷ [])
          else window k d)
  unfolding record_value
  window-record_value k metric service value d = elim (Bool-cases (key metric service == k)) [
    | inl same ↦
        let one : key metric service ≡ k = (eq_iff (key metric service) k).0 same in
        rw
          (
            lookup-insert (key metric service) k
                (last_of d.window_size (window (key metric service) d ++ value ∷ [])) d.windows,
            same,
          )
          (ap (λ j. last_of d.window_size (window j d ++ value ∷ [])) one)
    | inr other ↦
        rw
          (
            lookup-insert (key metric service) k
                (last_of d.window_size (window (key metric service) d ++ value ∷ [])) d.windows,
            other,
          )
          refl
  ]

  append_assoc_one :
      (xs : List Float) (v : Float) (ys : List Float) → (xs ++ v ∷ []) ++ ys ≡ xs ++ v ∷ ys
  append_assoc_one [] v ys = refl
  append_assoc_one (x ∷ xs) v ys = ap (λ zs. x ∷ zs) (append_assoc_one xs v ys)

  append_nothing : (xs : List Float) → xs ++ [] ≡ xs
  append_nothing [] = refl
  append_nothing (x ∷ xs) = ap (λ zs. x ∷ zs) (append_nothing xs)

  window-record_all :
      (k : String) (rs : List (String × Value × Float)) (d : Detector Float)
      → length (window k d) ≤ d.window_size
      → window k (record_all rs d) ≡ last_of d.window_size (window k d ++ readings_of k rs)
  window-record_all k [] d h = sym (
      ap (last_of d.window_size) (append_nothing (window k d))
      ∙ last_of-all d.window_size (window k d) h)
  window-record_all k ((metric, service, value) ∷ rest) d h =
      let d' = record_value n key metric service value d in
      elim (Bool-cases (key metric service == k)) [
        | inl same ↦
            let now : window k d' ≡ last_of d.window_size (window k d ++ value ∷ []) =
              rw (window-record_value k metric service value d, same) refl in
            let fits : length (window k d') ≤ d.window_size =
              rw now (length-last_of d.window_size (window k d ++ value ∷ [])) in
            rw same (
              window-record_all k rest d' (rw (size-record_value metric service value d) fits)
              ∙ rw (now, size-record_value metric service value d)
                  (last_of-last_of d.window_size (window k d ++ value ∷ []) (readings_of k rest)
                    ∙ ap (last_of d.window_size)
                        (append_assoc_one (window k d) value (readings_of k rest))))
        | inr other ↦
            let now : window k d' ≡ window k d =
              rw (window-record_value k metric service value d, other) refl in
            rw other (
              window-record_all k rest d' (rw (size-record_value metric service value d, now) h)
              ∙ rw (now, size-record_value metric service value d) refl)
      ]

  -- Whatever is recorded by a new detector: the window of a metric and a service holds the last
  -- values recorded for them, in their order, as many as the window has room for.
  pub window-readings :
      (k : String) (size points : ℕ) (rs : List (String × Value × Float))
      → window k
          (record_all rs (record { window_size = size; min_data_points = points; windows = [] }))
        ≡ last_of size (readings_of k rs)
  unfolding lookup
  window-readings k size points rs =
      window-record_all k rs (record { window_size = size; min_data_points = points; windows = [] })
        (omega arith)
