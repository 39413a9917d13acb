-- ===== src/Io/Match.antt =====
-- What `compute_io_stat` does to each entry of the current list.
use zsr.Prelude.{
  ℕ, ◌≡◌, ◌≢◌, inl, inr, refl, false, List, [], ◌∷◌, ◌++◌, map, same_text, same_text_iff, All,
  arith, Bool-cases, ◌∙◌, ap, ap₂,
}
use zsr.Double.{Double}
use zsr.Io.{Io, compute_entry, compute_against, compute_io_stat}

module _ (D : Double) (hz num_of_cpu : ℕ) where
  open D use {F, of_u64, mul, div}

  pub compute_against-unmatched :
      (curr : Io F) (prevs : List (Io F))
      → All (λ p. curr.dev ≢ p.dev) prevs
      → compute_against D hz num_of_cpu curr prevs ≡ curr
  unfolding compute_against
  compute_against-unmatched curr [] h = refl
  compute_against-unmatched curr (p ∷ prevs) (ne, h) =
      ground (arith, same_text_iff curr.dev p.dev, compute_against-unmatched curr prevs h)

  compute_against-matched :
      (curr : Io F) (before : List (Io F)) (prev : Io F) (after : List (Io F))
      → All (λ p. curr.dev ≢ p.dev) before
      → curr.dev ≡ prev.dev
      → compute_against D hz num_of_cpu curr (before ++ prev ∷ after)
        ≡ compute_entry D hz num_of_cpu curr prev.stat
  unfolding compute_against
  compute_against-matched curr [] prev after h e = ground (arith, same_text_iff curr.dev prev.dev)
  compute_against-matched curr (p ∷ before) prev after (ne, h) e =
      ground
        (arith, same_text_iff curr.dev p.dev, compute_against-matched curr before prev after h e)

  compute_io_stat-append :
      (xs ys prevs : List (Io F))
      → compute_io_stat D hz num_of_cpu (xs ++ ys) prevs
        ≡ compute_io_stat D hz num_of_cpu xs prevs ++ compute_io_stat D hz num_of_cpu ys prevs
  unfolding compute_io_stat
  compute_io_stat-append [] ys prevs = refl
  compute_io_stat-append (x ∷ xs) ys prevs =
      ap (λ t. compute_against D hz num_of_cpu x prevs ∷ t) (compute_io_stat-append xs ys prevs)

  compute_io_stat-nil : (ys : List (Io F)) → compute_io_stat D hz num_of_cpu ys [] ≡ ys
  unfolding compute_io_stat compute_against
  compute_io_stat-nil [] = refl
  compute_io_stat-nil (y ∷ ys) = ap (λ t. y ∷ t) (compute_io_stat-nil ys)

  -- A current entry gets the rates since the first earlier entry of its device, wherever both stand;
  -- the entries around it are treated on their own.
  pub compute_io_stat-matched :
      (xs : List (Io F)) (x : Io F) (ys before : List (Io F)) (prev : Io F) (after : List (Io F))
      → All (λ p. x.dev ≢ p.dev) before
      → x.dev ≡ prev.dev
      → compute_io_stat D hz num_of_cpu (xs ++ x ∷ ys) (before ++ prev ∷ after)
        ≡ compute_io_stat D hz num_of_cpu xs (before ++ prev ∷ after)
          ++ compute_entry D hz num_of_cpu x prev.stat
            ∷ compute_io_stat D hz num_of_cpu ys (before ++ prev ∷ after)
  unfolding compute_io_stat
  compute_io_stat-matched xs x ys before prev after h e =
      rw (compute_io_stat-append xs (x ∷ ys), compute_against-matched x before prev after h e) refl

  -- A device that was not there before keeps its entry as it was read.
  pub compute_io_stat-unmatched :
      (xs : List (Io F)) (x : Io F) (ys prevs : List (Io F))
      → All (λ p. x.dev ≢ p.dev) prevs
      → compute_io_stat D hz num_of_cpu (xs ++ x ∷ ys) prevs
        ≡ compute_io_stat D hz num_of_cpu xs prevs ++ x ∷ compute_io_stat D hz num_of_cpu ys prevs
  unfolding compute_io_stat
  compute_io_stat-unmatched xs x ys prevs h =
      rw (compute_io_stat-append xs (x ∷ ys), compute_against-unmatched x prevs h) refl

  compute_against-dev :
      (curr : Io F) (prevs : List (Io F))
      → ((compute_against D hz num_of_cpu curr prevs).dev ≡ curr.dev)
        × ((compute_against D hz num_of_cpu curr prevs).stat ≡ curr.stat)
  unfolding compute_against compute_entry
  compute_against-dev curr [] = (refl, refl)
  compute_against-dev curr (p ∷ prevs) = elim (Bool-cases (same_text curr.dev p.dev)) [
    | inl same ↦ rw same (refl, refl)
    | inr other ↦ rw other (compute_against-dev curr prevs)
  ]

  compute_against-other :
      (curr p : Io F) (prevs : List (Io F))
      → same_text curr.dev p.dev ≡ false
      → compute_against D hz num_of_cpu curr (p ∷ prevs)
        ≡ compute_against D hz num_of_cpu curr prevs
  unfolding compute_against
  compute_against-other curr p prevs other = rw other refl

  compute_against-again :
      (curr : Io F) (prevs : List (Io F))
      → compute_against D hz num_of_cpu (compute_against D hz num_of_cpu curr prevs) prevs
        ≡ compute_against D hz num_of_cpu curr prevs
  compute_against-again curr [] = unfold compute_against in refl
  compute_against-again curr (p ∷ prevs) = elim (Bool-cases (same_text curr.dev p.dev)) [
    | inl same ↦ unfold compute_against compute_entry in rw (same, same) refl
    | inr other ↦
        rw
          (
            compute_against-other curr p prevs other,
            compute_against-other (compute_against D hz num_of_cpu curr prevs) p prevs
                (ap (λ d. same_text d p.dev) (compute_against-dev curr prevs).0 ∙ other),
          )
          (compute_against-again curr prevs)
  ]

  -- Devices, their order and their counters stay, and a second computation against the same earlier
  -- list changes nothing.
  pub compute_io_stat-again :
      (currs prevs : List (Io F))
      → (map (λ (c : Io F). c.dev) (compute_io_stat D hz num_of_cpu currs prevs)
          ≡ map (λ (c : Io F). c.dev) currs)
        × (map (λ (c : Io F). c.stat) (compute_io_stat D hz num_of_cpu currs prevs)
            ≡ map (λ (c : Io F). c.stat) currs)
        × (compute_io_stat D hz num_of_cpu (compute_io_stat D hz num_of_cpu currs prevs) prevs
            ≡ compute_io_stat D hz num_of_cpu currs prevs)
  unfolding compute_io_stat
  compute_io_stat-again [] prevs = (refl, refl, refl)
  compute_io_stat-again (c ∷ currs) prevs =
      let (devs, stats, twice) = compute_io_stat-again currs prevs in
      let (dev, stat) = compute_against-dev c prevs in
      (ap₂ ◌∷◌ dev devs, ap₂ ◌∷◌ stat stats, ap₂ ◌∷◌ (compute_against-again c prevs) twice)
