-- ===== src/Perception/Correlated.antt =====
-- The candidate that `correlate_distance` of perception/detection_geometry.py picks.
use ros2_mcp_server.Base.{
  ℕ, ◌≡◌, refl, sym, ap, subst, true, false, List, [], ◌∷◌, Option, none, some, All, ◌⊎◌, inl, inr,
  Bool-cases, Option-cases,
}
use ros2_mcp_server.Number.{Number, IsTransitive, abs}
use ros2_mcp_server.Contracts.Results.{
  RangeReading, DistanceSource, unavailable, laser_scan_correlation,
}
use ros2_mcp_server.Perception.LaserScan.{LaserScanAnalysis}
use ros2_mcp_server.Perception.Bearing.{
  Match, candidates, answer_of, angular_delta, weigh, weigh_all, correlate_distance,
}

-- Some element of a list.
abbrev pub Some {ℓ} : {A : Type ℓ} → (A → Type 0) → List A → Type 0
Some P [] = ⊥
Some P (x ∷ xs) = P x ⊎ Some P xs

module _ {R : Type 0} ⦃n : Number R⦄ (turns : ℕ) (bearing_rad : R) where
  open n use {le}

  -- A property of the distance in angle of a reading, where there is one and its loops end.
  abbrev pub AtDelta : (RangeReading R → R → Type 0) → Option (RangeReading R) → Type 0
  AtDelta P none = Unit
  AtDelta P (some r) = (x : R) → angular_delta turns r.angle_rad bearing_rad ≡ some x → P r (abs x)

  -- The loops of `_angular_delta` outran their fuel on a reading.
  abbrev pub Diverges : Option (RangeReading R) → Type 0
  Diverges none = ⊥
  Diverges (some r) = angular_delta turns r.angle_rad bearing_rad ≡ none

  -- A reading with the range `d` and the distance in angle `delta`.
  abbrev pub IsReading : R → R → Option (RangeReading R) → Type 0
  IsReading d delta none = ⊥
  IsReading d delta (some r) =
      (r.range_m ≡ d)
      × ((x : R) × (angular_delta turns r.angle_rad bearing_rad ≡ some x) × (abs x ≡ delta))

  -- No candidate is within `delta`.
  abbrev pub NoneWithin : R → List (Option (RangeReading R)) → Type 0
  NoneWithin delta cs = All (AtDelta (λ _ x. le x delta ≡ false)) cs

  -- No candidate is closer in angle than `delta`.
  abbrev pub NoneCloser : R → List (Option (RangeReading R)) → Type 0
  NoneCloser delta cs = All (AtDelta (λ _ x. le x delta ≡ true → le delta x ≡ true)) cs

  -- What `correlate_distance` answers for the candidates `cs`, whatever their order.
  abbrev pub Correlation :
      R → List (Option (RangeReading R)) → Option (Option R × DistanceSource) → Type 0
  Correlation tolerance_rad cs none = Some Diverges cs
  Correlation tolerance_rad cs (some (none, source)) =
      (source ≡ unavailable) × NoneWithin tolerance_rad cs
  Correlation tolerance_rad cs (some (some d, source)) =
      (source ≡ laser_scan_correlation)
      × ((delta : R) × (le delta tolerance_rad ≡ true)
          × Some (IsReading d delta) cs
          × NoneCloser delta cs)

  -- How the loop over `cs`, begun with `m`, ends.
  abbrev Weighed : Match R → List (Option (RangeReading R)) → Option (Match R) → Type 0
  Weighed m cs none = Some Diverges cs
  Weighed m cs (some m') =
      ((m' ≡ m) × NoneWithin m.best_delta cs)
      ⊎ ((d : R) × (m'.best ≡ some d)
          × (le m'.best_delta m.best_delta ≡ true)
          × Some (IsReading d m'.best_delta) cs
          × NoneCloser m'.best_delta cs)

  NoneWithin-NoneCloser :
      (delta : R) (cs : List (Option (RangeReading R))) → NoneWithin delta cs → NoneCloser delta cs
  NoneWithin-NoneCloser delta [] h = tt
  NoneWithin-NoneCloser delta (none ∷ cs) h = (tt, NoneWithin-NoneCloser delta cs h.1)
  NoneWithin-NoneCloser delta (some r ∷ cs) h =
      (λ x e k. absurd (cc (h.0 x e, k)), NoneWithin-NoneCloser delta cs h.1)

  module _ (trans : IsTransitive n) where
    -- A reading that was taken, before the rest of the candidates.
    taken-Weighed :
        (r : RangeReading R) (diff : R) (m : Match R) (cs : List (Option (RangeReading R)))
        → angular_delta turns r.angle_rad bearing_rad ≡ some diff
        → le (abs diff) m.best_delta ≡ true
        → (o : Option (Match R))
        → Weighed (record { best = some r.range_m; best_delta = abs diff }) cs o
        → Weighed m (some r ∷ cs) o
    taken-Weighed r diff m cs e h none w = inr w
    taken-Weighed r diff m cs e h (some m') (inl (same, far)) =
        let q = ap (λ z. z.best_delta) same in
        inr (
          r.range_m,
          ap (λ z. z.best) same,
          cc q,
          inl (refl, (diff, e, sym q)),
          (
            λ x f k. cc q,
            NoneWithin-NoneCloser m'.best_delta cs (subst (λ y. NoneWithin y cs) (sym q) far),
          ),
        )
    taken-Weighed r diff m cs e h (some m') (inr (d, b, l, found, near)) =
        inr (d, b, trans _ _ _ l h, inr found, (λ x f k. cc, near))

    passed-Weighed :
        (r : RangeReading R) (diff : R) (m : Match R) (cs : List (Option (RangeReading R)))
        → angular_delta turns r.angle_rad bearing_rad ≡ some diff
        → le (abs diff) m.best_delta ≡ false
        → (o : Option (Match R)) → Weighed m cs o
        → Weighed m (some r ∷ cs) o
    passed-Weighed r diff m cs e h none w = inr w
    passed-Weighed r diff m cs e h (some m') (inl (same, far)) = inl (same, (λ x f. cc, far))
    passed-Weighed r diff m cs e h (some m') (inr (d, b, l, found, near)) =
        inr (d, b, l, inr found, (λ x f k. absurd (cc (trans _ _ _ k l)), near))

    none-Weighed :
        (m : Match R) (cs : List (Option (RangeReading R))) (o : Option (Match R))
        → Weighed m cs o
        → Weighed m (none ∷ cs) o
    none-Weighed m cs none w = inr w
    none-Weighed m cs (some m') (inl (same, far)) = inl (same, (tt, far))
    none-Weighed m cs (some m') (inr (d, b, l, found, near)) = inr (d, b, l, inr found, (tt, near))

    weigh_all-Weighed :
        (cs : List (Option (RangeReading R))) (m : Match R)
        → Weighed m cs (weigh_all turns bearing_rad cs m)
    unfolding weigh_all weigh
    weigh_all-Weighed [] m = inl (refl, tt)
    weigh_all-Weighed (none ∷ cs) m = none-Weighed m cs _ (weigh_all-Weighed cs m)
    weigh_all-Weighed (some r ∷ cs) m =
        elim (Option-cases (angular_delta turns r.angle_rad bearing_rad)) [
          | inl e ↦ rw (Weighed, weigh_all, weigh, e) (inl e)
          | inr (diff, e) ↦ elim (Bool-cases (le (abs diff) m.best_delta)) [
            | inl h ↦
                rw (Weighed, weigh_all, weigh, e, h)
                  (taken-Weighed r diff m cs e h _ (weigh_all-Weighed cs _))
            | inr h ↦
                rw (Weighed, weigh_all, weigh, e, h)
                  (passed-Weighed r diff m cs e h _ (weigh_all-Weighed cs m))
          ]
        ]

    Weighed-Correlation :
        (tolerance_rad : R) (cs : List (Option (RangeReading R))) (o : Option (Match R))
        → Weighed (record { best = none; best_delta = tolerance_rad }) cs o
        → Correlation tolerance_rad cs (answer_of o)
    Weighed-Correlation tolerance_rad cs none w = w
    Weighed-Correlation tolerance_rad cs (some m) (inl (same, far)) =
        rw (ap (λ z. z.best) same) (refl, far)
    Weighed-Correlation tolerance_rad cs (some m) (inr (d, b, l, found, near)) =
        rw b (refl, (m.best_delta, l, found, near))

    -- Where the order of the numbers is transitive, `correlate_distance` answers `unavailable` and no
    -- distance exactly where no candidate (the nearest, the farthest and the nearest of each sector) is
    -- within the tolerance of the bearing; else it answers the range of a candidate that is, and no
    -- candidate is at a strictly smaller angle from the bearing. It has no answer only where the loops of
    -- `_angular_delta` outran their fuel on a candidate.
    pub correlate_distance-Correlation :
        (analysis : LaserScanAnalysis R) (tolerance_rad : R)
        → Correlation tolerance_rad
            (candidates analysis)
            (correlate_distance turns analysis bearing_rad tolerance_rad)
    unfolding correlate_distance
    correlate_distance-Correlation analysis tolerance_rad =
        Weighed-Correlation tolerance_rad (candidates analysis) _
          (weigh_all-Weighed (candidates analysis) _)
