-- ===== src/Reading/Detected.antt =====
-- What `detect_objects` of adapters/perception/perception_adapter.py reports of each detection.
use ros2_mcp_server.Base.{
  ℕ, suc, String, ◌≡◌, refl, Bool, true, false, List, [], ◌∷◌, Option, none, some, ◌⊎◌, inl, inr,
  Except, ok, raised, assertion_error, Exception, ◌>>=◌, assert_some, if◌then◌else◌,
}
use ros2_mcp_server.Number.{Number, IsTransitive}
use ros2_mcp_server.Contracts.Results.{ObjectPosition, DetectedObject, DistanceSource, unavailable}
use ros2_mcp_server.Perception.LaserScan.{LaserScanAnalysis}
use ros2_mcp_server.Perception.Bearing.{candidates, estimate_bearing_rad}
use ros2_mcp_server.Perception.Correlated.{Some, Correlation, correlate_distance-Correlation}
use ros2_mcp_server.Navigation.{TransformResult}
use ros2_mcp_server.Reading.Detection.{
  DetectedObject2D, Camera, Placed, detected_object, center_x, in_map, place_by, place, distance_at,
  detect_object, after, detect_each,
}

module _ {R : Type 0} where
  -- The transform is said to be there, and a part of it is missing.
  abbrev pub Incomplete : TransformResult R → Type 0
  Incomplete tf = (tf.ok ≡ true) × ((tf.x ≡ none) ⊎ (tf.y ≡ none) ⊎ (tf.yaw ≡ none))

  -- Why an exception is raised for an object: the lookup raised it, or the code asserts a part that the
  -- transform misses.
  abbrev pub Fails : Except (TransformResult R) → Exception → Type 0
  Fails (raised x) e = e ≡ x
  Fails (ok tf) e = (e ≡ assertion_error) × Incomplete tf

  -- A transform, which is said to be there or not.
  abbrev pub Answered : Bool → Except (TransformResult R) → Type 0
  Answered b (raised e) = ⊥
  Answered b (ok tf) = tf.ok ≡ b

  -- The ways in which an object comes to a position, by its distance: no distance, no position; in the
  -- robot's frame only where there is no localization, and in the map's only with a transform.
  pub data Located (localized : Bool) (base_frame : String) (tf : Except (TransformResult R))
      : Option R → Option (ObjectPosition R) → Option String → Type 0 where
    unseen : Located localized base_frame tf none none none
    in_base_frame :
        (d : R) (p : ObjectPosition R)
        → localized ≡ false
        → p.frame ≡ base_frame
        → Located localized base_frame tf (some d) (some p) none
    in_the_map :
        (d : R) (p : ObjectPosition R)
        → localized ≡ true
        → Answered true tf
        → p.frame ≡ "map"
        → Located localized base_frame tf (some d) (some p) none
    lost :
        (d : R)
        → localized ≡ true
        → Answered false tf
        → Located localized base_frame tf (some d) none (some "TF_UNAVAILABLE")

  module _ (localized : Bool) (base_frame : String) (tf : Except (TransformResult R)) where
    abbrev Placing : Option R → Except (Placed R) → Type 0
    Placing distance_m (ok (position, position_error)) =
        Located localized base_frame tf distance_m position position_error
    Placing distance_m (raised e) = (localized ≡ true) × Fails tf e

module _ {R : Type 0} ⦃n : Number R⦄ where
  assert-Placing :
      (localized : Bool) (base_frame : String) (tf : TransformResult R) (d x_local y_local : R)
      → localized ≡ true
      → tf.ok ≡ true
      → (x y yaw : Option R) → tf.x ≡ x
      → tf.y ≡ y
      → tf.yaw ≡ yaw
      → Placing localized base_frame (ok tf) (some d) (
          assert_some x >>= (λ a.
            assert_some y
            >>= (λ b. assert_some yaw >>= (λ c. ok (some (in_map a b c x_local y_local), none)))))
  assert-Placing l base tf d xl yl hl ht none y yaw hx hy hw = (hl, (refl, (ht, inl hx)))
  assert-Placing l base tf d xl yl hl ht (some x) none yaw hx hy hw =
      (hl, (refl, (ht, inr (inl hy))))
  assert-Placing l base tf d xl yl hl ht (some x) (some y) none hx hy hw =
      (hl, (refl, (ht, inr (inr hw))))
  assert-Placing l base tf d xl yl hl ht (some x) (some y) (some yaw) hx hy hw =
      in_the_map d _ hl ht refl

  place_by-Placing :
      (localized : Bool) (base_frame : String) (tf : TransformResult R) (d x_local y_local : R)
      → localized ≡ true
      → Placing localized base_frame (ok tf) (some d) (place_by tf x_local y_local)
  place_by-Placing l base tf d xl yl hl = by_ok tf.ok refl
    where
      by_ok :
          (b : Bool)
          → tf.ok ≡ b
          → Placing l base (ok tf) (some d) (
              if b
              then assert_some tf.x >>= (λ x.
                assert_some tf.y
                >>= (λ y. assert_some tf.yaw >>= (λ yaw. ok (some (in_map x y yaw xl yl), none))))
              else ok (none, some "TF_UNAVAILABLE"))
      by_ok true e = assert-Placing l base tf d xl yl hl e tf.x tf.y tf.yaw refl refl refl
      by_ok false e = lost d hl e

  place-Placing :
      (localized : Bool) (base_frame : String) (tf : Except (TransformResult R)) (bearing : R)
      (distance_m : Option R)
      → Placing localized base_frame tf distance_m
          (place localized base_frame tf bearing distance_m)
  place-Placing l base tf bearing none = unseen
  place-Placing true base (raised e) bearing (some d) = (refl, refl)
  place-Placing true base (ok tf) bearing (some d) = place_by-Placing true base tf d _ _ refl
  place-Placing false base tf bearing (some d) = in_base_frame d _ refl refl

  module _ {M : Type 0} (turns : ℕ) (camera : Camera R M) (width : R)
      (analysis : Option (LaserScanAnalysis R)) (localized : Bool) where
    abbrev pub bearing_of : DetectedObject2D R → R
    bearing_of det = estimate_bearing_rad (center_x det.bbox_px) width camera.horizontal_fov_rad

    -- What the distance and its source are: none without a scan, and else the correlation's answer.
    abbrev pub Measured :
        DetectedObject2D R
        → Option (LaserScanAnalysis R)
        → Option (Option R × DistanceSource)
        → Type 0
    Measured det none o = o ≡ some (none, unavailable)
    Measured det (some a) o =
        Correlation turns (bearing_of det) camera.bearing_tolerance_rad (candidates a) o

    -- How an object reports the detection of index `i`.
    pub record IsReport (i : ℕ) (det : DetectedObject2D R) (o : DetectedObject R) : Type 0 where
      pub label : o.label ≡ det.label
      pub confidence : o.confidence ≡ det.confidence
      pub bbox_px : o.bbox_px ≡ det.bbox_px
      pub measured : Measured det analysis (some (o.distance_m, o.distance_source))
      pub located :
          Located localized camera.base_frame
            (camera.transforms i)
            o.distance_m
            o.position
            o.position_error

    -- One object for each detection, in their order.
    abbrev pub Reports : ℕ → List (DetectedObject2D R) → List (DetectedObject R) → Type 0
    Reports i [] [] = Unit
    Reports i (d ∷ ds) (o ∷ os) = IsReport i d o × Reports (suc i) ds os
    Reports i _ _ = ⊥

    -- The loops outrun their fuel at the bearing of a detection.
    abbrev pub Stuck : DetectedObject2D R → Type 0
    Stuck det = distance_at turns analysis (bearing_of det) camera.bearing_tolerance_rad ≡ none

    -- The exception is raised for one of the detections, counted from `i`.
    abbrev pub SomeFails : ℕ → List (DetectedObject2D R) → Exception → Type 0
    SomeFails i [] e = ⊥
    SomeFails i (d ∷ ds) e = Fails (camera.transforms i) e ⊎ SomeFails (suc i) ds e

    -- `N` where there is no answer, `E` of the exception where one is raised, and else a value with `P`.
    abbrev pub Outcome :
        {A : Type 0} → Type 0 → (Exception → Type 0) → (A → Type 0) → Option (Except A) → Type 0
    Outcome N E P none = N
    Outcome N E P (some (raised e)) = (localized ≡ true) × E e
    Outcome N E P (some (ok a)) = P a

    abbrev OutcomeOne : ℕ → DetectedObject2D R → Option (Except (DetectedObject R)) → Type 0
    OutcomeOne i det = Outcome (Stuck det) (Fails (camera.transforms i)) (IsReport i det)

    abbrev pub OutcomeAll :
        {A : Type 0} → ℕ → List (DetectedObject2D R) → (A → Type 0) → Option (Except A) → Type 0
    OutcomeAll i ds = Outcome (Some Stuck ds) (SomeFails i ds)

    distance_at-Measured :
        IsTransitive n
        → (det : DetectedObject2D R) (a : Option (LaserScanAnalysis R))
        → Measured det a (distance_at turns a (bearing_of det) camera.bearing_tolerance_rad)
    distance_at-Measured laws det none = refl
    distance_at-Measured laws det (some a) =
        correlate_distance-Correlation turns (bearing_of det) laws a camera.bearing_tolerance_rad

    placed-Outcome :
        (i : ℕ) (det : DetectedObject2D R) (d : Option R) (source : DistanceSource)
        → Measured det analysis (some (d, source))
        → (r : Except (Placed R)) → Placing localized camera.base_frame (camera.transforms i) d r
        → OutcomeOne i det (some (r >>= (λ placed. ok (detected_object det d source placed))))
    placed-Outcome i det d source m (raised e) (hl, h) = (hl, h)
    placed-Outcome i det d source m (ok (p, pe)) h = record {
      label = refl;
      confidence = refl;
      bbox_px = refl;
      measured = m;
      located = h;
    }

    detect_object-Outcome :
        IsTransitive n
        → (i : ℕ) (det : DetectedObject2D R)
        → OutcomeOne i det (detect_object turns camera width analysis localized i det)
    unfolding detect_object
    detect_object-Outcome laws i det = by_distance _ refl (distance_at-Measured laws det analysis)
      where
        by_distance :
            (o : Option (Option R × DistanceSource))
            → distance_at turns analysis (bearing_of det) camera.bearing_tolerance_rad ≡ o
            → Measured det analysis o
            → OutcomeOne i det (elim o [
              | none ↦ none
              | some (d, source) ↦ some (
                  place localized camera.base_frame (camera.transforms i) (bearing_of det) d
                  >>= (λ placed. ok (detected_object det d source placed)))
            ])
        by_distance none e m = e
        by_distance (some (d, source)) e m =
            placed-Outcome i det d source m _
              (place-Placing localized camera.base_frame (camera.transforms i) (bearing_of det) d)

    after-Outcome :
        (i : ℕ) (d : DetectedObject2D R) (ds : List (DetectedObject2D R))
        (o : Option (Except (DetectedObject R))) (rest : Option (Except (List (DetectedObject R))))
        → OutcomeOne i d o
        → OutcomeAll (suc i) ds (Reports (suc i) ds) rest
        → OutcomeAll i (d ∷ ds) (Reports i (d ∷ ds)) (after o rest)
    after-Outcome i d ds none rest h k = inl h
    after-Outcome i d ds (some (raised e)) rest (hl, h) k = (hl, inl h)
    after-Outcome i d ds (some (ok o)) none h k = inr k
    after-Outcome i d ds (some (ok o)) (some (raised e)) h (kl, k) = (kl, inr k)
    after-Outcome i d ds (some (ok o)) (some (ok os)) h k = (h, k)

    -- Where the order of the numbers is transitive, the loop over the detections gives one object for
    -- each, in their order, with its label, confidence and box, the distance that the scan shows at its
    -- bearing (none without a scan), and a position in the frame "map" only with the localization and
    -- a transform, in the robot's frame only without the localization, and nowhere without a distance.
    -- It raises only what the lookup of one's transform raised, or an assertion where that transform,
    -- said to be there, misses a part, and has no answer only where the loops of `_angular_delta`
    -- outrun their fuel at the bearing of one.
    pub detect_each-Reports :
        IsTransitive n
        → (i : ℕ) (ds : List (DetectedObject2D R))
        → OutcomeAll i ds (Reports i ds) (detect_each turns camera width analysis localized i ds)
    unfolding detect_each
    detect_each-Reports laws i [] = tt
    detect_each-Reports laws i (d ∷ ds) =
        after-Outcome i d ds _ _ (detect_object-Outcome laws i d)
          (detect_each-Reports laws (suc i) ds)
