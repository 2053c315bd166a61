-- ===== src/Reading/Detection.antt =====
-- src/ros_mcp/adapters/perception/perception_adapter.py: `detect_objects`. What the image library and
-- the detector's plugin do with a message, and the answers of the TF adapter, are in Camera.
use ros2_mcp_server.Base.{
  ℕ, suc, ◌+◌, String, Bool, List, [], ◌∷◌, Option, none, some, map, is_some, contains,
  if◌then◌else◌, Except, ok, raised, ◌>>=◌, assert_some,
}
use ros2_mcp_server.Number.{Number, nat}
use ros2_mcp_server.Json.{text}
use ros2_mcp_server.Contracts.Core.{ErrorCode, plain_error, detect_objects_result}
use ros2_mcp_server.Contracts.Results.{
  ObjectPosition, DetectedObject, DistanceSource, unavailable, Payload, Status, ToolResult,
}
use ros2_mcp_server.Execution.ErrorResults.{build_error_result}
use ros2_mcp_server.Capabilities.Registry.{find_entry}
use ros2_mcp_server.Subscriptions.Pool.{CachedMessage, get_latest}
use ros2_mcp_server.Perception.LaserScan.{LaserScanAnalysis, analyze_laser_scan}
use ros2_mcp_server.Perception.Bearing.{estimate_bearing_rad, correlate_distance}
use ros2_mcp_server.Navigation.{TransformResult}
use ros2_mcp_server.Reading.{Sources, topic_of, latest_of}

pub record DetectedObject2D (R : Type 0) : Type 0 where
  pub label : String
  pub confidence : R
  pub bbox_px : ℕ × ℕ × ℕ × ℕ
  pub text_content : Option String

pub record Camera (R M : Type 0) : Type 0 where
  pub width_px : M → Except R  -- the width of the image that _to_raw_image makes of a message
  pub detect : M → Except (List (DetectedObject2D R))  -- what the plugin detects in that image
  pub transforms : ℕ → Except (TransformResult R)  -- the answer for the object of an index
  pub horizontal_fov_rad : R
  pub bearing_tolerance_rad : R
  pub base_frame : String
  pub plugin_id : String

-- position and position_error
abbrev pub Placed : Type 0 → Type 0
Placed R = Option (ObjectPosition R) × Option String

module _ {R : Type 0} where
  -- The detections whose label is asked for; no labels, or none given, ask for all.
  abbrev pub allowed : List String → List (DetectedObject2D R) → List (DetectedObject2D R)
  allowed labels [] = []
  allowed labels (d ∷ ds) =
      if contains labels d.label then d ∷ allowed labels ds else allowed labels ds

  abbrev pub selected : Option (List String) → List (DetectedObject2D R) → List (DetectedObject2D R)
  selected none ds = ds
  selected (some []) ds = ds
  selected (some (l ∷ ls)) ds = allowed (l ∷ ls) ds

  abbrev pub detected_object :
      DetectedObject2D R → Option R → DistanceSource → Placed R → DetectedObject R
  detected_object det distance_m source (position, position_error) = record {
    label = det.label;
    confidence = det.confidence;
    distance_m = distance_m;
    distance_source = source;
    position = position;
    position_error = position_error;
    bbox_px = det.bbox_px;
  }

module _ {R : Type 0} ⦃n : Number R⦄ where
  open n use {plus, minus, times, over, cos, sin}

  abbrev pub center_x : ℕ × ℕ × ℕ × ℕ → R
  center_x (left, top, right, bottom) = over (nat (left + right)) (nat 2)

  abbrev pub in_map : R → R → R → R → R → ObjectPosition R
  in_map tf_x tf_y yaw x_local y_local = record {
    x = minus (plus tf_x (times x_local (cos yaw))) (times y_local (sin yaw));
    y = plus (plus tf_y (times x_local (sin yaw))) (times y_local (cos yaw));
    frame = "map";
  }

  abbrev pub place_by : TransformResult R → R → R → Except (Placed R)
  place_by tf x_local y_local =
      if tf.ok
      then assert_some tf.x >>= (λ x.
        assert_some tf.y
        >>= (λ y. assert_some tf.yaw >>= (λ yaw. ok (some (in_map x y yaw x_local y_local), none))))
      else ok (none, some "TF_UNAVAILABLE")

  -- `tf` is the answer of the TF adapter; `localized`, that the registry has the localization.
  abbrev pub place : Bool → String → Except (TransformResult R) → R → Option R → Except (Placed R)
  place localized base_frame tf bearing none = ok (none, none)
  place localized base_frame tf bearing (some distance_m) =
      let x_local = times distance_m (cos bearing) in
      let y_local = times distance_m (sin bearing) in
      if localized
      then tf >>= (λ answer. place_by answer x_local y_local)
      else ok (some (record { x = x_local; y = y_local; frame = base_frame }), none)

  -- `none` where a loop of `_angular_delta` outran its fuel.
  abbrev pub distance_at :
      ℕ → Option (LaserScanAnalysis R) → R → R → Option (Option R × DistanceSource)
  distance_at turns none bearing tolerance_rad = some (none, unavailable)
  distance_at turns (some analysis) bearing tolerance_rad =
      correlate_distance turns analysis bearing tolerance_rad

  -- The loop's body, for the detection of index `i`; `width` is the image's.
  unfoldable pub detect_object :
      {M : Type 0}
      → ℕ
      → Camera R M
      → R
      → Option (LaserScanAnalysis R)
      → Bool
      → ℕ
      → DetectedObject2D R
      → Option (Except (DetectedObject R))
  detect_object turns camera width analysis localized i det =
      let bearing = estimate_bearing_rad (center_x det.bbox_px) width camera.horizontal_fov_rad in
      elim (distance_at turns analysis bearing camera.bearing_tolerance_rad) [
        | none ↦ none
        | some (distance_m, source) ↦ some (
            place localized camera.base_frame (camera.transforms i) bearing distance_m
            >>= (λ placed. ok (detected_object det distance_m source placed)))
      ]

  -- The first detection whose loops outrun their fuel, or that raises, ends the loop.
  abbrev pub after :
      Option (Except (DetectedObject R))
      → Option (Except (List (DetectedObject R)))
      → Option (Except (List (DetectedObject R)))
  after none rest = none
  after (some (raised e)) rest = some (raised e)
  after (some (ok o)) none = none
  after (some (ok o)) (some rest) = some (rest >>= (λ os. ok (o ∷ os)))

  unfoldable pub detect_each :
      {M : Type 0}
      → ℕ
      → Camera R M
      → R
      → Option (LaserScanAnalysis R)
      → Bool
      → ℕ
      → List (DetectedObject2D R)
      → Option (Except (List (DetectedObject R)))
  detect_each turns camera width analysis localized i [] = some (ok [])
  detect_each turns camera width analysis localized i (d ∷ ds) =
      after (detect_object turns camera width analysis localized i d)
        (detect_each turns camera width analysis localized (suc i) ds)

module _ {R V M : Type 0} ⦃n : Number R⦄ where
  abbrev pub detect_error : Sources R V M → ErrorCode → List String → ToolResult R
  detect_error s code message =
      build_error_result detect_objects_result "" s.robot_id (n.ratio 0 1)
        (plain_error code (map text message))

  abbrev pub analysis_of :
      Sources R V M → Option (CachedMessage R V M) → Option (LaserScanAnalysis R)
  analysis_of s none = none
  analysis_of s (some cached) = some (analyze_laser_scan (s.scan_of cached.raw))

  -- _current_laser_scan_analysis
  abbrev pub current_laser_scan_analysis : Sources R V M → Option (LaserScanAnalysis R)
  current_laser_scan_analysis s = analysis_of s (latest_of "range_sensing" "scan" s)

  abbrev pub detection_result :
      Sources R V M → Camera R M → CachedMessage R V M → List (DetectedObject R) → ToolResult R
  detection_result s camera cached objects = record {
    status = Status.succeeded;
    command_id = "";
    robot_id = s.robot_id;
    duration_sec = n.ratio 0 1;
    error = none;
    payload = Payload.detected (record {
      stamp = some cached.stamp;
      objects = objects;
      detector_plugin_id = camera.plugin_id;
    });
  }

  abbrev pub on_objects :
      Sources R V M
      → Camera R M
      → CachedMessage R V M
      → Option (Except (List (DetectedObject R)))
      → Option (Except (ToolResult R))
  on_objects s camera cached none = none
  on_objects s camera cached (some r) =
      some (r >>= (λ objects. ok (detection_result s camera cached objects)))

  -- With the converted image and the plugin's detections, of which the first is there earlier.
  abbrev pub on_image :
      ℕ
      → Sources R V M
      → Sources R V M
      → Camera R M
      → Option (List String)
      → CachedMessage R V M
      → Except R
      → Except (List (DetectedObject2D R))
      → Option (Except (ToolResult R))
  on_image turns s s' camera labels cached (raised e) _ = some (raised e)
  on_image turns s s' camera labels cached (ok width) (raised e) = some (raised e)
  on_image turns s s' camera labels cached (ok width) (ok detections) = on_objects s camera cached (
      detect_each turns camera width (current_laser_scan_analysis s')
        (is_some (find_entry "localization" s'.registry.entries)) 0 (selected labels detections))

  -- With the image of the topic, `s'` after the plugin's answer was awaited.
  abbrev pub detect_on :
      ℕ
      → Sources R V M
      → Sources R V M
      → Camera R M
      → Option (List String)
      → String
      → Option (CachedMessage R V M)
      → Option (Except (ToolResult R))
  detect_on turns s s' camera labels topic none = some (
      ok (detect_error s ErrorCode.sensor_stale ("no camera image ever received on " ∷ topic ∷ [])))
  detect_on turns s s' camera labels topic (some cached) =
      on_image turns s s' camera labels cached (camera.width_px cached.raw)
        (camera.detect cached.raw)

  abbrev pub detect_at :
      ℕ
      → Sources R V M
      → Sources R V M
      → Camera R M
      → Option (List String)
      → Option String
      → Option (Except (ToolResult R))
  detect_at turns s s' camera labels none =
      some (ok (detect_error s ErrorCode.capability_unavailable ("no camera available" ∷ [])))
  detect_at turns s s' camera labels (some topic) =
      detect_on turns s s' camera labels topic (get_latest topic s.clock s.pool)

  unfoldable pub detect_objects :
      ℕ
      → Sources R V M
      → Sources R V M
      → Camera R M
      → Option (List String)
      → Option (Except (ToolResult R))
  detect_objects turns s s' camera labels =
      detect_at turns s s' camera labels (topic_of "visual_observation" "image" s)
