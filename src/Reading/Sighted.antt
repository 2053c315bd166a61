-- ===== src/Reading/Sighted.antt =====
-- The answers of `detect_objects` of adapters/perception/perception_adapter.py, on every branch.
use ros2_mcp_server.Base.{
  ℕ, String, ◌≡◌, refl, List, Option, none, some, is_some, Except, ok, raised, Exception,
}
use ros2_mcp_server.Number.{Number, IsTransitive}
use ros2_mcp_server.Contracts.Core.{ErrorCode}
use ros2_mcp_server.Contracts.Results.{
  DetectedObject, DetectObjectsResult, Payload, Status, ToolResult,
}
use ros2_mcp_server.Capabilities.Registry.{find_entry}
use ros2_mcp_server.Subscriptions.Pool.{CachedMessage, get_latest}
use ros2_mcp_server.Reading.{Sources, topic_of}
use ros2_mcp_server.Reading.Answered.{FailsWith}
use ros2_mcp_server.Reading.Detection.{
  Camera, DetectedObject2D, selected, current_laser_scan_analysis, on_objects, on_image, detect_on,
  detect_at, detect_objects,
}
use ros2_mcp_server.Reading.Detected.{Reports, OutcomeAll, detect_each-Reports}

module _ {R V M : Type 0} ⦃n : Number R⦄ (turns : ℕ) (s s' : Sources R V M) (camera : Camera R M)
    (labels : Option (List String)) where
  -- A success that lists one object for each selected detection in the image.
  pub record ListsObjects (cached : CachedMessage R V M) (width : R)
      (detections : List (DetectedObject2D R)) (r : ToolResult R) : Type 0 where
    pub status : r.status ≡ Status.succeeded
    pub report : DetectObjectsResult R
    pub payload : r.payload ≡ Payload.detected report
    pub stamp : report.stamp ≡ some cached.stamp
    pub objects :
        Reports turns camera width
          (current_laser_scan_analysis s')
          (is_some (find_entry "localization" s'.registry.entries))
          0
          (selected labels detections)
          report.objects

  pub data DetectAnswer : Option (Except (ToolResult R)) → Type 0 where
    no_camera :
        (r : ToolResult R)
        → topic_of "visual_observation" "image" s ≡ none
        → FailsWith ErrorCode.capability_unavailable r
        → DetectAnswer (some (ok r))
    never_received :
        (topic : String) (r : ToolResult R)
        → topic_of "visual_observation" "image" s ≡ some topic
        → get_latest topic s.clock s.pool ≡ none
        → FailsWith ErrorCode.sensor_stale r
        → DetectAnswer (some (ok r))
    not_an_image :
        (topic : String) (cached : CachedMessage R V M) (e : Exception)
        → topic_of "visual_observation" "image" s ≡ some topic
        → get_latest topic s.clock s.pool ≡ some cached
        → camera.width_px cached.raw ≡ raised e
        → DetectAnswer (some (raised e))
    detector_raised :
        (topic : String) (cached : CachedMessage R V M) (width : R) (e : Exception)
        → topic_of "visual_observation" "image" s ≡ some topic
        → get_latest topic s.clock s.pool ≡ some cached
        → camera.width_px cached.raw ≡ ok width
        → camera.detect cached.raw ≡ raised e
        → DetectAnswer (some (raised e))
    received :
        (topic : String) (cached : CachedMessage R V M) (width : R)
        (detections : List (DetectedObject2D R)) (o : Option (Except (ToolResult R)))
        → topic_of "visual_observation" "image" s ≡ some topic
        → get_latest topic s.clock s.pool ≡ some cached
        → camera.width_px cached.raw ≡ ok width
        → camera.detect cached.raw ≡ ok detections
        → OutcomeAll turns camera width
            (current_laser_scan_analysis s')
            (is_some (find_entry "localization" s'.registry.entries))
            0
            (selected labels detections)
            (ListsObjects cached width detections)
            o
        → DetectAnswer o

  on_objects-Outcome :
      (cached : CachedMessage R V M) (width : R) (detections : List (DetectedObject2D R))
      (o : Option (Except (List (DetectedObject R))))
      → OutcomeAll turns camera width
          (current_laser_scan_analysis s')
          (is_some (find_entry "localization" s'.registry.entries))
          0
          (selected labels detections)
          (Reports turns camera width
            (current_laser_scan_analysis s')
            (is_some (find_entry "localization" s'.registry.entries))
            0
            (selected labels detections))
          o
      → OutcomeAll turns camera width
          (current_laser_scan_analysis s')
          (is_some (find_entry "localization" s'.registry.entries))
          0
          (selected labels detections)
          (ListsObjects cached width detections)
          (on_objects s camera cached o)
  on_objects-Outcome cached width detections none h = h
  on_objects-Outcome cached width detections (some (raised e)) h = h
  on_objects-Outcome cached width detections (some (ok os)) h = record {
    status = refl;
    report = _;
    payload = refl;
    stamp = refl;
    objects = h;
  }

  on_image-DetectAnswer :
      IsTransitive n
      → (topic : String) (cached : CachedMessage R V M)
      → topic_of "visual_observation" "image" s ≡ some topic
      → get_latest topic s.clock s.pool ≡ some cached
      → (w : Except R) (ds : Except (List (DetectedObject2D R))) → camera.width_px cached.raw ≡ w
      → camera.detect cached.raw ≡ ds
      → DetectAnswer (on_image turns s s' camera labels cached w ds)
  on_image-DetectAnswer laws topic cached ht hm (raised e) ds hw hd =
      not_an_image topic cached e ht hm hw
  on_image-DetectAnswer laws topic cached ht hm (ok width) (raised e) hw hd =
      detector_raised topic cached width e ht hm hw hd
  on_image-DetectAnswer laws topic cached ht hm (ok width) (ok detections) hw hd =
      received topic cached width detections _ ht hm hw hd (
        on_objects-Outcome cached width detections _
          (detect_each-Reports turns camera _ _ _ laws 0 _))

  detect_on-DetectAnswer :
      IsTransitive n
      → (topic : String) (o : Option (CachedMessage R V M))
      → topic_of "visual_observation" "image" s ≡ some topic
      → get_latest topic s.clock s.pool ≡ o
      → DetectAnswer (detect_on turns s s' camera labels topic o)
  unfolding ros2_mcp_server.Execution.ErrorResults.build_error_result
  detect_on-DetectAnswer laws topic none ht hm =
      never_received topic _ ht hm
        (record { status = refl; error = _; has_error = refl; has_code = refl })
  detect_on-DetectAnswer laws topic (some cached) ht hm =
      on_image-DetectAnswer laws topic cached ht hm (camera.width_px cached.raw)
        (camera.detect cached.raw) refl refl

  detect_at-DetectAnswer :
      IsTransitive n
      → (o : Option String) → topic_of "visual_observation" "image" s ≡ o
      → DetectAnswer (detect_at turns s s' camera labels o)
  unfolding ros2_mcp_server.Execution.ErrorResults.build_error_result
  detect_at-DetectAnswer laws none ht =
      no_camera _ ht (record { status = refl; error = _; has_error = refl; has_code = refl })
  detect_at-DetectAnswer laws (some topic) ht =
      detect_on-DetectAnswer laws topic (get_latest topic s.clock s.pool) ht refl

  -- Where the order of the numbers is transitive, detect_objects fails with CAPABILITY_UNAVAILABLE
  -- where no capability resolves an image topic, and with SENSOR_STALE where no image was received, and
  -- raises what the conversion of the image or the detector raised. Else it lists one object for each
  -- selected detection, in their order, with its label and box, the distance that the scan shows at its
  -- bearing, and a position in the frame "map" only with the localization and a transform, in the
  -- robot's frame only without the localization, and nowhere without a distance; or it raises what the
  -- lookup of one's transform raised, or an assertion where that transform, said to be there, misses a
  -- part; or it has no answer, where the loops of `_angular_delta` outrun their fuel for one.
  pub detect_objects-DetectAnswer :
      IsTransitive n → DetectAnswer (detect_objects turns s s' camera labels)
  unfolding detect_objects
  detect_objects-DetectAnswer laws =
      detect_at-DetectAnswer laws (topic_of "visual_observation" "image" s) refl
