-- ===== src/Reading/Answered.antt =====
-- What robot.get_laser_scan answers: mcp/read_handlers.py, mcp/laser_scan_resolver.py and
-- perception/laser_scan.py together.
use ros2_mcp_server.Base.{String, ◌≡◌, refl, Option, none, some, Bool}
use ros2_mcp_server.Number.{Number, IsOrdered}
use ros2_mcp_server.Json.{lookup}
use ros2_mcp_server.Contracts.Core.{ErrorCode, ToolError, SemanticCommand}
use ros2_mcp_server.Contracts.Results.{ToolResult, Status, Payload, LaserScanResult}
use ros2_mcp_server.Subscriptions.Pool.{CachedMessage, get_latest}
use ros2_mcp_server.Perception.LaserScan.{LaserScan}
use ros2_mcp_server.Perception.Nearest.{AllWithin, analyze-AllWithin}
use ros2_mcp_server.Reading.{Sources, topic_of, scan_at, scan_on, resolve_laser_scan}
use ros2_mcp_server.Reading.Handlers.{flag, stamped, get_laser_scan_summary, handle_get_laser_scan}

module _ {R : Type 0} ⦃n : Number R⦄ where
  -- A failure with an error of the code.
  pub record FailsWith (code : ErrorCode) (result : ToolResult R) : Type 0 where
    pub status : result.status ≡ Status.failed
    pub error : ToolError R
    pub has_error : result.error ≡ some error
    pub has_code : error.code ≡ code

  -- A report of the scan of the message, in which no usable beam is passed over.
  pub record Reports (scan : LaserScan R) (result : ToolResult R) : Type 0 where
    pub status : result.status ≡ Status.succeeded
    pub no_error : result.error ≡ none
    pub report : LaserScanResult R
    pub payload : result.payload ≡ Payload.laser_scan report
    pub all_within : AllWithin scan 0 scan.ranges report.nearest report.farthest report.sectors

module _ {R V M : Type 0} ⦃n : Number R⦄ where
  -- The answers of robot.get_laser_scan: no capability that resolves a scan topic, no message of it
  -- yet, or the latest message.
  pub data ScanAnswer (s : Sources R V M) (result : ToolResult R) : Type 0 where
    no_sensor :
        topic_of "range_sensing" "scan" s ≡ none
        → FailsWith ErrorCode.capability_unavailable result
        → ScanAnswer s result
    never_received :
        (topic : String)
        → topic_of "range_sensing" "scan" s ≡ some topic
        → get_latest topic s.clock s.pool ≡ none
        → FailsWith ErrorCode.sensor_stale result
        → ScanAnswer s result
    received :
        (topic : String) (cached : CachedMessage R V M)
        → topic_of "range_sensing" "scan" s ≡ some topic
        → get_latest topic s.clock s.pool ≡ some cached
        → Reports (s.scan_of cached.raw) result
        → ScanAnswer s result

  module _ (order : IsOrdered n) (s : Sources R V M) (command : SemanticCommand R) (duration : R)
      (include_raw : Bool) where
    scan_on-ScanAnswer :
        (topic : String) (o : Option (CachedMessage R V M))
        → topic_of "range_sensing" "scan" s ≡ some topic
        → get_latest topic s.clock s.pool ≡ o
        → ScanAnswer s
            (stamped command duration (scan_on s s.robot_id "" (n.ratio 0 1) include_raw topic o))
    unfolding ros2_mcp_server.Execution.ErrorResults.build_error_result
    scan_on-ScanAnswer topic none ht hm =
        never_received topic ht hm
          (record { status = refl; error = _; has_error = refl; has_code = refl })
    scan_on-ScanAnswer topic (some cached) ht hm = received topic cached ht hm (record {
      status = refl;
      no_error = refl;
      report = _;
      payload = refl;
      all_within = analyze-AllWithin order (s.scan_of cached.raw);
    })

    scan_at-ScanAnswer :
        (o : Option String)
        → topic_of "range_sensing" "scan" s ≡ o
        → ScanAnswer s
            (stamped command duration (scan_at s s.robot_id "" (n.ratio 0 1) include_raw o))
    unfolding ros2_mcp_server.Execution.ErrorResults.build_error_result
    scan_at-ScanAnswer none ht =
        no_sensor ht (record { status = refl; error = _; has_error = refl; has_code = refl })
    scan_at-ScanAnswer (some topic) ht =
        scan_on-ScanAnswer topic (get_latest topic s.clock s.pool) ht refl

  -- On numbers that are ordered, robot.get_laser_scan fails with CAPABILITY_UNAVAILABLE where no
  -- capability resolves a scan topic, fails with SENSOR_STALE where no message of it was received, and
  -- else reports the latest message's scan, so that no usable beam is nearer than the reported nearest
  -- of all and of its sector; the answer has the id of its command.
  pub handle_get_laser_scan-ScanAnswer :
      IsOrdered n
      → (s : Sources R V M) (start later : R) (command : SemanticCommand R)
      → ScanAnswer s (handle_get_laser_scan s start later command)
        × ((handle_get_laser_scan s start later command).command_id ≡ command.command_id)
  unfolding handle_get_laser_scan get_laser_scan_summary resolve_laser_scan
  handle_get_laser_scan-ScanAnswer order s start later command = (
    scan_at-ScanAnswer order s command (n.minus later start)
        (flag (lookup "include_raw_ranges" command.provenance.raw_arguments))
        (topic_of "range_sensing" "scan" s) refl,
    refl,
  )
