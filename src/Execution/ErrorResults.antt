-- ===== src/Execution/ErrorResults.antt =====
-- src/ros_mcp/execution/error_results.py: results of the expected class for commands that no adapter
-- carried out.
use ros2_mcp_server.Base.{String, true, false, [], Option, none, some}
use ros2_mcp_server.Number.{Number, nat}
use ros2_mcp_server.Contracts.Core.{
  ToolError, ResultType, tool_result, robot_state_result, capabilities_result, motion_result,
  stop_result, navigate_result, laser_scan_result, camera_image_result, detect_objects_result,
}
use ros2_mcp_server.Contracts.Results.{
  ToolResult, Status, failed, Payload, base, robot_state, capabilities, motion, stopped, navigated,
  laser_scan, camera_image, detected,
}

module _ {R : Type 0} ⦃n : Number R⦄ where
  -- _EXTRA_FIELDS_BY_TYPE
  unfoldable pub extra_fields : ResultType → Payload R
  extra_fields tool_result = base
  extra_fields robot_state_result = robot_state (record {
    pose = none;
    linear_velocity_mps = none;
    angular_velocity_rps = none;
    is_moving = false;
    active_command = none;
  })
  extra_fields capabilities_result =
      capabilities (record { capabilities = []; snapshot_version = 0 })
  extra_fields motion_result =
      motion (record { distance_traveled_m = nat 0; final_pose = none; stop_reason = none })
  extra_fields stop_result = stopped (record { cancelled_command_id = none; final_pose = none })
  extra_fields navigate_result =
      navigated (record { final_pose = none; distance_remaining_m = none; fail_reason = none })
  extra_fields laser_scan_result = laser_scan (record {
    stamp = none;
    frame = none;
    nearest = none;
    farthest = none;
    sectors = [];
    raw_ranges = none;
    data_age_s = none;
    stale = true;
    invalid_beam_count = 0;
  })
  extra_fields camera_image_result = camera_image (record {
    stamp = none;
    frame = none;
    data_age_s = none;
    image_jpeg_bytes = [];
    width_px = 0;
    height_px = 0;
    original_width_px = 0;
    original_height_px = 0;
  })
  extra_fields detect_objects_result =
      detected (record { stamp = none; objects = []; detector_plugin_id = "" })

  unfoldable pub build_result_with_defaults :
      ResultType → Status → String → String → R → Option (ToolError R) → ToolResult R
  build_result_with_defaults expected status command_id robot_id duration_sec error = record {
    status = status;
    command_id = command_id;
    robot_id = robot_id;
    duration_sec = duration_sec;
    error = error;
    payload = extra_fields expected;
  }

  unfoldable pub build_error_result : ResultType → String → String → R → ToolError R → ToolResult R
  unfolding build_result_with_defaults
  build_error_result expected command_id robot_id duration_sec error =
      build_result_with_defaults expected failed command_id robot_id duration_sec (some error)
