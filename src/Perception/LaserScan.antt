-- ===== src/Perception/LaserScan.antt =====
-- src/ros_mcp/perception/laser_scan.py: the analysis of a scan. The scan is a message of a ROS
-- package; the fields that are read are those of the record LaserScan.
use ros2_mcp_server.Base.{
  ℕ, suc, String, Bool, ◌&&◌, ◌||◌, List, [], ◌∷◌, Option, none, some, get, put, if◌then◌else◌,
  Dict, or_else,
}
use ros2_mcp_server.Number.{Number, nat}
use ros2_mcp_server.Contracts.Results.{RangeReading}

pub record LaserScan (R : Type 0) : Type 0 where
  pub ranges : List R
  pub angle_min : R
  pub angle_increment : R
  pub range_min : R
  pub range_max : R
  pub stamp : Option (R × R)  -- header.stamp: sec and nanosec
  pub frame_id : Option String

pub record LaserScanAnalysis (R : Type 0) : Type 0 where
  pub stamp_sec : Option R
  pub frame_id : Option String
  pub nearest : Option (RangeReading R)
  pub farthest : Option (RangeReading R)
  pub sectors : Dict (Option (RangeReading R))
  pub raw_ranges : List R
  pub invalid_beam_count : ℕ

-- The variables of the loop.
pub record Scanned (R : Type 0) : Type 0 where
  pub nearest : Option (RangeReading R)
  pub farthest : Option (RangeReading R)
  pub sectors : Dict (Option (RangeReading R))
  pub invalid_count : ℕ

module _ {R : Type 0} where
  abbrev pub unscanned : Scanned R
  unscanned = record {
    nearest = none;
    farthest = none;
    sectors = ("front", none) ∷ ("left", none) ∷ ("right", none) ∷ ("rear", none) ∷ [];
    invalid_count = 0;
  }

  -- sector_nearest[sector], whose four keys are there from the start.
  abbrev pub nearest_in : String → Dict (Option (RangeReading R)) → Option (RangeReading R)
  nearest_in sector sectors = or_else (get sector sectors) none

module _ {R : Type 0} ⦃n : Number R⦄ where
  open n use {lt, le, plus, times, over, neg, cos, sin, atan2, pi, to_float, is_nan, is_inf}

  abbrev pub between_bounds : R → R → R → Bool
  between_bounds lo x hi = le lo x && lt x hi

  -- _SECTOR_BOUNDS_RAD, in its order.
  unfoldable pub sector_for_angle : R → String
  sector_for_angle angle_rad =
      let wrapped = atan2 (sin angle_rad) (cos angle_rad) in
      let sixth = over pi (nat 6) in
      let five_sixths = over (times (nat 5) pi) (nat 6) in
      if between_bounds (over (neg pi) (nat 6)) wrapped sixth
      then "front"
      else if between_bounds sixth wrapped five_sixths
      then "left"
      else if between_bounds (over (times (neg (nat 5)) pi) (nat 6)) wrapped (over (neg pi) (nat 6))
      then "right"
      else "rear"

  -- `a if current is None or r < current.range_m else current`, and the same with `>`.
  abbrev pub nearer : RangeReading R → Option (RangeReading R) → Option (RangeReading R)
  nearer a none = some a
  nearer a (some c) = if lt a.range_m c.range_m then some a else some c

  abbrev pub farther : RangeReading R → Option (RangeReading R) → Option (RangeReading R)
  farther a none = some a
  farther a (some c) = if lt c.range_m a.range_m then some a else some c

  unfoldable pub enter : RangeReading R → Scanned R → Scanned R
  enter a s = record s {
    nearest = nearer a s.nearest;
    farthest = farther a s.farthest;
    sectors = put a.sector (nearer a (nearest_in a.sector s.sectors)) s.sectors;
  }

  abbrev pub is_invalid : LaserScan R → R → Bool
  is_invalid scan r = is_nan r || lt r (to_float scan.range_min)

  abbrev pub is_beyond : LaserScan R → R → Bool
  is_beyond scan r = is_inf r || lt (to_float scan.range_max) r

  abbrev pub reading : LaserScan R → ℕ → R → RangeReading R
  reading scan i r =
      let angle = plus (to_float scan.angle_min) (times (nat i) (to_float scan.angle_increment)) in
      record { range_m = r; angle_rad = angle; sector = sector_for_angle angle }

  -- The body of the loop, for beam `i`.
  unfoldable pub scan_beam : LaserScan R → ℕ → R → Scanned R → Scanned R
  scan_beam scan i r s =
      if is_invalid scan r
      then record s { invalid_count = suc s.invalid_count }
      else if is_beyond scan r
      then s
      else enter (reading scan i r) s

  unfoldable pub scan_beams : LaserScan R → ℕ → List R → Scanned R → Scanned R
  scan_beams scan i [] s = s
  scan_beams scan i (r ∷ rs) s = scan_beams scan (suc i) rs (scan_beam scan i r s)

  abbrev pub stamp_of : Option (R × R) → Option R
  stamp_of none = none
  stamp_of (some (sec, nanosec)) =
      some (plus (to_float sec) (over (to_float nanosec) (nat 1000000000)))

  unfoldable pub analyze_laser_scan : LaserScan R → LaserScanAnalysis R
  analyze_laser_scan scan =
      let s = scan_beams scan 0 scan.ranges unscanned in
      record {
        stamp_sec = stamp_of scan.stamp;
        frame_id = scan.frame_id;
        nearest = s.nearest;
        farthest = s.farthest;
        sectors = s.sectors;
        raw_ranges = scan.ranges;
        invalid_beam_count = s.invalid_count;
      }
