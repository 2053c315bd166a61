-- ===== src/Perception/Nearest.antt =====
-- What the analysis of perception/laser_scan.py says of the beams: the nearest, the farthest and the
-- nearest of each sector, which the obstacle check of the motion adapter reads.
use ros2_mcp_server.Base.{
  ℕ, suc, ◌≡◌, false, List, [], ◌∷◌, Option, none, some, put, get-put, ◌==◌, eq_iff, eq_refl,
  if◌then◌else◌, Dict, Bool-cases, inl, inr, arith,
}
use ros2_mcp_server.Number.{Number, IsOrdered}
use ros2_mcp_server.Contracts.Results.{RangeReading}
use ros2_mcp_server.Perception.LaserScan.{
  LaserScan, Scanned, unscanned, nearest_in, nearer, farther, enter, is_invalid, is_beyond, reading,
  scan_beam, scan_beams, analyze_laser_scan,
}

module _ {R : Type 0} ⦃n : Number R⦄ where
  open n use {lt}

  abbrev pub NotNearer : R → Option (RangeReading R) → Type 0
  NotNearer r none = ⊥
  NotNearer r (some c) = lt r c.range_m ≡ false

  abbrev pub NotFarther : R → Option (RangeReading R) → Type 0
  NotFarther r none = ⊥
  NotFarther r (some c) = lt c.range_m r ≡ false

  -- A reading that is neither nearer nor farther than what the scan reports, nor nearer than what it
  -- reports for its sector.
  pub record IsWithin (nearest farthest : Option (RangeReading R))
      (sectors : Dict (Option (RangeReading R))) (a : RangeReading R) : Type 0 where
    pub near : NotNearer a.range_m nearest
    pub far : NotFarther a.range_m farthest
    pub in_sector : NotNearer a.range_m (nearest_in a.sector sectors)

  abbrev pub IsUsable : LaserScan R → R → Type 0
  IsUsable scan r = (is_invalid scan r ≡ false) × (is_beyond scan r ≡ false)

  -- Every usable beam from beam `i` on is within the bounds.
  abbrev pub AllWithin :
      LaserScan R
      → ℕ
      → List R
      → Option (RangeReading R)
      → Option (RangeReading R)
      → Dict (Option (RangeReading R))
      → Type 0
  AllWithin scan i [] nearest farthest sectors = Unit
  AllWithin scan i (r ∷ rs) nearest farthest sectors =
      (IsUsable scan r → IsWithin nearest farthest sectors (reading scan i r))
      × AllWithin scan (suc i) rs nearest farthest sectors

  module _ (order : IsOrdered n) where
    nearer-NotNearer :
        (a : RangeReading R) (o : Option (RangeReading R)) → NotNearer a.range_m (nearer a o)
    nearer-NotNearer a none = order.lt_irrefl a.range_m
    nearer-NotNearer a (some c) = elim (Bool-cases (lt a.range_m c.range_m)) [
      | inl e ↦ rw e (order.lt_irrefl a.range_m)
      | inr e ↦ rw e e
    ]

    farther-NotFarther :
        (a : RangeReading R) (o : Option (RangeReading R)) → NotFarther a.range_m (farther a o)
    farther-NotFarther a none = order.lt_irrefl a.range_m
    farther-NotFarther a (some c) = elim (Bool-cases (lt c.range_m a.range_m)) [
      | inl e ↦ rw e (order.lt_irrefl a.range_m)
      | inr e ↦ rw e e
    ]

    -- What is nearer still bounds what the old one bounded.
    nearer-keeps :
        (r : R) (a : RangeReading R) (o : Option (RangeReading R))
        → NotNearer r o
        → NotNearer r (nearer a o)
    nearer-keeps r a none h = absurd h
    nearer-keeps r a (some c) h = elim (Bool-cases (lt a.range_m c.range_m)) [
      | inr e ↦ rw e h
      | inl e ↦ rw e (elim (Bool-cases (lt r a.range_m)) [
        | inr k ↦ k
        | inl k ↦ absurd (let less = order.lt_trans r a.range_m c.range_m k e in cc)
      ])
    ]

    farther-keeps :
        (r : R) (a : RangeReading R) (o : Option (RangeReading R))
        → NotFarther r o
        → NotFarther r (farther a o)
    farther-keeps r a none h = absurd h
    farther-keeps r a (some c) h = elim (Bool-cases (lt c.range_m a.range_m)) [
      | inr e ↦ rw e h
      | inl e ↦ rw e (elim (Bool-cases (lt a.range_m r)) [
        | inr k ↦ k
        | inl k ↦ absurd (let less = order.lt_trans c.range_m a.range_m r e k in cc)
      ])
    ]

    abbrev Bounds : Scanned R → RangeReading R → Type 0
    Bounds s a = IsWithin s.nearest s.farthest s.sectors a

    sector_after :
        (a b : RangeReading R) (d : Dict (Option (RangeReading R)))
        → nearest_in b.sector (put a.sector (nearer a (nearest_in a.sector d)) d) ≡ (
            if a.sector == b.sector
            then nearer a (nearest_in b.sector d)
            else nearest_in b.sector d)
    sector_after a b d = ground (
      arith,
      get-put a.sector b.sector (nearer a (nearest_in a.sector d)) d,
      eq_iff a.sector b.sector,
    )

    enter-new : (a : RangeReading R) (s : Scanned R) → Bounds (enter a s) a
    unfolding enter
    enter-new a s = record {
      near = nearer-NotNearer a s.nearest;
      far = farther-NotFarther a s.farthest;
      in_sector =
          rw (sector_after a a s.sectors, eq_refl a.sector)
            (nearer-NotNearer a (nearest_in a.sector s.sectors));
    }

    enter-old : (a b : RangeReading R) (s : Scanned R) → Bounds s b → Bounds (enter a s) b
    unfolding enter
    enter-old a b s v = record {
      near = nearer-keeps b.range_m a s.nearest v.near;
      far = farther-keeps b.range_m a s.farthest v.far;
      in_sector = elim (Bool-cases (a.sector == b.sector)) [
        | inl e ↦
            rw (sector_after a b s.sectors, e)
              (nearer-keeps b.range_m a (nearest_in b.sector s.sectors) v.in_sector)
        | inr e ↦ rw (sector_after a b s.sectors, e) v.in_sector
      ];
    }

    scan_beam-old :
        (scan : LaserScan R) (i : ℕ) (r : R) (s : Scanned R) (b : RangeReading R)
        → Bounds s b
        → Bounds (scan_beam scan i r s) b
    unfolding scan_beam
    scan_beam-old scan i r s b v = elim (Bool-cases (is_invalid scan r)) [
      | inl e ↦ rw (scan_beam, e) (record { near = v.near; far = v.far; in_sector = v.in_sector })
      | inr e ↦ elim (Bool-cases (is_beyond scan r)) [
        | inl k ↦ rw (scan_beam, e, k) v
        | inr k ↦ rw (scan_beam, e, k) (enter-old (reading scan i r) b s v)
      ]
    ]

    scan_beams-old :
        (scan : LaserScan R) (i : ℕ) (rs : List R) (s : Scanned R) (b : RangeReading R)
        → Bounds s b
        → Bounds (scan_beams scan i rs s) b
    unfolding scan_beams
    scan_beams-old scan i [] s b v = v
    scan_beams-old scan i (r ∷ rs) s b v =
        scan_beams-old scan (suc i) rs (scan_beam scan i r s) b (scan_beam-old scan i r s b v)

    scan_beams-AllWithin :
        (scan : LaserScan R) (i : ℕ) (rs : List R) (s : Scanned R)
        → AllWithin scan i rs
            (scan_beams scan i rs s).nearest
            (scan_beams scan i rs s).farthest
            (scan_beams scan i rs s).sectors
    unfolding scan_beams scan_beam
    scan_beams-AllWithin scan i [] s = tt
    scan_beams-AllWithin scan i (r ∷ rs) s = (
      λ u.
          scan_beams-old scan (suc i) rs (scan_beam scan i r s) (reading scan i r)
            (rw (u.0, u.1) (enter-new (reading scan i r) s)),
      scan_beams-AllWithin scan (suc i) rs (scan_beam scan i r s),
    )

    -- On numbers that are ordered, every usable beam of a scan (not invalid and not beyond the range)
    -- is neither nearer than the reported nearest, nor farther than the reported farthest, nor nearer
    -- than the reported nearest of its sector: no obstacle that the scanner saw is passed over.
    pub analyze-AllWithin :
        (scan : LaserScan R)
        → AllWithin scan 0 scan.ranges
            (analyze_laser_scan scan).nearest
            (analyze_laser_scan scan).farthest
            (analyze_laser_scan scan).sectors
    unfolding analyze_laser_scan
    analyze-AllWithin scan = scan_beams-AllWithin scan 0 scan.ranges unscanned
