-- ===== src/Device/Sensors/Level.antt =====
-- src/DeviceHandler.cpp: the water level as a percentage, and the volume.
use byte_waterlevel.Prelude.{◌≡◌, true, arith, sym, subst, ◌∙◌}
use byte_waterlevel.Floats.{Floats, IsNumber, IsOrdered, IsMonotone, IsExact}
use byte_waterlevel.Device.State.{Device}
use byte_waterlevel.Device.Sensors.{raw_percent, limit_percent, get_level, get_volume}

module _ (R : Floats) (laws : IsOrdered R) where
  open laws use {numbers_of_le, numbers_of_lt, le_trans, lt-eq-not-le, le_of_lt, nought_le_hundred}

  limit_percent_bounds :
      (p : R.Float)
      → IsNumber R p
      → (R.le (R.of_nat 0) (limit_percent R p) ≡ true)
        × (R.le (limit_percent R p) (R.of_nat 100) ≡ true)
  unfolding limit_percent
  limit_percent_bounds p n =
      let ends = numbers_of_le _ _ nought_le_hundred in
      ground (
        arith,
        ends,
        nought_le_hundred,
        lt-eq-not-le p (R.of_nat 0) n ends.0,
        lt-eq-not-le (R.of_nat 100) p ends.1 n,
        lt-eq-not-le (R.of_nat 100) (R.of_nat 0) ends.1 ends.0,
        le_of_lt p (R.of_nat 0),
        le_of_lt (R.of_nat 100) p,
      )

  -- Over an order on the numbers, the level lies from 0 to 100 if the percentage is a number.
  get_level_bounds :
      (d : Device R.Float)
      → IsNumber R (raw_percent R d)
      → (R.le (R.of_nat 0) (get_level R d) ≡ true) × (R.le (get_level R d) (R.of_nat 100) ≡ true)
  unfolding get_level
  get_level_bounds d n = limit_percent_bounds (raw_percent R d) n

  -- If the percentage is NaN, as for 0 / 0, the limits let it pass: the level is the percentage,
  -- and no number.
  get_level_nan :
      (d : Device R.Float)
      → ¬ IsNumber R (raw_percent R d)
      → (get_level R d ≡ raw_percent R d) × ¬ IsNumber R (get_level R d)
  unfolding get_level limit_percent
  get_level_nan d n =
      let p = raw_percent R d in
      ground (arith, numbers_of_lt p (R.of_nat 0), numbers_of_lt (R.of_nat 100) p)

  limit_percent_mono :
      (p q : R.Float) → R.le p q ≡ true → R.le (limit_percent R p) (limit_percent R q) ≡ true
  unfolding limit_percent
  limit_percent_mono p q h =
      let n = numbers_of_le p q h in
      let ends = numbers_of_le _ _ nought_le_hundred in
      let zero_f = R.of_nat 0 in
      let top = R.of_nat 100 in
      ground (
        arith,
        h,
        ends,
        nought_le_hundred,
        lt-eq-not-le p zero_f n.0 ends.0,
        lt-eq-not-le q zero_f n.1 ends.0,
        lt-eq-not-le top p ends.1 n.0,
        lt-eq-not-le top q ends.1 n.1,
        lt-eq-not-le top zero_f ends.1 ends.0,
        le_of_lt top q,
        le_of_lt q zero_f,
        le_trans zero_f p q,
        le_trans top p q,
        le_trans p q top,
      )

  module _ (steps : IsMonotone R) where
    open steps use {sub_mono, div_mono, mul_mono}

    -- The steps of the formula at a voltage.
    abbrev part : Device R.Float → R.Float → R.Float
    part d v = R.sub v d.min_v

    abbrev share : Device R.Float → R.Float → R.Float
    share d v = R.div (part d v) (R.sub d.max_v d.min_v)

    abbrev percent : Device R.Float → R.Float → R.Float
    percent d v = R.mul (share d v) (R.of_nat 100)

    -- Over operations that round monotonically and with a positive span of calibration, a
    -- voltage that is at least as high gives a level that is at least as high, both from 0 to 100,
    -- as long as the steps of the formula give numbers for both voltages.
    pub get_level_mono :
        (d : Device R.Float) (w : R.Float)
        → R.lt (R.of_nat 0) (R.sub d.max_v d.min_v) ≡ true
        → R.le d.latest_voltage w ≡ true
        → (IsNumber R (part d d.latest_voltage) × IsNumber R (part d w))
        → (IsNumber R (share d d.latest_voltage) × IsNumber R (share d w))
        → (IsNumber R (percent d d.latest_voltage) × IsNumber R (percent d w))
        → let higher = record d { latest_voltage = w } in
          (R.le (R.of_nat 0) (get_level R d) ≡ true)
          × (R.le (get_level R d) (get_level R higher) ≡ true)
          × (R.le (get_level R higher) (R.of_nat 100) ≡ true)
    unfolding get_level raw_percent
    get_level_mono d w span volts (pv, pw) (sv, sw) (rv, rw') =
        let shares = div_mono _ _ _ span (sub_mono _ _ _ volts pv pw) sv sw in
        (
          (limit_percent_bounds (percent d d.latest_voltage) rv).0,
          limit_percent_mono _ _ (mul_mono _ _ _ nought_le_hundred shares rv rw'),
          (limit_percent_bounds (percent d w) rw').1,
        )

  module _ (exact : IsExact R) where
    open exact use {mul-one, mul_comm, share_of_hundred}

    -- Over operations that round monotonically and are exact on 1 and 100, and with a capacity
    -- that is not negative, the volume is at most the capacity, as long as the percentage, its
    -- hundredth and the volume are numbers.
    get_volume-le :
        (steps : IsMonotone R) (d : Device R.Float)
        → R.le (R.of_nat 0) d.tank_volume ≡ true
        → IsNumber R (raw_percent R d)
        → IsNumber R (R.div (get_level R d) (R.of_nat 100))
        → IsNumber R (get_volume R d)
        → R.le (get_volume R d) d.tank_volume ≡ true
    unfolding get_volume
    get_volume-le steps d full n share vol =
        let cap = numbers_of_le _ _ full in
        let one_is : IsNumber R (R.of_nat 1) = exact.one_is_number in
        let below : R.le (R.div (get_level R d) (R.of_nat 100)) (R.of_nat 1) ≡ true =
          subst (λ x. R.le (R.div (get_level R d) (R.of_nat 100)) x ≡ true) share_of_hundred
            (steps.div_mono _ _ _ exact.hundred_is_positive (get_level_bounds d n).1 share
              (subst (λ x. IsNumber R x) (sym share_of_hundred) one_is)) in
        let top : R.mul (R.of_nat 1) d.tank_volume ≡ d.tank_volume =
          mul_comm _ _ ∙ mul-one d.tank_volume cap.1 in
        rw (mul_comm d.tank_volume (R.div (get_level R d) (R.of_nat 100))) (
          subst (λ x. R.le (R.mul (R.div (get_level R d) (R.of_nat 100)) d.tank_volume) x ≡ true)
            top
            (steps.mul_mono _ _ _ full below
              (subst (λ x. IsNumber R x) (mul_comm d.tank_volume _) vol)
              (subst (λ x. IsNumber R x) (sym top) cap.1)))
