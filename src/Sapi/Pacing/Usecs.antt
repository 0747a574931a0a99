-- ===== src/Sapi/Pacing/Usecs.antt =====
-- The distances that `enforce_framerate` computes, and the order of times.
use libvidcap.Base.{
  ℕ, ◌*◌, ◌/◌, ◌^◌, ◌<◌, ◌≡◌, arith, true, false, ℤ, pos, ◌+ℤ◌, ◌≤ℤ◌, ◌<ℤ◌, int32-*ℤ, int32-quot,
  IsInt, quot, +ℤ_parts,
}
use libvidcap.Format.{FmtInfo}
use libvidcap.Sapi.Time.{Timeval, tv_greater_or_equal, tv_add_usecs}
use libvidcap.Sapi.TimeLaws.{micros, IsNormal, micros-tv_add_usecs, tv_add_usecs-IsNormal}
use libvidcap.Sapi.Pacing.{window_usecs, least_usecs, next_time}

later_trans :
    (x y z : Timeval)
    → tv_greater_or_equal x y ≡ false
    → tv_greater_or_equal y z ≡ false
    → tv_greater_or_equal x z ≡ false
unfolding tv_greater_or_equal
later_trans x y z h k = ground arith

pub later_of_ge :
    (x y z : Timeval)
    → tv_greater_or_equal x y ≡ true
    → tv_greater_or_equal y z ≡ true
    → tv_greater_or_equal x z ≡ true
unfolding tv_greater_or_equal
later_of_ge x y z h k = ground arith

pub later_self : (x : Timeval) → tv_greater_or_equal x x ≡ true
unfolding tv_greater_or_equal
later_self x = ground arith

module _ (fmt : FmtInfo) (count : ℤ) (old now x : Timeval) where
  -- A time before the earliest one is before the next one.
  pub next_time_earliest :
      tv_greater_or_equal x (tv_add_usecs now (least_usecs fmt)) ≡ false
      → tv_greater_or_equal x (next_time fmt count old now) ≡ false
  unfolding next_time
  next_time_earliest h = ground (
    arith,
    later_trans x (tv_add_usecs now (least_usecs fmt)) (tv_add_usecs old (window_usecs count fmt)),
  )

  -- A time from the next one on is from the end of the window's time on.
  pub next_time_window :
      tv_greater_or_equal x (next_time fmt count old now) ≡ true
      → tv_greater_or_equal x (tv_add_usecs old (window_usecs count fmt)) ≡ true
  unfolding next_time
  next_time_window h = ground (
    arith,
    later_of_ge x (tv_add_usecs now (least_usecs fmt)) (tv_add_usecs old (window_usecs count fmt)),
  )

-- A format whose rate is `num / den` frames in a second.
pub record HasRate (fmt : FmtInfo) (num den : ℕ) : Type 0 where
  pub numerator : fmt.fps_numerator ≡ pos num
  pub denominator : fmt.fps_denominator ≡ pos den
  pub positive : 0 < num

pub least_usecs-eq :
    (fmt : FmtInfo) (num den : ℕ)
    → HasRate fmt num den
    → 900000 * den < 2 ^ 31
    → least_usecs fmt ≡ pos (900000 * den / num)
unfolding least_usecs
least_usecs-eq fmt num den r h =
    rw (r.numerator, r.denominator, int32-*ℤ 900000 den h, int32-quot (900000 * den) num h)

pub window_usecs-eq :
    (fmt : FmtInfo) (num den k : ℕ)
    → HasRate fmt num den
    → k * 1000000 < 2 ^ 31
    → k * 1000000 * den < 2 ^ 31
    → window_usecs (pos k) fmt ≡ pos (k * 1000000 * den / num)
unfolding window_usecs
window_usecs-eq fmt num den k r h g = rw (
  r.numerator,
  r.denominator,
  int32-*ℤ k 1000000 h,
  int32-*ℤ (k * 1000000) den g,
  int32-quot (k * 1000000 * den) num g,
)

quot_million : (a : ℤ) → pos 0 ≤ℤ a → a <ℤ pos (2 ^ 32) → IsInt (quot a (pos 1000000))
unfolding quot
quot_million a h k = ground arith

-- Where the sum is small enough the carry of `tv_add_usecs` fits an `int`.
small_carry :
    (t : Timeval) (u : ℕ)
    → IsNormal t
    → u < 2 ^ 31
    → IsInt (quot (t.tv_usec +ℤ pos u) (pos 1000000))
small_carry t u n h =
    quot_million (t.tv_usec +ℤ pos u) (omega (arith, +ℤ_parts t.tv_usec (pos u)))
      (omega (arith, +ℤ_parts t.tv_usec (pos u)))

-- A short while after a normal time, in microseconds.
pub micros_after :
    (t : Timeval) (u : ℕ)
    → IsNormal t
    → u < 2 ^ 31
    → (micros (tv_add_usecs t (pos u)) ≡ micros t +ℤ pos u) × IsNormal (tv_add_usecs t (pos u))
micros_after t u n h = (
  micros-tv_add_usecs t (pos u) (small_carry t u n h),
  tv_add_usecs-IsNormal t (pos u) n (omega arith),
)
