-- ===== src/Sapi/Pacing/Overflow.antt =====
-- The rate of 2997 frames in 100 seconds, of the hot list: its window times overflow an `int`.
use libvidcap.Base.{
  ℕ, ◌*◌, ◌/◌, ◌-◌, ◌^◌, ◌≤◌, ◌<◌, ◌≡◌, arith, true, pos, neg_ℕ, ◌+ℤ◌, int32, int32-*ℤ, quot, rem,
  *ℤ_pos,
}
use libvidcap.Format.{FmtInfo}
use libvidcap.Sapi.Time.{Timeval, tv_greater_or_equal, tv_add_usecs}
use libvidcap.Sapi.TimeLaws.{IsNormal}
use libvidcap.Sapi.Pacing.{window_usecs, least_usecs, next_time}
use libvidcap.Sapi.Pacing.Usecs.{HasRate, later_of_ge, least_usecs-eq}

-- Going back by less than a second.
tv_add_back :
    (t : Timeval) (v : ℕ)
    → IsNormal t
    → v < 1000000
    → tv_greater_or_equal t (tv_add_usecs t (neg_ℕ v)) ≡ true
unfolding tv_greater_or_equal tv_add_usecs quot rem ◌+ℤ◌ int32
tv_add_back t v n h = ground arith

tv_add_forward :
    (t : Timeval) (v : ℕ)
    → IsNormal t
    → v < 1000000
    → tv_greater_or_equal (tv_add_usecs t (pos v)) t ≡ true
unfolding tv_greater_or_equal tv_add_usecs quot rem ◌+ℤ◌ int32
tv_add_forward t v n h = ground arith

wrapped :
    (k : ℕ) → 22 ≤ k → k ≤ 42 → int32 (pos (k * 1000000 * 100)) ≡ neg_ℕ (2 ^ 32 - k * 1000000 * 100)
unfolding int32
wrapped k h g = ground arith

divided : (a : ℕ) → a < 2 ^ 31 → int32 (quot (neg_ℕ a) (pos 2997)) ≡ neg_ℕ (a / 2997)
unfolding quot int32
divided a h = ground arith

back : ℕ → ℕ
back k = (2 ^ 32 - k * 1000000 * 100) / 2997

window_usecs-back :
    (fmt : FmtInfo) (k : ℕ)
    → HasRate fmt 2997 100
    → 22 ≤ k
    → k ≤ 42
    → window_usecs (pos k) fmt ≡ neg_ℕ (back k)
unfolding window_usecs back
window_usecs-back fmt k r h g =
    rw (r.numerator, r.denominator, int32-*ℤ k 1000000 (omega arith), *ℤ_pos, wrapped k h g)
      (divided (2 ^ 32 - k * 1000000 * 100) (omega arith))

-- At 2997 frames in 100 seconds, with 22 to 42 frames in the window, the next frame may pass
-- 30030 microseconds after this one, whatever the window says: a frame's time is 33366.
pub next_time_overflow :
    (fmt : FmtInfo) (k : ℕ) (old now : Timeval)
    → HasRate fmt 2997 100
    → 22 ≤ k
    → k ≤ 42
    → IsNormal old
    → IsNormal now
    → tv_greater_or_equal now old ≡ true
    → next_time fmt (pos k) old now ≡ tv_add_usecs now (pos 30030)
unfolding next_time
next_time_overflow fmt k old now r h g normal_old normal_now order =
    let end = tv_add_usecs old (neg_ℕ (back k)) in
    let earliest = tv_add_usecs now (pos 30030) in
    let least : least_usecs fmt ≡ pos 30030 = least_usecs-eq fmt 2997 100 r (omega arith) in
    let below : back k < 1000000 = unfold back in omega arith in
    let first =
      later_of_ge earliest now old (tv_add_forward now 30030 normal_now (omega arith)) order in
    let passed = later_of_ge earliest old end first (tv_add_back old (back k) normal_old below) in
    rw (least, window_usecs-back fmt k r h g, passed)
