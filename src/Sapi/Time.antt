-- ===== src/Sapi/Time.antt =====
-- `struct timeval` and the two functions of sapi.c that compute with it. Its fields are `long`s,
-- which the times of day do not overflow; the carry is an `int`.
use libvidcap.Base.{Bool, true, false, if◌then◌else◌, ltb_ℤ, leb_ℤ, ℤ, pos, ◌+ℤ◌, int32, quot, rem}

pub record Timeval : Type 0 where
  pub tv_sec : ℤ
  pub tv_usec : ℤ

-- `tv_greater_or_equal`
unfoldable pub tv_greater_or_equal : Timeval → Timeval → Bool
tv_greater_or_equal t1 t0 =
    if ltb_ℤ t0.tv_sec t1.tv_sec
    then true
    else if ltb_ℤ t1.tv_sec t0.tv_sec
    then false
    else if leb_ℤ t0.tv_usec t1.tv_usec
    then true
    else false

-- `tv_add_usecs`: the new value of `*t1`
unfoldable pub tv_add_usecs : Timeval → ℤ → Timeval
tv_add_usecs t0 usecs =
    let tv_usec = t0.tv_usec +ℤ usecs in
    let secs_carried = int32 (quot tv_usec (pos 1000000)) in
    record { tv_sec = t0.tv_sec +ℤ secs_carried; tv_usec = rem tv_usec (pos 1000000) }
