-- ===== src/Sapi/TimeLaws.antt =====
-- Times as numbers of microseconds.
use libvidcap.Base.{
  ◌+◌, ◌*◌, ◌≡◌, arith, ◌↔◌, true, ℤ, pos, pos_part, neg_part, ◌+ℤ◌, ◌*ℤ◌, ◌≤ℤ◌, ◌<ℤ◌, int32_lem,
  IsInt, quot, rem, +ℤ_parts, int_laws,
}
use libvidcap.Sapi.Time.{Timeval, tv_greater_or_equal, tv_add_usecs}

-- The microseconds that a time stands for.
unfoldable pub micros : Timeval → ℤ
micros t = t.tv_sec *ℤ pos 1000000 +ℤ t.tv_usec

-- The microseconds are a part of a second.
pub record IsNormal (t : Timeval) : Type 0 where
  pub nonneg : pos 0 ≤ℤ t.tv_usec
  pub part : t.tv_usec <ℤ pos 1000000

pub million_parts :
    (a : ℤ)
    → (pos_part (a *ℤ pos 1000000) ≡ pos_part a * 1000000)
      × (neg_part (a *ℤ pos 1000000) ≡ neg_part a * 1000000)
unfolding ◌*ℤ◌
million_parts a = ground arith

split_million :
    (a : ℤ)
    → pos_part (quot a (pos 1000000)) * 1000000 + pos_part (rem a (pos 1000000)) + neg_part a
      ≡ pos_part a + neg_part (quot a (pos 1000000)) * 1000000 + neg_part (rem a (pos 1000000))
unfolding quot rem
split_million a = ground arith

-- Adding microseconds adds them exactly, of either sign, if the carry fits an `int`.
pub micros-tv_add_usecs :
    (t : Timeval) (usecs : ℤ)
    → IsInt (quot (t.tv_usec +ℤ usecs) (pos 1000000))
    → micros (tv_add_usecs t usecs) ≡ micros t +ℤ usecs
unfolding micros tv_add_usecs
micros-tv_add_usecs t usecs h =
    rw (int32_lem _ h) (omega (int_laws, million_parts, split_million (t.tv_usec +ℤ usecs)))

rem_million :
    (a : ℤ) → pos 0 ≤ℤ a → (pos 0 ≤ℤ rem a (pos 1000000)) × (rem a (pos 1000000) <ℤ pos 1000000)
unfolding rem
rem_million a h = ground arith

-- A normal time with a nonnegative number of microseconds added is normal.
pub tv_add_usecs-IsNormal :
    (t : Timeval) (usecs : ℤ) → IsNormal t → pos 0 ≤ℤ usecs → IsNormal (tv_add_usecs t usecs)
unfolding tv_add_usecs
tv_add_usecs-IsNormal t usecs n h =
    ground (arith, +ℤ_parts t.tv_usec usecs, rem_million (t.tv_usec +ℤ usecs))

-- The comparison is that of the microseconds.
pub tv_greater_or_equal_iff :
    (t1 t0 : Timeval)
    → IsNormal t1
    → IsNormal t0
    → (tv_greater_or_equal t1 t0 ≡ true) ↔ (micros t0 ≤ℤ micros t1)
unfolding tv_greater_or_equal micros
tv_greater_or_equal_iff t1 t0 n1 n0 = (
  λ h. ground (
    arith,
    million_parts t1.tv_sec,
    million_parts t0.tv_sec,
    +ℤ_parts (t1.tv_sec *ℤ pos 1000000) t1.tv_usec,
    +ℤ_parts (t0.tv_sec *ℤ pos 1000000) t0.tv_usec,
  ),
  λ h. ground (
    arith,
    million_parts t1.tv_sec,
    million_parts t0.tv_sec,
    +ℤ_parts (t1.tv_sec *ℤ pos 1000000) t1.tv_usec,
    +ℤ_parts (t0.tv_sec *ℤ pos 1000000) t0.tv_usec,
  ),
)
