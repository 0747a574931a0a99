-- ===== src/Conv/Destride.antt =====
-- `destride_packed`, `destride_planar` and `destridify`: rows that stand `stride` bytes apart are
-- put side by side. Sizes and strides are taken as natural numbers whose products fit an `int`;
-- pointers are offsets into the block of the frame and into the destination.
use libvidcap.Base.{
  ℕ, ◌+◌, ◌*◌, ◌/◌, ◌==◌, if◌then◌else◌, Option, none, some, eqb_ℤ, ℤ, pos, negsuc, Bytes, memcpy,
  repeat,
}
use libvidcap.Format.{
  fourcc_i420, fourcc_yuy2, fourcc_rgb32, fourcc_yvu9, fourcc_2vuy, fourcc_rgb24,
  fourcc_bottom_up_rgb24,
}

infixl 5 ◌>>=◌
abbrev pub ◌>>=◌ {ℓ κ} : {A : Type ℓ} {B : Type κ} → Option A → (A → Option B) → Option B
none >>= f = none
some x >>= f = f x

-- The destination, and the four pointers that a loop moves.
pub record Rows : Type 0 where
  pub dst : Bytes
  pub dst_even : ℕ
  pub dst_odd : ℕ
  pub src_even : ℕ
  pub src_odd : ℕ

-- One round of the loops: an even and an odd row.
unfoldable pub copy_two : ℕ → ℕ → Bytes → Rows → Option Rows
copy_two width stride src s = do
  first ← memcpy s.dst s.dst_even src s.src_even width
  both ← memcpy first s.dst_odd src s.src_odd width
  some (record {
    dst = both;
    dst_even = s.dst_even + 2 * width;
    dst_odd = s.dst_odd + 2 * width;
    src_even = s.src_even + 2 * stride;
    src_odd = s.src_odd + 2 * stride;
  })

-- A loop of `height / 2` rounds, from `p` in the destination and `q` in the source.
unfoldable pub copy_rows : ℕ → ℕ → ℕ → Bytes → ℕ → Bytes → ℕ → Option Bytes
copy_rows width height stride dst p src q = do
  s ←
      repeat (height / 2) (copy_two width stride src) (record {
        dst = dst;
        dst_even = p;
        dst_odd = p + width;
        src_even = q;
        src_odd = q + stride;
      })
  some s.dst

-- The result of the function, and the destination; `none` is an access out of a block.
abbrev pub Result : Type 0
Result = Option (ℤ × Bytes)

unfoldable pub destride_packed : ℕ → ℕ → ℕ → Bytes → Bytes → Result
destride_packed image_byte_width height stride src dst = do
  d ← copy_rows image_byte_width height stride dst 0 src 0
  some (pos 0, d)

-- A plane of a planar format: its size, its stride, and where it begins in the source.
pub record Plane : Type 0 where
  pub width : ℕ
  pub height : ℕ
  pub stride : ℕ
  pub start : ℕ

unfoldable pub destride_planar : Plane → Plane → Plane → Bytes → Bytes → Result
destride_planar y u v src dst =
    let dst_u = y.width * y.height in
    let dst_v = dst_u + u.width * u.height in
    do
      with_y ← copy_rows y.width y.height y.stride dst 0 src y.start
      with_u ← copy_rows u.width u.height u.stride with_y dst_u src u.start
      with_v ← copy_rows v.width v.height v.stride with_u dst_v src v.start
      some (pos 0, with_v)

-- The packed cases of the switch: nothing is copied, and -1 returned, where there is no stride.
unfoldable pub destridify_packed : ℕ → ℕ → ℕ → ℕ → Bytes → Bytes → Result
destridify_packed bytes width height stride src dst =
    if stride == bytes * width
    then some (negsuc 0, dst)
    else destride_packed (bytes * width) height stride src dst

-- `destridify`, built without QuickTime.
unfoldable pub destridify : ℕ → ℕ → ℤ → ℕ → Bytes → Bytes → Result
destridify width height fourcc stride src dst =
    let src_u = height * stride in
    let src_v = src_u + height * stride / 4 in
    if eqb_ℤ fourcc fourcc_i420
    then destride_planar (record { width = width; height = height; stride = stride; start = 0 })
        (record { width = width / 2; height = height / 2; stride = stride / 2; start = src_u })
        (record { width = width / 2; height = height / 2; stride = stride / 2; start = src_v }) src
        dst
    else if eqb_ℤ fourcc fourcc_yuy2
    then destridify_packed 2 width height stride src dst
    else if eqb_ℤ fourcc fourcc_rgb32
    then destridify_packed 4 width height stride src dst
    else if eqb_ℤ fourcc fourcc_2vuy
    then destridify_packed 2 width height stride src dst
    else if eqb_ℤ fourcc fourcc_rgb24
    then destridify_packed 3 width height stride src dst
    else if eqb_ℤ fourcc fourcc_bottom_up_rgb24
    then destridify_packed 3 width height stride src dst
    else if eqb_ℤ fourcc fourcc_yvu9
    then destride_planar (record { width = width; height = height; stride = stride; start = 0 })
        (record { width = width / 4; height = height / 4; stride = stride / 4; start = src_u })
        (record { width = width / 4; height = height / 4; stride = stride / 4; start = src_v }) src
        dst
    else some (negsuc 0, dst)
