-- ===== src/Conv/Planes.antt =====
-- What `destridify` does to a whole frame.
use libvidcap.Base.{
  ℕ, suc, ◌+◌, ◌*◌, ◌/◌, ◌≤◌, ◌<◌, ◌≡◌, ◌≢◌, ◌∙◌, arith, inl, inr, some, none, Bytes, ℤ, pos, eqb_ℤ,
  if◌then◌else◌, Option-cases,
}
use libvidcap.Format.{
  fourcc_i420, fourcc_yuy2, fourcc_rgb32, fourcc_yvu9, fourcc_2vuy, fourcc_rgb24,
  fourcc_bottom_up_rgb24,
}
use libvidcap.Conv.Destride.{
  Plane, copy_rows, destride_packed, destride_planar, destridify, destridify_packed, ◌>>=◌,
}
use libvidcap.Conv.Rows.{HasRows, copy_rows-HasRows, copy_rows-fault, row_lt}

-- The rows of a plane that the loop copies: all of them, or all but the last.
abbrev pub copied_rows : Plane → ℕ
copied_rows p = p.height / 2 * 2

-- The rows of the plane `p` of `src` that are copied lie at `offset` in `dst`, without their stride.
pub record HasPlane (dst : Bytes) (offset : ℕ) (src : Bytes) (p : Plane) : Type 0 where
  pub bytes :
      (r c : ℕ)
      → r < copied_rows p
      → c < p.width
      → dst.at (offset + r * p.width + c) ≡ src.at (p.start + r * p.stride + c)

-- Every row of a plane lies inside the source.
abbrev pub InBlock : Bytes → Plane → Type 0
InBlock src p = (r : ℕ) → r < copied_rows p → p.start + r * p.stride + p.width ≤ src.size

-- A later copy leaves a plane below it alone.
HasPlane-later :
    {dst' dst : Bytes} {q : ℕ} {src' : Bytes} {start w stride rows : ℕ} {offset : ℕ} {src : Bytes}
    (p : Plane)
    → HasRows dst' dst q src' start w stride rows
    → offset + p.height * p.width ≤ q
    → HasPlane dst offset src p
    → HasPlane dst' offset src p
HasPlane-later p later below has = record {
  bytes = λ r c h k.
      later.outside _ (inl (omega (arith, below, row_lt r p.height c p.width (omega arith) k)))
      ∙ has.bytes r c h k;
}

mul_mono : (a b w : ℕ) → a ≤ b → a * w ≤ b * w
mul_mono a b w h = grind arith

plane_room : (p : Plane) → copied_rows p * p.width ≤ p.height * p.width
plane_room p = mul_mono (copied_rows p) p.height p.width (omega arith)

-- The three planes of a frame are put side by side.
pub destride_planar-HasPlane :
    (y u v : Plane) (src dst : Bytes)
    → y.width * y.height + u.width * u.height + v.width * v.height ≤ dst.size
    → InBlock src y
    → InBlock src u
    → InBlock src v
    → (dst' : Bytes) × (destride_planar y u v src dst ≡ some (pos 0, dst'))
      × HasPlane dst' 0 src y
      × HasPlane dst' (y.width * y.height) src u
      × HasPlane dst' (y.width * y.height + u.width * u.height) src v
unfolding destride_planar
destride_planar-HasPlane y u v src dst room in_y in_u in_v =
    let du = y.width * y.height in
    let dv = du + u.width * u.height in
    let (d₁, ran₁, y₁) =
      copy_rows-HasRows y.width y.height y.stride dst 0 src y.start (omega (arith, plane_room y))
        in_y in
    let (d₂, ran₂, u₂) =
      copy_rows-HasRows u.width u.height u.stride d₁ du src u.start
        (omega (arith, plane_room u, y₁.same_size)) in_u in
    let (d₃, ran₃, v₃) =
      copy_rows-HasRows v.width v.height v.stride d₂ dv src v.start
        (omega (arith, plane_room v, y₁.same_size, u₂.same_size)) in_v in
    let py : HasPlane d₁ 0 src y = record { bytes = y₁.inside } in
    let pu : HasPlane d₂ du src u = record { bytes = u₂.inside } in
    (
      d₃,
      rw (ran₁, ran₂, ran₃, ◌>>=◌),
      HasPlane-later y v₃ (omega arith) (HasPlane-later y u₂ (omega arith) py),
      HasPlane-later u v₃ (omega arith) pu,
      record { bytes = v₃.inside },
    )

-- The bytes of a pixel of the packed formats, and 0 for the others.
abbrev pub packed_bytes : ℤ → ℕ
packed_bytes fourcc =
    if eqb_ℤ fourcc fourcc_yuy2
    then 2
    else if eqb_ℤ fourcc fourcc_rgb32
    then 4
    else if eqb_ℤ fourcc fourcc_2vuy
    then 2
    else if eqb_ℤ fourcc fourcc_rgb24
    then 3
    else if eqb_ℤ fourcc fourcc_bottom_up_rgb24
    then 3
    else 0

destridify-packed :
    (width height : ℕ) (fourcc : ℤ) (stride : ℕ) (src dst : Bytes)
    → 0 < packed_bytes fourcc
    → destridify width height fourcc stride src dst
      ≡ destridify_packed (packed_bytes fourcc) width height stride src dst
unfolding destridify
destridify-packed width height fourcc stride src dst h = ground arith

destridify_packed-eq :
    (b width height stride : ℕ) (src dst : Bytes) {dst' : Bytes}
    → stride ≢ b * width
    → copy_rows (b * width) height stride dst 0 src 0 ≡ some dst'
    → destridify_packed b width height stride src dst ≡ some (pos 0, dst')
unfolding destridify_packed destride_packed
destridify_packed-eq b width height stride src dst strided ran = ground arith

-- A packed frame whose stride is larger than a row, in blocks that are large enough, is copied row by
-- row: each row but an odd last one is put right after the row before it, no other byte of the
-- destination changes, and 0 is returned.
pub destridify-HasRows :
    (width height : ℕ) (fourcc : ℤ) (stride : ℕ) (src dst : Bytes)
    → 0 < packed_bytes fourcc
    → packed_bytes fourcc * width < stride
    → height * stride ≤ src.size
    → packed_bytes fourcc * width * height ≤ dst.size
    → (dst' : Bytes) × (destridify width height fourcc stride src dst ≡ some (pos 0, dst'))
      × HasRows dst' dst 0 src 0 (packed_bytes fourcc * width) stride (height / 2 * 2)
destridify-HasRows width height fourcc stride src dst packed wide fits room =
    let b = packed_bytes fourcc * width in
    let (dst', ran, has) =
      copy_rows-HasRows b height stride dst 0 src 0
        (omega (arith, mul_mono (height / 2 * 2) height b (omega arith)))
        (λ r h. omega (arith, mul_mono (suc r) height stride (omega arith))) in
    (
      dst',
      destridify-packed width height fourcc stride src dst packed
          ∙ destridify_packed-eq (packed_bytes fourcc) width height stride src dst (omega arith)
              ran,
      has,
    )

-- An I420 frame whose stride is at least the width, in blocks that are large enough, is copied plane by
-- plane, the chroma planes with half the width, height and stride, and 0 is returned. Of each plane
-- all rows are copied but an odd last one.
pub destridify-i420 :
    (width height stride : ℕ) (src dst : Bytes)
    → width ≤ stride
    → height * stride + height * stride / 4 + height / 2 * (stride / 2) ≤ src.size
    → width * height + 2 * (width / 2 * (height / 2)) ≤ dst.size
    → let u = height * stride in
      let v = u + height * stride / 4 in
      (dst' : Bytes) × (destridify width height fourcc_i420 stride src dst ≡ some (pos 0, dst'))
      × HasPlane dst' 0 src (record { width = width; height = height; stride = stride; start = 0 })
      × HasPlane dst'
          (width * height)
          src
          (record { width = width / 2; height = height / 2; stride = stride / 2; start = u })
      × HasPlane dst'
          (width * height + width / 2 * (height / 2))
          src
          (record { width = width / 2; height = height / 2; stride = stride / 2; start = v })
unfolding destridify
destridify-i420 width height stride src dst wide fits room =
    destride_planar-HasPlane _ _ _ src dst (omega arith)
      (λ r h. omega (arith, mul_mono (suc r) height stride (omega arith)))
      (λ r h. omega (arith, mul_mono (suc r) (height / 2) (stride / 2) (omega arith)))
      (λ r h. omega (arith, mul_mono (suc r) (height / 2) (stride / 2) (omega arith)))

v_faults :
    (y u v : Plane) (src dst : Bytes)
    → ((d : Bytes)
        → copy_rows v.width v.height v.stride d
            (y.width * y.height + u.width * u.height)
            src
            v.start
          ≡ none)
    → destride_planar y u v src dst ≡ none
unfolding destride_planar
v_faults y u v src dst h =
    elim (Option-cases (copy_rows y.width y.height y.stride dst 0 src y.start)) [
      | inl e ↦ rw (e, ◌>>=◌)
      | inr (d₁, e) ↦
          elim (Option-cases
            (copy_rows u.width u.height u.stride d₁ (y.width * y.height) src u.start)) [
              | inl e' ↦ rw (e, e', ◌>>=◌)
              | inr (d₂, e') ↦ rw (e, e', h d₂, ◌>>=◌)
            ]
    ]

-- A YVU9 frame of `height * stride` luma bytes and two chroma planes of a sixteenth of that each
-- makes `destridify` read beyond its end.
pub destridify-yvu9_fault :
    (width height stride : ℕ) (src dst : Bytes)
    → src.size ≡ height * stride + 2 * (height * stride / 16)
    → 8 ≤ height
    → 4 ≤ width
    → width ≤ stride
    → destridify width height fourcc_yvu9 stride src dst ≡ none
unfolding destridify
destridify-yvu9_fault width height stride src dst size h w wide =
    v_faults _ _ _ src dst (λ d. copy_rows-fault _ _ _ _ _ _ _ (omega arith) (omega arith))
