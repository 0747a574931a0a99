-- ===== src/Conv/Yvu9.antt =====
-- `conv_yvu9_to_i420` of src/conv_to_i420.c.
pub mod Copied
use libvidcap.Base.{
  ℕ, suc, ◌+◌, ◌*◌, ◌/◌, ◌%◌, ◌<◌, ◌≤◌, ◌≡◌, refl, sym, ap, ◌∙◌, arith, ◌⊎◌, Option, some, List, [],
  ◌∷◌, ℤ, pos, Bytes, load, copied, memcpy, memcpy_lem,
}
use libvidcap.Conv.Destride.{◌>>=◌}
use libvidcap.Conv.Pixels.{
  Write, write, ◌&◌, moved, Told, Apart, Filled, kernel, kernel_lem, weaken,
}
use libvidcap.Conv.Planar.{returned}
use libvidcap.Conv.Grid.{row_room, grid-div, grid-mod, planar, planar_y, planar_u, planar_v}

-- The pointers that the loop moves.
pub record Quads : Type 0 where
  pub dst_u_even : ℕ
  pub dst_u_odd : ℕ
  pub dst_v_even : ℕ
  pub dst_v_odd : ℕ
  pub src_u : ℕ
  pub src_v : ℕ

abbrev pub quad_stores : Bytes → Quads → List Write
quad_stores src s =
    write s.dst_u_even (load src s.src_u)
    ∷ write (s.dst_u_even + 1) (load src s.src_u)
    ∷ write s.dst_u_odd (load src s.src_u)
    ∷ write (s.dst_u_odd + 1) (load src s.src_u)
    ∷ write s.dst_v_even (load src s.src_v)
    ∷ write (s.dst_v_even + 1) (load src s.src_v)
    ∷ write s.dst_v_odd (load src s.src_v)
    ∷ write (s.dst_v_odd + 1) (load src s.src_v)
    ∷ []

abbrev pub quad_step : Quads → Quads
quad_step s = record {
  dst_u_even = s.dst_u_even + 2;
  dst_u_odd = s.dst_u_odd + 2;
  dst_v_even = s.dst_v_even + 2;
  dst_v_odd = s.dst_v_odd + 2;
  src_u = s.src_u + 1;
  src_v = s.src_v + 1;
}

abbrev pub quad_turn : ℕ → Quads → Quads
quad_turn width s = record {
  dst_u_even = s.dst_u_even + width / 2;
  dst_u_odd = s.dst_u_odd + width / 2;
  dst_v_even = s.dst_v_even + width / 2;
  dst_v_odd = s.dst_v_odd + width / 2;
  src_u = s.src_u;
  src_v = s.src_v;
}

abbrev pub quad_start : ℕ → ℕ → Quads
quad_start width height = record {
  dst_u_even = width * height;
  dst_u_odd = width * height + width / 2;
  dst_v_even = width * height + width * height / 4;
  dst_v_odd = width * height + width * height / 4 + width / 2;
  src_u = width * height + width * height / 16;
  src_v = width * height;
}

unfoldable pub yvu9_to_i420 : ℕ → ℕ → Bytes → Bytes → Option (ℤ × Bytes)
yvu9_to_i420 width height src dst = do
  with_y ← memcpy dst 0 src 0 (height * width)
  returned (
      kernel (height / 4) (width / 4) (quad_stores src) quad_step (quad_turn width)
        (quad_start width height) with_y)

-- The sample of yvu9, one for 4 by 4 pixels, for sample `k` of i420, one for 2 by 2.
abbrev pub quarter_sample : ℕ → ℕ → ℕ
quarter_sample width k = k / (width / 2) / 2 * (width / 4) + k % (width / 2) / 2

-- Byte `a` of the i420 image: luma as it is, then u and v, which yvu9 has the other way round.
abbrev pub planar_of_yvu9 : ℕ → ℕ → (ℕ → ℕ) → ℕ → ℕ
planar_of_yvu9 width height f a =
    let area = width * height in
    planar width height f (λ k. f (area + area / 16 + quarter_sample width k))
      (λ k. f (area + quarter_sample width k)) a
