-- ===== src/Conv/Yvu9/Copied.antt =====
-- What `conv_yvu9_to_i420` of src/conv_to_i420.c puts in each byte of the destination.
use libvidcap.Base.{
  ℕ, suc, ◌+◌, ◌*◌, ◌/◌, ◌<◌, ◌≤◌, ◌≡◌, refl, sym, ap, ◌∙◌, arith, ◌⊎◌, some, pos, Bytes, copied,
  memcpy_lem,
}
use libvidcap.Conv.Pixels.{◌&◌, moved, Told, Apart, Filled, kernel_lem, weaken}
use libvidcap.Conv.Grid.{row_room, grid-div, grid-mod, planar_y, planar_u, planar_v}
use libvidcap.Conv.Yvu9.{
  Quads, quad_stores, quad_step, quad_turn, quad_start, yvu9_to_i420, quarter_sample,
  planar_of_yvu9,
}

module _ (n m : ℕ) (f : ℕ → ℕ) where
  abbrev us : ℕ → ℕ
  us k = f (4 * m * (4 * n) + 4 * m * (4 * n) / 16 + quarter_sample (4 * m) k)

  abbrev vs : ℕ → ℕ
  vs k = f (4 * m * (4 * n) + quarter_sample (4 * m) k)

  doubled : (k : ℕ) → 4 * k ≡ 2 * (2 * k)
  doubled k = omega arith

  y_byte : (a : ℕ) → a < 16 * (n * m) → planar_of_yvu9 (4 * m) (4 * n) f a ≡ f a
  y_byte a h =
      let twice = planar_y (2 * n) (2 * m) f us vs a (omega arith) in
      rw (← doubled n, ← doubled m) at twice

  module _ (i j r c : ℕ) (h : i < n) (k : j < m) (row : r / 2 ≡ i) (column : c / 2 ≡ j) where
    place : quarter_sample (4 * m) (r * (2 * m) + c) ≡ i * m + j
    place =
        let half : 4 * m / 2 ≡ 2 * m = omega arith in
        let quarter : 4 * m / 4 ≡ m = omega arith in
        rw
          (
            half,
            quarter,
            grid-div r c (2 * m) (omega arith),
            grid-mod r c (2 * m) (omega arith),
            row,
            column,
          )
          refl

    u_sample :
        (a b : ℕ)
        → a ≡ 16 * (n * m) + r * (2 * m) + c
        → b ≡ 17 * (n * m) + i * m + j
        → planar_of_yvu9 (4 * m) (4 * n) f a ≡ f b
    u_sample a b e g =
        let twice =
          planar_u (2 * n) (2 * m) f us vs r c a (omega arith) (omega arith) (omega arith) in
        (rw (← doubled n, ← doubled m) at twice) ∙ ap f (omega (arith, place))

    v_sample :
        (a b : ℕ)
        → a ≡ 20 * (n * m) + r * (2 * m) + c
        → b ≡ 16 * (n * m) + i * m + j
        → planar_of_yvu9 (4 * m) (4 * n) f a ≡ f b
    v_sample a b e g =
        let twice =
          planar_v (2 * n) (2 * m) f us vs r c a (omega arith) (omega arith) (omega arith) in
        (rw (← doubled n, ← doubled m) at twice) ∙ ap f (omega (arith, place))

abbrev QuadDone : ℕ → ℕ → ℕ → ℕ → ℕ → Type 0
QuadDone n m i j a =
    (a < 16 * (n * m) + 4 * (i * m) + 2 * j)
    ⊎ (((16 * (n * m) + 4 * (i * m) + 2 * m ≤ a) × (a < 16 * (n * m) + 4 * (i * m) + 2 * m + 2 * j))
        ⊎ (((20 * (n * m) ≤ a) × (a < 20 * (n * m) + 4 * (i * m) + 2 * j))
            ⊎ ((20 * (n * m) + 4 * (i * m) + 2 * m ≤ a)
                × (a < 20 * (n * m) + 4 * (i * m) + 2 * m + 2 * j))))

module _ (n m : ℕ) where
  abbrev quad_at : ℕ → ℕ → Quads
  quad_at i j = record {
    dst_u_even = 16 * (n * m) + 4 * (i * m) + 2 * j;
    dst_u_odd = 16 * (n * m) + 4 * (i * m) + 2 * m + 2 * j;
    dst_v_even = 20 * (n * m) + 4 * (i * m) + 2 * j;
    dst_v_odd = 20 * (n * m) + 4 * (i * m) + 2 * m + 2 * j;
    src_u = 17 * (n * m) + i * m + j;
    src_v = 16 * (n * m) + i * m + j;
  }

  same_quads :
      (p q : Quads)
      → p.dst_u_even ≡ q.dst_u_even
      → p.dst_u_odd ≡ q.dst_u_odd
      → p.dst_v_even ≡ q.dst_v_even
      → p.dst_v_odd ≡ q.dst_v_odd
      → p.src_u ≡ q.src_u
      → p.src_v ≡ q.src_v
      → p ≡ q
  same_quads p q a b c d e f = λ k. record {
    dst_u_even = a k;
    dst_u_odd = b k;
    dst_v_even = c k;
    dst_v_odd = d k;
    src_u = e k;
    src_v = f k;
  }

  quad_step_lem : (i j : ℕ) → quad_step (quad_at i j) ≡ quad_at i (suc j)
  quad_step_lem i j =
      same_quads _ _ (omega arith) (omega arith) (omega arith) (omega arith) (omega arith)
        (omega arith)

  quad_turn_lem : (i : ℕ) → quad_turn (4 * m) (quad_at i m) ≡ quad_at (suc i) 0
  quad_turn_lem i =
      same_quads _ _ (omega arith) (omega arith) (omega arith) (omega arith) (omega arith)
        (omega arith)

  quad_start_lem : quad_start (4 * m) (4 * n) ≡ quad_at 0 0
  quad_start_lem =
      same_quads _ _ (omega arith) (omega arith) (omega arith) (omega arith) (omega arith)
        (omega arith)

copied_below : (f g : ℕ → ℕ) (k a : ℕ) → a < k → copied f 0 g 0 k a ≡ g a
copied_below f g k a h = ground arith

copied_above : (f g : ℕ → ℕ) (k a : ℕ) → k ≤ a → copied f 0 g 0 k a ≡ f a
copied_above f g k a h = ground arith

module _ (n m : ℕ) (src : Bytes) (reach : 18 * (n * m) ≤ src.size) where
  quad-Told :
      (i j : ℕ)
      → i < n
      → j < m
      → Told
          (planar_of_yvu9 (4 * m) (4 * n) src.at)
          (24 * (n * m))
          (quad_stores src (quad_at n m i j))
  quad-Told i j h k =
      let fits = row_room i n m h in
      let put = moved (planar_of_yvu9 (4 * m) (4 * n) src.at) (24 * (n * m)) src in
      let even : 2 * i / 2 ≡ i = omega arith in
      let odd : (2 * i + 1) / 2 ≡ i = omega arith in
      let left : 2 * j / 2 ≡ j = omega arith in
      let right : (2 * j + 1) / 2 ≡ j = omega arith in
      let u = u_sample n m src.at i j in
      let v = v_sample n m src.at i j in
      put _ _ (omega arith) (omega arith) (u _ _ h k even left _ _ (omega arith) (omega arith))
      & put _ _ (omega arith) (omega arith) (u _ _ h k even right _ _ (omega arith) (omega arith))
      & put _ _ (omega arith) (omega arith) (u _ _ h k odd left _ _ (omega arith) (omega arith))
      & put _ _ (omega arith) (omega arith) (u _ _ h k odd right _ _ (omega arith) (omega arith))
      & put _ _ (omega arith) (omega arith) (v _ _ h k even left _ _ (omega arith) (omega arith))
      & put _ _ (omega arith) (omega arith) (v _ _ h k even right _ _ (omega arith) (omega arith))
      & put _ _ (omega arith) (omega arith) (v _ _ h k odd left _ _ (omega arith) (omega arith))
      & put _ _ (omega arith) (omega arith) (v _ _ h k odd right _ _ (omega arith) (omega arith))
      & _

  quad_more :
      (i j a : ℕ)
      → i < n
      → j < m
      → QuadDone n m i (suc j) a
      → Apart a (quad_stores src (quad_at n m i j))
      → QuadDone n m i j a
  quad_more i j a h k d apart = ground arith

  -- After the copy of the luma plane.
  luma-Filled :
      (dst : Bytes)
      → 24 * (n * m) ≤ dst.size
      → Filled
          (planar_of_yvu9 (4 * m) (4 * n) src.at)
          (24 * (n * m))
          dst
          (QuadDone n m 0 0)
          (record dst { at = copied dst.at 0 src.at 0 (4 * n * (4 * m)) })
  luma-Filled dst room = record {
    same_size = refl;
    inside = λ a d.
        let low : a < 16 * (n * m) = ground arith in
        copied_below dst.at src.at (4 * n * (4 * m)) a (omega arith)
        ∙ sym (y_byte n m src.at a low);
    outside = λ a l. copied_above dst.at src.at (4 * n * (4 * m)) a (omega arith);
  }

-- An image in yvu9 whose width and height are multiples of 4 becomes i420: the luma plane as it is,
-- and each chroma sample four times, with the u and v planes exchanged. The destination's other bytes
-- stay, and nothing faults.
pub yvu9_to_i420-Filled :
    (n m : ℕ) (src dst : Bytes)
    → 18 * (n * m) ≤ src.size
    → 24 * (n * m) ≤ dst.size
    → (now : Bytes) × (yvu9_to_i420 (4 * m) (4 * n) src dst ≡ some (pos 0, now))
      × Filled
          (planar_of_yvu9 (4 * m) (4 * n) src.at)
          (24 * (n * m))
          dst
          (λ a. a < 24 * (n * m))
          now
unfolding yvu9_to_i420
yvu9_to_i420-Filled n m src dst reach room =
    let rows : 4 * n / 4 ≡ n = omega arith in
    let columns : 4 * m / 4 ≡ m = omega arith in
    let (now, ran, f) =
      kernel_lem (planar_of_yvu9 (4 * m) (4 * n) src.at) (24 * (n * m)) dst room (quad_stores src)
        quad_step (quad_turn (4 * m)) n m (quad_at n m) (QuadDone n m) (quad_step_lem n m)
        (quad_turn_lem n m) (quad-Told n m src reach) (quad_more n m src reach)
        (λ i a h d. ground arith) _ (luma-Filled n m src reach dst room) in
    (
      now,
      rw
          (
            memcpy_lem dst 0 src 0 (4 * n * (4 * m)) (omega arith) (omega arith),
            rows,
            columns,
            quad_start_lem n m,
            ran,
          )
          refl,
      weaken (QuadDone n m n 0) (λ a. a < 24 * (n * m)) (λ a l. ground arith) f,
    )
