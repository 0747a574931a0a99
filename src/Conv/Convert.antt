-- ===== src/Conv/Convert.antt =====
-- A call of a conversion through its pointer, as `deliver_frame` of src/sapi.c makes it with what
-- `conv_conversion_func_get` of src/conv.c found.
use libvidcap.Base.{
  ℕ, ◌*◌, ◌/◌, ◌^◌, ◌<◌, ◌≤◌, ◌≡◌, ◌≢◌, refl, arith, Option, some, ℤ, pos, pos_part, Bytes,
}
use libvidcap.Conv.Destride.{◌>>=◌}
use libvidcap.Conv.Table.{ConvFunc, reads, writes}
use libvidcap.Conv.Size.{fmt_size_get, fmt_size_get_lem, bits_per_pixel}
use libvidcap.Conv.Pixels.{Filled}
use libvidcap.Conv.Planar.{i420_to_yuy2, yuy2_to_i420, conv_2vuy_to_i420}
use libvidcap.Conv.Unpack.{yuy2_to_i420-Filled, conv_2vuy_to_i420-Filled}
use libvidcap.Conv.Pack.{i420_to_yuy2-Filled}
use libvidcap.Conv.FromRgb.{rgb32_to_i420, rgb32_to_i420-Filled}
use libvidcap.Conv.RgbPairs.{rgb32_to_yuy2, rgb32_to_yuy2-Filled}
use libvidcap.Conv.Yuy2.{conv_2vuy_to_yuy2, conv_2vuy_to_yuy2-Swapped}
use libvidcap.Conv.Yvu9.{yvu9_to_i420}
use libvidcap.Conv.Rgb24.{rgb24_to_rgb32, rgb24_to_rgb32-Filled, bottom_up_rgb24_to_rgb32}
use libvidcap.Conv.BottomUp.{bottom_up_rgb24_to_rgb32-Filled}
use libvidcap.Conv.YuvTables.{Tables, prepared, prepared_init, init_yuv2rgb_tables}
use libvidcap.Conv.ToRgb.{yuy2_to_rgb32, i420_to_rgb32}
use libvidcap.Conv.ToRgb.Colours.{yuy2_to_rgb32-Filled, i420_to_rgb32-Filled}

-- A conversion that leaves the tables as they are.
abbrev keeping : Tables → Option (ℤ × Bytes) → Option (Tables × ℤ × Bytes)
keeping tables o = do (ret, dst) ← o; some (tables, ret, dst)

-- The function that the pointer stands for.
unfoldable pub call_func : ConvFunc → ℕ → ℕ → Bytes → Bytes → Tables → Option (Tables × ℤ × Bytes)
call_func ConvFunc.i420_to_rgb32 w h src dst t = i420_to_rgb32 w h src dst t
call_func ConvFunc.yuy2_to_rgb32 w h src dst t = yuy2_to_rgb32 w h src dst t
call_func ConvFunc.rgb32_to_i420 w h src dst t = keeping t (rgb32_to_i420 w h src dst)
call_func ConvFunc.yuy2_to_i420 w h src dst t = keeping t (yuy2_to_i420 w h src dst)
call_func ConvFunc.i420_to_yuy2 w h src dst t = keeping t (i420_to_yuy2 w h src dst)
call_func ConvFunc.rgb32_to_yuy2 w h src dst t = keeping t (rgb32_to_yuy2 w h src dst)
call_func ConvFunc.conv_2vuy_to_yuy2 w h src dst t = keeping t (conv_2vuy_to_yuy2 w h src dst)
call_func ConvFunc.conv_2vuy_to_i420 w h src dst t = keeping t (conv_2vuy_to_i420 w h src dst)
call_func ConvFunc.rgb24_to_rgb32 w h src dst t = keeping t (rgb24_to_rgb32 w h src dst)
call_func ConvFunc.bottom_up_rgb24_to_rgb32 w h src dst t =
    keeping t (bottom_up_rgb24_to_rgb32 w h src dst)
call_func ConvFunc.yvu9_to_i420 w h src dst t = keeping t (yvu9_to_i420 w h src dst)

-- The call returned 0 and changed `dst` below `total` only, and the tables stay usable.
pub record Wrote (dst : Bytes) (total : ℕ) (result : Option (Tables × ℤ × Bytes)) : Type 0 where
  pub tables : Tables
  pub now : Bytes
  pub returned : result ≡ some (tables, pos 0, now)
  pub ready : prepared tables ≡ init_yuv2rgb_tables
  pub same_size : now.size ≡ dst.size
  pub outside : (a : ℕ) → total ≤ a → now.at a ≡ dst.at a

module _ {spec : ℕ → ℕ} {total total' : ℕ} {dst now : Bytes} {done : ℕ → Type 0} (t : Tables)
    (ready : prepared t ≡ init_yuv2rgb_tables) (f : Filled spec total dst done now)
    (same : total ≡ total') where
  keeping-Wrote : {o : Option (ℤ × Bytes)} → o ≡ some (pos 0, now) → Wrote dst total' (keeping t o)
  keeping-Wrote {o} e = record {
    tables = t;
    now = now;
    returned = rw e refl;
    ready = ready;
    same_size = f.same_size;
    outside = λ a l. f.outside a (omega arith);
  }

  tables-Wrote : {o : Option (Tables × ℤ × Bytes)} → o ≡ some (t, pos 0, now) → Wrote dst total' o
  tables-Wrote {o} e = record {
    tables = t;
    now = now;
    returned = e;
    ready = ready;
    same_size = f.same_size;
    outside = λ a l. f.outside a (omega arith);
  }

module _ (n m : ℕ) (src dst : Bytes) (t : Tables) (ready : prepared t ≡ init_yuv2rgb_tables)
    (bytes : (j : ℕ) → src.at j < 256) where
  abbrev area : ℕ
  area = 2 * m * (2 * n)

  abbrev Room : ConvFunc → Type 0
  Room f =
      (area * bits_per_pixel (reads f) / 8 ≤ src.size)
      × (area * bits_per_pixel (writes f) / 8 ≤ dst.size)

  by_func :
      (f : ConvFunc)
      → f ≢ ConvFunc.yvu9_to_i420
      → Room f
      → Wrote dst (area * bits_per_pixel (writes f) / 8) (call_func f (2 * m) (2 * n) src dst t)
  unfolding call_func
  by_func ConvFunc.i420_to_rgb32 other (r, w) =
      let (now, e, f) =
        i420_to_rgb32-Filled n m src dst t ready bytes (omega arith) (omega arith) in
      tables-Wrote init_yuv2rgb_tables prepared_init f (omega arith) e
  by_func ConvFunc.yuy2_to_rgb32 other (r, w) =
      let (now, e, f) =
        yuy2_to_rgb32-Filled (2 * n) m src dst t ready bytes (omega arith) (omega arith) in
      tables-Wrote init_yuv2rgb_tables prepared_init f (omega arith) e
  by_func ConvFunc.rgb32_to_i420 other (r, w) =
      let (now, e, f) = rgb32_to_i420-Filled n m src dst (omega arith) (omega arith) in
      keeping-Wrote t ready f (omega arith) e
  by_func ConvFunc.yuy2_to_i420 other (r, w) =
      let (now, e, f) = yuy2_to_i420-Filled n m src dst (omega arith) (omega arith) in
      keeping-Wrote t ready f (omega arith) e
  by_func ConvFunc.i420_to_yuy2 other (r, w) =
      let (now, e, f) = i420_to_yuy2-Filled n m src dst (omega arith) (omega arith) in
      keeping-Wrote t ready f (omega arith) e
  by_func ConvFunc.rgb32_to_yuy2 other (r, w) =
      let (now, e, f) = rgb32_to_yuy2-Filled n m src dst (omega arith) (omega arith) in
      keeping-Wrote t ready f (omega arith) e
  by_func ConvFunc.conv_2vuy_to_yuy2 other (r, w) =
      let (now, e, f) =
        conv_2vuy_to_yuy2-Swapped (2 * m) (2 * n) src dst bytes (omega arith) (omega arith) in
      record {
        tables = t;
        now = now;
        returned = rw e refl;
        ready = ready;
        same_size = f.same_size;
        outside = λ a l. f.outside a (omega arith);
      }
  by_func ConvFunc.conv_2vuy_to_i420 other (r, w) =
      let (now, e, f) = conv_2vuy_to_i420-Filled n m src dst (omega arith) (omega arith) in
      keeping-Wrote t ready f (omega arith) e
  by_func ConvFunc.rgb24_to_rgb32 other (r, w) =
      let (now, e, f) =
        rgb24_to_rgb32-Filled (2 * m) (2 * n) src dst bytes (omega arith) (omega arith) in
      keeping-Wrote t ready f (omega arith) e
  by_func ConvFunc.bottom_up_rgb24_to_rgb32 other (r, w) =
      let (now, e, f) =
        bottom_up_rgb24_to_rgb32-Filled (2 * m) (2 * n) src dst bytes (omega arith) (omega arith) in
      keeping-Wrote t ready f (omega arith) e
  by_func ConvFunc.yvu9_to_i420 other (r, w) = absurd (other refl)

-- Blocks of the sizes that `conv_fmt_size_get` has for the two formats are large enough for every
-- conversion but the one from yvu9, for an even width and height below 2 ^ 29 pixels, with the colour
-- tables ready or not yet initialized. The call returns 0 without an access out of bounds, changes
-- no byte past the frame, and leaves the tables ready.
pub call_func-Wrote :
    (function : ConvFunc) (n m : ℕ) (src dst : Bytes) (tables : Tables)
    → function ≢ ConvFunc.yvu9_to_i420
    → prepared tables ≡ init_yuv2rgb_tables
    → ((j : ℕ) → src.at j < 256)
    → 2 * m * (2 * n) < 2 ^ 29
    → pos_part (fmt_size_get (pos (2 * m)) (pos (2 * n)) (reads function)) ≤ src.size
    → pos_part (fmt_size_get (pos (2 * m)) (pos (2 * n)) (writes function)) ≤ dst.size
    → Wrote dst
        (pos_part (fmt_size_get (pos (2 * m)) (pos (2 * n)) (writes function)))
        (call_func function (2 * m) (2 * n) src dst tables)
call_func-Wrote function n m src dst tables other ready bytes small reach room =
    let from = fmt_size_get_lem (2 * m) (2 * n) (reads function) small in
    let to = fmt_size_get_lem (2 * m) (2 * n) (writes function) small in
    rw to
      (by_func n m src dst tables ready bytes function other ((rw from at reach), (rw to at room)))
