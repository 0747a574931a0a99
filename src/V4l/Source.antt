-- ===== src/V4l/Source.antt =====
-- `source_format_bind`, `source_capture_start`, `source_capture_stop`, `monitor_sources`,
-- `notify_thread_stop` and `sapi_v4l_initialize` of src/sapi_v4l.c, with the answers of the system
-- as parameters.
use libvidcap.Base.{
  ℕ, ◌+◌, ◌*◌, ◌/◌, ◌%◌, ◌≡◌, arith, Bool, true, false, not, ◌&&◌, if◌then◌else◌, Option, none,
  some, ℤ, pos, negsuc, eqb_ℤ, quot, bits32,
}
use libvidcap.Format.{FmtInfo}
use libvidcap.V4l.Palette.{Palettes, map_palette_to_fourcc}

-- `struct video_window`
pub record Window : Type 0 where
  pub x : ℕ
  pub y : ℕ
  pub width : ℤ
  pub height : ℤ
  pub flags : ℕ

-- What binding a format changes: `fmt_native` of the source, and the window and the number of frame
-- buffers of the device.
pub record Bound : Type 0 where
  pub fmt_native : FmtInfo
  pub window : Window
  pub frames : ℕ

-- What the ioctl calls of `source_format_bind` answer.
pub record BindAnswers : Type 0 where
  pub spict_ok : Bool
  pub swin_ok : Bool
  pub gwin : Option Window
  pub gmbuf : Option ℕ

-- `(flags & ~v4l_fps_mask) | ((fps << v4l_fps_shift) & v4l_fps_mask)`: the bits from 16 to 21, of
-- 32, are the rate.
unfoldable pub with_fps : ℕ → ℕ → ℕ
with_fps flags fps = flags % 65536 + fps % 64 * 65536 + flags / 4194304 * 4194304

-- The window that is asked for. A denominator of 0 is a fault.
unfoldable pub window_for : Window → FmtInfo → Option Window
window_for window fmt =
    if eqb_ℤ fmt.fps_denominator (pos 0)
    then none
    else some (record {
      x = 0;
      y = 0;
      width = fmt.width;
      height = fmt.height;
      flags = with_fps window.flags (bits32 (quot fmt.fps_numerator fmt.fps_denominator));
    })

-- From VIDIOCGWIN on.
abbrev read_back : Bound → BindAnswers → ℤ × Bound
read_back s answers = elim (answers.gwin) [
  | none ↦ (negsuc 0, s)
  | some window ↦ elim (answers.gmbuf) [
    | none ↦ (negsuc 0, record s { window = window })
    | some frames ↦ (pos 0, record s { window = window; frames = frames })
  ]
]

-- `source_format_bind`, for the palette of the device. The native format is written in any case.
unfoldable pub source_format_bind :
    Palettes → ℕ → Bound → FmtInfo → BindAnswers → Option (ℤ × Bound)
source_format_bind p palette s fmt answers = elim (map_palette_to_fourcc p palette) [
  | none ↦ some (negsuc 0, record s { fmt_native = fmt })
  | some fourcc ↦
      let s' = record s { fmt_native = record fmt { fourcc = fourcc } } in
      if not answers.spict_ok
      then some (negsuc 0, s')
      else elim (window_for s.window s'.fmt_native) [
        | none ↦ none
        | some window ↦
            let s'' = record s' { window = window } in
            some (if answers.swin_ok then read_back s'' answers else (negsuc 0, s''))
      ]
]

-- `source_capture_start` and `source_capture_stop`: what they return, and `capturing`, for the answers
-- of the thread's creation and end.
unfoldable pub source_capture_start : Bool → ℤ × Bool
source_capture_start thread_ok = (if thread_ok then pos 0 else negsuc 0, true)

unfoldable pub source_capture_stop : Bool → ℤ × Bool
source_capture_stop join_ok = (if join_ok then pos 0 else negsuc 0, false)

-- `notifying`, and whether the thread of `monitor_sources` was started in this call.
pub record Monitor : Type 0 where
  pub notifying : Bool
  pub started : Bool

unfoldable pub notify_thread_stop : Bool → ℤ × Monitor
notify_thread_stop join_ok =
    (if join_ok then pos 0 else negsuc 0, record { notifying = false; started = false })

-- `monitor_sources`, with or without a callback. Without one, and without a thread to stop, it
-- starts the thread.
unfoldable pub monitor_sources : Bool → Bool → Bool → Bool → ℤ × Monitor
monitor_sources has_callback notifying thread_ok join_ok =
    if not has_callback && notifying
    then notify_thread_stop join_ok
    else (if thread_ok then pos 0 else negsuc 0, record { notifying = true; started = thread_ok })

-- The rate is read back from the flags, and the other bits stay.
pub with_fps_lem :
    (flags fps : ℕ)
    → (with_fps flags fps / 65536 % 64 ≡ fps % 64)
      × (with_fps flags fps % 65536 ≡ flags % 65536)
      × (with_fps flags fps / 4194304 ≡ flags / 4194304)
unfolding with_fps
with_fps_lem flags fps = (omega arith, omega arith, omega arith)
