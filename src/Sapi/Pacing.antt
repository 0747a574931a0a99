-- ===== src/Sapi/Pacing.antt =====
-- `enforce_framerate`: which frames reach the application.
pub mod Usecs
pub mod Sent
pub mod Rate
pub mod Overflow
pub mod Kept
use libvidcap.Base.{
  ℕ, Bool, true, false, not, ◌&&◌, Option, none, some, if◌then◌else◌, eqb_ℤ, ℤ, pos, ◌*ℤ◌, int32,
  quot,
}
use libvidcap.Format.{FmtInfo}
use libvidcap.SlidingWindow.{SlidingWindow, count_of, slide, peek_front}
use libvidcap.Sapi.Time.{Timeval, tv_greater_or_equal, tv_add_usecs}
use libvidcap.Sapi.Context.{SrcContext}

-- `count * 1000000 * den / num`, the time that the frames of the window take, in `int`s.
unfoldable pub window_usecs : ℤ → FmtInfo → ℤ
window_usecs count fmt =
    int32 (quot (int32 (int32 (count *ℤ pos 1000000) *ℤ fmt.fps_denominator)) fmt.fps_numerator)

-- `900000 * den / num`, the least distance of two frames.
unfoldable pub least_usecs : FmtInfo → ℤ
least_usecs fmt = int32 (quot (int32 (pos 900000 *ℤ fmt.fps_denominator)) fmt.fps_numerator)

-- When the next frame may pass, after one at `tv_now`.
unfoldable pub next_time : FmtInfo → ℤ → Timeval → Timeval → Timeval
next_time fmt count tv_oldest tv_now =
    let frame_time_next = tv_add_usecs tv_oldest (window_usecs count fmt) in
    let tv_earliest_next = tv_add_usecs tv_now (least_usecs fmt) in
    if tv_greater_or_equal tv_earliest_next frame_time_next
    then tv_earliest_next
    else frame_time_next

-- `tv_oldest`, or `tv_now` where the window is empty.
abbrev pub oldest : Option Timeval → Timeval → Timeval
oldest none now = now
oldest (some t) now = t

module _ {P : Type 0} where
  -- The part after "Allow frame through"; the numerator divides.
  allow : Timeval → SrcContext P → SlidingWindow Timeval → Timeval → Option (ℤ × SrcContext P)
  allow tv_now ctx w tv_oldest =
      if eqb_ℤ ctx.fmt_nominal.fps_numerator (pos 0) then none else elim (slide w tv_now) [
        | none ↦ none
        | some w' ↦ some (
          pos 1,
          record ctx {
            frame_times = some w';
            frame_time_next = next_time ctx.fmt_nominal (count_of w) tv_oldest tv_now;
          },
        )
      ]

  -- Not the first frame, and not yet time for another.
  pub waits : Timeval → SrcContext P → SlidingWindow Timeval → Bool
  waits tv_now ctx w =
      let first_time = eqb_ℤ (count_of w) (pos 0) in
      not first_time && not (tv_greater_or_equal tv_now ctx.frame_time_next)

  -- With a window of frame times, at the time `tv_now`.
  enforce_with : Timeval → SrcContext P → SlidingWindow Timeval → Option (ℤ × SrcContext P)
  enforce_with tv_now ctx w =
      if waits tv_now ctx w then some (pos 0, ctx) else elim (peek_front w) [
        | none ↦ none
        | some front ↦ allow tv_now ctx w (oldest front tv_now)
      ]

  -- `enforce_framerate`, where `vc_now` gives `tv_now`: 1 lets the frame through, 0 does not.
  -- `none` is a division by zero, or a fault of the window.
  unfoldable pub enforce_framerate : Timeval → SrcContext P → Option (ℤ × SrcContext P)
  unfolding enforce_with waits allow
  enforce_framerate tv_now ctx = elim (ctx.frame_times) [
    | none ↦ some (pos 0, ctx)
    | some w ↦ enforce_with tv_now ctx w
  ]
