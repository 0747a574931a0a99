-- ===== src/Vidcap/Tests.antt =====
-- Runs of the application's interface, and its theorems at concrete inputs.
use Prim.Native.String.{String}
use libvidcap.Base.{
  ◌+◌, ◌+ℤ◌, ℕ, ◌≡◌, ◌≢◌, refl, arith, Bool, true, false, ◌&&◌, Option, some, none, List, [], ◌∷◌,
  ℤ, pos, negsuc, int32, quot, ◌*ℤ◌, eqb_ℤ, if◌then◌else◌, Bytes,
}
use libvidcap.Format.{fourcc_yvu9, FmtInfo, fourcc_i420, fourcc_yuy2}
use libvidcap.Conv.Table.{conversion_func_get, yuy2_to_i420}
use libvidcap.Conv.Size.{fmt_size_get}
use libvidcap.Sapi.Context.{SrcContext, SrcInfo, Backend, src_acquired, src_bound}
use libvidcap.Sapi.FormatList.{
  format_list_build, finish, each_fourcc, each_fps, each_resolution, try_format, add_format,
}
use libvidcap.Vidcap.Blocks.{owned, Outcome, is_capturing}
use libvidcap.Vidcap.Bind.{
  format_bind, bind_to, bind_valid, bind_bound, bind_buffers, bind_stride, bind_conv,
  default_format,
}
use libvidcap.Vidcap.Bind.Ready.{Kept, Decided, format_bind-Ready}
use libvidcap.Vidcap.Capture.{capture_start, capture_stop}
use libvidcap.Vidcap.Source.{zeroed, src_acquire, source_acquired, acquired, src_release}
use libvidcap.Vidcap.Calls.{Call, bind_call, start_call, stop_call, call, calls}
use libvidcap.Vidcap.Calls.Lifetime.{src_acquire-src_release}
use libvidcap.Vidcap.Calls.Moves.{Moves, call-Moves}
use libvidcap.Vidcap.Calls.Leftovers.{capture_start-lost, format_bind-yvu9}
use libvidcap.Vidcap.Sapis.{
  SapiInfo, SapiContext, acquire, find_sapi, choose_sapi, take_sapi, sapi_acquire, sapi_release,
}
use libvidcap.Vidcap.Init.{
  blank_sapi, Initializer, Counted, initialize_all, vidcap_initialize, vidcap_destroy,
  vidcap_destroy_lem,
}
use libvidcap.Vidcap.Sapis.Exclusive.{sapi_acquire-sapi_release}

-- 640x480, 30 frames a second.
abbrev vga : ℤ → FmtInfo
vga fourcc = record {
  width = pos 640;
  height = pos 480;
  fourcc = fourcc;
  fps_numerator = pos 30;
  fps_denominator = pos 1;
}

abbrev is_vga_i420 : FmtInfo → Bool
is_vga_i420 f =
    eqb_ℤ f.width (pos 640) && eqb_ℤ f.fourcc fourcc_i420 && eqb_ℤ f.fps_numerator (pos 30)

-- A device whose frames are YUY2, offered as I420 of one size and rate.
abbrev camera : Backend (Unit {0})
camera = record {
  release = λ p. (pos 0, p);
  format_validate = λ p f for_binding. (if is_vga_i420 f then some (vga fourcc_yuy2) else none, p);
  format_bind = λ p f. (pos 0, p);
  start_capture = λ p. (pos 0, p);
  stop_capture = λ p. (pos 0, p);
}

abbrev info : SrcInfo
info = record { identifier = "cam"; description = "camera" }

abbrev found : Option SrcInfo → ℤ × SrcInfo × Unit {0}
found wanted = (pos 0, info, tt)

abbrev block : ℤ → Bytes
block (pos n) = record { size = n; at = λ i. 0 }
block (negsuc n) = record { size = 0; at = λ i. 0 }

abbrev plenty : ℕ → ℤ → Option Bytes
plenty i size = some (block size)

abbrev source : SrcContext (Unit {0})
source = record (zeroed info tt) { fmt_list = some (vga fourcc_i420 ∷ []); fmt_list_len = pos 1 }

abbrev bound_source : SrcContext (Unit {0})
bound_source = record source {
  fmt_nominal = vga fourcc_i420;
  fmt_native = vga fourcc_yuy2;
  fmt_conv_func = some yuy2_to_i420;
  fmt_conv_buf = some (block (pos 460800));
  fmt_conv_buf_size = pos 460800;
  stride_free_buf = some (block (pos 614400));
  stride_free_buf_size = pos 614400;
  src_state = src_bound;
}

src_acquire_one : src_acquire camera (λ n. true) found true 5 none ≡ some (7, some source)
unfolding src_acquire source_acquired acquired format_list_build finish each_fourcc each_fps
    each_resolution try_format add_format
src_acquire_one = refl

format_bind_first :
    format_bind camera plenty 7 source none
    ≡ some (record { ret = pos 0; live = 9; ctx = bound_source })
unfolding format_bind bind_to bind_valid bind_bound bind_buffers bind_stride bind_conv
    default_format conversion_func_get fmt_size_get int32 quot ◌*ℤ◌
format_bind_first = refl

format_bind-Ready_example :
    (o : Outcome (Unit {0})) × (format_bind camera plenty 7 source (some (vga fourcc_i420))
      ≡ some o)
    × Kept 5 source o
    × Decided plenty source (vga fourcc_i420) o
format_bind-Ready_example = format_bind-Ready camera plenty 5 7 source (vga fourcc_i420) refl refl

abbrev session : List Call
session =
    bind_call plenty none
    ∷ start_call (λ n size. true) (some 1) (pos 3)
    ∷ bind_call plenty (some (vga fourcc_yuy2))
    ∷ stop_call
    ∷ []

src_acquire-src_release_example :
    (live' : ℕ) × (ctx' : SrcContext (Unit {0})) × (calls camera session 7 source
      ≡ some (live', ctx'))
    × (is_capturing ctx'.src_state ≡ false → src_release camera live' ctx' ≡ (pos 0, 5, none))
    × (is_capturing ctx'.src_state ≡ true
        → let o = capture_stop camera live' ctx' in
          src_release camera o.live o.ctx ≡ (pos 0, 5, none))
src_acquire-src_release_example =
    src_acquire-src_release camera found true (λ n. true) 5 none session 7 source src_acquire_one
      (tt, (tt, (rate_given, (tt, tt))))
  where
    rate_given : pos 1 ≢ pos 0
    rate_given e = ground arith

call-Moves_example : Moves (bind_call plenty none) src_acquired (pos 0) src_bound
call-Moves_example =
    call-Moves camera 5 7 source refl (bind_call plenty none)
      (record { ret = pos 0; live = 9; ctx = bound_source }) called
  where
    called :
        call camera (bind_call plenty none) 7 source
        ≡ some (record { ret = pos 0; live = 9; ctx = bound_source })
    called = unfold call in format_bind_first

abbrev idle_backend : String → SapiContext
idle_backend name = record {
  identifier = name;
  description = "backend";
  ref_count = pos 0;
  notify_callback = none;
  notify_data = pos 0;
  user_src_list = [];
}

abbrev backends : List SapiContext
backends = idle_backend "v4l" ∷ idle_backend "qt" ∷ []

abbrev qt_held : List SapiContext
qt_held = idle_backend "v4l" ∷ (record (idle_backend "qt") { ref_count = pos 1 }) ∷ []

abbrev qt : SapiInfo
qt = record { identifier = "qt"; description = "" }

qt_acquired : sapi_acquire (some qt) backends ≡ (some 1, qt_held)
unfolding sapi_acquire choose_sapi find_sapi take_sapi acquire int32 ◌+ℤ◌
qt_acquired = refl

sapi_acquire-sapi_release_example :
    (sapi_acquire (some qt) qt_held ≡ (none, qt_held))
    × (sapi_release 1 qt_held ≡ some (pos 0, backends))
sapi_acquire-sapi_release_example =
    sapi_acquire-sapi_release (some qt) backends qt_held 1 qt_acquired

-- The source after a capture that ended in an error: bound, with its window.
abbrev after_error : SrcContext (Unit {0})
after_error = record bound_source {
  frame_times = some (record {
    window_len = pos 120;
    object_size = pos 16;
    objects = [];
    count = pos 0;
    head = negsuc 0;
    tail = pos 0;
  });
}

given : (n : ℕ) → pos n ≢ negsuc 0
given n e = ground arith

capture_start-lost_example :
    (o : Outcome (Unit {0})) × (capture_start camera
        (λ n size. true)
        11
        after_error
        (some 1)
        (pos 3)
      ≡ some o)
    × (o.live ≡ 5 + owned o.ctx + 2)
capture_start-lost_example =
    capture_start-lost camera 5 11 after_error refl refl
      (record {
        window_len = pos 120;
        object_size = pos 16;
        objects = [];
        count = pos 0;
        head = negsuc 0;
        tail = pos 0;
      })
      refl (λ n size. true) (some 1) (pos 3) (given 3) one_second
  where
    one_second : pos 1 ≢ pos 0
    one_second e = ground arith

-- A device whose frames are YVU9.
abbrev yvu9_camera : Backend (Unit {0})
yvu9_camera = record camera { format_validate = λ p f for_binding. (some (vga fourcc_yvu9), p) }

format_bind-yvu9_example :
    (o : Outcome (Unit {0})) × (format_bind yvu9_camera plenty 9 bound_source
        (some (vga fourcc_i420))
      ≡ some o)
    × (o.ret ≡ negsuc 0)
    × (o.ctx.src_state ≡ src_bound)
    × (o.ctx.stride_free_buf ≡ none)
    × (o.ctx.fmt_native ≡ vga fourcc_yvu9)
format_bind-yvu9_example =
    format_bind-yvu9 yvu9_camera plenty 9 bound_source (vga fourcc_i420) (vga fourcc_yvu9) tt tt
      refl refl refl refl

-- Two backends: one is acquired twice, the other is not.
abbrev held_twice : List SapiContext
held_twice = record blank_sapi { ref_count = pos 2 } ∷ blank_sapi ∷ []

held_twice-Counted : Counted held_twice
held_twice-Counted = ((2, refl, omega arith), ((0, refl, omega arith), tt))

vidcap_destroy_lem_example :
    vidcap_destroy held_twice (3 + 2) ≡ some (blank_sapi ∷ blank_sapi ∷ [], 3)
vidcap_destroy_lem_example = vidcap_destroy_lem held_twice 3 held_twice-Counted

abbrev ready : Initializer
ready sapi = (pos 0, sapi)

abbrev failing : Initializer
failing sapi = (negsuc 0, sapi)

both_ready :
    vidcap_initialize (ready ∷ ready ∷ []) true true 3 ≡ (some (blank_sapi ∷ blank_sapi ∷ []), 5)
unfolding vidcap_initialize initialize_all
both_ready = refl

second_fails : vidcap_initialize (ready ∷ failing ∷ []) true true 3 ≡ (none, 3)
unfolding vidcap_initialize initialize_all
second_fails = refl
