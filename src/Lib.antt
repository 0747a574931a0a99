-- ===== src/Lib.antt =====
-- libvidcap captures video: an application picks a backend (a sapi), acquires one of its
-- sources, binds a format and starts a capture, and gets a callback for each frame that is due.
-- This library models the C core of it, between the application and the backends.
--
-- The parts, and the files that model them (paths of the repository):
--   Format         include/vidcap/vidcap.h, src/conv.h, src/hotlist.c: fourccs, `FmtInfo` for
--                  `vidcap_fmt_info`, and the hot lists.
--   SlidingWindow  src/sliding_window.c: the last n frame times in a circular array.
--   DoubleBuffer   src/double_buffer.c: two places for frames, one mutex for each, between the
--                  capture thread and the timer thread.
--   Conv           src/conv.c: the table of conversions (Table), the size of a frame (Size) and
--                  destriding (Destride, Rows, Planes). The conversions themselves: Planar, Unpack
--                  and Pack for those between yuy2, 2vuy and i420, Yvu9 and FromRgb for the others of
--                  src/conv_to_i420.c, Yuy2 and RgbPairs for the others of src/conv_to_yuy2.c, Rgb24,
--                  BottomUp, YuvTables and ToRgb for src/conv_to_rgb.c, with Luma for the formulas.
--                  Pixels, Grid and Words carry their proofs: a conversion is its pointers, the
--                  stores of one block, and how the pointers move. Convert calls one by its pointer.
--   Sapi           src/sapi.c, src/sapi_context.h: `SrcContext` for `sapi_src_context`;
--                  Time and Pacing for `enforce_framerate`, FormatList for
--                  `sapi_src_format_list_build`, Convertible for `sapi_can_convert_native_to_nominal`,
--                  Deliver for `deliver_frame` and `sapi_src_capture_notify`, Timer for the thread
--                  that delivers frames at its own pace.
--   V4l            src/sapi_v4l.c: Text and Ident for the identifiers of sources, SrcList, Devices and
--                  Matches for the lists of sources, Scan for `scan_sources`, Acquire for
--                  `source_acquire` and `source_release`, Palette for `source_format_validate`, Source
--                  for binding a format, starting, stopping and monitoring, Capture for the thread.
--   Dshow          src/directshow/SourceStateMachine.cpp: Machine for the flags of a source and the
--                  steps of its three threads, Quiet for their invariant.
--   Qt             src/sapi_qt.c: Formats for `source_format_validate` and the maps of pixel formats,
--                  Capture for the capture thread; Sources for the list of src/quicktime/sg_manager.c.
--   Vidcap         src/vidcap.c: Init for `vidcap_initialize` and `vidcap_destroy`, Sapis for the
--                  list of backends, Source, Bind and Capture for
--                  `vidcap_src_acquire`, `vidcap_src_release`, `vidcap_format_bind`,
--                  `vidcap_src_capture_start` and `vidcap_src_capture_stop`, and Calls for
--                  sequences of these.
--   Base           What the parts share: tests, lists, the integers of C, loops, blocks of bytes.
-- A call of the application goes from Vidcap to the backend; a frame comes from the backend to
-- `capture_notify`, which asks SlidingWindow, through Pacing, whether it is due, and Conv for its
-- bytes. A backend is a parameter, a record `Backend` of its functions over a private state.
--
-- State is passed along: an operation takes the fields of its struct as a record and returns the
-- result code with the new record. `none` as the result of a function into `Option` is a fault: an
-- access out of a block, a null pointer read, a division by zero, and in SlidingWindow an offset
-- that does not fit an `int`. An allocator's answers are parameters, different for each call;
-- `live` counts the blocks that are allocated. An `int` is an integer of `Base.Int`, wrapped by
-- `int32` where the code computes, also in a division of the least `int` by -1, at which some
-- machines stop; in destriding and in the conversions sizes and strides are natural numbers, and
-- their products are taken to fit an `int`. The theorems about conversions are for the even sizes
-- (multiples of 4 from YVU9) that the subsampled formats have, and `capture_notify` takes the
-- conversions as a parameter. Every loop is a structural recursion on its bound or its list, but
-- for four, which have fuel: `release_loop` of src/vidcap.c one more than the reference count, and
-- of src/sapi_v4l.c `append_matches` and `remove_all` one more than the length of the list,
-- `scan_loop` 34, one more than the device paths. Theorems show that this is enough. The
-- identifiers of sapis are taken to be shorter than VIDCAP_NAME_LENGTH.
--
-- Not modelled:
--   around the timer thread, what starts and stops it, and the branches for it in capture_notify,
--     capture_start and capture_stop: `vidcap_src_acquire` sets `use_timer_thread` to 0 and nothing
--     sets it otherwise;
--   of src/sapi_v4l.c the failure of `realloc`, and the notification thread, which does nothing yet;
--   of DirectShow all but the state machine of a source, in which events are set and reset without
--     failure; of src/sapi_qt.c the acquisition of sources and the decompression sessions; the
--     wrappers of the operating system, and logging.
pub mod Base
pub mod Format
pub mod Conv
pub mod SlidingWindow
pub mod DoubleBuffer
pub mod Sapi
pub mod V4l
pub mod Dshow
pub mod Qt
pub mod Vidcap
