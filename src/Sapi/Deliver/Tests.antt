-- ===== src/Sapi/Deliver/Tests.antt =====
-- Runs of the delivery of frames, and its theorems at concrete inputs.
use libvidcap.Base.{
  ◌≡◌, ◌≢◌, refl, arith, Option, some, none, List, [], ◌∷◌, ℤ, pos, negsuc, quot, rem, int32, ◌*ℤ◌,
  ◌+ℤ◌, Bytes,
}
use libvidcap.Conv.Table.{ConvFunc}
use libvidcap.SlidingWindow.{SlidingWindow, slide, peek_front, count_of}
use libvidcap.Sapi.Time.{Timeval, tv_greater_or_equal, tv_add_usecs}
use libvidcap.Sapi.Context.{SrcContext, src_bound}
use libvidcap.Sapi.Pacing.{next_time, window_usecs, least_usecs, enforce_framerate}
use libvidcap.Sapi.Samples.{at_time, i420_at, no_bytes, capturing}
use libvidcap.Sapi.Deliver.{
  Event, no_user_data, packaged, send_of, picture_of, info_of, event_of, finish_frame, with_picture,
  with_send, deliver_frame, after_delivery, capture_notify,
}
use libvidcap.Sapi.Deliver.Runs.{Notification, notify, add_event, notify_all}
use libvidcap.Sapi.Deliver.OneError.{notify_all-one_error}
use libvidcap.Sapi.Deliver.Frames.{as_given, unconverted, capture_notify-frame}

abbrev no_conversion : ConvFunc → ℤ → ℤ → Bytes → Bytes → Option (ℤ × Bytes)
no_conversion function width height src dst = some (pos 0, dst)

abbrev window_of : List Timeval → ℤ → ℤ → SlidingWindow Timeval
window_of objects count head = record {
  window_len = pos 2;
  object_size = pos 16;
  objects = objects;
  count = count;
  head = head;
  tail = pos 0;
}

abbrev listening : SrcContext (Unit {0})
listening =
    capturing (i420_at 1 1)
      (some (window_of (at_time 0 0 ∷ at_time 0 0 ∷ at_time 0 0 ∷ []) (pos 0) (negsuc 0)))
      (at_time 0 0)

abbrev four_bytes : Bytes
four_bytes = record { size = 4; at = λ i. i }

abbrev arrived : SrcContext (Unit {0})
arrived = packaged no_conversion (at_time 11 0) listening four_bytes (pos 4) (pos 0) (pos 0)

abbrev paced : SrcContext (Unit {0})
paced = record arrived {
  frame_times = some (window_of (at_time 11 0 ∷ at_time 0 0 ∷ at_time 0 0 ∷ []) (pos 1) (pos 0));
  frame_time_next = at_time 11 900000;
}

first_paced : enforce_framerate (at_time 11 0) arrived ≡ some (pos 1, paced)
unfolding enforce_framerate next_time quot rem int32 ◌+ℤ◌ ◌*ℤ◌ tv_greater_or_equal tv_add_usecs
    slide peek_front window_usecs least_usecs count_of
first_paced = refl

has_user_data : pos 7 ≢ no_user_data
has_user_data e = ground arith

capture_notify-frame_example :
    capture_notify no_conversion (at_time 11 0) listening four_bytes (pos 4) (pos 0) (pos 0)
    ≡ some (
      some (record {
        callback = 1;
        user_data = pos 7;
        info = record {
          video_data = some four_bytes;
          video_data_size = pos 4;
          error_status = pos 0;
          capture_time_sec = pos 11;
          capture_time_usec = pos 0;
          format = i420_at 1 1;
        };
      }),
      paced,
    )
capture_notify-frame_example =
    capture_notify-frame no_conversion (at_time 11 0) listening paced paced paced four_bytes
      four_bytes four_bytes (pos 4) (pos 0) (pos 4) (pos 4) (pos 0) 1 1 refl refl has_user_data
      first_paced (as_given refl) (unconverted refl)

-- The device is gone, and then notifies a frame all the same.
abbrev gone : Notification
gone = record {
  now = at_time 12 0;
  video_data = no_bytes;
  video_data_size = pos 0;
  stride = pos 0;
  error_status = negsuc 4;
}

abbrev late : Notification
late = record gone { video_data = four_bytes; video_data_size = pos 4; error_status = pos 0 }

abbrev gone_event : Event
gone_event = record {
  callback = 1;
  user_data = pos 7;
  info = record {
    video_data = none;
    video_data_size = pos 0;
    error_status = negsuc 4;
    capture_time_sec = pos 12;
    capture_time_usec = pos 0;
    format = i420_at 1 1;
  };
}

abbrev idle_source : SrcContext (Unit {0})
idle_source = record listening { frame_times = none }

abbrev after_late : SrcContext (Unit {0})
after_late =
    record (packaged no_conversion (at_time 12 0) idle_source four_bytes (pos 4) (pos 0) (pos 0)) {
      src_state = src_bound;
      capture_callback = none;
      capture_data = no_user_data;
    }

gone_then_late :
    notify_all no_conversion (gone ∷ late ∷ []) idle_source ≡ some (gone_event ∷ [], after_late)
unfolding notify_all notify add_event capture_notify after_delivery deliver_frame send_of with_send
    picture_of with_picture info_of finish_frame event_of enforce_framerate
gone_then_late = refl

notify_all-one_error_example : gone_event ∷ [] ≡ gone_event ∷ []
notify_all-one_error_example =
    notify_all-one_error no_conversion gone (late ∷ []) idle_source after_late 1 (gone_event ∷ [])
      failed refl has_user_data gone_then_late
  where
    failed : negsuc 4 ≢ pos 0
    failed e = ground arith
