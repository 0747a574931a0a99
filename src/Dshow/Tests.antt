-- ===== src/Dshow/Tests.antt =====
-- A run of the three threads, and the theorem at it.
use libvidcap.Base.{◌≡◌, refl, true, false}
use libvidcap.Dshow.Machine.{
  calling_nothing, stop_sent, waiting, device_stopped, outside, notifying, leaving, Machine,
  constructed, start, stop, flag_stop, send_stop, return_stop, take_start, device_starts, take_stop,
  silence, device_stops, finish_stop, enter, turn_away, notify, notified, leave, Reach, at_first,
  started, stepped, Steps, no_step, and_step,
}
use libvidcap.Dshow.Quiet.{in_notify, reports, return_stop-in_notify}

-- The capture runs.
abbrev running : Machine
running = record constructed { ok_to_send_start = false; allow_callbacks = true }

running-Reach : Reach running
running-Reach =
    stepped (stepped (started at_first (start refl refl)) (take_start refl refl refl))
      (device_starts refl)

-- A frame is in the callback while `stop` waits for the source's thread, which has stopped the
-- device.
abbrev in_callback : Machine
in_callback = record running {
  ok_to_send_start = true;
  ok_to_send_stop = false;
  allow_callbacks = false;
  callback_in_progress = true;
  capture_stopped = false;
  caller = stop_sent;
  commands = device_stopped;
  grabber = notifying;
}

in_callback-Reach : Reach in_callback
in_callback-Reach =
    let begun = stepped (stepped running-Reach (enter refl)) (notify refl refl) in
    let sent =
      stepped (stepped (stepped begun (stop refl)) (flag_stop refl refl)) (send_stop refl) in
    stepped (stepped (stepped sent (take_stop refl refl refl refl)) (silence refl))
      (device_stops refl)

abbrev stopped : Machine
stopped = record in_callback {
  callback_in_progress = false;
  capture_stopped = true;
  commands = waiting;
  grabber = outside;
}

stopped-Reach : Reach stopped
stopped-Reach =
    stepped (stepped (stepped in_callback-Reach (notified refl)) (leave refl))
      (finish_stop refl refl)

-- After the return the device has another frame.
abbrev late_frame : Machine
late_frame = record stopped {
  callback_in_progress = true;
  caller = calling_nothing;
  grabber = leaving;
}

late_frame-Steps : Steps stopped late_frame
late_frame-Steps =
    and_step (and_step (and_step no_step (return_stop refl refl)) (enter refl))
      (turn_away refl refl)

return_stop-in_notify_example :
    (in_notify late_frame.grabber ≡ false) × (reports late_frame.commands ≡ false)
return_stop-in_notify_example =
    return_stop-in_notify stopped late_frame stopped-Reach refl refl late_frame-Steps
