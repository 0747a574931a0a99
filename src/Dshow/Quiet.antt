-- ===== src/Dshow/Quiet.antt =====
-- After `stop` no callback is made.
use libvidcap.Base.{◌≡◌, Bool, true, false, arith}
use libvidcap.Dshow.Machine.{
  stop_flagged, stop_sent, Commands, waiting, starting, start_failed, cancelling, cancelled,
  reporting, stopping, stop_silenced, device_stopped, ended, Grabber, outside, entered, notifying,
  leaving, Machine, constructed, Start, start, Step, stop, flag_stop, send_stop, return_stop,
  delete, cancel_capture, take_cancel, cancel_nothing, cancel_callbacks, report_cancel,
  finish_cancel, take_start, device_starts, device_fails, finish_start, take_stop, silence,
  device_stops, finish_stop, take_terminate, enter, turn_away, notify, notified, leave, Reach,
  at_first, started, stepped, Steps, no_step, and_step,
}

-- The grabber is in `bufferCB`.
abbrev inside : Grabber → Bool
inside outside = false
inside entered = true
inside notifying = true
inside leaving = true

-- The thread is in `sapi_src_capture_notify`.
abbrev pub in_notify : Grabber → Bool
in_notify outside = false
in_notify entered = false
in_notify notifying = true
in_notify leaving = false

abbrev pub reports : Commands → Bool
reports waiting = false
reports starting = false
reports start_failed = true
reports cancelling = false
reports cancelled = false
reports reporting = true
reports stopping = false
reports stop_silenced = false
reports device_stopped = false
reports ended = false

-- The commands that make callbacks, or are about to allow them.
abbrev loud : Commands → Bool
loud waiting = false
loud starting = true
loud start_failed = true
loud cancelling = false
loud cancelled = true
loud reporting = true
loud stopping = false
loud stop_silenced = false
loud device_stopped = false
loud ended = false

-- No callback is made, and none will be without a start.
pub record Quiet (s : Machine) : Type 0 where
  pub off : s.allow_callbacks ≡ false
  pub no_start : s.event_start ≡ false
  pub calm : loud s.commands ≡ false
  pub out : in_notify s.grabber ≡ false

calm_reports : (c : Commands) → loud c ≡ false → reports c ≡ false
calm_reports c h = ground arith

Step-Quiet : {s t : Machine} → Step s t → Quiet s → Quiet t
Step-Quiet (stop a) q = ground arith
Step-Quiet (flag_stop a b) q = ground arith
Step-Quiet (send_stop a) q = ground arith
Step-Quiet (return_stop a b) q = ground arith
Step-Quiet (delete a) q = ground arith
Step-Quiet cancel_capture q = ground arith
Step-Quiet (take_cancel a b) q = ground arith
Step-Quiet (cancel_nothing a b) q = ground arith
Step-Quiet (cancel_callbacks a b) q = ground arith
Step-Quiet (report_cancel a b) q = ground arith
Step-Quiet (finish_cancel a) q = ground arith
Step-Quiet (take_start a b c) q = ground arith
Step-Quiet (device_starts a) q = ground arith
Step-Quiet (device_fails a) q = ground arith
Step-Quiet (finish_start a) q = ground arith
Step-Quiet (take_stop a b c d) q = ground arith
Step-Quiet (silence a) q = ground arith
Step-Quiet (device_stops a) q = ground arith
Step-Quiet (finish_stop a b) q = ground arith
Step-Quiet (take_terminate a b c d e) q = ground arith
Step-Quiet (enter a) q = ground arith
Step-Quiet (turn_away a b) q = ground arith
Step-Quiet (notify a b) q = ground arith
Step-Quiet (notified a) q = ground arith
Step-Quiet (leave a) q = ground arith

-- What holds of the flags, wherever the threads are.
abbrev stops : Commands → Bool
stops waiting = false
stops starting = false
stops start_failed = false
stops cancelling = false
stops cancelled = false
stops reporting = false
stops stopping = true
stops stop_silenced = true
stops device_stopped = true
stops ended = false

abbrev silenced : Commands → Bool
silenced waiting = false
silenced starting = false
silenced start_failed = false
silenced cancelling = false
silenced cancelled = false
silenced reporting = false
silenced stopping = false
silenced stop_silenced = true
silenced device_stopped = true
silenced ended = false

record Agrees (s : Machine) : Type 0 where
  busy : s.callback_in_progress ≡ inside s.grabber
  off : silenced s.commands ≡ true → s.allow_callbacks ≡ false
  flagged : s.caller ≡ stop_flagged → s.capture_stopped ≡ false
  sent : s.event_stop ≡ true → s.caller ≡ stop_sent
  pending : s.event_stop ≡ true → s.capture_stopped ≡ false
  one_stop : s.event_stop ≡ true → stops s.commands ≡ false
  served : stops s.commands ≡ true → s.caller ≡ stop_sent
  serving : stops s.commands ≡ true → s.capture_stopped ≡ false
  no_start : stops s.commands ≡ true → s.event_start ≡ false
  done : s.caller ≡ stop_sent → s.capture_stopped ≡ true → Quiet s

Step-Agrees : {s t : Machine} → Step s t → Agrees s → Agrees t
Step-Agrees (stop a) h = ground arith
Step-Agrees (flag_stop a b) h = ground arith
Step-Agrees (send_stop a) h = ground arith
Step-Agrees (return_stop a b) h = ground arith
Step-Agrees (delete a) h = ground arith
Step-Agrees cancel_capture h = ground arith
Step-Agrees (take_cancel a b) h = ground arith
Step-Agrees (cancel_nothing a b) h = ground arith
Step-Agrees (cancel_callbacks a b) h = ground arith
Step-Agrees (report_cancel a b) h = ground arith
Step-Agrees (finish_cancel a) h = ground arith
Step-Agrees (take_start a b c) h = ground arith
Step-Agrees (device_starts a) h = ground arith
Step-Agrees (device_fails a) h = ground arith
Step-Agrees (finish_start a) h = ground arith
Step-Agrees (take_stop a b c d) h = ground arith
Step-Agrees (silence a) h = ground arith
Step-Agrees (device_stops a) h = ground arith
Step-Agrees (finish_stop a b) h = ground arith
Step-Agrees (take_terminate a b c d e) h = ground arith
Step-Agrees (enter a) h = ground arith
Step-Agrees (turn_away a b) h = ground arith
Step-Agrees (notify a b) h = ground arith
Step-Agrees (notified a) h = ground arith
Step-Agrees (leave a) h = ground arith

Start-Agrees : {s t : Machine} → Start s t → Agrees s → Agrees t
Start-Agrees (start a b) h = ground arith

constructed-Agrees : Agrees constructed
constructed-Agrees = ground arith

Reach-Agrees : {s : Machine} → Reach s → Agrees s
Reach-Agrees at_first = constructed-Agrees
Reach-Agrees (started r step) = Start-Agrees step (Reach-Agrees r)
Reach-Agrees (stepped r step) = Step-Agrees step (Reach-Agrees r)

Steps-Quiet : {s t : Machine} → Steps s t → Quiet s → Quiet t
Steps-Quiet no_step q = q
Steps-Quiet (and_step steps step) q = Step-Quiet step (Steps-Quiet steps q)

-- From any state that the three threads come to in which `stop` is about to return, and after any steps
-- of the three that do not call `start`, with cancellations and frames of the device among
-- them: no thread is in a callback, neither the grabber with a frame nor the source's thread with
-- an error.
pub return_stop-in_notify :
    (s t : Machine)
    → Reach s
    → s.caller ≡ stop_sent
    → s.capture_stopped ≡ true
    → Steps s t
    → (in_notify t.grabber ≡ false) × (reports t.commands ≡ false)
return_stop-in_notify s t reached sent done steps =
    let q = Steps-Quiet steps ((Reach-Agrees reached).done sent done) in
    (q.out, calm_reports t.commands q.calm)
