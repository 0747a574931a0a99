-- ===== src/Dshow/Machine.antt =====
-- src/directshow/SourceStateMachine.cpp: the flags and events of a source, and the steps of the
-- three threads: the application's in `start` and `stop`, the source's in `waitForCmd`, and
-- the sample grabber's in `bufferCB`. Setting and resetting an event succeeds.
use libvidcap.Base.{◌≡◌, Bool, true, false}

-- The application's thread: in no call, in `stop` at the wait for `okToSendStop_`, with the flags
-- of a stop set, with the event set, and in the destructor.
pub data Caller : Type 0 where
  calling_nothing stop_called stop_flagged stop_sent deleting : Caller

-- The source's thread: at its wait, in `doStart` before and after a failure, in `doCancelCapture`
-- before its test, with the callbacks forbidden, and at the last callback, in `doStop` before and after
-- the callbacks are forbidden and after `src_->stop()`, and at its end.
pub data Commands : Type 0 where
  waiting starting start_failed : Commands
  cancelling cancelled reporting : Commands
  stopping stop_silenced device_stopped ended : Commands

-- The sample grabber's thread: out of `bufferCB`, in it before the test of `allowCallbacks_`, in
-- `sapi_src_capture_notify`, and back from it.
pub data Grabber : Type 0 where
  outside entered notifying leaving : Grabber

pub record Machine : Type 0 where
  pub event_start : Bool
  pub event_stop : Bool
  pub event_terminate : Bool
  pub event_cancel : Bool
  pub ok_to_send_start : Bool
  pub ok_to_send_stop : Bool
  pub allow_callbacks : Bool
  pub callback_in_progress : Bool
  pub callback_cancellation_in_progress : Bool
  pub capture_stopped : Bool
  pub caller : Caller
  pub commands : Commands
  pub grabber : Grabber

-- The constructor's end, with the thread ready.
abbrev pub constructed : Machine
constructed = record {
  event_start = false;
  event_stop = false;
  event_terminate = false;
  event_cancel = false;
  ok_to_send_start = true;
  ok_to_send_stop = true;
  allow_callbacks = false;
  callback_in_progress = false;
  callback_cancellation_in_progress = false;
  capture_stopped = true;
  caller = calling_nothing;
  commands = waiting;
  grabber = outside;
}

-- `start`, where the source is ready for it.
pub data Start (s : Machine) : Machine → Type 0 where
  start :
      s.caller ≡ calling_nothing
      → s.ok_to_send_start ≡ true
      → Start s (record s { ok_to_send_start = false; event_start = true })

-- Every other step. `WaitForMultipleObjects` gives the first event that is set, in the order cancel,
-- start, stop, terminate.
pub data Step (s : Machine) : Machine → Type 0 where
  stop : s.caller ≡ calling_nothing → Step s (record s { caller = stop_called })
  flag_stop :
      s.caller ≡ stop_called
      → s.ok_to_send_stop ≡ true
      → Step s
          (record s { caller = stop_flagged; ok_to_send_stop = false; capture_stopped = false })
  send_stop : s.caller ≡ stop_flagged → Step s (record s { caller = stop_sent; event_stop = true })
  return_stop :
      s.caller ≡ stop_sent
      → s.capture_stopped ≡ true
      → Step s (record s { caller = calling_nothing })
  delete :
      s.caller ≡ calling_nothing → Step s (record s { caller = deleting; event_terminate = true })
  cancel_capture : Step s (record s { event_cancel = true })
  take_cancel :
      s.commands ≡ waiting
      → s.event_cancel ≡ true
      → Step s (record s {
        event_cancel = false;
        ok_to_send_start = true;
        callback_cancellation_in_progress = true;
        commands = cancelling;
      })
  cancel_nothing :
      s.commands ≡ cancelling
      → s.allow_callbacks ≡ false
      → Step s (record s { callback_cancellation_in_progress = false; commands = waiting })
  cancel_callbacks :
      s.commands ≡ cancelling
      → s.allow_callbacks ≡ true
      → Step s (record s { allow_callbacks = false; commands = cancelled })
  report_cancel :
      s.commands ≡ cancelled
      → s.callback_in_progress ≡ false
      → Step s (record s { commands = reporting })
  finish_cancel :
      s.commands ≡ reporting
      → Step s (record s { callback_cancellation_in_progress = false; commands = waiting })
  take_start :
      s.commands ≡ waiting
      → s.event_cancel ≡ false
      → s.event_start ≡ true
      → Step s (record s { event_start = false; ok_to_send_stop = true; commands = starting })
  device_starts :
      s.commands ≡ starting → Step s (record s { allow_callbacks = true; commands = waiting })
  device_fails :
      s.commands ≡ starting
      → Step s
          (record s { allow_callbacks = false; ok_to_send_start = true; commands = start_failed })
  finish_start : s.commands ≡ start_failed → Step s (record s { commands = waiting })
  take_stop :
      s.commands ≡ waiting
      → s.event_cancel ≡ false
      → s.event_start ≡ false
      → s.event_stop ≡ true
      → Step s (record s { event_stop = false; ok_to_send_start = true; commands = stopping })
  silence :
      s.commands ≡ stopping
      → Step s (record s { allow_callbacks = false; commands = stop_silenced })
  device_stops : s.commands ≡ stop_silenced → Step s (record s { commands = device_stopped })
  finish_stop :
      s.commands ≡ device_stopped
      → s.callback_in_progress ≡ false
      → Step s (record s { capture_stopped = true; commands = waiting })
  take_terminate :
      s.commands ≡ waiting
      → s.event_cancel ≡ false
      → s.event_start ≡ false
      → s.event_stop ≡ false
      → s.event_terminate ≡ true
      → Step s (record s { commands = ended })
  enter : s.grabber ≡ outside → Step s (record s { callback_in_progress = true; grabber = entered })
  turn_away :
      s.grabber ≡ entered → s.allow_callbacks ≡ false → Step s (record s { grabber = leaving })
  notify :
      s.grabber ≡ entered → s.allow_callbacks ≡ true → Step s (record s { grabber = notifying })
  notified : s.grabber ≡ notifying → Step s (record s { grabber = leaving })
  leave :
      s.grabber ≡ leaving → Step s (record s { callback_in_progress = false; grabber = outside })

-- The states that the threads come to.
pub data Reach : Machine → Type 0 where
  at_first : Reach constructed
  started : {s t : Machine} → Reach s → Start s t → Reach t
  stepped : {s t : Machine} → Reach s → Step s t → Reach t

-- Steps of the three threads without a call of `start`.
pub data Steps (s : Machine) : Machine → Type 0 where
  no_step : Steps s s
  and_step : {t u : Machine} → Steps s t → Step t u → Steps s u
