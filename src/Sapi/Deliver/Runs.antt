-- ===== src/Sapi/Deliver/Runs.antt =====
-- Runs of calls of `sapi_src_capture_notify`.
use libvidcap.Base.{Option, none, some, List, [], ◌∷◌, ℤ, Bytes}
use libvidcap.Conv.Table.{ConvFunc}
use libvidcap.Sapi.Time.{Timeval}
use libvidcap.Sapi.Context.{SrcContext}
use libvidcap.Sapi.Deliver.{Event, capture_notify}

-- A call of `sapi_src_capture_notify`: its arguments, and the time.
pub record Notification : Type 0 where
  pub now : Timeval
  pub video_data : Bytes
  pub video_data_size : ℤ
  pub stride : ℤ
  pub error_status : ℤ

module _ {P : Type 0} (convert : ConvFunc → ℤ → ℤ → Bytes → Bytes → Option (ℤ × Bytes)) where
  unfoldable pub notify : Notification → SrcContext P → Option (Option Event × SrcContext P)
  notify n ctx =
      capture_notify convert n.now ctx n.video_data n.video_data_size n.stride n.error_status

  -- The callbacks of a run of notifications, in order.
  unfoldable pub add_event :
      Option Event → Option (List Event × SrcContext P) → Option (List Event × SrcContext P)
  add_event event none = none
  add_event none (some (events, ctx)) = some (events, ctx)
  add_event (some event) (some (events, ctx)) = some (event ∷ events, ctx)

  unfoldable pub notify_all : List Notification → SrcContext P → Option (List Event × SrcContext P)
  notify_all [] ctx = some ([], ctx)
  notify_all (n ∷ ns) ctx = elim (notify n ctx) [
    | none ↦ none
    | some (event, ctx') ↦ add_event event (notify_all ns ctx')
  ]
