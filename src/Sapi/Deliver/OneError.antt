-- ===== src/Sapi/Deliver/OneError.antt =====
-- A capture error is told to the application once.
use libvidcap.Base.{
  ℕ, ◌≡◌, ◌≢◌, refl, inl, inr, Option, none, some, Option-cases, List, [], ◌∷◌, ℤ, pos, Bytes,
}
use libvidcap.Conv.Table.{ConvFunc}
use libvidcap.Sapi.Context.{SrcContext, src_bound}
use libvidcap.Sapi.Deliver.Errors.{capture_notify-error}
use libvidcap.Sapi.Deliver.{Event, no_user_data, info_with, packaged}
use libvidcap.Sapi.Deliver.Runs.{Notification, notify, add_event, notify_all}
use libvidcap.Sapi.Deliver.Silence.{notify-Silent}

-- What a run of notifications makes of the callbacks, where it does not fault.
abbrev SilentRun : {P : Type 0} → Option (List Event × SrcContext P) → Type 0
SilentRun none = Unit {0}
SilentRun (some (events, ctx)) = events ≡ []

module _ {P : Type 0} (convert : ConvFunc → ℤ → ℤ → Bytes → Bytes → Option (ℤ × Bytes)) where
  added :
      (r : Option (List Event × SrcContext P)) → SilentRun r → SilentRun (add_event convert none r)
  unfolding add_event
  added none h = tt
  added (some (events, ctx)) h = h

  run-Silent :
      (ns : List Notification) (ctx : SrcContext P)
      → ctx.capture_callback ≡ none
      → SilentRun (notify_all convert ns ctx)
  unfolding notify_all
  run-Silent [] ctx c = refl
  run-Silent (n ∷ ns) ctx c = elim (Option-cases (notify convert n ctx)) [
    | inl e ↦ rw (e, notify_all) tt
    | inr ((event, ctx'), e) ↦
        let (h, c') = rw e at (notify-Silent convert n ctx c) in
        rw (e, notify_all, h) (added (notify_all convert ns ctx') (run-Silent ns ctx' c'))
  ]

  one_event :
      (event : Event) (r : Option (List Event × SrcContext P)) (events : List Event)
      (ctx' : SrcContext P)
      → SilentRun r
      → add_event convert (some event) r ≡ some (events, ctx')
      → events ≡ event ∷ []
  unfolding add_event
  one_event event none events ctx' h e = cc
  one_event event (some (l, ctx)) events ctx' h e = cc

  -- In a source with a callback and valid user data, the first notification of a capture error makes
  -- one callback: with the user data, the status of the error, no data, the time of the notification
  -- and the nominal format. Nothing that a backend notifies after it makes another.
  pub notify_all-one_error :
      (n : Notification) (ns : List Notification) (ctx ctx' : SrcContext P) (callback : ℕ)
      (events : List Event)
      → n.error_status ≢ pos 0
      → ctx.capture_callback ≡ some callback
      → ctx.capture_data ≢ no_user_data
      → notify_all convert (n ∷ ns) ctx ≡ some (events, ctx')
      → events
        ≡ record {
          callback = callback;
          user_data = ctx.capture_data;
          info = record {
            video_data = none;
            video_data_size = pos 0;
            error_status = n.error_status;
            capture_time_sec = n.now.tv_sec;
            capture_time_usec = n.now.tv_usec;
            format = ctx.fmt_nominal;
          };
        }
          ∷ []
  unfolding notify_all notify
  notify_all-one_error n ns ctx ctx' callback events err c d run =
      let frame =
        packaged convert n.now ctx n.video_data n.video_data_size n.stride n.error_status in
      let event : Event = record {
        callback = callback;
        user_data = ctx.capture_data;
        info = info_with frame none (pos 0) n.error_status;
      } in
      let stopped : SrcContext P = record frame {
        src_state = src_bound;
        capture_callback = none;
        capture_data = no_user_data;
      } in
      let first : notify convert n ctx ≡ some (some event, stopped) =
        capture_notify-error convert n.now ctx n.video_data n.video_data_size n.stride
          n.error_status callback err c d in
      one_event event (notify_all convert ns stopped) events ctx' (run-Silent ns stopped refl)
        (rw (first, notify_all) at run)
