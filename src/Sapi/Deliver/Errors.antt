-- ===== src/Sapi/Deliver/Errors.antt =====
-- A capture error reaches the application once, and ends the callbacks.
use libvidcap.Base.{
  ℕ, ◌≡◌, ◌≢◌, refl, arith, inl, inr, false, Bool-cases, Option, none, some, eqb_ℤ, eqb_ℤ_iff,
  ltb_ℤ, ℤ, pos, Bytes,
}
use libvidcap.Conv.Table.{ConvFunc}
use libvidcap.Sapi.Time.{Timeval}
use libvidcap.Sapi.Context.{SrcContext, src_bound}
use libvidcap.Sapi.Deliver.{
  CaptureInfo, Picture, no_user_data, send_of, raw, picture_of, info_with, info_of, event_of,
  finish_frame, with_picture, with_send, deliver_frame, packaged, after_delivery, capture_notify,
}

module _ {P : Type 0} (convert : ConvFunc → ℤ → ℤ → Bytes → Bytes → Option (ℤ × Bytes))
    (now : Timeval) (ctx : SrcContext P) where
  -- The frame has an error, so it is neither paced nor destrided nor converted.
  send_error :
      eqb_ℤ ctx.callback_frame.error_status (pos 0) ≡ false → send_of now ctx ≡ some (pos 0, ctx)
  unfolding send_of
  send_error e = rw e refl

  picture_error : (st : ℤ) → eqb_ℤ st (pos 0) ≡ false → picture_of st ctx ≡ some (raw ctx, ctx)
  unfolding picture_of
  picture_error st e = rw e refl

  info_error :
      (st : ℤ) (picture : Picture)
      → eqb_ℤ st (pos 0) ≡ false
      → info_of convert st picture ctx ≡ some (info_with ctx none (pos 0) st, ctx)
  unfolding info_of
  info_error st picture e = rw e refl

  event_error :
      (st : ℤ) (info : CaptureInfo) (callback : ℕ)
      → eqb_ℤ st (pos 0) ≡ false
      → ctx.capture_callback ≡ some callback
      → eqb_ℤ ctx.capture_data no_user_data ≡ false
      → event_of (pos 0) st info ctx
        ≡ some (record { callback = callback; user_data = ctx.capture_data; info = info })
  unfolding event_of
  event_error st info callback e c n = rw (c, e, n) refl

  deliver_error :
      (callback : ℕ)
      → let st = ctx.callback_frame.error_status in
        eqb_ℤ st (pos 0) ≡ false
        → ctx.capture_callback ≡ some callback
        → eqb_ℤ ctx.capture_data no_user_data ≡ false
        → deliver_frame convert now ctx
          ≡ some (
            some (record {
              callback = callback;
              user_data = ctx.capture_data;
              info = info_with ctx none (pos 0) st;
            }),
            ctx,
          )
  unfolding deliver_frame with_send with_picture finish_frame
  deliver_error callback e c n =
      let st = ctx.callback_frame.error_status in
      rw
        (
          send_error e,
          picture_error st e,
          info_error st (raw ctx) e,
          event_error st (info_with ctx none (pos 0) st) callback e c n,
        )
        refl

module _ {P : Type 0} (convert : ConvFunc → ℤ → ℤ → Bytes → Bytes → Option (ℤ × Bytes))
    (now : Timeval) (ctx : SrcContext P) (video_data : Bytes) (size stride error_status : ℤ) where
  -- A notification of an error does not fault, whatever the data and the stride are. The
  -- application that listens gets one callback with the error, without data and with the nominal
  -- format; the source is bound then and has no callback, and the rest of the context is as it was,
  -- but for the record of the frame.
  pub capture_notify-error :
      (callback : ℕ)
      → error_status ≢ pos 0
      → ctx.capture_callback ≡ some callback
      → ctx.capture_data ≢ no_user_data
      → let frame = packaged convert now ctx video_data size stride error_status in
        capture_notify convert now ctx video_data size stride error_status
        ≡ some (
          some (record {
            callback = callback;
            user_data = ctx.capture_data;
            info = info_with frame none (pos 0) error_status;
          }),
          record frame {
            src_state = src_bound;
            capture_callback = none;
            capture_data = no_user_data;
          },
        )
  unfolding capture_notify after_delivery
  capture_notify-error callback err c d =
      let e : eqb_ℤ error_status (pos 0) ≡ false = ground (arith, eqb_ℤ_iff error_status (pos 0)) in
      let n : eqb_ℤ ctx.capture_data no_user_data ≡ false =
        ground (arith, eqb_ℤ_iff ctx.capture_data no_user_data) in
      let frame = packaged convert now ctx video_data size stride error_status in
      elim (Bool-cases (ltb_ℤ size (pos 1))) [
        | inl s ↦ rw (s, deliver_error convert now frame callback e c n, e) refl
        | inr s ↦ rw (s, deliver_error convert now frame callback e c n, e) refl
      ]
