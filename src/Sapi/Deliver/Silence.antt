-- ===== src/Sapi/Deliver/Silence.antt =====
-- Once no callback is set, no notification reaches the application.
use libvidcap.Base.{
  ◌≡◌, refl, ◌∙◌, inl, inr, not, ◌&&◌, Bool-cases, Option, none, some, eqb_ℤ, ltb_ℤ, ℤ, pos, Bytes,
}
use libvidcap.Conv.Table.{ConvFunc}
use libvidcap.Sapi.Time.{Timeval}
use libvidcap.Sapi.Context.{SrcContext}
use libvidcap.Sapi.Pacing.{enforce_framerate}
use libvidcap.Sapi.Pacing.Kept.{KeepsRest, enforce_framerate-KeepsRest}
use libvidcap.Sapi.Deliver.Runs.{Notification, notify}
use libvidcap.Sapi.Deliver.{
  or_null, CaptureInfo, Event, Picture, send_of, status, raw, destride_frame, picture_of, destrided,
  info_with, info_of, converted, event_of, finish_frame, with_picture, with_send, deliver_frame,
  packaged, after_delivery, capture_notify,
}

-- Nobody listens: no callback is made, and none is set.
abbrev pub Silent : {P : Type 0} → Option (Option Event × SrcContext P) → Type 0
Silent none = Unit {0}
Silent (some (event, ctx)) = (event ≡ none) × (ctx.capture_callback ≡ none)

module _ {P : Type 0} (convert : ConvFunc → ℤ → ℤ → Bytes → Bytes → Option (ℤ × Bytes)) where
  event-Silent :
      (send st : ℤ) (info : CaptureInfo) (ctx : SrcContext P)
      → ctx.capture_callback ≡ none
      → event_of send st info ctx ≡ none
  unfolding event_of
  event-Silent send st info ctx c = rw c refl

  converted-Silent :
      (send st : ℤ) (ctx : SrcContext P) (r : Option (ℤ × Bytes))
      → ctx.capture_callback ≡ none
      → Silent (finish_frame convert send st (converted ctx r))
  unfolding finish_frame converted
  converted-Silent send st ctx none c = tt
  converted-Silent send st ctx (some (ret, out)) c =
      (event-Silent send st _ (record ctx { fmt_conv_buf = some out }) c, c)

  info-Silent :
      (send st : ℤ) (picture : Picture) (ctx : SrcContext P)
      → ctx.capture_callback ≡ none
      → Silent (finish_frame convert send st (info_of convert st picture ctx))
  unfolding info_of finish_frame
  info-Silent send st picture ctx c = elim (Bool-cases (eqb_ℤ st (pos 0))) [
    | inr e ↦ rw e (event-Silent send st _ ctx c, c)
    | inl e ↦ rw e (go ctx.fmt_conv_func)
  ]
    where
      go :
          (f : Option ConvFunc)
          → Silent (
              finish_frame convert send st (elim f [
                | none ↦ some (info_with ctx (some picture.buf) picture.buf_data_size st, ctx)
                | some function ↦ converted ctx (
                    convert function ctx.fmt_native.width ctx.fmt_native.height picture.buf
                      (or_null ctx.fmt_conv_buf))
              ]))
      go none = (event-Silent send st _ ctx c, c)
      go (some f) = converted-Silent send st ctx _ c

  destrided-Silent :
      (send st : ℤ) (ctx : SrcContext P) (r : Option (ℤ × Bytes))
      → ctx.capture_callback ≡ none
      → Silent (with_picture convert send st (destrided ctx r))
  unfolding with_picture destrided
  destrided-Silent send st ctx none c = tt
  destrided-Silent send st ctx (some (ret, dst)) c = elim (Bool-cases (eqb_ℤ ret (pos 0))) [
    | inl e ↦ rw e (info-Silent send st _ (record ctx { stride_free_buf = some dst }) c)
    | inr e ↦ rw e (info-Silent send st (raw ctx) ctx c)
  ]

  picture-Silent :
      (send st : ℤ) (ctx : SrcContext P)
      → ctx.capture_callback ≡ none
      → Silent (with_picture convert send st (picture_of st ctx))
  unfolding picture_of with_picture
  picture-Silent send st ctx c =
      elim (Bool-cases (eqb_ℤ st (pos 0) && not (eqb_ℤ ctx.callback_frame.stride (pos 0)))) [
        | inl e ↦ rw e (destrided-Silent send st ctx (destride_frame ctx) c)
        | inr e ↦ rw e (info-Silent send st (raw ctx) ctx c)
      ]

  sent-Silent :
      (ctx : SrcContext P) (r : Option (ℤ × SrcContext P))
      → KeepsRest ctx r
      → ctx.capture_callback ≡ none
      → Silent (with_send convert r)
  unfolding with_send
  sent-Silent ctx none k c = tt
  sent-Silent ctx (some (send, ctx')) k c = picture-Silent send (status send ctx') ctx' (k.0 ∙ c)

  deliver-Silent :
      (now : Timeval) (ctx : SrcContext P)
      → ctx.capture_callback ≡ none
      → Silent (deliver_frame convert now ctx)
  unfolding deliver_frame send_of
  deliver-Silent now ctx c = elim (Bool-cases (eqb_ℤ ctx.callback_frame.error_status (pos 0))) [
    | inl e ↦
        rw e (sent-Silent ctx (enforce_framerate now ctx) (enforce_framerate-KeepsRest now ctx) c)
    | inr e ↦ rw e (sent-Silent ctx (some (pos 0, ctx)) (refl, refl, refl, refl) c)
  ]

  after-Silent :
      (error_status : ℤ) (r : Option (Option Event × SrcContext P))
      → Silent r
      → Silent (after_delivery convert error_status r)
  unfolding after_delivery
  after-Silent error_status none h = tt
  after-Silent error_status (some (event, ctx)) (h, c) =
      elim (Bool-cases (eqb_ℤ error_status (pos 0))) [
        | inl e ↦ rw e (h, c)
        | inr e ↦ rw e (h, refl)
      ]

  pub notify-Silent :
      (n : Notification) (ctx : SrcContext P)
      → ctx.capture_callback ≡ none
      → Silent (notify convert n ctx)
  unfolding capture_notify notify
  notify-Silent n ctx c =
      elim (Bool-cases (ltb_ℤ n.video_data_size (pos 1) && eqb_ℤ n.error_status (pos 0))) [
        | inl e ↦ rw e (refl, c)
        | inr e ↦ rw e (
            after-Silent n.error_status
              (deliver_frame convert n.now
                (packaged convert n.now ctx n.video_data n.video_data_size n.stride n.error_status))
              (deliver-Silent n.now
                (packaged convert n.now ctx n.video_data n.video_data_size n.stride n.error_status)
                c))
      ]
