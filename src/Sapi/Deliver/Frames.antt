-- ===== src/Sapi/Deliver/Frames.antt =====
-- What the application gets for a frame without an error.
use libvidcap.Base.{
  ℕ, zero, suc, ◌≡◌, ◌≢◌, refl, ap, ◌∙◌, arith, false, Option, none, some, eqb_ℤ, eqb_ℤ_iff, ltb_ℤ,
  ℤ, pos, negsuc, Bytes,
}
use libvidcap.Format.{FmtInfo}
use libvidcap.Conv.Table.{ConvFunc}
use libvidcap.Conv.Destride.{destridify}
use libvidcap.Sapi.Time.{Timeval}
use libvidcap.Sapi.Context.{SrcContext, FrameInfo}
use libvidcap.Sapi.Pacing.{enforce_framerate}
use libvidcap.Sapi.Pacing.Kept.{KeepsRest, enforce_framerate-KeepsRest}
use libvidcap.Sapi.Deliver.{
  CaptureInfo, Event, no_user_data, or_null, send_of, status, picture_of, info_of, converted,
  event_of, finish_frame, with_picture, with_send, deliver_frame, packaged, after_delivery,
  capture_notify, destrided, destride_frame,
}

-- The callback for a frame that the pacing answers with `send`.
abbrev pub if_sent : ℕ → Event → Option Event
if_sent zero e = none
if_sent (suc n) e = some e

-- The information for the application, from the context that the frame leaves.
abbrev pub told : FrameInfo → FmtInfo → Bytes → ℤ → ℤ → CaptureInfo
told frame nominal out out_size err = record {
  video_data = some out;
  video_data_size = out_size;
  error_status = err;
  capture_time_sec = frame.capture_time.tv_sec;
  capture_time_usec = frame.capture_time.tv_usec;
  format = nominal;
}

-- The block that a frame of `video_data` and `size` comes from, its size, and the context after it: the frame as it
-- is, where the stride is 0 or `destridify` refuses, or else `stride_free_buf`.
pub data Pictured {P : Type 0} (ctx : SrcContext P) (video_data : Bytes) (size stride : ℤ)
    : Bytes → ℤ → SrcContext P → Type 0 where
  as_given : stride ≡ pos 0 → Pictured ctx video_data size stride video_data size ctx
  refused :
      (w h s : ℕ) (ret : ℤ) (dst : Bytes)
      → stride ≡ pos (suc s)
      → ctx.fmt_native.width ≡ pos w
      → ctx.fmt_native.height ≡ pos h
      → destridify w h ctx.fmt_native.fourcc (suc s) video_data (or_null ctx.stride_free_buf)
        ≡ some (ret, dst)
      → ret ≢ pos 0
      → Pictured ctx video_data size stride video_data size ctx
  without_stride :
      (w h s : ℕ) (dst : Bytes)
      → stride ≡ pos (suc s)
      → ctx.fmt_native.width ≡ pos w
      → ctx.fmt_native.height ≡ pos h
      → destridify w h ctx.fmt_native.fourcc (suc s) video_data (or_null ctx.stride_free_buf)
        ≡ some (pos 0, dst)
      → Pictured ctx video_data size stride dst ctx.stride_free_buf_size
          (record ctx { stride_free_buf = some dst })

module _ {P : Type 0} (convert : ConvFunc → ℤ → ℤ → Bytes → Bytes → Option (ℤ × Bytes)) where
  -- The block that is handed over, its size, the error, and the context after the conversion.
  pub data HandedOver (ctx : SrcContext P) (buf : Bytes) (size : ℤ)
      : Bytes → ℤ → ℤ → SrcContext P → Type 0 where
    unconverted : ctx.fmt_conv_func ≡ none → HandedOver ctx buf size buf size (pos 0) ctx
    converts :
        (function : ConvFunc) (out : Bytes)
        → ctx.fmt_conv_func ≡ some function
        → convert function ctx.fmt_native.width ctx.fmt_native.height buf (or_null ctx.fmt_conv_buf)
          ≡ some (pos 0, out)
        → HandedOver ctx buf size out ctx.fmt_conv_buf_size
            (pos 0)
            (record ctx { fmt_conv_buf = some out })
    fails :
        (function : ConvFunc) (ret : ℤ) (out : Bytes)
        → ctx.fmt_conv_func ≡ some function
        → convert function ctx.fmt_native.width ctx.fmt_native.height buf (or_null ctx.fmt_conv_buf)
          ≡ some (ret, out)
        → ret ≢ pos 0
        → HandedOver ctx buf size out ctx.fmt_conv_buf_size
            (negsuc 0)
            (record ctx { fmt_conv_buf = some out })

  -- What a frame's way through the buffers leaves as it is.
  abbrev Same : SrcContext P → SrcContext P → Type 0
  Same ctx ctx' =
      (ctx'.capture_callback ≡ ctx.capture_callback)
      × (ctx'.capture_data ≡ ctx.capture_data)
      × (ctx'.callback_frame ≡ ctx.callback_frame)
      × (ctx'.fmt_nominal ≡ ctx.fmt_nominal)

  destride_lem :
      (ctx : SrcContext P) (video_data dst : Bytes) (w h k : ℕ) (ret : ℤ)
      → ctx.callback_frame.video_data ≡ video_data
      → ctx.callback_frame.stride ≡ pos (suc k)
      → ctx.fmt_native.width ≡ pos w
      → ctx.fmt_native.height ≡ pos h
      → destridify w h ctx.fmt_native.fourcc (suc k) video_data (or_null ctx.stride_free_buf)
        ≡ some (ret, dst)
      → picture_of (pos 0) ctx ≡ destrided ctx (some (ret, dst))
  unfolding picture_of destride_frame
  destride_lem ctx video_data dst w h k ret d s ew eh ran =
      let sizes : (n : ℕ) → ltb_ℤ (pos n) (pos 0) ≡ false = λ n. ground arith in
      let strided : eqb_ℤ (pos (suc k)) (pos 0) ≡ false = ground arith in
      rw (s, ew, eh, d, strided, sizes w, sizes h, sizes (suc k), ran) refl

  picture_lem :
      (ctx ctx' : SrcContext P) (video_data buf : Bytes) (size stride buf_size : ℤ)
      → ctx.callback_frame.video_data ≡ video_data
      → ctx.callback_frame.video_data_size ≡ size
      → ctx.callback_frame.stride ≡ stride
      → Pictured ctx video_data size stride buf buf_size ctx'
      → (picture_of (pos 0) ctx ≡ some (record { buf = buf; buf_data_size = buf_size }, ctx'))
        × Same ctx ctx'
  unfolding picture_of destrided
  picture_lem ctx ctx' video_data buf size stride buf_size d n s (as_given z) =
      (simp (s, z, d, n), (refl, refl, refl, refl))
  picture_lem ctx ctx' video_data buf size stride buf_size d n s
        (refused w h k ret dst z ew eh ran ne) =
      let failed : eqb_ℤ ret (pos 0) ≡ false = ground (arith, eqb_ℤ_iff ret (pos 0)) in
      (
        destride_lem ctx video_data dst w h k ret d (s ∙ z) ew eh ran ∙ simp (failed, d, n),
        (refl, refl, refl, refl),
      )
  picture_lem ctx ctx' video_data buf size stride buf_size d n s
        (without_stride w h k dst z ew eh ran) =
      (destride_lem ctx video_data dst w h k (pos 0) d (s ∙ z) ew eh ran, (refl, refl, refl, refl))

  info_lem :
      (ctx ctx' : SrcContext P) (buf out : Bytes) (buf_size out_size err : ℤ)
      → HandedOver ctx buf buf_size out out_size err ctx'
      → (info_of convert (pos 0) (record { buf = buf; buf_data_size = buf_size }) ctx
          ≡ some (told ctx.callback_frame ctx.fmt_nominal out out_size err, ctx'))
        × Same ctx ctx'
  unfolding info_of converted
  info_lem ctx ctx' buf out size out_size err (unconverted f) = (simp f, (refl, refl, refl, refl))
  info_lem ctx ctx' buf out size out_size err (converts function o f ran) =
      (simp (f, ran), (refl, refl, refl, refl))
  info_lem ctx ctx' buf out size out_size err (fails function ret o f ran ne) =
      let failed : eqb_ℤ ret (pos 0) ≡ false = ground (arith, eqb_ℤ_iff ret (pos 0)) in
      (simp (f, ran, failed), (refl, refl, refl, refl))

  event_lem :
      (send : ℕ) (info : CaptureInfo) (ctx : SrcContext P) (callback : ℕ)
      → ctx.capture_callback ≡ some callback
      → eqb_ℤ ctx.capture_data no_user_data ≡ false
      → event_of (pos send) (pos 0) info ctx
        ≡ if_sent send (record { callback = callback; user_data = ctx.capture_data; info = info })
  unfolding event_of
  event_lem zero info ctx callback c n = rw c refl
  event_lem (suc send) info ctx callback c n = rw (c, n) (ground arith)

  -- For a frame without an error and with at least a byte, in a source with a callback and valid user
  -- data, once the pacing has answered `send`: the application gets one callback if `send` is not 0,
  -- and none otherwise. The callback has the user data, the time of the notification, the nominal
  -- format, and the bytes and their size that `Pictured` and `HandedOver` describe: the frame
  -- as it is, or without its stride, and then converted if there is a conversion; the error
  -- is 0, or -1 if the conversion fails.
  pub capture_notify-frame :
      (now : Timeval) (ctx paced pictured done : SrcContext P) (video_data buf out : Bytes)
      (size stride buf_size out_size err : ℤ) (callback send : ℕ)
      → ltb_ℤ size (pos 1) ≡ false
      → ctx.capture_callback ≡ some callback
      → ctx.capture_data ≢ no_user_data
      → enforce_framerate now (packaged convert now ctx video_data size stride (pos 0))
        ≡ some (pos send, paced)
      → Pictured paced video_data size stride buf buf_size pictured
      → HandedOver pictured buf buf_size out out_size err done
      → capture_notify convert now ctx video_data size stride (pos 0)
        ≡ some (
          if_sent send (record {
            callback = callback;
            user_data = ctx.capture_data;
            info = record {
              video_data = some out;
              video_data_size = out_size;
              error_status = err;
              capture_time_sec = now.tv_sec;
              capture_time_usec = now.tv_usec;
              format = ctx.fmt_nominal;
            };
          }),
          done,
        )
  unfolding capture_notify deliver_frame send_of after_delivery with_send with_picture finish_frame
  capture_notify-frame now ctx paced pictured done video_data buf out size stride buf_size out_size
        err callback send s cb d ran pic hand =
      let frame : SrcContext P = packaged convert now ctx video_data size stride (pos 0) in
      let (c₁, d₁, f₁, n₁) : KeepsRest frame (some (pos send, paced)) =
        rw ran at (enforce_framerate-KeepsRest now frame) in
      let (is_picture, (c₂, d₂, f₂, n₂)) =
        picture_lem paced pictured video_data buf size stride buf_size (ap FrameInfo.video_data f₁)
          (ap FrameInfo.video_data_size f₁) (ap FrameInfo.stride f₁) pic in
      let (is_info, (c₃, d₃, f₃, n₃)) = info_lem pictured done buf out buf_size out_size err hand in
      let no_error : status (pos send) paced ≡ pos 0 =
        ground (arith, ap FrameInfo.error_status f₁) in
      let data' : done.capture_data ≡ ctx.capture_data = d₃ ∙ d₂ ∙ d₁ in
      let valid : eqb_ℤ done.capture_data no_user_data ≡ false =
        rw data' (ground (arith, eqb_ℤ_iff ctx.capture_data no_user_data)) in
      let info = told pictured.callback_frame pictured.fmt_nominal out out_size err in
      let is_event = event_lem send info done callback (c₃ ∙ c₂ ∙ c₁ ∙ cb) valid in
      let f' : pictured.callback_frame ≡ frame.callback_frame = f₂ ∙ f₁ in
      let n' : pictured.fmt_nominal ≡ ctx.fmt_nominal = n₂ ∙ n₁ in
      rw (s, ran, no_error, is_picture, is_info, is_event, f', n', data') refl
