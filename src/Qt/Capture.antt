-- ===== src/Qt/Capture.antt =====
-- The capture thread of src/sapi_qt.c. The answers of QuickTime and of the system are parameters.
use libvidcap.Base.{
  ◌≡◌, refl, inl, inr, ◌⊎◌, Bool, true, false, not, Bool-cases, if◌then◌else◌, List, [], ◌∷◌, ℤ,
  pos, negsuc, ◌-ℤ◌, eqb_ℤ,
}
use libvidcap.Qt.Formats.{map_fourcc_to_ostype}

-- A pass of the loop in which `capturing` is set: whether polling and sleeping succeed. An
-- interrupted sleep fails, too, since `errno` is compared with `-EINTR`.
pub record Poll : Type 0 where
  pub poll_ok : Bool
  pub sleep_ok : Bool

-- `polls` ends where `capturing` is cleared.
pub record QtAnswers : Type 0 where
  pub format_set_ok : Bool
  pub has_session : Bool
  pub capture_start_ok : Bool
  pub session_setup_ok : Bool
  pub polls : List Poll
  pub capture_stop_ok : Bool

-- What the thread returns, the errors that it gives to `sapi_src_capture_notify`, and whether it has
-- started the sequence grabber, and stopped it, or tried to.
pub record Finished : Type 0 where
  pub ret : ℤ
  pub notified : List ℤ
  pub start_called : Bool
  pub stop_called : Bool

abbrev failed_with : Bool → ℤ → Finished
failed_with start_called ret = record {
  ret = ret;
  notified = ret ∷ [];
  start_called = start_called;
  stop_called = false;
}

-- The loop: `ret` at its end.
unfoldable pub poll_loop : List Poll → ℤ
poll_loop [] = pos 0
poll_loop (p ∷ l) =
    let rest = poll_loop l in
    if not p.poll_ok then negsuc 6 else if not p.sleep_ok then negsuc 7 else rest

-- After `bail`; taking the session down does not fail.
abbrev bail : ℤ → Bool → Finished
bail ret capture_stop_ok = record {
  ret = if capture_stop_ok then ret else ret -ℤ negsuc 999;
  notified = if eqb_ℤ ret (pos 0) then [] else ret ∷ [];
  start_called = true;
  stop_called = true;
}

-- `capture_thread_proc`, for the native fourcc.
unfoldable pub capture_thread_proc : ℤ → QtAnswers → Finished
capture_thread_proc fourcc a =
    if not (eqb_ℤ (map_fourcc_to_ostype fourcc).0 (pos 0))
    then failed_with false (negsuc 1)
    else if not a.format_set_ok
    then failed_with false (negsuc 2)
    else if a.has_session
    then failed_with false (negsuc 3)
    else if not a.capture_start_ok
    then failed_with true (negsuc 4)
    else if not a.session_setup_ok
    then failed_with true (negsuc 5)
    else bail (poll_loop a.polls) a.capture_stop_ok

-- `notify_thread_proc`: a pass of its loop, with the number of sources it saw last and the one
-- of now. It gives the new value of the first, and whether the application is told.
unfoldable pub notify_round : Bool → ℤ → ℤ → ℤ × Bool
notify_round has_callback last_source_count source_count =
    if not (eqb_ℤ source_count last_source_count)
    then (if has_callback then (source_count, true) else (last_source_count, false))
    else (last_source_count, false)

-- Where the decompression session cannot be set up the sequence grabber stays started.
capture_thread_proc-started :
    (fourcc : ℤ) (a : QtAnswers)
    → eqb_ℤ (map_fourcc_to_ostype fourcc).0 (pos 0) ≡ true
    → a.format_set_ok ≡ true
    → a.has_session ≡ false
    → a.capture_start_ok ≡ true
    → a.session_setup_ok ≡ false
    → capture_thread_proc fourcc a ≡ failed_with true (negsuc 5)
unfolding capture_thread_proc
capture_thread_proc-started fourcc a e f s c d = rw (e, f, s, c, d) refl

-- Any end of the thread notifies one error, or none.
capture_thread_proc-one_error :
    (fourcc : ℤ) (a : QtAnswers)
    → let end = capture_thread_proc fourcc a in
      (end.notified ≡ []) ⊎ ((status : ℤ) × (end.notified ≡ status ∷ []))
unfolding capture_thread_proc
capture_thread_proc-one_error fourcc a =
    elim (Bool-cases (eqb_ℤ (map_fourcc_to_ostype fourcc).0 (pos 0))) [
      | inr e ↦ rw e (inr (_, refl))
      | inl e ↦ elim (Bool-cases a.format_set_ok) [
        | inr f ↦ rw (e, f) (inr (_, refl))
        | inl f ↦ elim (Bool-cases a.has_session) [
          | inl s ↦ rw (e, f, s) (inr (_, refl))
          | inr s ↦ elim (Bool-cases a.capture_start_ok) [
            | inr c ↦ rw (e, f, s, c) (inr (_, refl))
            | inl c ↦ elim (Bool-cases a.session_setup_ok) [
              | inr d ↦ rw (e, f, s, c, d) (inr (_, refl))
              | inl d ↦ elim (Bool-cases (eqb_ℤ (poll_loop a.polls) (pos 0))) [
                | inl z ↦ rw (e, f, s, c, d, z) (inl refl)
                | inr z ↦ rw (e, f, s, c, d, z) (inr (_, refl))
              ]
            ]
          ]
        ]
      ]
    ]
