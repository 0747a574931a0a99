-- ===== src/Sapi/Timer/Stuck.antt =====
-- The local `capture_error` of the timer thread is never reset.
use libvidcap.Base.{◌≡◌, refl, true, Option, some, List, [], ◌∷◌, ℤ, Bytes}
use libvidcap.Conv.Table.{ConvFunc}
use libvidcap.Sapi.Timer.{TimerThread, Wake, asleep, add_activity, timer_rounds}
use libvidcap.Sapi.Timer.Steady.{timer_round-error}

module _ {P : Type 0} (convert : ConvFunc → ℤ → ℤ → Bytes → Bytes → Option (ℤ × Bytes)) where
  -- After an attempt that delivered an error no round makes a callback any more, whatever the capture
  -- thread writes and whenever the rounds are.
  pub timer_rounds-error :
      (ws : List Wake) (t : TimerThread P)
      → t.capture_error ≡ true
      → (t' : TimerThread P) × (timer_rounds convert ws t ≡ some ([], t'))
  unfolding timer_rounds asleep add_activity
  timer_rounds-error [] t e = (t, refl)
  timer_rounds-error (w ∷ ws) t e =
      let t' = record t { double_buff = w.double_buff } in
      let (t'', h) = timer_rounds-error ws (asleep w.now t').1 e in
      (t'', rw (timer_rounds, timer_round-error convert w.now t' e, h) refl)
