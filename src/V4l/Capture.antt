-- ===== src/V4l/Capture.antt =====
-- `capture_thread_proc` and `capture_kickoff` of src/sapi_v4l.c: the order in which frame buffers are
-- handed to the driver, waited for and delivered. The answers of the system are parameters: a
-- round of the loop is one that `capturing` was found set for.
use native.Mathlib.Nat.{div-add-mod', mod-lt}
use libvidcap.Base.{
  ℕ, ◌+◌, ◌*◌, ◌/◌, ◌%◌, ◌^◌, ◌<◌, ◌≤◌, ◌≡◌, ◌≢◌, refl, sym, ap, ◌∙◌, arith, Bool, true, false,
  ◌==◌, if◌then◌else◌, Option, none, some, List, [], ◌∷◌, ◌++◌, length, ℤ, pos, negsuc, Bool-cases,
  inl, inr, ltb,
}
use libvidcap.Conv.Grid.{grid-mod}

-- What the thread does with a frame buffer: VIDIOCMCAPTURE, VIDIOCSYNC, and
-- `sapi_src_capture_notify` with its bytes.
pub data Action : Type 0 where
  kicked_off : ℕ → Action
  synced : ℕ → Action
  notified : ℕ → Action

-- What the two calls of a round answer.
pub record Round : Type 0 where
  pub kickoff_ok : Bool
  pub sync_ok : Bool

-- `unsigned int` counts.
abbrev pub next_count : ℕ → ℕ
next_count n = (n + 1) % 2 ^ 32

-- The thread after its first kickoff, with both counts: what it returns, and its actions. Each way out
-- unmaps the buffers.
unfoldable pub capture_loop : ℕ → Bool → Bool → ℕ → ℕ → List Round → ℤ × List Action
capture_loop frames last_sync_ok munmap_ok started captured [] =
    if last_sync_ok
    then (if munmap_ok then pos 0 else negsuc 0, synced (captured % frames) ∷ [])
    else (negsuc 0, [])
capture_loop frames last_sync_ok munmap_ok started captured (r ∷ l) =
    let rest =
      capture_loop frames last_sync_ok munmap_ok (next_count started) (next_count captured) l in
    if r.kickoff_ok
    then (if r.sync_ok
        then (
          rest.0,
          kicked_off (next_count started % frames)
              ∷ synced (captured % frames)
              ∷ notified (captured % frames)
              ∷ rest.1,
        )
        else (negsuc 0, kicked_off (next_count started % frames) ∷ []))
    else (negsuc 0, [])

-- `capture_thread_proc`; `none` is a division by zero, for a driver without frames.
unfoldable pub capture_thread_proc :
    ℕ → Bool → Bool → Bool → Bool → List Round → Option (ℤ × List Action)
capture_thread_proc frames mmap_ok first_ok last_sync_ok munmap_ok rounds =
    if mmap_ok
    then (if frames == 0
        then none
        else if first_ok
        then (let rest = capture_loop frames last_sync_ok munmap_ok 0 0 rounds in
            some (rest.0, kicked_off (0 % frames) ∷ rest.1))
        else some (negsuc 0, []))
    else some (negsuc 0, [])

abbrev pub Free : ℕ → List ℕ → Type 0
Free s [] = Unit
Free s (t ∷ l) = (s ≢ t) × Free s l

-- Actions that the driver allows, with the buffers it is filling, in their order: a buffer is only
-- handed over while it is not being filled, the one waited for is the first, and one that is read is not
-- being filled.
pub data Allowed : List ℕ → List Action → Type 0 where
  finished : {q : List ℕ} → Allowed q []
  kick :
      {q : List ℕ} {s : ℕ} {l : List Action}
      → Free s q
      → Allowed (q ++ s ∷ []) l
      → Allowed q (kicked_off s ∷ l)
  sync : {q : List ℕ} {s : ℕ} {l : List Action} → Allowed q l → Allowed (s ∷ q) (synced s ∷ l)
  read :
      {q : List ℕ} {s : ℕ} {l : List Action} → Free s q → Allowed q l → Allowed q (notified s ∷ l)

-- With two buffers or more, two frames in a row are in different ones.
next-other : (n frames : ℕ) → 2 ≤ frames → (n + 1) % frames ≢ n % frames
next-other n frames h e =
    let q = n / frames in
    let r = n % frames in
    let below : r < frames = mod-lt n (omega arith) in
    let whole = div-add-mod' n frames in
    elim (Bool-cases (ltb (r + 1) frames)) [
      | inl less ↦
          let split : n + 1 ≡ q * frames + (r + 1) = omega (arith, whole) in
          let up = ap (λ k. k % frames) split ∙ grid-mod q (r + 1) frames (ground (arith, less)) in
          omega (arith, sym up ∙ e)
      | inr last ↦
          let full : r + 1 ≡ frames = ground (arith, last, below) in
          let split : n + 1 ≡ (q + 1) * frames + 0 = omega (arith, whole, full) in
          let up = ap (λ k. k % frames) split ∙ grid-mod (q + 1) 0 frames (omega arith) in
          omega (arith, sym up ∙ e)
    ]

module _ (frames : ℕ) (two : 2 ≤ frames) (last_sync_ok munmap_ok : Bool) where
  loop-Allowed :
      (l : List Round) (n : ℕ)
      → n + length l < 2 ^ 32
      → Allowed (n % frames ∷ []) (capture_loop frames last_sync_ok munmap_ok n n l).1
  unfolding capture_loop
  loop-Allowed [] n h = elim (Bool-cases last_sync_ok) [
    | inl ok ↦ rw ok (sync finished)
    | inr failed ↦ rw failed finished
  ]
  loop-Allowed (r ∷ l) n h =
      let next : next_count n ≡ n + 1 = omega arith in
      let other = next-other n frames two in
      let rest = loop-Allowed l (n + 1) (omega arith) in
      elim (Bool-cases r.kickoff_ok) [
        | inl kick_ok ↦ elim (Bool-cases r.sync_ok) [
          | inl sync_ok ↦
              rw (kick_ok, sync_ok, next)
                (kick (other, _) (sync (read ((λ e. other (sym e)), _) rest)))
          | inr sync_failed ↦ rw (kick_ok, sync_failed, next) (kick (other, _) finished)
        ]
        | inr kick_failed ↦ rw kick_failed finished
      ]

-- With at least two frame buffers and fewer than 2 ^ 32 rounds, whatever the driver answers, the
-- capture thread does not fault, and its actions are ones that the driver allows: it waits for the
-- buffers in the order of their kickoffs, and neither hands over nor delivers a buffer that is being
-- filled.
pub capture_thread_proc-Allowed :
    (frames : ℕ) (mmap_ok first_ok last_sync_ok munmap_ok : Bool) (rounds : List Round)
    → 2 ≤ frames
    → length rounds < 2 ^ 32
    → (ret : ℤ) × (actions : List Action) × (capture_thread_proc frames mmap_ok first_ok
          last_sync_ok munmap_ok rounds
        ≡ some (ret, actions))
      × Allowed [] actions
unfolding capture_thread_proc
capture_thread_proc-Allowed frames true true last_sync_ok munmap_ok rounds two small =
    let some_frames : (frames == 0) ≡ false = ground (arith, two) in
    let rest = capture_loop frames last_sync_ok munmap_ok 0 0 rounds in
    (
      rest.0,
      kicked_off (0 % frames) ∷ rest.1,
      rw some_frames refl,
      kick _ (loop-Allowed frames two last_sync_ok munmap_ok rounds 0 (omega arith)),
    )
capture_thread_proc-Allowed frames true false last_sync_ok munmap_ok rounds two small =
    let some_frames : (frames == 0) ≡ false = ground (arith, two) in
    (negsuc 0, [], rw some_frames refl, finished)
capture_thread_proc-Allowed frames false first_ok last_sync_ok munmap_ok rounds two small =
    (negsuc 0, [], refl, finished)
