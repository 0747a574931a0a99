-- ===== src/Base/Loop.antt =====
-- Counted loops over a state, with a body that can fault, and their invariant rule.
use Prim.Native.Nat.{ℕ, zero, suc, ◌+◌, ◌<◌}
use mathlib.Core.Path.{◌≡◌, refl}
use mathlib.Core.Option.{Option, none, some}
use native.Mathlib.Omega.{arith}

-- `for (i = 0; i < n; ++i) body`, where the body does not read `i`. `none` is a fault.
unfoldable pub repeat {ℓ} : {S : Type ℓ} → ℕ → (S → Option S) → S → Option S
repeat zero body s = some s
repeat (suc n) body s = elim (body s) [ none ↦ none | some s' ↦ repeat n body s' ]

module _ {ℓ κ} {S : Type ℓ} (P : ℕ → S → Type κ) (body : S → Option S) (n : ℕ)
    (keep : (i : ℕ) (s : S) → i < n → P i s → (s' : S) × (body s ≡ some s') × P (suc i) s') where
  repeat_from :
      (left i : ℕ) (s : S)
      → i + left ≡ n
      → P i s
      → (s' : S) × (repeat left body s ≡ some s') × P n s'
  unfolding repeat
  repeat_from zero i s e h = let e' : i ≡ n = omega arith in (s, refl, rw e' at h)
  repeat_from (suc left) i s e h =
      let (s₁, ran, h₁) = keep i s (omega arith) h in
      let (s', rest, h') = repeat_from left (suc i) s₁ (omega arith) h₁ in
      (s', rw (ran, repeat) rest, h')

  -- An invariant that each round keeps, without a fault, holds after all rounds, without a fault.
  pub repeat_inv : (s : S) → P 0 s → (s' : S) × (repeat n body s ≡ some s') × P n s'
  repeat_inv s h = repeat_from n 0 s (omega arith) h

-- Two nested loops: `m` rounds of `block`, then `turn`, `n` times over.
unfoldable pub scan {ℓ} : {S : Type ℓ} → ℕ → ℕ → (S → Option S) → (S → S) → S → Option S
scan zero m block turn s = some s
scan (suc n) m block turn s = elim (repeat m block s) [
  | none ↦ none
  | some s' ↦ scan n m block turn (turn s')
]

module _ {ℓ κ} {S : Type ℓ} (P : ℕ → ℕ → S → Type κ) (block : S → Option S) (turn : S → S) (n m : ℕ)
    (keep : (i j : ℕ) (s : S)
      → i < n
      → j < m
      → P i j s
      → (s' : S) × (block s ≡ some s') × P i (suc j) s')
    (next : (i : ℕ) (s : S) → i < n → P i m s → P (suc i) 0 (turn s)) where
  scan_from :
      (left i : ℕ) (s : S)
      → i + left ≡ n
      → P i 0 s
      → (s' : S) × (scan left m block turn s ≡ some s') × P n 0 s'
  unfolding scan
  scan_from zero i s e h = let e' : i ≡ n = omega arith in (s, refl, rw e' at h)
  scan_from (suc left) i s e h =
      let here : i < n = omega arith in
      let (s₁, ran, h₁) = repeat_inv (P i) block m (λ j s l. keep i j s here l) s h in
      let (s', rest, h') = scan_from left (suc i) (turn s₁) (omega arith) (next i s₁ here h₁) in
      (s', rw (ran, scan) rest, h')

  -- An invariant that each block and each turn keeps holds after all rows, without a fault.
  pub scan_inv : (s : S) → P 0 0 s → (s' : S) × (scan n m block turn s ≡ some s') × P n 0 s'
  scan_inv s h = scan_from n 0 s (omega arith) h
