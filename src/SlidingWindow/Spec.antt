-- ===== src/SlidingWindow/Spec.antt =====
-- What a sliding window promises: it holds the last `n` objects, oldest first.
use libvidcap.Base.{
  ℕ, zero, suc, ◌+◌, ◌-◌, ◌≤◌, ◌<◌, ◌≡◌, refl, ap, arith, List, [], ◌∷◌, ◌++◌, length, get_elem?,
  min, drop, length-append, length-drop,
}

module _ {A : Type 0} where
  -- The last `n` of a list, all of it if it is shorter.
  pub take_last : ℕ → List A → List A
  take_last n xs = drop (length xs - n) xs

  pub length-take_last : (n : ℕ) (xs : List A) → length (take_last n xs) ≡ min (length xs) n
  unfolding take_last
  length-take_last n xs = omega (arith, length-drop (length xs - n) xs)

  get_elem?-drop : (k : ℕ) (xs : List A) → get_elem? (drop k xs) 0 ≡ get_elem? xs k
  get_elem?-drop zero xs = refl
  get_elem?-drop (suc k) [] = refl
  get_elem?-drop (suc k) (x ∷ xs) = get_elem?-drop k xs

  pub get_elem?-take_last :
      (n : ℕ) (xs : List A) → get_elem? (take_last n xs) 0 ≡ get_elem? xs (length xs - n)
  unfolding take_last
  get_elem?-take_last n xs = get_elem?-drop (length xs - n) xs

  drop-append : (k : ℕ) (xs ys : List A) → k ≤ length xs → drop k (xs ++ ys) ≡ drop k xs ++ ys
  drop-append zero xs ys h = refl
  drop-append (suc k) [] ys h = elim h [ ]
  drop-append (suc k) (x ∷ xs) ys h = drop-append k xs ys (omega arith)

  drop-drop : (j k m : ℕ) (xs : List A) → m ≡ k + j → drop j (drop k xs) ≡ drop m xs
  drop-drop j zero m xs e = ap (λ i. drop i xs) (omega arith)
  drop-drop zero (suc k) zero [] e = refl
  drop-drop zero (suc k) (suc m) [] e = refl
  drop-drop (suc j) (suc k) zero [] e = refl
  drop-drop (suc j) (suc k) (suc m) [] e = refl
  drop-drop j (suc k) zero (x ∷ xs) e = absurd (omega arith)
  drop-drop j (suc k) (suc m) (x ∷ xs) e = drop-drop j k m xs (omega arith)

  -- The window of a longer history is found from the window of the shorter one.
  pub take_last-snoc :
      (n : ℕ) (xs : List A) (x : A)
      → 0 < n
      → take_last n (take_last n xs ++ x ∷ []) ≡ take_last n (xs ++ x ∷ [])
  unfolding take_last
  take_last-snoc n xs x h = rw (← drop-append (length xs - n) xs (x ∷ []) (omega arith)) (
      drop-drop _ (length xs - n) (length (xs ++ x ∷ []) - n) (xs ++ x ∷ [])
        (omega (arith, length-append xs (x ∷ []), length-drop (length xs - n) (xs ++ x ∷ []))))

  pub take_last_all : (n : ℕ) (xs : List A) → length xs ≤ n → take_last n xs ≡ xs
  unfolding take_last
  take_last_all n xs h = let e : length xs - n ≡ 0 = omega arith in rw e

  pub take_last_cons : (n : ℕ) (x : A) (xs : List A) → length xs ≡ n → take_last n (x ∷ xs) ≡ xs
  unfolding take_last
  take_last_cons n x xs h = let e : suc (length xs) - n ≡ 1 = omega arith in rw e
