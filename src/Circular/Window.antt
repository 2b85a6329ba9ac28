-- ===== src/Circular/Window.antt =====
-- Lists of consecutive values of a function on positions, by which the contents of a circular
-- array are stated.
use noise_ai.Base.{
  ℕ, zero, suc, ◌+◌, ◌-◌, ◌≤◌, ◌<◌, ◌≡◌, refl, ap, ap₂, ◌∙◌, sym, List, [], ◌∷◌, ◌++◌, arith,
  length, get_or, take, drop,
}

module _ {ℓ} {A : Type ℓ} where
  -- The values at `p`, `p + 1`, and so on, `n` of them.
  abbrev pub window : (ℕ → A) → ℕ → ℕ → List A
  window f p zero = []
  window f p (suc n) = f p ∷ window f (p + 1) n

  pub length-window : (f : ℕ → A) (p n : ℕ) → length (window f p n) ≡ n
  length-window f p zero = refl
  length-window f p (suc n) = ap suc (length-window f (p + 1) n)

  pub window-append :
      (f : ℕ → A) (p m n : ℕ) → window f p (m + n) ≡ window f p m ++ window f (p + m) n
  window-append f p zero n =
      let e : zero + n ≡ n = omega arith in let e' : p + zero ≡ p = omega arith in rw (e, e')
  window-append f p (suc m) n =
      let e : suc m + n ≡ suc (m + n) = omega arith in
      let e' : p + suc m ≡ p + 1 + m = omega arith in
      rw (e, e') (ap (◌∷◌ (f p)) (window-append f (p + 1) m n))

  -- Two windows are equal if they agree at every place.
  pub window_ext :
      (f g : ℕ → A) (p q n : ℕ)
      → ((k : ℕ) → k < n → f (p + k) ≡ g (q + k))
      → window f p n ≡ window g q n
  window_ext f g p q zero h = refl
  window_ext f g p q (suc n) h =
      let a : p + 0 ≡ p = omega arith in
      let b : q + 0 ≡ q = omega arith in
      ap₂ ◌∷◌ (ap f (sym a) ∙ h 0 (omega arith) ∙ ap g b) (
        window_ext f g (p + 1) (q + 1) n (λ k lt.
          ap f (omega arith) ∙ h (suc k) (omega arith) ∙ ap g {x = q + suc k} (omega arith)))

  -- A list is the window of its own elements.
  pub window-get_or : (xs : List A) (d : A) → window (λ k. get_or xs k d) 0 (length xs) ≡ xs
  window-get_or [] d = refl
  window-get_or (x ∷ xs) d = ap (◌∷◌ x) (
      window_ext (λ k. get_or (x ∷ xs) k d) (λ k. get_or xs k d) (0 + 1) 0 (length xs)
        (λ k lt. let e : 0 + 1 + k ≡ suc (0 + k) = omega arith in ap (λ m. get_or (x ∷ xs) m d) e)
      ∙ window-get_or xs d)

  pub take-window : (f : ℕ → A) (p m n : ℕ) → m ≤ n → take m (window f p n) ≡ window f p m
  take-window f p zero n h = refl
  take-window f p (suc m) zero h = absurd (omega arith)
  take-window f p (suc m) (suc n) h = ap (◌∷◌ (f p)) (take-window f (p + 1) m n (omega arith))

  pub drop-window :
      (f : ℕ → A) (p m n : ℕ) → m ≤ n → drop m (window f p n) ≡ window f (p + m) (n - m)
  drop-window f p zero n h = ap₂ (window f) (omega arith) (omega arith)
  drop-window f p (suc m) zero h = absurd (omega arith)
  drop-window f p (suc m) (suc n) h =
      drop-window f (p + 1) m n (omega arith) ∙ ap₂ (window f) (omega arith) (omega arith)

  -- A list of `n` elements whose `k`th element is `f (p + k)` is the window.
  pub eq-window :
      (xs : List A) (d : A) (f : ℕ → A) (p n : ℕ)
      → length xs ≡ n
      → ((k : ℕ) → k < n → get_or xs k d ≡ f (p + k))
      → xs ≡ window f p n
  eq-window xs d f p n e h =
      sym (window-get_or xs d)
      ∙ ap (window (λ k. get_or xs k d) 0) e
      ∙ window_ext (λ k. get_or xs k d) f 0 p n
          (λ k lt. ap (λ m. get_or xs m d) (omega arith) ∙ h k lt)
