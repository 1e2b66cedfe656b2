-- ===== src/Prelude/Slices.antt =====
-- Slices of lists: `xs[n:]` and `xs[-n:]`.
use Prim.Native.Nat.{ℕ, zero, suc, ◌+◌, ◌-◌, ◌≤◌}
use mathlib.Core.Path.{◌≡◌, refl, sym, ap, ◌∙◌}
use mathlib.Core.List.{List, [], ◌∷◌, ◌++◌}
use native.Mathlib.Omega.{arith}
use pytest_hardware_template.Prelude.Lists.{length, length-append}

module _ {ℓ} {A : Type ℓ} where
  -- `xs[n:]`
  unfoldable pub drop : ℕ → List A → List A
  drop zero xs = xs
  drop (suc n) [] = []
  drop (suc n) (x ∷ xs) = drop n xs

  -- `xs[:n]`
  unfoldable pub take : ℕ → List A → List A
  take zero xs = []
  take (suc n) [] = []
  take (suc n) (x ∷ xs) = x ∷ take n xs

  -- `xs[-n:]`, for a positive n
  unfoldable pub last_items : ℕ → List A → List A
  unfolding drop
  last_items n xs = drop (length xs - n) xs

zero_add : (m : ℕ) → 0 + m ≡ m
zero_add m = omega arith

suc_add : (n m : ℕ) → suc n + m ≡ suc (n + m)
suc_add n m = omega arith

module _ {ℓ} {A : Type ℓ} where
  drop-nil : (n : ℕ) → ◌≡◌ {A = List A} (drop n []) []
  unfolding drop
  drop-nil zero = refl
  drop-nil (suc n) = refl

  pub drop-add : (n m : ℕ) (xs : List A) → drop (n + m) xs ≡ drop m (drop n xs)
  unfolding drop
  drop-add zero m xs = ap (λ k. drop k xs) (zero_add m)
  drop-add (suc n) m [] = drop-nil (suc n + m) ∙ sym (drop-nil m)
  drop-add (suc n) m (x ∷ xs) = ap (λ k. drop k (x ∷ xs)) (suc_add n m) ∙ drop-add n m xs

  pub take-drop : (n : ℕ) (xs : List A) → take n xs ++ drop n xs ≡ xs
  unfolding take drop
  take-drop zero xs = refl
  take-drop (suc n) [] = refl
  take-drop (suc n) (x ∷ xs) = ap (λ z. x ∷ z) (take-drop n xs)

  pub drop-length : (xs ys : List A) → drop (length xs) (xs ++ ys) ≡ ys
  unfolding drop
  drop-length [] ys = refl
  drop-length (x ∷ xs) ys = drop-length xs ys

  pub drop-append : (n : ℕ) (xs ys : List A) → n ≤ length xs → drop n (xs ++ ys) ≡ drop n xs ++ ys
  unfolding drop
  drop-append zero xs ys h = refl
  drop-append (suc n) [] ys h = absurd (omega arith)
  drop-append (suc n) (x ∷ xs) ys h = drop-append n xs ys (omega arith)

  pub length-drop : (n : ℕ) (xs : List A) → length (drop n xs) ≡ length xs - n
  unfolding drop
  length-drop zero xs = omega arith
  length-drop (suc n) [] = omega arith
  length-drop (suc n) (x ∷ xs) = omega (arith, length-drop n xs)

  pub length-last_items : (n : ℕ) (xs : List A) → length (last_items n xs) ≤ n
  unfolding last_items
  length-last_items n xs = omega (arith, length-drop (length xs - n) xs)

  -- The last items of a list that grows can be kept by what was kept of it.
  pub last_items-append :
      (n : ℕ) (xs ys : List A) → last_items n (last_items n xs ++ ys) ≡ last_items n (xs ++ ys)
  unfolding last_items
  last_items-append n xs ys =
      let kept : drop (length xs - n) xs ++ ys ≡ drop (length xs - n) (xs ++ ys) =
        sym (drop-append (length xs - n) xs ys (omega arith)) in
      let count : (length xs - n) + (length (drop (length xs - n) (xs ++ ys)) - n)
          ≡ length (xs ++ ys) - n =
        omega (arith, length-drop (length xs - n) (xs ++ ys), length-append xs ys) in
      ap (λ z. drop (length z - n) z) kept
      ∙ sym (drop-add (length xs - n) (length (drop (length xs - n) (xs ++ ys)) - n) (xs ++ ys))
      ∙ ap (λ k. drop k (xs ++ ys)) count
