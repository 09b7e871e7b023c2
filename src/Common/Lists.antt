-- ===== src/Common/Lists.antt =====
-- Lists measured and indexed by native numbers, and copies into a region of a buffer.
use Prim.Native.Nat.{ℕ, zero, suc, ◌+◌, ◌-◌, ◌≤◌, ◌<◌, min}
use mathlib.Core.Path.{◌≡◌, refl, ap}
use mathlib.Core.Logic.{◌≢◌, ◌⊎◌, inl, inr}
use mathlib.Core.List.{List, [], ◌∷◌, ◌++◌}
use mathlib.Core.Option.{Option, none, some}
use native.Mathlib.Omega.{arith}

module _ {ℓ} {A : Type ℓ} where
  abbrev pub length : List A → ℕ
  length [] = 0
  length (x ∷ xs) = suc (length xs)

  abbrev pub get_elem? : List A → ℕ → Option A
  get_elem? [] i = none
  get_elem? (x ∷ xs) zero = some x
  get_elem? (x ∷ xs) (suc i) = get_elem? xs i

  abbrev pub get_or : List A → ℕ → A → A
  get_or [] i d = d
  get_or (x ∷ xs) zero d = x
  get_or (x ∷ xs) (suc i) d = get_or xs i d

  -- A write out of bounds changes nothing.
  abbrev pub set : List A → ℕ → A → List A
  set [] i v = []
  set (x ∷ xs) zero v = v ∷ xs
  set (x ∷ xs) (suc i) v = x ∷ set xs i v

  abbrev pub take : ℕ → List A → List A
  take zero xs = []
  take (suc n) [] = []
  take (suc n) (x ∷ xs) = x ∷ take n xs

  abbrev pub drop : ℕ → List A → List A
  drop zero xs = xs
  drop (suc n) [] = []
  drop (suc n) (x ∷ xs) = drop n xs

  abbrev pub replicate : ℕ → A → List A
  replicate zero a = []
  replicate (suc n) a = a ∷ replicate n a

  -- memcpy(dst + i, src, length src); what lies past the end of `dst` is not written.
  abbrev pub write_at : List A → ℕ → List A → List A
  write_at [] i src = []
  write_at (x ∷ dst) (suc i) src = x ∷ write_at dst i src
  write_at (x ∷ dst) zero [] = x ∷ dst
  write_at (x ∷ dst) zero (y ∷ src) = y ∷ write_at dst zero src

  pub length-append : (xs ys : List A) → length (xs ++ ys) ≡ length xs + length ys
  length-append [] ys = omega arith
  length-append (x ∷ xs) ys = omega (arith, length-append xs ys)

  pub length-set : (xs : List A) (i : ℕ) (v : A) → length (set xs i v) ≡ length xs
  length-set [] i v = refl
  length-set (x ∷ xs) zero v = refl
  length-set (x ∷ xs) (suc i) v = ap suc (length-set xs i v)

  pub get_or-set_self :
      (xs : List A) (i : ℕ) (v d : A) → i < length xs → get_or (set xs i v) i d ≡ v
  get_or-set_self [] i v d h = absurd (omega arith)
  get_or-set_self (x ∷ xs) zero v d h = refl
  get_or-set_self (x ∷ xs) (suc i) v d h = get_or-set_self xs i v d (omega arith)

  pub get_or-set_ne :
      (xs : List A) (i j : ℕ) (v d : A) → i ≢ j → get_or (set xs i v) j d ≡ get_or xs j d
  get_or-set_ne [] i j v d h = refl
  get_or-set_ne (x ∷ xs) zero zero v d h = absurd (h refl)
  get_or-set_ne (x ∷ xs) zero (suc j) v d h = refl
  get_or-set_ne (x ∷ xs) (suc i) zero v d h = refl
  get_or-set_ne (x ∷ xs) (suc i) (suc j) v d h = get_or-set_ne xs i j v d (λ e. h (ap suc e))

module _ {ℓ} {A : Type ℓ} where
  pub length-take : (n : ℕ) (xs : List A) → length (take n xs) ≡ min n (length xs)
  length-take zero xs = omega arith
  length-take (suc n) [] = omega arith
  length-take (suc n) (x ∷ xs) = omega (arith, length-take n xs)

  pub length-drop : (n : ℕ) (xs : List A) → length (drop n xs) ≡ length xs - n
  length-drop zero xs = omega arith
  length-drop (suc n) [] = omega arith
  length-drop (suc n) (x ∷ xs) = omega (arith, length-drop n xs)

  pub length-replicate : (n : ℕ) (a : A) → length (replicate n a) ≡ n
  length-replicate zero a = refl
  length-replicate (suc n) a = ap suc (length-replicate n a)

  pub take-append-drop : (n : ℕ) (xs : List A) → take n xs ++ drop n xs ≡ xs
  take-append-drop zero xs = refl
  take-append-drop (suc n) [] = refl
  take-append-drop (suc n) (x ∷ xs) = ap (λ l. x ∷ l) (take-append-drop n xs)

  pub take_all : (n : ℕ) (xs : List A) → length xs ≤ n → take n xs ≡ xs
  take_all zero [] h = refl
  take_all zero (x ∷ xs) h = absurd (omega arith)
  take_all (suc n) [] h = refl
  take_all (suc n) (x ∷ xs) h = ap (λ l. x ∷ l) (take_all n xs (omega arith))

  pub drop_all : (n : ℕ) (xs : List A) → length xs ≤ n → drop n xs ≡ []
  drop_all zero [] h = refl
  drop_all zero (x ∷ xs) h = absurd (omega arith)
  drop_all (suc n) [] h = refl
  drop_all (suc n) (x ∷ xs) h = drop_all n xs (omega arith)

  pub take-append_self : (xs ys : List A) (n : ℕ) → n ≡ length xs → take n (xs ++ ys) ≡ xs
  take-append_self [] ys zero h = refl
  take-append_self [] ys (suc n) h = absurd (omega arith)
  take-append_self (x ∷ xs) ys zero h = absurd (omega arith)
  take-append_self (x ∷ xs) ys (suc n) h = ap (λ l. x ∷ l) (take-append_self xs ys n (omega arith))

  pub drop-append_self : (xs ys : List A) (n : ℕ) → n ≡ length xs → drop n (xs ++ ys) ≡ ys
  drop-append_self [] ys zero h = refl
  drop-append_self [] ys (suc n) h = absurd (omega arith)
  drop-append_self (x ∷ xs) ys zero h = absurd (omega arith)
  drop-append_self (x ∷ xs) ys (suc n) h = drop-append_self xs ys n (omega arith)

  drop-nil : (n : ℕ) → drop {A = A} n [] ≡ []
  drop-nil zero = refl
  drop-nil (suc n) = refl

  pub drop-drop : (m n k : ℕ) (xs : List A) → m + n ≡ k → drop n (drop m xs) ≡ drop k xs
  drop-drop zero n k xs h = ap (λ i. drop i xs) (let e : n ≡ k = omega arith in e)
  drop-drop (suc m) n zero xs h = absurd (omega arith)
  drop-drop (suc m) n (suc k) [] h = drop-nil n
  drop-drop (suc m) n (suc k) (x ∷ xs) h = drop-drop m n k xs (omega arith)

-- What a copy into a buffer leaves behind.
module _ {ℓ} {A : Type ℓ} where
  pub length-write_at :
      (dst : List A) (i : ℕ) (src : List A) → length (write_at dst i src) ≡ length dst
  length-write_at [] i src = refl
  length-write_at (x ∷ dst) (suc i) src = ap suc (length-write_at dst i src)
  length-write_at (x ∷ dst) zero [] = refl
  length-write_at (x ∷ dst) zero (y ∷ src) = ap suc (length-write_at dst zero src)

  -- The region written holds the source.
  pub write_at_self :
      (dst : List A) (i : ℕ) (src : List A)
      → i + length src ≤ length dst
      → take (length src) (drop i (write_at dst i src)) ≡ src
  write_at_self [] i [] h = refl
  write_at_self [] i (y ∷ src) h = absurd (omega arith)
  write_at_self (x ∷ dst) (suc i) src h = write_at_self dst i src (omega arith)
  write_at_self (x ∷ dst) zero [] h = refl
  write_at_self (x ∷ dst) zero (y ∷ src) h =
      ap (λ l. y ∷ l) (write_at_self dst zero src (omega arith))

  -- A region that the copy does not meet is as before.
  pub write_at_apart :
      (dst : List A) (i : ℕ) (src : List A) (j n : ℕ)
      → (j + n ≤ i) ⊎ (i + length src ≤ j)
      → take n (drop j (write_at dst i src)) ≡ take n (drop j dst)
  write_at_apart [] i src j n h = refl
  write_at_apart (x ∷ dst) zero [] j n h = refl
  write_at_apart (x ∷ dst) zero (y ∷ src) zero zero h = refl
  write_at_apart (x ∷ dst) zero (y ∷ src) zero (suc n) h = absurd (omega arith)
  write_at_apart (x ∷ dst) zero (y ∷ src) (suc j) n (inl h) = absurd (omega arith)
  write_at_apart (x ∷ dst) zero (y ∷ src) (suc j) n (inr h) =
      write_at_apart dst zero src j n (inr (omega arith))
  write_at_apart (x ∷ dst) (suc i) src zero zero h = refl
  write_at_apart (x ∷ dst) (suc i) src zero (suc n) (inl h) =
      ap (λ l. x ∷ l) (write_at_apart dst i src zero n (inl (omega arith)))
  write_at_apart (x ∷ dst) (suc i) src zero (suc n) (inr h) = absurd (omega arith)
  write_at_apart (x ∷ dst) (suc i) src (suc j) n (inl h) =
      write_at_apart dst i src j n (inl (omega arith))
  write_at_apart (x ∷ dst) (suc i) src (suc j) n (inr h) =
      write_at_apart dst i src j n (inr (omega arith))

  -- memcpy(dst + i, src, n) leaves the first `n` elements of `src` there.
  pub take-write_at :
      (dst : List A) (i : ℕ) (src : List A) (n : ℕ)
      → i + n ≤ length dst
      → n ≤ length src
      → take n (drop i (write_at dst i (take n src))) ≡ take n src
  take-write_at dst i src n h k =
      let e : length (take n src) ≡ n = omega (arith, length-take n src) in
      rw e at (write_at_self dst i (take n src) (omega (arith, e)))
