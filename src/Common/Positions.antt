-- ===== src/Common/Positions.antt =====
-- Lists by position, with the native numbers.
use kugelblitz.Common.Tests.{some_eq, ltb, ◌==◌, if◌then◌else◌}
use kugelblitz.Common.Lists.{length, take}
use Prim.Native.Nat.{ℕ, zero, suc, ◌<◌}
use mathlib.Core.Path.{sym, ◌≡◌, refl}
use mathlib.Core.Option.{Option, none, some}
use mathlib.Core.List.{Memᴰ, List, [], ◌∷◌, ◌++◌}
use native.Mathlib.Omega.{arith}

module _ {ℓ} {A : Type ℓ} where
  unfoldable pub get_elem? : List A → ℕ → Option A
  get_elem? [] i = none
  get_elem? (x ∷ xs) zero = some x
  get_elem? (x ∷ xs) (suc i) = get_elem? xs i

  -- `xs[i] = x`, for a position of the list.
  unfoldable pub set_at : ℕ → A → List A → List A
  set_at i x [] = []
  set_at zero x (y ∷ ys) = x ∷ ys
  set_at (suc i) x (y ∷ ys) = y ∷ set_at i x ys

  pub get_elem-length : (xs : List A) (i : ℕ) (x : A) → get_elem? xs i ≡ some x → i < length xs
  unfolding get_elem?
  get_elem-length [] i x h = ground (arith, h)
  get_elem-length (y ∷ ys) zero x h = omega arith
  get_elem-length (y ∷ ys) (suc i) x h = omega (arith, get_elem-length ys i x h)

  pub get_elem-set_at :
      (i : ℕ) (x : A) (xs : List A) (j : ℕ)
      → get_elem? (set_at i x xs) j
        ≡ (if i == j then (if ltb i (length xs) then some x else none) else get_elem? xs j)
  unfolding get_elem? set_at
  get_elem-set_at i x [] j = ground arith
  get_elem-set_at zero x (y ∷ ys) zero = ground arith
  get_elem-set_at zero x (y ∷ ys) (suc j) = ground arith
  get_elem-set_at (suc i) x (y ∷ ys) zero = ground arith
  get_elem-set_at (suc i) x (y ∷ ys) (suc j) = ground (arith, get_elem-set_at i x ys j)

  pub get_elem-take :
      (n : ℕ) (xs : List A) (j : ℕ)
      → get_elem? (take n xs) j ≡ (if ltb j n then get_elem? xs j else none)
  unfolding get_elem?
  get_elem-take zero xs j = ground arith
  get_elem-take (suc n) [] j = ground arith
  get_elem-take (suc n) (x ∷ xs) zero = ground arith
  get_elem-take (suc n) (x ∷ xs) (suc j) = ground (arith, get_elem-take n xs j)

  pub get_elem-push :
      (xs : List A) (x : A) (j : ℕ)
      → get_elem? (xs ++ x ∷ []) j ≡ (if length xs == j then some x else get_elem? xs j)
  unfolding get_elem?
  get_elem-push [] x zero = ground arith
  get_elem-push [] x (suc j) = ground arith
  get_elem-push (y ∷ ys) x zero = ground arith
  get_elem-push (y ∷ ys) x (suc j) = ground (arith, get_elem-push ys x j)

  pub get_elem-last : (x : A) (xs : List A) → (y : A) × (get_elem? (x ∷ xs) (length xs) ≡ some y)
  unfolding get_elem?
  get_elem-last x [] = (x, refl)
  get_elem-last x (z ∷ xs) = get_elem-last z xs

  pub get_elem-mem : (xs : List A) (i : ℕ) (x : A) → get_elem? xs i ≡ some x → Memᴰ x xs
  unfolding get_elem?
  get_elem-mem [] i x h = absurd (ground (arith, h))
  get_elem-mem (y ∷ ys) zero x h = Memᴰ.head (sym (some_eq h))
  get_elem-mem (y ∷ ys) (suc i) x h = Memᴰ.tail (get_elem-mem ys i x h)
