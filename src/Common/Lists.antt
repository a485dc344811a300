-- ===== src/Common/Lists.antt =====
-- Lists measured by the native numbers, under the library's names.
use Prim.Native.Nat.{ℕ, zero, suc, ◌+◌, ◌-◌, min}
use mathlib.Core.Path.{◌≡◌, refl}
use mathlib.Core.Bool.{Bool, true, false, ◌||◌}
use mathlib.Core.Option.{Option, none, some}
use mathlib.Core.List.{List, [], ◌∷◌, ◌++◌, map, Mem, mem-cons}
use mathlib.Core.Logic.Or
use native.Mathlib.Omega.{arith}

module _ {ℓ} {A : Type ℓ} where
  abbrev pub length : List A → ℕ
  length [] = 0
  length (x ∷ xs) = suc (length xs)

  abbrev pub take : ℕ → List A → List A
  take zero xs = []
  take (suc n) [] = []
  take (suc n) (x ∷ xs) = x ∷ take n xs

  abbrev pub drop : ℕ → List A → List A
  drop zero xs = xs
  drop (suc n) [] = []
  drop (suc n) (x ∷ xs) = drop n xs

  abbrev pub get_elem? : List A → ℕ → Option A
  get_elem? [] i = none
  get_elem? (x ∷ xs) zero = some x
  get_elem? (x ∷ xs) (suc i) = get_elem? xs i

  -- Python's `any(test(x) for x in xs)`.
  abbrev pub any : (A → Bool) → List A → Bool
  any test [] = false
  any test (x ∷ xs) = test x || any test xs

  -- A predicate that holds of every element.
  abbrev pub All {κ} : (A → Type κ) → List A → Type κ
  All P [] = Unit
  All P (x ∷ xs) = P x × All P xs

  pub take-append-drop : (n : ℕ) (xs : List A) → take n xs ++ drop n xs ≡ xs
  take-append-drop zero xs = refl
  take-append-drop (suc n) [] = refl
  take-append-drop (suc n) (x ∷ xs) = rw (take-append-drop n xs)

  pub length-take : (n : ℕ) (xs : List A) → length (take n xs) ≡ min n (length xs)
  length-take zero xs = omega arith
  length-take (suc n) [] = omega arith
  length-take (suc n) (x ∷ xs) = omega (arith, length-take n xs)

  pub length-drop : (n : ℕ) (xs : List A) → length (drop n xs) ≡ length xs - n
  length-drop zero xs = omega arith
  length-drop (suc n) [] = omega arith
  length-drop (suc n) (x ∷ xs) = omega (arith, length-drop n xs)

  pub length-append : (xs ys : List A) → length (xs ++ ys) ≡ length xs + length ys
  length-append [] ys = omega arith
  length-append (x ∷ xs) ys = omega (arith, length-append xs ys)

pub append_nil {ℓ} : {A : Type ℓ} (xs : List A) → xs ++ [] ≡ xs
append_nil [] = refl
append_nil (x ∷ xs) = rw (append_nil xs)

pub map-append_cons {ℓ κ} :
    {A : Type ℓ} {B : Type κ} (f : A → B) (xs : List A) (x : A) (ys : List B)
    → map f (xs ++ x ∷ []) ++ ys ≡ map f xs ++ f x ∷ ys
map-append_cons f [] x ys = refl
map-append_cons f (z ∷ xs) x ys = rw (map-append_cons f xs x ys)

pub All-append_one {ℓ κ} :
    {A : Type ℓ} (P : A → Type κ) (xs : List A) (x : A) → All P xs → P x → All P (xs ++ x ∷ [])
All-append_one P [] x a p = (p, tt)
All-append_one P (y ∷ xs) x (h, t) p = (h, All-append_one P xs x t p)

pub All-append {ℓ κ} :
    {A : Type ℓ} (P : A → Type κ) (xs ys : List A) → All P xs → All P ys → All P (xs ++ ys)
All-append P [] ys a b = b
All-append P (x ∷ xs) ys (h, t) b = (h, All-append P xs ys t b)

pub All-map {ℓ κ m} :
    {A : Type ℓ} {B : Type κ} (P : B → Type m) (f : A → B) (xs : List A)
    → All (λ x. P (f x)) xs
    → All P (map f xs)
All-map P f [] a = tt
All-map P f (x ∷ xs) (h, t) = (h, All-map P f xs t)

pub All-imp {ℓ κ m} :
    {A : Type ℓ} {P : A → Type κ} {Q : A → Type m} (xs : List A)
    → ((x : A) → P x → Q x)
    → All P xs
    → All Q xs
All-imp [] f a = tt
All-imp (x ∷ xs) f (h, t) = (f x h, All-imp xs f t)

pub All-Mem {ℓ} : {A : Type ℓ} (xs : List A) → All (λ x. Mem x xs) xs
All-Mem [] = tt
All-Mem (x ∷ xs) =
    (mem-cons.1 (Or.inl refl), All-imp xs (λ y m. mem-cons.1 (Or.inr m)) (All-Mem xs))

pub or_right : (b : Bool) {c : Bool} → c ≡ true → (b || c) ≡ true
or_right true h = refl
or_right false h = h

pub or_left : {b : Bool} (c : Bool) → b ≡ true → (b || c) ≡ true
or_left c h = rw h refl

pub or_mono :
    {c c' b' : Bool} (b : Bool)
    → (b ≡ true → b' ≡ true)
    → (c ≡ true → c' ≡ true)
    → (b || c) ≡ true
    → (b' || c') ≡ true
or_mono {b' = b'} true f g h = rw (f refl) refl
or_mono {b' = b'} false f g h = or_right b' (g h)

pub All-zip {ℓ κ m n} :
    {A : Type ℓ} (P : A → Type κ) (Q : A → Type m) (R : A → Type n) (xs : List A)
    → ((x : A) → P x → Q x → R x)
    → All P xs
    → All Q xs
    → All R xs
All-zip P Q R [] f a b = tt
All-zip P Q R (x ∷ xs) f (p, a) (q, b) = (f x p q, All-zip P Q R xs f a b)
