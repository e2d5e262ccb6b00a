-- ===== src/Base/Lists.antt =====
-- Lists: membership of texts as a test, predicates by recursion, and appending at the end.
use Prim.Native.Nat.{ℕ, suc}
use Prim.Native.String.{String}
use mathlib.Core.Path.{◌≡◌, refl}
use mathlib.Core.Logic.{inl, inr}
use mathlib.Core.Bool.{Bool, true, false, ◌||◌}
use mathlib.Core.Option.{Option, none, some}
use mathlib.Core.List.{List, [], ◌∷◌, ◌++◌}
use native.Mathlib.Omega.{arith}
use text.Mathlib.Text.{◌==◌ as str_eq}
use text.Mathlib.TextEquality.{eq_iff}
use text.Mathlib.TextPositions.{eq_refl}
use manage_call_ai.Base.Tests.{if◌then◌else◌, Bool-cases}

module _ {ℓ} {A : Type ℓ} where
  abbrev pub length : List A → ℕ
  length [] = 0
  length (x ∷ xs) = suc (length xs)

  -- `array.push(x)`.
  abbrev pub push : List A → A → List A
  push xs x = xs ++ x ∷ []

  -- `array.find(p)`.
  abbrev pub find : (A → Bool) → List A → Option A
  find p [] = none
  find p (x ∷ xs) = if p x then some x else find p xs

  abbrev pub any : (A → Bool) → List A → Bool
  any p [] = false
  any p (x ∷ xs) = p x || any p xs

  abbrev pub keep : (A → Bool) → List A → List A
  keep p [] = []
  keep p (x ∷ xs) = if p x then x ∷ keep p xs else keep p xs

  abbrev pub All {κ} : (A → Type κ) → List A → Type κ
  All P [] = Unit
  All P (x ∷ xs) = P x × All P xs

  abbrev pub is_empty : List A → Bool
  is_empty [] = true
  is_empty (x ∷ xs) = false

abbrev pub flat_map {ℓ κ} : {A : Type ℓ} {B : Type κ} → (A → List B) → List A → List B
flat_map f [] = []
flat_map f (x ∷ xs) = f x ++ flat_map f xs

module _ {ℓ κ} {A : Type ℓ} (P : A → Type κ) where
  pub All-append : (xs ys : List A) → All P xs → All P ys → All P (xs ++ ys)
  All-append [] ys h k = k
  All-append (x ∷ xs) ys h k = (h.0, All-append xs ys h.1 k)

  pub All-append_left : (xs ys : List A) → All P (xs ++ ys) → All P xs
  All-append_left [] ys h = tt
  All-append_left (x ∷ xs) ys h = (h.0, All-append_left xs ys h.1)

  pub All-append_right : (xs ys : List A) → All P (xs ++ ys) → All P ys
  All-append_right [] ys h = h
  All-append_right (x ∷ xs) ys h = All-append_right xs ys h.1

pub All-map {ℓ κ ι} :
    {A : Type ℓ} {P : A → Type κ} {Q : A → Type ι} (f : (a : A) → P a → Q a) (xs : List A)
    → All P xs
    → All Q xs
All-map f [] h = tt
All-map f (x ∷ xs) h = (f x h.0, All-map f xs h.1)

-- `set.has(id)`.
abbrev pub has : String → List String → Bool
has id [] = false
has id (x ∷ xs) = str_eq x id || has id xs

pub has-push_iff :
    (id x : String) (xs : List String) → has id (push xs x) ≡ (has id xs || str_eq x id)
has-push_iff id x [] = ground arith
has-push_iff id x (y ∷ ys) = ground (arith, has-push_iff id x ys)

pub push-ne-nil {ℓ} : {A : Type ℓ} (xs : List A) (x : A) → push xs x ≡ [] → ⊥
push-ne-nil [] x h = cc
push-ne-nil (y ∷ ys) x h = cc

-- `set.has` finds what `flat_map` went through.
pub All-flat_map_at {ℓ κ} :
    {A : Type ℓ} (P : A → Type κ) (f : String → List A) (x : String) (xs : List String)
    → has x xs ≡ true
    → All P (flat_map f xs)
    → All P (f x)
All-flat_map_at P f x [] h a = cc
All-flat_map_at P f x (y ∷ ys) h a = elim (Bool-cases (str_eq y x)) [
  | inl e ↦ rw (← (eq_iff y x).0 e) (All-append_left P (f y) (flat_map f ys) a)
  | inr ne ↦ All-flat_map_at P f x ys (rw ne at h) (All-append_right P (f y) (flat_map f ys) a)
]

pub All-flat_map {ℓ κ} :
    {A : Type ℓ} (P : A → Type κ) (f : String → List A) (xs : List String)
    → ((x : String) → has x xs ≡ true → All P (f x))
    → All P (flat_map f xs)
All-flat_map P f [] h = tt
All-flat_map P f (x ∷ xs) h =
    All-append P (f x) (flat_map f xs) (h x (rw eq_refl refl))
      (All-flat_map P f xs λ y m. h y (ground (arith, m)))

pub append-nil_right {ℓ} : {A : Type ℓ} (xs ys : List A) → xs ++ ys ≡ [] → ys ≡ []
append-nil_right [] ys h = h
append-nil_right (x ∷ xs) ys h = cc
