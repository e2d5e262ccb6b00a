-- ===== src/Base/Sorting.antt =====
-- A stable sort by a number, as `Array.sort` and `ORDER BY` make it, and the first element of it that passes
-- a test.
use Prim.Native.Nat.{ℕ, ◌≤◌}
use mathlib.Core.Path.{◌≡◌, refl, subst, sym}
use mathlib.Core.Logic.{◌⊎◌, inl, inr}
use mathlib.Core.Bool.{Bool, true, false}
use mathlib.Core.Option.{Option, none, some}
use mathlib.Core.List.{List, [], ◌∷◌, Memᴰ}
use native.Mathlib.Omega.{arith}
use manage_call_ai.Base.Tests.{if◌then◌else◌, leb, Bool-cases}
use manage_call_ai.Base.Lists.{find, All, All-map}

module _ {A : Type 0} where
  unfoldable pub insert_by : (A → ℕ) → A → List A → List A
  insert_by f x [] = x ∷ []
  insert_by f x (y ∷ ys) =
      let rest = insert_by f x ys in if leb (f x) (f y) then x ∷ y ∷ ys else y ∷ rest

  unfoldable pub sort_by : (A → ℕ) → List A → List A
  sort_by f [] = []
  sort_by f (x ∷ xs) = insert_by f x (sort_by f xs)

  abbrev pub IsSorted : (A → ℕ) → List A → Type 0
  IsSorted f [] = Unit
  IsSorted f (x ∷ xs) = All (λ y. f x ≤ f y) xs × IsSorted f xs

  module _ {κ} (P : A → Type κ) (f : A → ℕ) where
    All-insert_by : (x : A) (ys : List A) → P x → All P ys → All P (insert_by f x ys)
    unfolding insert_by
    All-insert_by x [] h a = (h, tt)
    All-insert_by x (y ∷ ys) h a = elim (Bool-cases (leb (f x) (f y))) [
      | inl e ↦ rw e (h, a)
      | inr ne ↦ rw ne (a.0, All-insert_by x ys h a.1)
    ]

    pub All-of_insert_by : (x : A) (ys : List A) → All P (insert_by f x ys) → P x × All P ys
    unfolding insert_by
    All-of_insert_by x [] a = (a.0, tt)
    All-of_insert_by x (y ∷ ys) a = elim (Bool-cases (leb (f x) (f y))) [
      | inl e ↦ let b : P x × (P y × All P ys) = rw e at a in b
      | inr ne ↦
          let b : P y × All P (insert_by f x ys) = rw ne at a in
          let rest = All-of_insert_by x ys b.1 in (rest.0, (b.0, rest.1))
    ]

    -- What holds of all elements of the sorted list holds of all elements.
    pub All-of_sort_by : (xs : List A) → All P (sort_by f xs) → All P xs
    unfolding sort_by
    All-of_sort_by [] a = tt
    All-of_sort_by (x ∷ xs) a =
        let b = All-of_insert_by x (sort_by f xs) a in (b.0, All-of_sort_by xs b.1)

    pub All-sort_by : (xs : List A) → All P xs → All P (sort_by f xs)
    unfolding sort_by
    All-sort_by [] a = tt
    All-sort_by (x ∷ xs) a = All-insert_by x (sort_by f xs) a.0 (All-sort_by xs a.1)

  insert_by-IsSorted :
      (f : A → ℕ) (x : A) (ys : List A) → IsSorted f ys → IsSorted f (insert_by f x ys)
  unfolding insert_by
  insert_by-IsSorted f x [] s = (tt, tt)
  insert_by-IsSorted f x (y ∷ ys) s = elim (Bool-cases (leb (f x) (f y))) [
    | inl e ↦ rw e ((ground (arith, e), All-map (λ z h. below z e h) ys s.0), s)
    | inr ne ↦ rw ne (
      All-insert_by (λ z. f y ≤ f z) f x ys (ground (arith, ne)) s.0,
      insert_by-IsSorted f x ys s.1,
    )
  ]
    where
      below : (z : A) → leb (f x) (f y) ≡ true → f y ≤ f z → f x ≤ f z
      below z e h = ground (arith, e, h)

  pub sort_by-IsSorted : (f : A → ℕ) (xs : List A) → IsSorted f (sort_by f xs)
  unfolding sort_by
  sort_by-IsSorted f [] = tt
  sort_by-IsSorted f (x ∷ xs) = insert_by-IsSorted f x (sort_by f xs) (sort_by-IsSorted f xs)

  -- `none`: no element passes the test. `some x`: `x` is one that does, and none that does has a lower number.
  abbrev pub IsLeast : (A → ℕ) → (A → Bool) → List A → Option A → Type 0
  IsLeast f p xs none = All (λ y. p y ≡ false) xs
  IsLeast f p xs (some x) = Memᴰ x xs × (p x ≡ true) × All (λ y. (p y ≡ false) ⊎ (f x ≤ f y)) xs

  IsLeast-found :
      (f : A → ℕ) (p : A → Bool) (x : A) (xs : List A) (o : Option A)
      → p x ≡ false
      → IsLeast f p xs o
      → IsLeast f p (x ∷ xs) o
  IsLeast-found f p x xs none e h = (e, h)
  IsLeast-found f p x xs (some y) e h = (Memᴰ.tail h.0, h.1, (inl e, h.2))

  IsLeast-find :
      (f : A → ℕ) (p : A → Bool) (xs : List A) → IsSorted f xs → IsLeast f p xs (find p xs)
  IsLeast-find f p [] s = tt
  IsLeast-find f p (x ∷ xs) s = elim (Bool-cases (p x)) [
    | inl e ↦ rw e (Memᴰ.head refl, e, (inr (omega arith), All-map (λ z h. inr h) xs s.0))
    | inr ne ↦ rw ne (IsLeast-found f p x xs (find p xs) ne (IsLeast-find f p xs s.1))
  ]

  Mem-All : (xs : List A) → All (λ y. Memᴰ y xs) xs
  Mem-All [] = tt
  Mem-All (x ∷ xs) = (Memᴰ.head refl, All-map (λ y m. Memᴰ.tail m) xs (Mem-All xs))

  All_at {κ} : (P : A → Type κ) (x : A) (xs : List A) → Memᴰ x xs → All P xs → P x
  All_at P x [] m a = elim m [ ]
  All_at P x (y ∷ ys) (Memᴰ.head e) a = subst P (sym e) a.0
  All_at P x (y ∷ ys) (Memᴰ.tail m) a = All_at P x ys m a.1

  pub IsLeast-of_sort_by :
      (f : A → ℕ) (p : A → Bool) (xs : List A) (o : Option A)
      → IsLeast f p (sort_by f xs) o
      → IsLeast f p xs o
  IsLeast-of_sort_by f p xs none h = All-of_sort_by (λ y. p y ≡ false) f xs h
  IsLeast-of_sort_by f p xs (some x) h = (
    All_at (λ y. Memᴰ y xs) x (sort_by f xs) h.0 (All-sort_by (λ y. Memᴰ y xs) f xs (Mem-All xs)),
    h.1,
    All-of_sort_by (λ y. (p y ≡ false) ⊎ (f x ≤ f y)) f xs h.2,
  )

  -- The first element of the sorted list that passes the test.
  pub find-sort_by :
      (f : A → ℕ) (p : A → Bool) (xs : List A) → IsLeast f p xs (find p (sort_by f xs))
  find-sort_by f p xs =
      IsLeast-of_sort_by f p xs (find p (sort_by f xs))
        (IsLeast-find f p (sort_by f xs) (sort_by-IsSorted f xs))
