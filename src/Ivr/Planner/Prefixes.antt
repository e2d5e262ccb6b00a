-- ===== src/Ivr/Planner/Prefixes.antt =====
-- The prefixes of a caller's number, as `resolveNextNode` of apps/api/src/modules/ivr-flows/ivr-graph-planner.ts
-- looks for one.
use mathlib.Core.List.{Memᴰ}
use manage_call_ai.Base.{
  List, [], ◌∷◌, any, String, ◌≡◌, refl, inl, inr, true, false, none, some, Option-cases, arith,
  Bool-cases,
}
use manage_call_ai.Json.{Json, str}
use manage_call_ai.Text.{strip_prefix}
use manage_call_ai.Ivr.Planner.{is_given, has_prefix}

module _ (caller : String) where
  has_prefix-is_given : (p : String) → has_prefix caller (str p) ≡ is_given (strip_prefix p caller)
  unfolding has_prefix
  has_prefix-is_given p = refl

  has_prefix-str :
      (j : Json)
      → has_prefix caller j ≡ true
      → (p : String) × ((rest : String) × ((str p ≡ j) × (strip_prefix p caller ≡ some rest)))
  unfolding has_prefix
  has_prefix-str (str p) h = elim (Option-cases (strip_prefix p caller)) [
    | inl e ↦ let x : false ≡ true = rw (has_prefix-is_given p, e) at h in cc
    | inr (rest, e) ↦ (p, (rest, (refl, e)))
  ]
  has_prefix-str j h = let x : false ≡ true = h in cc

  pub any-has_prefix :
      (js : List Json)
      → any (has_prefix caller) js ≡ true
      → (p : String) × ((rest : String) × (Memᴰ (str p) js × (strip_prefix p caller ≡ some rest)))
  any-has_prefix [] h = cc
  any-has_prefix (j ∷ js) h = elim (Bool-cases (has_prefix caller j)) [
    | inl e ↦ let x = has_prefix-str j e in (x.0, (x.1.0, (Memᴰ.head x.1.1.0, x.1.1.1)))
    | inr ne ↦
        let x = any-has_prefix js (rw ne at h) in (x.0, (x.1.0, (Memᴰ.tail x.1.1.0, x.1.1.1)))
  ]

  pub any-has_no_prefix :
      (p : String) (js : List Json)
      → any (has_prefix caller) js ≡ false
      → Memᴰ (str p) js
      → strip_prefix p caller ≡ none
  any-has_no_prefix p [] h m = elim m [ ]
  any-has_no_prefix p (j ∷ js) h (Memᴰ.head e) =
      let x : has_prefix caller (str p) ≡ false = rw e (ground (arith, h)) in
      elim (Option-cases (strip_prefix p caller)) [
        | inl n ↦ n
        | inr (rest, r) ↦ let y : true ≡ false = rw (has_prefix-is_given p, r) at x in cc
      ]
  any-has_no_prefix p (j ∷ js) h (Memᴰ.tail m) = any-has_no_prefix p js (ground (arith, h)) m
