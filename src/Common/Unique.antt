-- ===== src/Common/Unique.antt =====
-- Dictionaries in which each key stands once, as in Python.
use mathlib.Core.Option.{some-injective}
use stock_statistic.Common.Tests.{Bool-cases}
use stock_statistic.Common.Lists.{length}
use stock_statistic.Common.Sum.{sum_by}
use stock_statistic.Common.Text.{Text, text_eq, text_eq_iff}
use stock_statistic.Common.Dict.{
  Dict, get, put, erase, modify, values, get-put, get-erase, get-modify,
}
use Prim.Native.Nat.{ℕ, ◌+◌, ◌≤◌, ◌<◌}
use mathlib.Core.Path.{◌≡◌, refl, ap}
use mathlib.Core.Logic.{inl, inr}
use mathlib.Core.Bool.{false}
use mathlib.Core.Option.{none, some}
use mathlib.Core.List.{[], ◌∷◌}
use native.Mathlib.Omega.{arith}

module _ {ℓ} {V : Type ℓ} where
  abbrev pub IsMap : Dict V → Type ℓ
  IsMap [] = Unit
  IsMap ((k, v) ∷ d) = (get k d ≡ none) × IsMap d

  pub erase_absent : (k : Text) (d : Dict V) → get k d ≡ none → erase k d ≡ d
  unfolding get erase
  erase_absent k [] h = refl
  erase_absent k ((j, w) ∷ d) h = elim (Bool-cases (text_eq j k)) [
    | inl same ↦ cc (rw same at h)
    | inr other ↦ rw other (ap (λ l. (j, w) ∷ l) (erase_absent k d (rw other at h)))
  ]

  get-put_other :
      (k j : Text) (v : V) (d : Dict V)
      → get j d ≡ none
      → text_eq j k ≡ false
      → get j (put k v d) ≡ none
  get-put_other k j v d h e = ground (arith, get-put k j v d, text_eq_iff k j, text_eq_iff j k)

  pub put-IsMap : (k : Text) (v : V) (d : Dict V) → IsMap d → IsMap (put k v d)
  unfolding put
  put-IsMap k v [] h = (unfold get in refl, tt)
  put-IsMap k v ((j, w) ∷ d) h = elim (Bool-cases (text_eq j k)) [
    | inl same ↦ rw same (rw ((text_eq_iff j k).0 same) at h.0, h.1)
    | inr other ↦ rw other (get-put_other k j v d h.0 other, put-IsMap k v d h.1)
  ]

  pub erase-IsMap : (k : Text) (d : Dict V) → IsMap d → IsMap (erase k d)
  unfolding erase
  erase-IsMap k [] h = h
  erase-IsMap k ((j, w) ∷ d) h = elim (Bool-cases (text_eq j k)) [
    | inl same ↦ rw same (erase-IsMap k d h.1)
    | inr other ↦ rw other (ground (arith, get-erase k j d, h.0), erase-IsMap k d h.1)
  ]

  pub sum_by-erase :
      (f : V → ℕ) (k : Text) (d : Dict V) (v : V)
      → IsMap d
      → get k d ≡ some v
      → sum_by f (values (erase k d)) + f v ≡ sum_by f (values d)
  unfolding get erase
  sum_by-erase f k [] v h e = cc
  sum_by-erase f k ((j, w) ∷ d) v h e = elim (Bool-cases (text_eq j k)) [
    | inl same ↦
        rw (same, erase_absent k d (rw ((text_eq_iff j k).0 same) at h.0))
          (omega (arith, ap f (some-injective _ _ (rw same at e))))
    | inr other ↦ rw other (omega (arith, sum_by-erase f k d v h.1 (rw other at e)))
  ]

  pub length-erase_le : (k : Text) (d : Dict V) → length (erase k d) ≤ length d
  unfolding erase
  length-erase_le k [] = omega arith
  length-erase_le k ((j, w) ∷ d) = ground (arith, length-erase_le k d)

  pub length-erase_lt :
      (k : Text) (d : Dict V) (v : V) → get k d ≡ some v → length (erase k d) < length d
  unfolding get erase
  length-erase_lt k [] v e = cc
  length-erase_lt k ((j, w) ∷ d) v e = elim (Bool-cases (text_eq j k)) [
    | inl same ↦ rw same (omega (arith, length-erase_le k d))
    | inr other ↦ rw other (omega (arith, length-erase_lt k d v (rw other at e)))
  ]

  -- What a write adds to a sum, beside the value that it replaces.
  pub sum_by-put :
      (f : V → ℕ) (k : Text) (v : V) (d : Dict V)
      → sum_by f (values (put k v d)) + elim (get k d) [ none ↦ 0 | some w ↦ f w ]
        ≡ sum_by f (values d) + f v
  unfolding get put
  sum_by-put f k v [] = omega arith
  sum_by-put f k v ((j, w) ∷ d) = elim (Bool-cases (text_eq j k)) [
    | inl same ↦ rw same (omega arith)
    | inr other ↦ rw other (omega (arith, sum_by-put f k v d))
  ]

  -- A change that keeps a measure keeps its sum, and no change adds or removes a key.
  pub sum_by-modify :
      (f : V → ℕ) (k : Text) (g : V → V) (d : Dict V)
      → ((v : V) → f (g v) ≡ f v)
      → sum_by f (values (modify k g d)) ≡ sum_by f (values d)
  unfolding modify
  sum_by-modify f k g [] h = refl
  sum_by-modify f k g ((j, w) ∷ d) h = elim (Bool-cases (text_eq j k)) [
    | inl same ↦ rw same (omega (arith, h w))
    | inr other ↦ rw other (omega (arith, sum_by-modify f k g d h))
  ]

  pub modify-IsMap : (k : Text) (g : V → V) (d : Dict V) → IsMap d → IsMap (modify k g d)
  unfolding modify
  modify-IsMap k g [] h = tt
  modify-IsMap k g ((j, w) ∷ d) h = elim (Bool-cases (text_eq j k)) [
    | inl same ↦ rw same h
    | inr other ↦ rw other (ground (arith, h.0, get-modify k j g d), modify-IsMap k g d h.1)
  ]
