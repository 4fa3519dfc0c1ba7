-- ===== src/Common/Dict.antt =====
-- Python's `dict` with text keys, in insertion order.
use mathlib.Core.Path.{◌≡◌, refl, subst}
use mathlib.Core.Logic.{◌≢◌, inl, inr}
use mathlib.Core.Option
use mathlib.Core.Option.{Option, none, some, some-injective}
use mathlib.Core.List.{List, [], ◌∷◌}
use native.Mathlib.Omega.{arith}
use stock_statistic.Common.Tests.{if◌then◌else◌, Bool-cases}
use stock_statistic.Common.Lists.{All}
use stock_statistic.Common.Text.{Text, text_eq, text_eq_iff, text_eq_refl}

abbrev pub Dict {ℓ} : Type ℓ → Type ℓ
Dict V = List (Text × V)

module _ {ℓ} {V : Type ℓ} where
  -- `d.get(k)`
  unfoldable pub get : Text → Dict V → Option V
  get k [] = none
  get k ((j, v) ∷ d) = if text_eq j k then some v else get k d

  -- `d[k] = v`: an old key keeps its place
  unfoldable pub put : Text → V → Dict V → Dict V
  put k v [] = (k, v) ∷ []
  put k v ((j, w) ∷ d) = if text_eq j k then (k, v) ∷ d else (j, w) ∷ put k v d

  -- `del d[k]`, `d.pop(k, None)`
  unfoldable pub erase : Text → Dict V → Dict V
  erase k [] = []
  erase k ((j, w) ∷ d) = let rest = erase k d in if text_eq j k then rest else (j, w) ∷ rest

  pub get-put :
      (k j : Text) (v : V) (d : Dict V)
      → get j (put k v d) ≡ (if text_eq k j then some v else get j d)
  unfolding get put
  get-put k j v [] = refl
  get-put k j v ((i, w) ∷ d) =
      ground (arith, text_eq_iff k j, text_eq_iff i k, text_eq_iff i j, get-put k j v d)

  pub get-put_self : (k : Text) (v : V) (d : Dict V) → get k (put k v d) ≡ some v
  get-put_self k v d = simp (get-put, text_eq_refl)

  pub get-put_ne : (k j : Text) (v : V) (d : Dict V) → k ≢ j → get j (put k v d) ≡ get j d
  get-put_ne k j v d h = ground (arith, get-put k j v d, text_eq_iff k j)

  pub get-erase :
      (k j : Text) (d : Dict V) → get j (erase k d) ≡ (if text_eq k j then none else get j d)
  unfolding get erase
  get-erase k j [] = ground arith
  get-erase k j ((i, w) ∷ d) =
      ground (arith, text_eq_iff k j, text_eq_iff i k, text_eq_iff i j, get-erase k j d)

-- A change of the object that is stored under `k`, if there is one.
module _ {ℓ} {V : Type ℓ} where
  unfoldable pub modify : Text → (V → V) → Dict V → Dict V
  modify k f [] = []
  modify k f ((j, w) ∷ d) = if text_eq j k then (j, f w) ∷ d else (j, w) ∷ modify k f d

  pub get-modify :
      (k j : Text) (f : V → V) (d : Dict V)
      → get j (modify k f d) ≡ (if text_eq k j then Option.map f (get j d) else get j d)
  unfolding get modify
  get-modify k j f [] = ground arith
  get-modify k j f ((i, w) ∷ d) =
      ground (arith, text_eq_iff k j, text_eq_iff i k, text_eq_iff i j, get-modify k j f d)

  pub get-modify_self :
      (k : Text) (f : V → V) (d : Dict V) → get k (modify k f d) ≡ Option.map f (get k d)
  get-modify_self k f d = simp (get-modify, text_eq_refl)

  pub get-modify_ne : (k j : Text) (f : V → V) (d : Dict V) → k ≢ j → get j (modify k f d) ≡ get j d
  get-modify_ne k j f d h = ground (arith, get-modify k j f d, text_eq_iff k j)

-- `list(d.values())` and `list(d.keys())`
abbrev pub values {ℓ} : {V : Type ℓ} → Dict V → List V
values [] = []
values ((k, v) ∷ d) = v ∷ values d

abbrev pub keys {ℓ} : {V : Type ℓ} → Dict V → List Text
keys [] = []
keys ((k, v) ∷ d) = k ∷ keys d

module _ {ℓ κ} {V : Type ℓ} (P : V → Type κ) where
  pub All-put :
      (k : Text) (v : V) (d : Dict V) → P v → All P (values d) → All P (values (put k v d))
  unfolding put
  All-put k v [] p h = (p, tt)
  All-put k v ((j, w) ∷ d) p h = elim (Bool-cases (text_eq j k)) [
    | inl same ↦ rw same (p, h.1)
    | inr other ↦ rw other (h.0, All-put k v d p h.1)
  ]

  pub All-modify :
      (k : Text) (f : V → V) (d : Dict V)
      → ((v : V) → P v → P (f v))
      → All P (values d)
      → All P (values (modify k f d))
  unfolding modify
  All-modify k f [] p h = tt
  All-modify k f ((j, w) ∷ d) p h = elim (Bool-cases (text_eq j k)) [
    | inl same ↦ rw same (p w h.0, h.1)
    | inr other ↦ rw other (h.0, All-modify k f d p h.1)
  ]

  pub All-get : (k : Text) (d : Dict V) (v : V) → All P (values d) → get k d ≡ some v → P v
  unfolding get
  All-get k [] v h e = cc
  All-get k ((j, w) ∷ d) v h e = elim (Bool-cases (text_eq j k)) [
    | inl same ↦ subst P (some-injective _ _ (rw same at e)) h.0
    | inr other ↦ All-get k d v h.1 (rw other at e)
  ]
