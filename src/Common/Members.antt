-- ===== src/Common/Members.antt =====
-- The elements of a list, and lists in order.
use mathlib.Core.List.{List, [], ◌∷◌, map, Memᴰ}
use mathlib.Core.List.Memᴰ
use mathlib.Core.Bool.{Bool, true}
use mathlib.Core.Logic.{inl, inr}
use mathlib.Core.Path.{◌≡◌, refl, sym, ap, ◌∙◌, subst}
use stock_statistic.Common.Tests.{Bool-cases}
use stock_statistic.Common.Lists.{All, filter}

abbrev pub Pairwise {ℓ κ} : {A : Type ℓ} → (A → A → Type κ) → List A → Type κ
Pairwise R [] = Unit
Pairwise R (x ∷ xs) = All (R x) xs × Pairwise R xs

module _ {ℓ} {A : Type ℓ} where
  pub All-mem {κ} : (P : A → Type κ) {x : A} {xs : List A} → All P xs → Memᴰ x xs → P x
  All-mem P h (Memᴰ.head e) = subst P (sym e) h.0
  All-mem P h (Memᴰ.tail m) = All-mem P h.1 m

  pub mem-map {κ} :
      {B : Type κ} (f : A → B) {x : A} {xs : List A} → Memᴰ x xs → Memᴰ (f x) (map f xs)
  mem-map f (Memᴰ.head e) = Memᴰ.head (ap f e)
  mem-map f (Memᴰ.tail m) = Memᴰ.tail (mem-map f m)

  pub mem_of_map {κ} :
      {B : Type κ} (f : A → B) {b : B} (xs : List A)
      → Memᴰ b (map f xs)
      → (x : A) × Memᴰ x xs × (b ≡ f x)
  mem_of_map f [] m = absurd (Memᴰ.not-nil m)
  mem_of_map f (x ∷ xs) (Memᴰ.head e) = (x, Memᴰ.head refl, e)
  mem_of_map f (x ∷ xs) (Memᴰ.tail m) =
      let (y, there, e) = mem_of_map f xs m in (y, Memᴰ.tail there, e)

  pub mem-filter :
      (p : A → Bool) {x : A} {xs : List A} → Memᴰ x xs → p x ≡ true → Memᴰ x (filter p xs)
  mem-filter p {xs = []} m h = absurd (Memᴰ.not-nil m)
  mem-filter p {xs = y ∷ xs} (Memᴰ.head e) h = rw (rw e at h) (Memᴰ.head e)
  mem-filter p {xs = y ∷ xs} (Memᴰ.tail m) h = elim (Bool-cases (p y)) [
    | inl keep ↦ rw keep (Memᴰ.tail (mem-filter p m h))
    | inr skip ↦ rw skip (mem-filter p m h)
  ]

  pub mem_of_filter :
      (p : A → Bool) {x : A} (xs : List A) → Memᴰ x (filter p xs) → Memᴰ x xs × (p x ≡ true)
  mem_of_filter p [] m = absurd (Memᴰ.not-nil m)
  mem_of_filter p {x} (y ∷ xs) m = elim (Bool-cases (p y)) [
    | inl keep ↦ elim (Memᴰ.cases_cons (rw keep at m)) [
      | inl same ↦ (Memᴰ.head same, ap p same ∙ keep)
      | inr later ↦ let (there, h) = mem_of_filter p xs later in (Memᴰ.tail there, h)
    ]
    | inr skip ↦ let (there, h) = mem_of_filter p xs (rw skip at m) in (Memᴰ.tail there, h)
  ]

  pub All-filter {κ} :
      (P : A → Type κ) (p : A → Bool) (xs : List A) → All P xs → All P (filter p xs)
  All-filter P p [] h = tt
  All-filter P p (x ∷ xs) h = elim (Bool-cases (p x)) [
    | inl keep ↦ rw keep (h.0, All-filter P p xs h.1)
    | inr skip ↦ rw skip (All-filter P p xs h.1)
  ]

  pub Pairwise-filter {κ} :
      (R : A → A → Type κ) (p : A → Bool) (xs : List A) → Pairwise R xs → Pairwise R (filter p xs)
  Pairwise-filter R p [] h = tt
  Pairwise-filter R p (x ∷ xs) h = elim (Bool-cases (p x)) [
    | inl keep ↦ rw keep (All-filter (R x) p xs h.0, Pairwise-filter R p xs h.1)
    | inr skip ↦ rw skip (Pairwise-filter R p xs h.1)
  ]
