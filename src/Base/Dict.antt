-- ===== src/Base/Dict.antt =====
-- Go maps, as association lists. The order of the entries is the order that `range` takes.
use deploykit.Base.Tests.{is_some}
use deploykit.Base.Lists.{length, All}
use mathlib.Core.Path.{◌≡◌, refl, subst}
use mathlib.Core.Logic.{ite}
use mathlib.Core.Bool.{Bool, true}
use mathlib.Core.Option.{Option, none, some}
use mathlib.Core.List.{List, [], ◌∷◌, Memᴰ}
use native.Mathlib.Omega.{arith}

-- Keys have a decidable equality, found by instance search.
pub record Key {ℓ} (K : Type ℓ) : Type ℓ where
  pub dec_eq : Discrete K

abbrev pub Dict {ℓ} : Type ℓ → Type ℓ → Type ℓ
Dict K V = List (K × V)

module _ {ℓ} {K V : Type ℓ} ⦃k : Key K⦄ where
  unfoldable pub lookup : K → Dict K V → Option V
  lookup a [] = none
  lookup a ((b, v) ∷ m) = ite (k.dec_eq b a) (some v) (lookup a m)

  -- `m[a] = v`.
  unfoldable pub insert : K → V → Dict K V → Dict K V
  insert a v [] = (a, v) ∷ []
  insert a v ((b, w) ∷ m) = ite (k.dec_eq b a) ((a, v) ∷ m) ((b, w) ∷ insert a v m)

  -- `delete(m, a)`.
  unfoldable pub erase : K → Dict K V → Dict K V
  erase a [] = []
  erase a ((b, w) ∷ m) = ite (k.dec_eq b a) (erase a m) ((b, w) ∷ erase a m)

  -- `_, has := m[a]`.
  unfoldable pub has : K → Dict K V → Bool
  unfolding lookup
  has a m = is_some (lookup a m)

  pub lookup-insert :
      (a b : K) (v : V) (m : Dict K V)
      → lookup b (insert a v m) ≡ ite (k.dec_eq a b) (some v) (lookup b m)
  unfolding lookup insert
  lookup-insert a b v [] = refl
  lookup-insert a b v ((c, w) ∷ m) = ground (arith, lookup-insert a b v m)

  pub lookup-erase :
      (a b : K) (m : Dict K V) → lookup b (erase a m) ≡ ite (k.dec_eq a b) none (lookup b m)
  unfolding lookup erase
  lookup-erase a b [] = ground arith
  lookup-erase a b ((c, w) ∷ m) = ground (arith, lookup-erase a b m)

  pub has-insert_self : (a : K) (v : V) (m : Dict K V) → has a (insert a v m) ≡ true
  unfolding has
  has-insert_self a v m = ground (arith, lookup-insert a a v m)

  pub has-insert_mono :
      (a b : K) (v : V) (m : Dict K V) → has b m ≡ true → has b (insert a v m) ≡ true
  unfolding has
  has-insert_mono a b v m h = ground (arith, lookup-insert a b v m)

  pub mem-lookup : (a : K) (m : Dict K V) {v : V} → lookup a m ≡ some v → Memᴰ (a, v) m
  unfolding lookup
  mem-lookup a [] e = absurd (cc)
  mem-lookup a ((b, w) ∷ m) e = elim (k.dec_eq b a) [
    | yes p ↦ Memᴰ.head (ground arith)
    | no p ↦ Memᴰ.tail (mem-lookup a m (ground arith))
  ]

  pub has-lookup : (a : K) (m : Dict K V) → has a m ≡ true → (v : V) × (lookup a m ≡ some v)
  unfolding has
  has-lookup a m h = ground arith

  -- Writing to a key that is there keeps the number of entries.
  pub length-insert_old :
      (a : K) (v : V) (m : Dict K V) {w : V}
      → lookup a m ≡ some w
      → length (insert a v m) ≡ length m
  unfolding lookup insert
  length-insert_old a v [] e = absurd (cc)
  length-insert_old a v ((b, c) ∷ m) {w} e = elim (k.dec_eq b a) [
    | yes p ↦ ground arith
    | no p ↦ ground (arith, length-insert_old a v m {w = w})
  ]

-- A predicate of all entries holds of the one that is found.
pub All-lookup {ℓ μ} :
    {K V : Type ℓ} ⦃k : Key K⦄ (P : K × V → Type μ) (a : K) (m : Dict K V) {v : V}
    → All P m
    → lookup a m ≡ some v
    → P (a, v)
unfolding lookup
All-lookup P a [] h e = absurd (cc)
All-lookup ⦃k⦄ P a ((b, w) ∷ m) h e = elim (k.dec_eq b a) [
  | yes p ↦ subst P (ground arith) h.0
  | no p ↦ All-lookup P a m h.1 (ground arith)
]
