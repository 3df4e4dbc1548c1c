-- ===== src/Manager/Stored.antt =====
-- What is stored is what is loaded again.
use deploykit.Base.{◌≡◌, refl, sym, some, List, [], ◌∷◌, Option-cases, inl, inr, arith}
use deploykit.Base.Dict.{lookup, insert, lookup-insert}
use deploykit.Group.Types.{reply}
use deploykit.Depends.{spec_key}
use deploykit.Manager.{GlobalSpec, Entry, StoredKey, StoredRecord, Snapshot, IsRange, load_from}
use mathlib.Core.List.{Memᴰ}

-- A store that was written answers what was written, and is not changed by being read.
pub record IsSnapshot {W : Type 0} (S : Snapshot W) : Type 0 where
  pub load-save :
      (entries : List Entry) (w w' : W)
      → S.save entries w ≡ (reply tt, w')
      → S.load w' ≡ (reply entries, w')

-- The entries are entries of an index.
abbrev Agrees : GlobalSpec → List Entry → Type 0
Agrees g entries = (k : StoredKey) (r : StoredRecord) → Memᴰ (k, r) entries → lookup k g ≡ some r

load_from-keeps :
    (g a : GlobalSpec) (entries : List Entry) (k : StoredKey)
    → Agrees g entries
    → lookup k a ≡ lookup k g
    → lookup k (load_from a entries) ≡ lookup k g
unfolding load_from
load_from-keeps g a [] k h e = e
load_from-keeps g a ((j, r) ∷ entries) k h e =
    load_from-keeps g (insert j r a) entries k (λ j' r' m. h j' r' (Memᴰ.tail m))
      (ground (arith, lookup-insert j k r a, h j r (Memᴰ.head refl)))

load_from-finds :
    (g a : GlobalSpec) (entries : List Entry) (k : StoredKey) (r : StoredRecord)
    → Agrees g entries
    → Memᴰ (k, r) entries
    → lookup k (load_from a entries) ≡ lookup k g
unfolding load_from
load_from-finds g a [] k r h m = elim m [ ]
load_from-finds g a ((j, s) ∷ entries) k r h m = elim m [
  | Memᴰ.head e ↦
      load_from-keeps g (insert j s a) entries k (λ j' r' m'. h j' r' (Memᴰ.tail m'))
        (ground (arith, lookup-insert j k s a, h j s (Memᴰ.head refl)))
  | Memᴰ.tail m' ↦
      load_from-finds g (insert j s a) entries k r (λ j' r' m''. h j' r' (Memᴰ.tail m'')) m'
]

pub load_from-range :
    (range : GlobalSpec → List Entry)
    → IsRange range
    → (g : GlobalSpec) (k : StoredKey) → lookup k (load_from [] (range g)) ≡ lookup k g
unfolding lookup
load_from-range range h g k = elim (Option-cases (lookup k g)) [
  | inl e ↦ load_from-keeps g [] (range g) k (λ j r. (h g j r).0) (sym e)
  | inr (r, e) ↦ load_from-finds g [] (range g) k r (λ j s. (h g j s).0) ((h g k r).1 e)
]
