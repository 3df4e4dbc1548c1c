-- ===== src/Manager/Order.antt =====
-- The order of a visit.
use Prim.Native.String.{String}
use deploykit.Base.{
  ℕ, ◌≡◌, refl, ap, ◌↔◌, Bool, true, false, List, [], ◌∷◌, ltb, ◌==◌, if◌then◌else◌, Bool-cases,
  inl, inr, Option-cases, arith, All,
}
use deploykit.Base.Dict.{lookup, has}
use deploykit.Group.Text.{lt_str, lt_str_asymm, lt_str_cotrans}
use deploykit.Depends.{spec_key}
use deploykit.Manager.{
  GlobalSpec, Entry, StoredKey, StoredRecord, IsRange, kind_rank, less, insert_key, sort_keys,
  ordered_keys,
}
use mathlib.Core.List.{Memᴰ}

-- No key stands behind one that it is less than.
abbrev pub Ordered : List StoredKey → Type 0
Ordered [] = Unit {0}
Ordered (k ∷ keys) = All (λ j. less j k ≡ false) keys × Ordered keys

-- The order by a rank, and by a name where the ranks are the same.
abbrev by_rank : ℕ → String → ℕ → String → Bool
by_rank a l b m = if a == b then lt_str l m else ltb a b

by_rank_asymm : (a b : ℕ) (l m : String) → by_rank a l b m ≡ true → by_rank b m a l ≡ false
by_rank_asymm a b l m h = ground (arith, lt_str_asymm l m)

by_rank_trans :
    (a b c : ℕ) (l m n : String)
    → by_rank a l b m ≡ false
    → by_rank b m c n ≡ false
    → by_rank a l c n ≡ false
by_rank_trans a b c l m n h h' = ground (arith, lt_str_cotrans l m n)

less_asymm : (j k : StoredKey) → less j k ≡ true → less k j ≡ false
less_asymm (a, m) (b, n) h = by_rank_asymm (kind_rank a) (kind_rank b) m n h

less_trans : (i j k : StoredKey) → less i j ≡ false → less j k ≡ false → less i k ≡ false
less_trans (a, l) (b, m) (c, n) h h' =
    by_rank_trans (kind_rank a) (kind_rank b) (kind_rank c) l m n h h'

All-insert_key :
    (P : StoredKey → Type 0) (k : StoredKey) (keys : List StoredKey)
    → P k
    → All P keys
    → All P (insert_key k keys)
unfolding insert_key
All-insert_key P k [] h hs = (h, tt)
All-insert_key P k (j ∷ keys) h hs = elim (Bool-cases (less j k)) [
  | inl p ↦ rw (insert_key, p) (hs.0, All-insert_key P k keys h hs.1)
  | inr p ↦ rw (insert_key, p) (h, hs)
]

behind :
    (j k : StoredKey) (keys : List StoredKey)
    → less j k ≡ false
    → All (λ i. less i j ≡ false) keys
    → All (λ i. less i k ≡ false) keys
behind j k [] h hs = tt
behind j k (i ∷ keys) h hs = (less_trans i j k hs.0 h, behind j k keys h hs.1)

insert_key-Ordered :
    (k : StoredKey) (keys : List StoredKey) → Ordered keys → Ordered (insert_key k keys)
unfolding insert_key
insert_key-Ordered k [] h = (tt, tt)
insert_key-Ordered k (j ∷ keys) h = elim (Bool-cases (less j k)) [
  | inl p ↦
      rw (insert_key, p)
        (
          All-insert_key (λ i. less i j ≡ false) k keys (less_asymm j k p) h.0,
          insert_key-Ordered k keys h.1,
        )
  | inr p ↦ rw (insert_key, p) ((p, behind j k keys p h.0), h)
]

sort_keys-Ordered : (entries : List Entry) → Ordered (sort_keys entries)
unfolding sort_keys
sort_keys-Ordered [] = tt
sort_keys-Ordered ((k, r) ∷ entries) =
    insert_key-Ordered k (sort_keys entries) (sort_keys-Ordered entries)

-- The keys that the sort keeps.
mem-insert_key :
    (i k : StoredKey) (keys : List StoredKey) → Memᴰ i (insert_key k keys) ↔ Memᴰ i (k ∷ keys)
unfolding insert_key
mem-insert_key i k [] = (λ m. m, λ m. m)
mem-insert_key i k (j ∷ keys) = elim (Bool-cases (less j k)) [
  | inl p ↦
      rw (insert_key, p)
        (
          λ m. elim m [
            | Memᴰ.head e ↦ Memᴰ.tail (Memᴰ.head e)
            | Memᴰ.tail m' ↦ elim ((mem-insert_key i k keys).0 m') [
              | Memᴰ.head e ↦ Memᴰ.head e
              | Memᴰ.tail n ↦ Memᴰ.tail (Memᴰ.tail n)
            ]
          ],
          λ m. elim m [
            | Memᴰ.head e ↦ Memᴰ.tail ((mem-insert_key i k keys).1 (Memᴰ.head e))
            | Memᴰ.tail m' ↦ elim m' [
              | Memᴰ.head e ↦ Memᴰ.head e
              | Memᴰ.tail n ↦ Memᴰ.tail ((mem-insert_key i k keys).1 (Memᴰ.tail n))
            ]
          ],
        )
  | inr p ↦ rw (insert_key, p) (λ m. m, λ m. m)
]

mem-sort_keys :
    (i : StoredKey) (entries : List Entry)
    → Memᴰ i (sort_keys entries) ↔ ((r : StoredRecord) × Memᴰ (i, r) entries)
unfolding sort_keys
mem-sort_keys i [] = (λ m. absurd (elim m [ ]), λ x. absurd (elim x.1 [ ]))
mem-sort_keys i ((k, s) ∷ entries) = (
  λ m. elim ((mem-insert_key i k (sort_keys entries)).0 m) [
    | Memᴰ.head e ↦ (s, Memᴰ.head (ap (λ j. (j, s)) e))
    | Memᴰ.tail n ↦ let found = (mem-sort_keys i entries).0 n in (found.0, Memᴰ.tail found.1)
  ],
  λ x. (mem-insert_key i k (sort_keys entries)).1 (elim x.1 [
    | Memᴰ.head e ↦ Memᴰ.head (ap (λ p. p.0) e)
    | Memᴰ.tail n ↦ Memᴰ.tail ((mem-sort_keys i entries).1 (x.0, n))
  ]),
)

-- However the index is ranged over, the visited keys are those of the index, and none stands
-- behind one that it is less than: groups come after all kinds but load balancers and
-- enrollments, load balancers after groups, enrollments last, and names in their order within a
-- rank.
pub ordered_keys_lem :
    (range : GlobalSpec → List Entry) (g : GlobalSpec)
    → IsRange range
    → Ordered (ordered_keys range g)
      × ((k : StoredKey) → Memᴰ k (ordered_keys range g) ↔ (has k g ≡ true))
unfolding ordered_keys has
ordered_keys_lem range g ranges = (
  sort_keys-Ordered (range g),
  λ k. (
    λ m. let found = (mem-sort_keys k (range g)).0 m in rw ((ranges g k found.0).0 found.1) refl,
    λ h. elim (Option-cases (lookup k g)) [
      | inl e ↦ absurd (ground arith)
      | inr (r, e) ↦ (mem-sort_keys k (range g)).1 (r, (ranges g k r).1 e)
    ],
  ),
)
