-- ===== src/Depends.antt =====
-- pkg/types/depend.go: the order in which specs that depend on each other are taken.
pub mod Order
mod Tests
use Prim.Native.String.{String}
use deploykit.Base.{
  ℕ, zero, suc, ◌+◌, ◌≡◌, ◌≢◌, none, some, Bool, false, List, [], ◌∷◌, ◌++◌, length, get_or, All,
  if◌then◌else◌, ltb, map, ◌==◌,
}
use deploykit.Base.Dict.{Key, Dict, lookup, insert}
use deploykit.Group.Text.{string_dec}
use mathlib.Core.List.{Memᴰ, Permᴰ}

-- `specKey`, and a `Dependency` by what names its spec.
abbrev pub SpecKey : Type 0
SpecKey = String × String

unfoldable pub key_dec : Discrete SpecKey
unfolding string_dec
key_dec (a, b) (c, d) = elim (string_dec a c) [
  | yes p ↦ elim (string_dec b d) [
    | yes q ↦ yes (λ i. (p i, q i))
    | no nq ↦ no (λ e. nq (λ i. (e i).1))
  ]
  | no np ↦ no (λ e. np (λ i. (e i).0))
]

instance abbrev pub spec_key : Key SpecKey
spec_key = record { dec_eq = key_dec }

-- The fields of `types.Spec` that the order reads.
pub record TypesSpec : Type 0 where
  pub kind : String
  pub name : String
  pub depends : List SpecKey

abbrev pub key_of : TypesSpec → SpecKey
key_of spec = (spec.kind, spec.name)

abbrev pub zero_spec : TypesSpec
zero_spec = record { kind = ""; name = ""; depends = [] }

-- What the code uses of the graph package. A node is the place at which it was made.
pub record GraphLibrary : Type 0 where
  pub components : ℕ → List (ℕ × ℕ) → List (List ℕ)
  pub sort : ℕ → List (ℕ × ℕ) → List ℕ

-- The numbers from one on.
abbrev pub count_from : ℕ → ℕ → List ℕ
count_from i zero = []
count_from i (suc n) = i ∷ count_from (i + 1) n

-- An entry stands before another in a list.
abbrev pub Before {ℓ} : {A : Type ℓ} → A → A → List A → Type ℓ
Before {A = A} x y list =
    (front : List A) × (back : List A) × (list ≡ front ++ x ∷ back) × Memᴰ y back

-- `len(connected) > 1`.
abbrev pub is_cycle : List ℕ → Bool
is_cycle nodes = ltb 1 (length nodes)

-- What the package documents of the topological sort, for a graph without an edge from a node to itself:
-- where every strongly connected component is a single node, it lists each node once, and each edge's
-- start before its end.
pub record IsLawful (G : GraphLibrary) : Type 0 where
  pub sort-Permᴰ :
      (n : ℕ) (edges : List (ℕ × ℕ))
      → All (λ c. is_cycle c ≡ false) (G.components n edges)
      → Permᴰ (G.sort n edges) (count_from 0 n)
  pub sort-Before :
      (n : ℕ) (edges : List (ℕ × ℕ)) (a b : ℕ)
      → All (λ c. is_cycle c ≡ false) (G.components n edges)
      → Memᴰ (a, b) edges
      → a ≢ b
      → Before a b (G.sort n edges)

-- The errors, each with what its message names.
pub data OrderError : Type 0 where
  not_found bad_dependency : SpecKey → OrderError
  circular : List TypesSpec → OrderError

pub data Ordered (A : Type 0) : Type 0 where
  refused : OrderError → Ordered A
  ordered : A → Ordered A

infixl 5 ◌>>=◌
abbrev pub ◌>>=◌ : {A B : Type 0} → Ordered A → (A → Ordered B) → Ordered B
refused e >>= rest = refused e
ordered a >>= rest = rest a

-- `indexSpecs`: the node of each spec, under its key.
unfoldable pub index_from : ℕ → List TypesSpec → Dict SpecKey ℕ → Dict SpecKey ℕ
index_from n [] index = index
index_from n (spec ∷ specs) index = index_from (n + 1) specs (insert (key_of spec) n index)

unfoldable pub index_specs : List TypesSpec → Dict SpecKey ℕ
unfolding index_from
index_specs specs = index_from 0 specs []

module _ (specs : List TypesSpec) where
  -- The spec that is the value of a node.
  abbrev pub value : ℕ → TypesSpec
  value node = get_or specs node zero_spec

  -- The loop over the dependencies of a spec: an edge to it from each.
  unfoldable pub edges_to :
      Dict SpecKey ℕ → ℕ → List SpecKey → List (ℕ × ℕ) → Ordered (List (ℕ × ℕ))
  edges_to index start [] edges = ordered edges
  edges_to index start (depend ∷ depends) edges = elim (lookup depend index) [
    | none ↦ refused (bad_dependency depend)
    | some to ↦
        let more = edges_to index start depends (edges ++ (to, start) ∷ []) in
        if start == to then refused (circular (value start ∷ value to ∷ [])) else more
  ]

  -- The loop over the specs.
  unfoldable pub edges_of : Dict SpecKey ℕ → List TypesSpec → List (ℕ × ℕ) → Ordered (List (ℕ × ℕ))
  unfolding edges_to
  edges_of index [] edges = ordered edges
  edges_of index (spec ∷ more) edges = elim (lookup (key_of spec) index) [
    | none ↦ refused (not_found (key_of spec))
    | some start ↦ edges_to index start spec.depends edges >>= λ edges'. edges_of index more edges'
  ]

  -- The detection of cycles.
  unfoldable pub check_cycles : List (List ℕ) → Ordered (Unit {0})
  check_cycles [] = ordered tt
  check_cycles (connected ∷ more) =
      let rest = check_cycles more in
      if is_cycle connected then refused (circular (map value connected)) else rest

-- `OrderByDependency`.
unfoldable pub order_by_dependency : GraphLibrary → List TypesSpec → Ordered (List TypesSpec)
unfolding index_specs edges_of check_cycles
order_by_dependency G specs = edges_of specs (index_specs specs) specs [] >>= λ edges.
    check_cycles specs (G.components (length specs) edges) >>= λ u.
    ordered (map (value specs) (G.sort (length specs) edges))
