-- ===== src/Depends/Tests.antt =====
-- Specs in and out of order, and the theorem at a graph package that takes ascending edges.
use Prim.Native.String.{String}
use text.Mathlib.TextEquality.{eq_iff}
use mathlib.Core.List.{Memᴰ, Permᴰ}
use mathlib.Core.List.Permᴰ
use deploykit.Base.{
  ℕ_discrete, ℕ, zero, suc, ◌+◌, ◌≤◌, ◌<◌, ◌≡◌, inl, inr, refl, sym, ◌∙◌, ap, true, Bool,
  Bool-cases, List, [], ◌∷◌, ◌&&◌, arith, if◌then◌else◌, ltb,
}
use deploykit.Base.Dict.{lookup, insert}
use deploykit.Depends.{
  SpecKey, TypesSpec, key_of, GraphLibrary, IsLawful, Before, count_from, bad_dependency, circular,
  refused, ordered, order_by_dependency, key_dec,
}
use deploykit.Depends.Order.{order_by_dependency_lem}

abbrev ascends : ℕ → List (ℕ × ℕ) → Bool
ascends n [] = true
ascends n ((a, b) ∷ edges) = ltb a b && ltb b n && ascends n edges

-- It calls every other graph a cycle of its first two nodes.
abbrev ascending : GraphLibrary
ascending = record {
  components = λ n edges. if ascends n edges then [] else ((0 ∷ 1 ∷ []) ∷ []);
  sort = λ n edges. count_from 0 n;
}

edge_ascends :
    (n a b : ℕ) (edges : List (ℕ × ℕ))
    → ascends n edges ≡ true
    → Memᴰ (a, b) edges
    → (a < b) × (b < n)
edge_ascends n a b [] h m = elim m [ ]
edge_ascends n a b ((c, d) ∷ edges) h (Memᴰ.head e) =
    let first : a ≡ c = ap (λ (x : ℕ × ℕ). x.0) e in
    let second : b ≡ d = ap (λ (x : ℕ × ℕ). x.1) e in ground arith
edge_ascends n a b ((c, d) ∷ edges) h (Memᴰ.tail m) = edge_ascends n a b edges (ground arith) m

mem-count_from : (i n b : ℕ) → i ≤ b → b < i + n → Memᴰ b (count_from i n)
mem-count_from i zero b h k = absurd (ground arith)
mem-count_from i (suc n) b h k = elim (ℕ_discrete b i) [
  | yes e ↦ Memᴰ.head e
  | no ne ↦ Memᴰ.tail (mem-count_from (i + 1) n b (ground arith) (ground arith))
]

Before-count_from : (i n a b : ℕ) → i ≤ a → a < b → b < i + n → Before a b (count_from i n)
Before-count_from i zero a b h k l = absurd (ground arith)
Before-count_from i (suc n) a b h k l = elim (ℕ_discrete i a) [
  | yes e ↦ (
    [],
    count_from (i + 1) n,
    ap (λ j. j ∷ count_from (i + 1) n) e,
    mem-count_from (i + 1) n b (ground arith) (ground arith),
  )
  | no ne ↦
      let (front, back, e, m) = Before-count_from (i + 1) n a b (ground arith) k (ground arith) in
      (i ∷ front, back, ap (◌∷◌ i) e, m)
]

ascending-IsLawful : IsLawful ascending
ascending-IsLawful = record {
  sort-Permᴰ = λ n edges h. Permᴰ.refl (count_from 0 n);
  sort-Before = λ n edges a b h m ne. elim (Bool-cases (ascends n edges)) [
    | inl p ↦
        let (less, below) = edge_ascends n a b edges p m in
        Before-count_from 0 n a b (ground arith) less (ground arith)
    | inr p ↦ absurd (ground arith)
  ];
}

abbrev net : TypesSpec
net = record { kind = "network"; name = "net1"; depends = [] }

abbrev vm : TypesSpec
vm = record { kind = "instance"; name = "vm1"; depends = ("network", "net1") ∷ [] }

in_order : order_by_dependency ascending (net ∷ vm ∷ []) ≡ ordered (net ∷ vm ∷ [])
unfolding order_by_dependency insert lookup key_dec
in_order = refl

unknown : order_by_dependency ascending (vm ∷ []) ≡ refused (bad_dependency ("network", "net1"))
unfolding order_by_dependency insert lookup key_dec
unknown = refl

itself : TypesSpec
itself = record net { depends = ("network", "net1") ∷ [] }

on_itself : order_by_dependency ascending (itself ∷ []) ≡ refused (circular (itself ∷ itself ∷ []))
unfolding order_by_dependency insert lookup key_dec itself
on_itself = refl

kinds : ◌≡◌ {A = String} "network" "instance" → ⊥
kinds x = absurd (cc ((eq_iff "network" "instance").1 x))

apart :
    (s t : TypesSpec)
    → Memᴰ s (net ∷ vm ∷ [])
    → Memᴰ t (net ∷ vm ∷ [])
    → key_of s ≡ key_of t
    → s ≡ t
apart s t (Memᴰ.head p) (Memᴰ.head q) h = p ∙ sym q
apart s t (Memᴰ.head p) (Memᴰ.tail (Memᴰ.head q)) h = absurd (
    kinds (
      sym (ap (λ (x : TypesSpec). x.kind) p)
      ∙ (ap (λ (x : SpecKey). x.0) h ∙ ap (λ (x : TypesSpec). x.kind) q)))
apart s t (Memᴰ.head p) (Memᴰ.tail (Memᴰ.tail m)) h = elim m [ ]
apart s t (Memᴰ.tail (Memᴰ.head p)) (Memᴰ.head q) h = absurd (
    kinds (
      sym (ap (λ (x : TypesSpec). x.kind) q)
      ∙ (sym (ap (λ (x : SpecKey). x.0) h) ∙ ap (λ (x : TypesSpec). x.kind) p)))
apart s t (Memᴰ.tail (Memᴰ.head p)) (Memᴰ.tail (Memᴰ.head q)) h = p ∙ sym q
apart s t (Memᴰ.tail (Memᴰ.head p)) (Memᴰ.tail (Memᴰ.tail m)) h = elim m [ ]
apart s t (Memᴰ.tail (Memᴰ.tail m)) n h = elim m [ ]

order_by_dependency_lem_example :
    Permᴰ (net ∷ vm ∷ []) (net ∷ vm ∷ [])
    × ((s : TypesSpec) (d : SpecKey)
        → Memᴰ s (net ∷ vm ∷ [])
        → Memᴰ d s.depends
        → (t : TypesSpec) × Memᴰ t (net ∷ vm ∷ []) × (key_of t ≡ d) × Before t s (net ∷ vm ∷ []))
order_by_dependency_lem_example =
    order_by_dependency_lem ascending (net ∷ vm ∷ []) ascending-IsLawful apart in_order
