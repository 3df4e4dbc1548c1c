-- ===== src/Depends/Order.antt =====
-- OrderByDependency: what it returns is in the order of the dependencies.
use deploykit.Base.{
  ℕ, ◌+◌, ◌≡◌, ◌≢◌, refl, sym, ◌∙◌, ap, ap₂, subst, some, false, List, [], ◌∷◌, ◌++◌, length,
  length-append, get_or, All, arith, map, Bool-cases, Option-cases, inl, inr,
}
use deploykit.Base.Dict.{Dict, lookup, insert, lookup-insert}
use deploykit.Depends.{
  SpecKey, key_dec, spec_key, TypesSpec, key_of, zero_spec, GraphLibrary, IsLawful, Before,
  count_from, is_cycle, Ordered, refused, ordered, ◌>>=◌, index_from, index_specs, value, edges_to,
  edges_of, check_cycles, order_by_dependency,
}
use mathlib.Core.List.{Memᴰ, Permᴰ, append_assoc}
use mathlib.Core.List.Permᴰ

>>=-eq-ordered :
    {A B : Type 0} (r : Ordered A) (rest : A → Ordered B) {out : B}
    → r >>= rest ≡ ordered out
    → (a : A) × (r ≡ ordered a) × (rest a ≡ ordered out)
>>=-eq-ordered (refused e) rest h = absurd (cc)
>>=-eq-ordered (ordered a) rest h = (a, refl, h)

ordered_inj : {A : Type 0} {a b : A} → ordered a ≡ ordered b → a ≡ b
ordered_inj h = cc

module _ (P : SpecKey → ℕ → Type 0) where
  -- The specs of a list, at the places from one on.
  abbrev Placed : ℕ → List TypesSpec → Type 0
  Placed n [] = Unit
  Placed n (s ∷ specs) = P (key_of s) n × Placed (n + 1) specs

  index_from-Placed :
      (n : ℕ) (specs : List TypesSpec) (m : Dict SpecKey ℕ)
      → ((k : SpecKey) (i : ℕ) → lookup k m ≡ some i → P k i)
      → Placed n specs
      → (k : SpecKey) (i : ℕ) → lookup k (index_from n specs m) ≡ some i
      → P k i
  unfolding index_from
  index_from-Placed n [] m old placed k i e = old k i e
  index_from-Placed n (s ∷ specs) m old placed k i e =
      index_from-Placed (n + 1) specs (insert (key_of s) n m) grown placed.1 k i e
    where
      grown : (k : SpecKey) (i : ℕ) → lookup k (insert (key_of s) n m) ≡ some i → P k i
      grown k i e = elim (key_dec (key_of s) k) [
        | yes same ↦
            subst (λ j. P k j) (ground (arith, lookup-insert (key_of s) k n m))
              (subst (λ j. P j n) same placed.0)
        | no other ↦ old k i (ground (arith, lookup-insert (key_of s) k n m))
      ]

get_or-length :
    (front back : List TypesSpec) (s : TypesSpec)
    → get_or (front ++ s ∷ back) (length front) zero_spec ≡ s
get_or-length [] back s = refl
get_or-length (x ∷ front) back s = get_or-length front back s

mem_middle : {A : Type 0} (front back : List A) (x : A) → Memᴰ x (front ++ x ∷ back)
mem_middle [] back x = Memᴰ.head refl
mem_middle (y ∷ front) back x = Memᴰ.tail (mem_middle front back x)

-- What the index says of a node: its value is a spec with the key.
abbrev Names : List TypesSpec → SpecKey → ℕ → Type 0
Names specs k i = Memᴰ (value specs i) specs × (key_of (value specs i) ≡ k)

Placed-Names :
    (specs front back : List TypesSpec) (n : ℕ)
    → front ++ back ≡ specs
    → n ≡ length front
    → Placed (Names specs) n back
Placed-Names specs front [] n e h = tt
Placed-Names specs front (s ∷ back) n e h =
    let here : value specs n ≡ s = rw (h, ← e) (get_or-length front back s) in
    (
      (
        subst (λ xs. Memᴰ (value specs n) xs) e
            (subst (λ x. Memᴰ x (front ++ s ∷ back)) (sym here) (mem_middle front back s)),
        ap key_of here,
      ),
      Placed-Names specs (front ++ s ∷ []) back (n + 1) (append_assoc front (s ∷ []) back ∙ e)
          (ground (arith, length-append front (s ∷ []))),
    )

index_specs-Names :
    (specs : List TypesSpec) (k : SpecKey) (i : ℕ)
    → lookup k (index_specs specs) ≡ some i
    → Names specs k i
unfolding index_specs lookup
index_specs-Names specs =
    index_from-Placed (Names specs) 0 specs [] (λ k i e. absurd (cc))
      (Placed-Names specs [] specs 0 refl refl)

mem-append_left : {A : Type 0} {x : A} (xs ys : List A) → Memᴰ x xs → Memᴰ x (xs ++ ys)
mem-append_left [] ys m = elim m [ ]
mem-append_left (y ∷ xs) ys (Memᴰ.head e) = Memᴰ.head e
mem-append_left (y ∷ xs) ys (Memᴰ.tail m) = Memᴰ.tail (mem-append_left xs ys m)

-- The edge that a dependency of the spec at a node asks for.
abbrev HasEdge : Dict SpecKey ℕ → ℕ → List (ℕ × ℕ) → SpecKey → Type 0
HasEdge index start edges d =
    (to : ℕ) × (lookup d index ≡ some to) × Memᴰ (to, start) edges × (to ≢ start)

-- All edges of the first list are in the second.
abbrev Grown : List (ℕ × ℕ) → List (ℕ × ℕ) → Type 0
Grown edges edges' = (e : ℕ × ℕ) → Memᴰ e edges → Memᴰ e edges'

module _ (specs : List TypesSpec) (index : Dict SpecKey ℕ) where
  edges_to_sound :
      (start : ℕ) (depends : List SpecKey) (edges : List (ℕ × ℕ)) {edges' : List (ℕ × ℕ)}
      → edges_to specs index start depends edges ≡ ordered edges'
      → Grown edges edges' × ((d : SpecKey) → Memᴰ d depends → HasEdge index start edges' d)
  unfolding edges_to
  edges_to_sound start [] edges h = (λ e m. subst (Memᴰ e) (ordered_inj h) m, λ d m. elim m [ ])
  edges_to_sound start (depend ∷ depends) edges {edges'} h =
      elim (Option-cases (lookup depend index)) [
        | inl p ↦ absurd (ground arith)
        | inr (to, p) ↦
            let grown = edges ++ (to, start) ∷ [] in
            let apart : to ≢ start = λ q. absurd (ground arith) in
            let (kept, found) = edges_to_sound start depends grown (ground arith) in
            (
              λ e m. kept e (mem-append_left edges _ m),
              λ d m. elim m [
                | Memᴰ.head same ↦
                    subst (HasEdge index start edges') (sym same)
                      (to, p, kept (to, start) (mem_middle edges [] (to, start)), apart)
                | Memᴰ.tail m' ↦ found d m'
              ],
            )
      ]

  -- The edges that the dependencies of a spec ask for.
  abbrev HasEdges : List (ℕ × ℕ) → TypesSpec → Type 0
  HasEdges edges s =
      (start : ℕ) × (lookup (key_of s) index ≡ some start)
      × ((d : SpecKey) → Memᴰ d s.depends → HasEdge index start edges d)

  HasEdges-Grown :
      (edges edges' : List (ℕ × ℕ)) (s : TypesSpec)
      → Grown edges edges'
      → HasEdges edges s
      → HasEdges edges' s
  HasEdges-Grown edges edges' s more (start, e, found) = (
    start,
    e,
    λ d m. let (to, p, here, apart) = found d m in (to, p, more (to, start) here, apart),
  )

  edges_of_sound :
      (todo : List TypesSpec) (edges : List (ℕ × ℕ)) {out : List (ℕ × ℕ)}
      → edges_of specs index todo edges ≡ ordered out
      → Grown edges out × ((s : TypesSpec) → Memᴰ s todo → HasEdges out s)
  unfolding edges_of
  edges_of_sound [] edges h = (λ e m. subst (Memᴰ e) (ordered_inj h) m, λ s m. elim m [ ])
  edges_of_sound (spec ∷ todo) edges {out} h = elim (Option-cases (lookup (key_of spec) index)) [
    | inl p ↦ absurd (ground arith)
    | inr (start, p) ↦
        let opened : (edges_to specs index start spec.depends edges >>= λ edges'.
        edges_of specs index todo edges')
            ≡ ordered out =
          rw (edges_of, p) at h in
        let (edges', e, h') =
          >>=-eq-ordered (edges_to specs index start spec.depends edges) _ opened in
        let (kept, found) = edges_to_sound start spec.depends edges e in
        let (kept', found') = edges_of_sound todo edges' h' in
        (
          λ x m. kept' x (kept x m),
          λ s m. elim m [
            | Memᴰ.head same ↦
                subst (HasEdges out) (sym same)
                  (HasEdges-Grown edges' out spec kept' (start, p, found))
            | Memᴰ.tail m' ↦ found' s m'
          ],
        )
  ]

check_cycles_sound :
    (specs : List TypesSpec) (components : List (List ℕ))
    → check_cycles specs components ≡ ordered tt
    → All (λ c. is_cycle c ≡ false) components
unfolding check_cycles
check_cycles_sound specs [] h = tt
check_cycles_sound specs (c ∷ components) h = elim (Bool-cases (is_cycle c)) [
  | inl p ↦ absurd (ground arith)
  | inr p ↦ (p, check_cycles_sound specs components (ground arith))
]

map-append : (f : ℕ → TypesSpec) (xs ys : List ℕ) → map f (xs ++ ys) ≡ map f xs ++ map f ys
map-append f [] ys = refl
map-append f (x ∷ xs) ys = ap (◌∷◌ (f x)) (map-append f xs ys)

mem-map : (f : ℕ → TypesSpec) (x : ℕ) (xs : List ℕ) → Memᴰ x xs → Memᴰ (f x) (map f xs)
mem-map f x [] m = elim m [ ]
mem-map f x (y ∷ xs) (Memᴰ.head e) = Memᴰ.head (ap f e)
mem-map f x (y ∷ xs) (Memᴰ.tail m) = Memᴰ.tail (mem-map f x xs m)

Before-map :
    (f : ℕ → TypesSpec) (x y : ℕ) (list : List ℕ)
    → Before x y list
    → Before (f x) (f y) (map f list)
Before-map f x y list (front, back, e, m) =
    (map f front, map f back, ap (map f) e ∙ map-append f front (x ∷ back), mem-map f y back m)

-- The values of the nodes, in the order in which they were made, are the specs.
values_lem :
    (specs front back : List TypesSpec) (n : ℕ)
    → front ++ back ≡ specs
    → n ≡ length front
    → map (value specs) (count_from n (length back)) ≡ back
values_lem specs front [] n e h = refl
values_lem specs front (s ∷ back) n e h = ap₂ ◌∷◌ (rw (h, ← e) (get_or-length front back s)) (
    values_lem specs (front ++ s ∷ []) back (n + 1) (append_assoc front (s ∷ []) back ∙ e)
      (ground (arith, length-append front (s ∷ []))))

-- Over a graph package whose topological sort keeps its promises, and for specs of which
-- different ones differ in their kind or name, what OrderByDependency returns without an error
-- is a permutation of the specs that it was given, and each dependency of a spec is the kind and
-- name of a spec that stands before it.
pub order_by_dependency_lem :
    (G : GraphLibrary) (specs : List TypesSpec) {out : List TypesSpec}
    → IsLawful G
    → ((s t : TypesSpec) → Memᴰ s specs → Memᴰ t specs → key_of s ≡ key_of t → s ≡ t)
    → order_by_dependency G specs ≡ ordered out
    → Permᴰ out specs
      × ((s : TypesSpec) (d : SpecKey)
          → Memᴰ s specs
          → Memᴰ d s.depends
          → (t : TypesSpec) × Memᴰ t specs × (key_of t ≡ d) × Before t s out)
unfolding order_by_dependency
order_by_dependency_lem G specs {out} law one h =
    let (edges, e, h₁) = >>=-eq-ordered (edges_of specs (index_specs specs) specs []) _ h in
    let (u, c, h₂) = >>=-eq-ordered (check_cycles specs (G.components (length specs) edges)) _ h₁ in
    let single = check_cycles_sound specs _ c in
    let nodes = G.sort (length specs) edges in
    let same : map (value specs) nodes ≡ out = ordered_inj h₂ in
    let (kept, found) = edges_of_sound specs (index_specs specs) specs [] e in
    let listed : Permᴰ (map (value specs) nodes) specs =
      subst (Permᴰ (map (value specs) nodes)) (values_lem specs [] specs 0 refl refl)
        (Permᴰ.map (value specs) (law.sort-Permᴰ (length specs) edges single)) in
    (
      subst (λ xs. Permᴰ xs specs) same listed,
      λ s d m n.
          let (start, at, deps) = found s m in
          let (to, there, edge, apart) = deps d n in
          let (mem_s, key_s) = index_specs-Names specs (key_of s) start at in
          let (mem_t, key_t) = index_specs-Names specs d to there in
          let itself : value specs start ≡ s = one (value specs start) s mem_s m key_s in
          let before =
            Before-map (value specs) to start nodes
              (law.sort-Before (length specs) edges to start single edge apart) in
          (
            value specs to,
            mem_t,
            key_t,
            subst (λ x. Before (value specs to) x out) itself
                (subst (λ xs. Before (value specs to) (value specs start) xs) same before),
          ),
    )
