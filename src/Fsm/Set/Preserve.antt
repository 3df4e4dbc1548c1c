-- ===== src/Fsm/Set/Preserve.antt =====
-- The handlers of events, additions and deletions keep the invariant.
use deploykit.Base.{
  ℕ, ◌<◌, ◌≡◌, refl, sym, ap, subst, ◌∙◌, Option, none, some, true, List, length, ◌&&◌,
  if◌then◌else◌, ◌==◌, get_elem?, arith, get_elem?-map, get_elem?-lt, Bool-cases, inl, inr,
  Option-cases, is_some,
}
use deploykit.Base.Int.{pos, ltb_ℤ, eqb_ℤ}
use deploykit.Base.Dict.{Dict, lookup, insert, erase, lookup-insert}
use deploykit.Fsm.Types.{Index, InstanceId, Err, Result, ok, err, index_key, id_key, Limit}
use deploykit.Fsm.Spec.{visit}
use deploykit.Fsm.Queue.{Instance, Ref}
use deploykit.Fsm.Set.{FsmSet, Outcome, fault, done, raise, file_under, unfile, visits_of}
use deploykit.Fsm.Set.Handlers.{process_visit_limit, land_after}
use deploykit.Fsm.Set.Registry.{Face, move-IsIndexed}
use deploykit.Fsm.Set.Invariant.{
  SetInv, SetInv-channels, Keeps, Sends, raise-Sends, face, faces, Deadline,
}

-- The lookups of `bystate` that succeed still do.
pub is_some-file_under :
    (state i : Index) (id : InstanceId) (r : Ref) (b b' : Dict Index (Dict InstanceId Ref))
    → file_under state id r b ≡ some b'
    → is_some (lookup i b) ≡ true
    → is_some (lookup i b') ≡ true
unfolding file_under
is_some-file_under state i id r b b' h p = elim (Option-cases (lookup state b)) [
  | inl e ↦ absurd (ground arith)
  | inr (m, e) ↦
      let made : b' ≡ insert state (insert id r m) b = ground arith in
      rw made (ground (arith, lookup-insert state i (insert id r m) b))
]

pub is_some-unfile :
    (state i : Index) (id : InstanceId) (b : Dict Index (Dict InstanceId Ref))
    → is_some (lookup i b) ≡ true
    → is_some (lookup i (unfile state id b)) ≡ true
unfolding unfile
is_some-unfile state i id b p = elim (Option-cases (lookup state b)) [
  | inl e ↦ ground arith
  | inr (m, e) ↦ ground (arith, lookup-insert state i (erase id m) b)
]

-- A map that is there can be written.
pub file_under-total :
    (state : Index) (id : InstanceId) (r : Ref) (b : Dict Index (Dict InstanceId Ref))
    → is_some (lookup state b) ≡ true
    → (b' : Dict Index (Dict InstanceId Ref)) × (file_under state id r b ≡ some b')
unfolding file_under
file_under-total state id r b h = elim (Option-cases (lookup state b)) [
  | inl e ↦ absurd (ground arith)
  | inr (m, e) ↦ (insert state (insert id r m) b, ground arith)
]

pub store_of_face :
    (st : List Instance) (r : Ref) {x : Face}
    → get_elem? (faces st) r ≡ some x
    → (i : Instance) × (get_elem? st r ≡ some i)
store_of_face st r e = elim (Option-cases (get_elem? st r)) [
  | inl f ↦ absurd (ground (arith, get_elem?-map face st r))
  | inr (i, f) ↦ (i, f)
]

pub lt_of_face :
    (st : List Instance) (r : Ref) {x : Face} → get_elem? (faces st) r ≡ some x → r < length st
lt_of_face st r e = let (i, f) = store_of_face st r e in get_elem?-lt st r f

if_self : (r : ℕ) {A : Type 0} (x y : A) → (if r == r then x else y) ≡ x
if_self r x y = ground arith

pub raise_then :
    {s : FsmSet} (o : Outcome FsmSet)
    → SetInv s
    → Sends s o
    → Keeps SetInv (elim o [ fault f ↦ fault f | done s' ↦ done (s', none) ])
raise_then (fault f) v h = h
raise_then {s} (done s') v h =
    subst SetInv (sym h) (SetInv-channels (record s { transactions = s'.transactions }) refl v)

process_visit_limit-SetInv :
    (s : FsmSet) (r : Ref) (i : Instance) (state : Index)
    → SetInv s
    → Keeps SetInv (process_visit_limit s r i state)
unfolding process_visit_limit
process_visit_limit-SetInv s r i state v = go (visit s.spec state)
  where
    go :
        (x : Result (Option Limit))
        → Keeps SetInv (elim x [
          | err e ↦ done (s, some e)
          | ok none ↦ done (s, none)
          | ok (some limit) ↦
              if ltb_ℤ (pos 0) limit.value && eqb_ℤ (visits_of (lookup state i.visits)) limit.value
              then elim (raise s i.id limit.raise) [ fault f ↦ fault f | done s' ↦ done (s', none) ]
              else done (s, none)
        ])
    go (err e) = v
    go (ok none) = v
    go (ok (some limit)) =
        elim (Bool-cases
          (ltb_ℤ (pos 0) limit.value && eqb_ℤ (visits_of (lookup state i.visits)) limit.value)) [
            | inl p ↦
                rw p (raise_then (raise s i.id limit.raise) v (raise-Sends s i.id limit.raise))
            | inr p ↦ rw p v
          ]

pub land_after-SetInv :
    (s : FsmSet) (r : Ref) (id : InstanceId) (current next : Index) (p : FsmSet × Option Err)
    → SetInv s
    → lookup id s.members ≡ some r
    → get_elem? (faces s.store) r ≡ some (id, current)
    → Deadline s r next p
    → Keeps SetInv (land_after r id current next p)
unfolding land_after
land_after-SetInv s r id current next (s₁, some e) v m at d = subst SetInv (sym d) v
land_after-SetInv s r id current next (s₁, none) v m at d =
    let (b, e) = file_under-total next id r (unfile current id s₁.bystate) there in
    let (i, f) = store_of_face s₁.store r (d.1 id current at r ∙ if_self r _ _) in
    rw ((d.5 (lt_of_face s.store r at) v.placed).0, e, land_after, f)
      (process_visit_limit-SetInv _ r i next (landed b e))
  where
    bystate_same : s₁.bystate ≡ s.bystate
    bystate_same = ap (λ x. x.bystate) d.0

    there : is_some (lookup next (unfile current id s₁.bystate)) ≡ true
    there =
        is_some-unfile current next id s₁.bystate
          (ap (λ b. is_some (lookup next b)) bystate_same ∙ v.filled next d.3)

    landed :
        (b : Dict Index (Dict InstanceId Ref))
        → file_under next id r (unfile current id s₁.bystate) ≡ some b
        → SetInv (record s₁ { bystate = b })
    landed b e =
        subst (λ (x : FsmSet). SetInv (record x { bystate = b })) (sym d.0)
          (record {
            compiled = v.compiled;
            filled = λ i h.
                is_some-file_under next i id r (unfile current id s.bystate) b
                  (rw (← bystate_same) e) (is_some-unfile current i id s.bystate (v.filled i h));
            indexed =
                move-IsIndexed s.members s.bystate b (faces s.store) (faces s₁.store) id r current
                  next v.indexed m at (rw (← bystate_same) e) (d.1 id current at);
            fresh = v.fresh;
            no_single = λ q h x. v.no_single q h (ap (λ l. get_elem? l q) (sym d.2) ∙ x);
            refs = d.4 (lt_of_face s.store r at) v.refs;
            placed = d.5 (lt_of_face s.store r at) v.placed;
          })
