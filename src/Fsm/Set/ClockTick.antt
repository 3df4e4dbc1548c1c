-- ===== src/Fsm/Set/ClockTick.antt =====
-- The clock tick keeps the invariant: `handleClockTick` and its loop.
use deploykit.Base.{
  ℕ, zero, suc, ◌<◌, ◌≡◌, refl, sym, ap, subst, ◌∙◌, Option, none, some, length, get_elem?, arith,
  get_elem?-total, get_elem?-lt, All-get_elem?, Bool-cases, inl, inr, Option-cases,
}
use deploykit.Base.Int.{pos, ltb_ℤ}
use deploykit.Fsm.Types.{Result-cases, index_key, id_key, Expiry}
use deploykit.Fsm.Spec.{expiry}
use deploykit.Fsm.Queue.{Instance, Ref, Timers}
use deploykit.Fsm.Queue.Refs.{RefsBelow, RefsBelow-dequeue, dequeue-some}
use deploykit.Fsm.Queue.Places.{Placed}
use deploykit.Fsm.Queue.Moves.{IsOut, HasPlaces-modify, Placed-dequeue, dequeue-IsOut}
use deploykit.Fsm.Set.{FsmSet, Outcome, fault, done, Handled, raise, alter}
use deploykit.Fsm.Set.Registry.{IsIndexed}
use deploykit.Fsm.Set.Invariant.{SetInv, SetInv-channels, Keeps, Sends, raise-Sends}
use deploykit.Fsm.Set.Events.{alter-SetInv, NoSingle-same}
use deploykit.Fsm.Set.Invariant.{same_faces, same_histories, same_length}
use deploykit.Fsm.Queue.{minus_one, dequeue, peek}
use deploykit.Fsm.Queue.Frame.{cores, cores-dequeue}
use deploykit.Fsm.Set.Handlers.{fire, take_due, fire_due, handle_clock_tick}
use deploykit.Base.Int.{add64}

-- A change of queue positions, and of the queue within the store, keeps the invariant.
SetInv-timers :
    (s : FsmSet) (t : Timers)
    → cores t ≡ cores s.timers
    → RefsBelow (length t.store) t.queue
    → Placed t
    → SetInv s
    → SetInv (record s { timers = t })
SetInv-timers s t e below places v = record {
  compiled = v.compiled;
  filled = v.filled;
  indexed = subst (IsIndexed s.members s.bystate) (sym (same_faces t.store s.store e)) v.indexed;
  fresh = v.fresh;
  no_single = λ q h x.
      v.no_single q h (ap (λ l. get_elem? l q) (sym (same_histories t.store s.store e)) ∙ x);
  refs = below;
  placed = places;
}

reset-SetInv :
    (s : FsmSet) (r : Ref)
    → IsOut s.store r
    → SetInv s
    → SetInv (alter s r (λ x. record x { deadline = minus_one; index = minus_one }))
reset-SetInv s r out v =
    alter-SetInv s r _ (λ x. refl) (NoSingle-same s.store r _ (λ x. refl) v.no_single)
      (HasPlaces-modify s.queue s.store r _ (λ x. refl) out v.placed.1) v

fire-SetInv :
    (s : FsmSet) (r : Ref) (i : Instance) → IsOut s.store r → SetInv s → Keeps SetInv (fire s r i)
unfolding fire
fire-SetInv s r i out v = elim (Bool-cases (ltb_ℤ (pos 0) i.deadline)) [
  | inr p ↦ rw (p, fire) (reset-SetInv s r out v)
  | inl p ↦ elim (Result-cases (expiry s.spec i.state)) [
    | inr (x, e) ↦ rw (p, fire, e) v
    | inl (none, e) ↦ rw (p, fire, e) (reset-SetInv s r out v)
    | inl (some rule, e) ↦
        rw (p, fire, e) (raised rule (raise s i.id rule.raise) (raise-Sends s i.id rule.raise))
  ]
]
  where
    raised :
        (rule : Expiry) (o : Outcome FsmSet)
        → Sends s o
        → Keeps SetInv (elim o [
          | fault f ↦ fault f
          | done s' ↦
              done (alter s' r (λ x. record x { deadline = minus_one; index = minus_one }), none)
        ])
    raised rule (fault f) h = h
    raised rule (done s') h = reset-SetInv s' r (subst (λ x. IsOut x.store r) (sym h) out) (
        subst SetInv (sym h) (SetInv-channels (record s { transactions = s'.transactions }) refl v))

take_due-SetInv :
    (s : FsmSet) (p : Option Ref × Timers) {r : Ref}
    → p.0 ≡ some r
    → r < length p.1.store
    → cores p.1 ≡ cores s.timers
    → RefsBelow (length p.1.store) p.1.queue
    → Placed p.1
    → IsOut p.1.store r
    → SetInv s
    → Keeps SetInv (take_due s p)
take_due-SetInv s (none, t) got lt e below places out v = absurd (cc)
take_due-SetInv s (some r, t) {r = r'} got lt e below places out v =
    let (i, f) = get_elem?-total t.store r (ground arith) in
    let same : r' ≡ r = cc in
    rw (places.0, f, take_due)
      (fire-SetInv (record s { timers = t }) r i (subst (IsOut t.store) same out)
        (SetInv-timers s t e below places v))

-- What is taken off a queue that has a head is an allocated instance.
dequeue-SetInv :
    (s : FsmSet) (r : Ref)
    → peek s.timers ≡ some r
    → SetInv s
    → Keeps SetInv (take_due s (dequeue s.timers))
unfolding peek
dequeue-SetInv s r e v =
    let n = length s.store in
    let long = get_elem?-lt s.queue 0 e in
    let (q, got, lt) = dequeue-some n s.timers (omega arith) v.refs in
    let same = same_length (dequeue s.timers).1.store s.store (cores-dequeue s.timers) in
    take_due-SetInv s (dequeue s.timers) got (subst (λ k. q < k) (sym same) lt)
      (cores-dequeue s.timers)
      (subst (λ k. RefsBelow k (dequeue s.timers).1.queue) (sym same)
        (RefsBelow-dequeue n s.timers v.refs))
      (Placed-dequeue s.timers (omega arith) v.placed)
      (dequeue-IsOut s.timers q (omega arith) v.placed got) v

peek_stored :
    (s : FsmSet) (r : Ref) → peek s.timers ≡ some r → SetInv s → get_elem? s.store r ≡ none → ⊥
unfolding peek
peek_stored s r e v f =
    let lt = All-get_elem? (λ x. x < length s.store) s.queue 0 v.refs e in
    let (i, g) = get_elem?-total s.store r lt in ground arith

fire_due-SetInv : (fuel : ℕ) (s : FsmSet) → SetInv s → Keeps SetInv (fire_due fuel s)
unfolding fire_due
fire_due-SetInv zero s v = v
fire_due-SetInv (suc fuel) s v = elim (Option-cases (peek s.timers)) [
  | inl e ↦ rw (e, fire_due) v
  | inr (r, e) ↦ elim (Option-cases (get_elem? s.store r)) [
    | inl f ↦ absurd (peek_stored s r e v f)
    | inr (i, f) ↦ elim (Bool-cases (ltb_ℤ s.now i.deadline)) [
      | inl p ↦ rw (e, fire_due, f, p) v
      | inr p ↦
          rw (e, fire_due, f, p)
            (next (fire_due-SetInv fuel) (take_due s (dequeue s.timers)) (dequeue-SetInv s r e v))
    ]
  ]
]
  where
    next :
        ((s' : FsmSet) → SetInv s' → Keeps SetInv (fire_due fuel s'))
        → (h : Handled) → Keeps SetInv h
        → Keeps SetInv (elim h [
          | fault f ↦ fault f
          | done (s', some e) ↦ done (s', some e)
          | done (s', none) ↦ fire_due fuel s'
        ])
    next ih (fault f) k = k
    next ih (done (s', some e)) k = k
    next ih (done (s', none)) k = ih s' k

pub handle_clock_tick-SetInv : (s : FsmSet) → SetInv s → Keeps SetInv (handle_clock_tick s)
unfolding handle_clock_tick
handle_clock_tick-SetInv s v =
    fire_due-SetInv (suc (length s.queue)) (record s { now = add64 s.now (pos 1) })
      (SetInv-channels (record s { now = add64 s.now (pos 1) }) refl v)
