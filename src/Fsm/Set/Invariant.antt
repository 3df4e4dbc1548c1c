-- ===== src/Fsm/Set/Invariant.antt =====
-- What holds of a set between two transactions, and which changes of the set do not touch it.
use deploykit.Base.{
  ℕ, ◌<◌, ◌≡◌, ◌≢◌, refl, sym, ap, subst, ◌∙◌, Option, none, some, true, List, [], ◌∷◌, map, length,
  get_elem?, modify, arith, map-modify_same, length-modify, length-map, get_elem?-modify,
  get_elem?-map, Bool-cases, inl, inr, Option-cases, is_some, ltb,
}
use deploykit.Base.Int.{pos, ltb_ℤ}
use deploykit.Base.Dict.{lookup, has}
use deploykit.Fsm.Types.{
  Index, Signal, InstanceId, Err, ok, Result-cases, Expiry, index_key, id_key,
}
use deploykit.Fsm.Spec.{Spec, expiry}
use deploykit.Fsm.Spec.Define.{IsCompiled}
use deploykit.Fsm.Flap.{History}
use deploykit.Fsm.Queue.{Instance, Ref, Timers, minus_one}
use deploykit.Fsm.Queue.Frame.{core, cores, cores-enqueue, cores-remove, cores-update}
use deploykit.Fsm.Queue.Refs.{RefsBelow, RefsBelow-enqueue, RefsBelow-remove, RefsBelow-update}
use deploykit.Fsm.Queue.Places.{Placed}
use deploykit.Fsm.Queue.Moves.{Placed-enqueue, Placed-update, HasPlaces-same}
use deploykit.Fsm.Queue.Removal.{Placed-remove}
use deploykit.Fsm.Set.{
  FsmSet, Outcome, fault, done, blocked, Handled, raise, is_ignored, handle_error, update_instance,
  schedule, ttl_of, process_deadline,
}
use deploykit.Fsm.Set.Registry.{IsIndexed, Written, Face}

abbrev pub face : Instance → Face
face i = (i.id, i.state)

abbrev pub faces : List Instance → List Face
faces = map face

-- No instance's history of moves consists of one state.
abbrev pub NoSingle : List Instance → Type 0
NoSingle store =
    (q : ℕ) (h : History) → get_elem? (map (λ i. i.flaps) store) q ≡ some h → length h ≢ 1

pub record SetInv (s : FsmSet) : Type 0 where
  pub compiled : IsCompiled s.spec
  pub filled : (i : Index) → has i s.spec.states ≡ true → is_some (lookup i s.bystate) ≡ true
  pub indexed : IsIndexed s.members s.bystate (faces s.store)
  pub fresh : (id : InstanceId) (r : Ref) → lookup id s.members ≡ some r → id < s.next
  pub no_single : NoSingle s.store
  pub refs : RefsBelow (length s.store) s.queue
  pub placed : Placed s.timers

-- The channels and the clock are not part of it.
pub SetInv-channels :
    {s : FsmSet} (s' : FsmSet)
    → s' ≡ record s {
      transactions = s'.transactions;
      reported = s'.reported;
      actions_run = s'.actions_run;
      now = s'.now;
      replies = s'.replies;
    }
    → SetInv s
    → SetInv s'
SetInv-channels s' e v = subst SetInv (sym e) (record {
  compiled = v.compiled;
  filled = v.filled;
  indexed = v.indexed;
  fresh = v.fresh;
  no_single = v.no_single;
  refs = v.refs;
  placed = v.placed;
})

-- A handler returns a set with the property, or waits on a full channel; it does not panic.
abbrev pub Keeps : (FsmSet → Type 0) → Handled → Type 0
Keeps P (fault f) = f ≡ blocked
Keeps P (done (s, e)) = P s

abbrev pub Sends : FsmSet → Outcome FsmSet → Type 0
Sends s (fault f) = f ≡ blocked
Sends s (done s') = s' ≡ record s { transactions = s'.transactions }

pub raise-Sends : (s : FsmSet) (id : InstanceId) (x : Signal) → Sends s (raise s id x)
unfolding raise
raise-Sends s id x = elim (Bool-cases (has x s.spec.signals)) [
  | inl p ↦ elim (Bool-cases (ltb (length s.transactions) s.options.buffer_size)) [
    | inl q ↦ rw (p, raise, q) refl
    | inr q ↦ rw (p, raise, q) refl
  ]
  | inr p ↦ rw (p, raise) refl
]

pub handle_error-SetInv : {s : FsmSet} (e : Err) → SetInv s → SetInv (handle_error s e)
unfolding handle_error
handle_error-SetInv {s} e v = elim (Bool-cases (is_ignored s.options e)) [
  | inl p ↦ rw (p, handle_error) v
  | inr p ↦ rw (p, handle_error) (SetInv-channels _ refl v)
]

-- Faces and histories are read off the cores.
faces-cores : (st : List Instance) → faces (map core st) ≡ faces st
faces-cores [] = refl
faces-cores (i ∷ st) = ap (◌∷◌ (face i)) (faces-cores st)

histories-cores : (st : List Instance) → map (λ i. i.flaps) (map core st) ≡ map (λ i. i.flaps) st
histories-cores [] = refl
histories-cores (i ∷ st) = ap (◌∷◌ i.flaps) (histories-cores st)

pub same_faces : (a b : List Instance) → map core a ≡ map core b → faces a ≡ faces b
same_faces a b e = sym (faces-cores a) ∙ (ap faces e ∙ faces-cores b)

pub same_histories :
    (a b : List Instance) → map core a ≡ map core b → map (λ i. i.flaps) a ≡ map (λ i. i.flaps) b
same_histories a b e = sym (histories-cores a) ∙ (ap (map (λ i. i.flaps)) e ∙ histories-cores b)

cores-schedule : (t : Timers) (r : Ref) → cores (schedule t r) ≡ cores t
unfolding schedule
cores-schedule t r = ground (arith, cores-enqueue t r, cores-remove t r, cores-update t r)

known_of_expiry :
    (spec : Spec) (state : Index) (rule : Option Expiry)
    → expiry spec state ≡ ok rule
    → has state spec.states ≡ true
unfolding expiry has
known_of_expiry spec state rule e = ground arith

pub same_length : (a b : List Instance) → map core a ≡ map core b → length a ≡ length b
same_length a b e = sym (length-map a core) ∙ (ap length e ∙ length-map b core)

RefsBelow-schedule :
    (n : ℕ) (t : Timers) (r : Ref) → r < n → RefsBelow n t.queue → RefsBelow n (schedule t r).queue
unfolding schedule
RefsBelow-schedule n t r p h = elim (Option-cases (get_elem? t.store r)) [
  | inl e ↦ rw (e, schedule) h
  | inr (i, e) ↦ elim (Bool-cases (ltb_ℤ minus_one i.index)) [
    | inl q ↦ elim (Bool-cases (ltb_ℤ (pos 0) i.deadline)) [
      | inl k ↦ rw (e, schedule, q, k) (RefsBelow-update n t r h)
      | inr k ↦ rw (e, schedule, q, k) (RefsBelow-remove n t r h)
    ]
    | inr q ↦ elim (Bool-cases (ltb_ℤ (pos 0) i.deadline)) [
      | inl k ↦ rw (e, schedule, q, k) (RefsBelow-enqueue n t r p h)
      | inr k ↦ rw (e, schedule, q, k) h
    ]
  ]
]

Placed-schedule : (t : Timers) (r : Ref) → r < length t.store → Placed t → Placed (schedule t r)
unfolding schedule
Placed-schedule t r p h = elim (Option-cases (get_elem? t.store r)) [
  | inl e ↦ rw (e, schedule) h
  | inr (i, e) ↦ elim (Bool-cases (ltb_ℤ minus_one i.index)) [
    | inl q ↦ elim (Bool-cases (ltb_ℤ (pos 0) i.deadline)) [
      | inl k ↦ rw (e, schedule, q, k) (Placed-update t r h)
      | inr k ↦ rw (e, schedule, q, k) (Placed-remove t r h)
    ]
    | inr q ↦ elim (Bool-cases (ltb_ℤ (pos 0) i.deadline)) [
      | inl k ↦ rw (e, schedule, q, k) (Placed-enqueue t r p (λ n x. ground arith) h)
      | inr k ↦ rw (e, schedule, q, k) h
    ]
  ]
]

-- A change of one instance that keeps its id writes its face.
pub modify-Written :
    (st : List Instance) (r : Ref) (f : Instance → Instance) (id : InstanceId) (old next : Index)
    → ((i : Instance) → face (f i) ≡ (i.id, next))
    → get_elem? (faces st) r ≡ some (id, old)
    → Written (faces st) r (id, next) (faces (modify st r f))
modify-Written st r f id old next same at q = elim (Option-cases (get_elem? st q)) [
  | inl e ↦ ground (
    arith,
    get_elem?-map face (modify st r f) q,
    get_elem?-map face st q,
    get_elem?-modify st r q f,
    get_elem?-map face st r,
  )
  | inr (i, e) ↦ ground (
    arith,
    same i,
    get_elem?-map face (modify st r f) q,
    get_elem?-map face st q,
    get_elem?-modify st r q f,
    get_elem?-map face st r,
  )
]

-- What `processDeadline` leaves: the instance in its new state, or the set as it was.
abbrev pub Deadline : FsmSet → Ref → Index → FsmSet × Option Err → Type 0
Deadline s r state (s', some e) = s' ≡ s
Deadline s r state (s', none) =
    (s' ≡ record s { timers = s'.timers })
    × ((id : InstanceId) (old : Index)
        → get_elem? (faces s.store) r ≡ some (id, old)
        → Written (faces s.store) r (id, state) (faces s'.store))
    × (map (λ i. i.flaps) s'.store ≡ map (λ i. i.flaps) s.store)
    × (has state s.spec.states ≡ true)
    × (r < length s.store
        → RefsBelow (length s.store) s.queue
        → RefsBelow (length s'.store) s'.queue)
    × (r < length s.store → Placed s.timers → Placed s'.timers)

pub process_deadline-Deadline :
    (s : FsmSet) (r : Ref) (state : Index) → Deadline s r state (process_deadline s r state)
unfolding process_deadline
process_deadline-Deadline s r state = elim (Result-cases (expiry s.spec state)) [
  | inl (rule, e) ↦
      rw (e, process_deadline)
        (
          refl,
          (λ id old at q.
              ap (λ l. get_elem? l q)
                (same_faces _ (modify s.store r (change rule)) (cores-schedule (changed rule) r))
              ∙ modify-Written s.store r (change rule) id old state (λ i. refl) at q),
          same_histories _ (modify s.store r (change rule)) (cores-schedule (changed rule) r)
              ∙ map-modify_same (λ i. i.flaps) s.store r (change rule) (λ i. refl),
          known rule e,
          (λ p h.
              subst (λ n. RefsBelow n (schedule (changed rule) r).queue)
                (sym (
                  same_length _ (modify s.store r (change rule)) (cores-schedule (changed rule) r)
                  ∙ length-modify s.store r (change rule)))
                (RefsBelow-schedule (length s.store) (changed rule) r p h)),
          (λ p h.
              Placed-schedule (changed rule) r
                (omega (arith, length-modify s.store r (change rule)))
                (h.0, HasPlaces-same s.queue s.store r (change rule) (λ i. refl) h.1)),
        )
  | inr (x, e) ↦ rw (e, process_deadline) refl
]
  where
    change : Option Expiry → Instance → Instance
    change rule = update_instance state s.now (ttl_of rule)

    changed : Option Expiry → Timers
    changed rule = record (s.timers) { store = modify s.store r (change rule) }

    known : (rule : Option Expiry) → expiry s.spec state ≡ ok rule → has state s.spec.states ≡ true
    known rule e = known_of_expiry s.spec state rule e
