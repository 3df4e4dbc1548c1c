-- ===== src/Fsm/Set/Settled.antt =====
-- The loop of `handleClockTick` ends: the fuel is enough, and nothing that is due is at the head.
use deploykit.Base.{
  ℕ, zero, suc, ◌<◌, ◌≡◌, ap, subst, refl, Option, none, some, true, List, length, get_elem?, arith,
  get_elem?-lt, Bool-cases, inl, inr, Option-cases,
}
use deploykit.Base.Int.{pos, ltb_ℤ, add64}
use deploykit.Fsm.Types.{Result-cases, Time, index_key}
use deploykit.Fsm.Spec.{expiry}
use deploykit.Fsm.Queue.{Instance, Ref, Timers, dequeue, peek, minus_one}
use deploykit.Fsm.Queue.Refs.{length-dequeue}
use deploykit.Fsm.Set.{FsmSet, Outcome, fault, done, Handled, raise, alter}
use deploykit.Fsm.Set.Invariant.{Sends, raise-Sends}
use deploykit.Fsm.Set.Handlers.{fire, take_due, fire_due, handle_clock_tick}

-- A round keeps the queue that it is given, and the time.
abbrev pub Kept : List Ref → Time → Handled → Type 0
Kept queue now (fault f) = Unit
Kept queue now (done (s, e)) = (s.queue ≡ queue) × (s.now ≡ now)

fire-Kept : (s : FsmSet) (r : Ref) (i : Instance) → Kept s.queue s.now (fire s r i)
unfolding fire
fire-Kept s r i = elim (Bool-cases (ltb_ℤ (pos 0) i.deadline)) [
  | inr p ↦ rw (p, fire) (refl, refl)
  | inl p ↦ elim (Result-cases (expiry s.spec i.state)) [
    | inr (x, e) ↦ rw (p, fire, e) (refl, refl)
    | inl (none, e) ↦ rw (p, fire, e) (refl, refl)
    | inl (some rule, e) ↦
        rw (p, fire, e) (raised (raise s i.id rule.raise) (raise-Sends s i.id rule.raise))
  ]
]
  where
    raised :
        (o : Outcome FsmSet)
        → Sends s o
        → Kept s.queue s.now (elim o [
          | fault f ↦ fault f
          | done s' ↦
              done (alter s' r (λ x. record x { deadline = minus_one; index = minus_one }), none)
        ])
    raised (fault f) h = tt
    raised (done s') h = (ap (λ x. x.queue) h, ap (λ x. x.now) h)

pub take_due-Kept : (s : FsmSet) (p : Option Ref × Timers) → Kept p.1.queue s.now (take_due s p)
take_due-Kept s (none, t) = tt
take_due-Kept s (some r, t) = elim (Bool-cases t.stray) [
  | inl p ↦ rw (p, take_due) tt
  | inr p ↦ elim (Option-cases (get_elem? t.store r)) [
    | inl e ↦ rw (p, e, take_due) tt
    | inr (i, e) ↦ rw (p, e, take_due) (fire-Kept (record s { timers = t }) r i)
  ]
]

-- The instance at the head of the queue is not due.
abbrev pub IsSettled : FsmSet → Type 0
IsSettled s =
    (r : Ref) (i : Instance)
    → peek s.timers ≡ some r
    → get_elem? s.store r ≡ some i
    → ltb_ℤ s.now i.deadline ≡ true

abbrev Ends : Time → Handled → Type 0
Ends now (fault f) = Unit
Ends now (done (s, some e)) = Unit
Ends now (done (s, none)) = (s.now ≡ now) × IsSettled s

round :
    (n : ℕ) (s : FsmSet)
    → 0 < length s.queue
    → ((x : FsmSet) → length x.queue < n → Ends x.now (fire_due n x))
    → (o : Handled) → Kept (dequeue s.timers).1.queue s.now o
    → length s.queue < suc n
    → Ends s.now (elim o [
      | fault f ↦ fault f
      | done (s', some e) ↦ done (s', some e)
      | done (s', none) ↦ fire_due n s'
    ])
round n s long again (fault f) k h = tt
round n s long again (done (s', some e)) k h = tt
round n s long again (done (s', none)) k h =
    subst (λ t. Ends t (fire_due n s')) k.1
      (again s' (omega (arith, length-dequeue s.timers long, ap length k.0)))

fire_due-Ends : (n : ℕ) (s : FsmSet) → length s.queue < n → Ends s.now (fire_due n s)
unfolding fire_due peek
fire_due-Ends zero s h = absurd (omega arith)
fire_due-Ends (suc n) s h = elim (Option-cases (peek s.timers)) [
  | inl e ↦ rw (e, fire_due) (refl, λ r i p q. absurd (cc))
  | inr (r, e) ↦ elim (Option-cases (get_elem? s.store r)) [
    | inl f ↦ rw (e, fire_due, f) tt
    | inr (i, f) ↦ elim (Bool-cases (ltb_ℤ s.now i.deadline)) [
      | inl p ↦ rw (e, fire_due, f, p) (refl, λ r' i' a b. ground arith)
      | inr p ↦
          rw (e, fire_due, f, p)
            (round n s (get_elem?-lt s.queue 0 e) (fire_due-Ends n) (take_due s (dequeue s.timers))
              (take_due-Kept s (dequeue s.timers)) h)
    ]
  ]
]

-- A clock tick whose handler returns without an error has advanced the time by one, and leaves a
-- queue whose head, where it has one, is not due yet.
pub handle_clock_tick-IsSettled :
    (s s' : FsmSet)
    → handle_clock_tick s ≡ done (s', none)
    → (s'.now ≡ add64 s.now (pos 1)) × IsSettled s'
unfolding handle_clock_tick
handle_clock_tick-IsSettled s s' e =
    subst (Ends (add64 s.now (pos 1))) e
      (fire_due-Ends (suc (length s.queue)) (record s { now = add64 s.now (pos 1) }) (omega arith))
