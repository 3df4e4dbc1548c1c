-- ===== src/Fsm/Set/Room.antt =====
-- When `handleClockTick` returns: the channel of transactions has room for what it raises.
use deploykit.Base.{
  ℕ, zero, suc, ◌<◌, ◌≤◌, ◌+◌, ◌≡◌, ◌≢◌, ap, refl, Option, none, some, [], ◌∷◌, length, get_elem?,
  arith, get_elem?-lt, Bool-cases, inl, inr, Option-cases, ltb, length-append,
}
use deploykit.Base.Int.{pos, ltb_ℤ, add64}
use deploykit.Base.Dict.{has}
use deploykit.Fsm.Types.{Result-cases, index_key, InstanceId, Signal, Err}
use deploykit.Fsm.Spec.{expiry}
use deploykit.Fsm.Queue.{Instance, Ref, Timers, dequeue, peek, minus_one}
use deploykit.Fsm.Queue.Refs.{length-dequeue}
use deploykit.Fsm.Set.{
  FsmSet, Outcome, fault, done, blocked, panicked, Handled, raise, push_txn, alter, send,
}
use deploykit.Fsm.Set.Invariant.{SetInv, Keeps}
use deploykit.Fsm.Set.ClockTick.{handle_clock_tick-SetInv}
use deploykit.Fsm.Set.Settled.{Kept, take_due-Kept}
use deploykit.Fsm.Set.Handlers.{fire, take_due, fire_due, handle_clock_tick}

-- A full channel is what blocks, and at most one transaction is sent.
abbrev Fits : FsmSet → Outcome FsmSet → Type 0
Fits s (fault f) = s.options.buffer_size ≤ length s.transactions
Fits s (done s') = (length s'.transactions ≤ length s.transactions + 1) × (s'.options ≡ s.options)

raise-Fits : (s : FsmSet) (id : InstanceId) (signal : Signal) → Fits s (raise s id signal)
unfolding raise push_txn
raise-Fits s id signal = elim (Bool-cases (has signal s.spec.signals)) [
  | inr p ↦ rw (p, raise) (omega arith, refl)
  | inl p ↦ elim (Bool-cases (ltb (length s.transactions) s.options.buffer_size)) [
    | inl q ↦
        rw (p, raise, q, push_txn)
          (
            omega (
              arith,
              length-append s.transactions
                  (send (record { instance_id = id; signal = signal; payload = none }) ∷ []),
            ),
            refl,
          )
    | inr q ↦ rw (p, raise, q, push_txn) (ground arith)
  ]
]

-- The same for a handler that may panic.
abbrev FitsHandled : FsmSet → Handled → Type 0
FitsHandled s (fault panicked) = Unit
FitsHandled s (fault blocked) = s.options.buffer_size ≤ length s.transactions
FitsHandled s (done (s', e)) =
    (length s'.transactions ≤ length s.transactions + 1) × (s'.options ≡ s.options)

fire-Fits : (s : FsmSet) (r : Ref) (i : Instance) → FitsHandled s (fire s r i)
unfolding fire
fire-Fits s r i = elim (Bool-cases (ltb_ℤ (pos 0) i.deadline)) [
  | inr p ↦ rw (p, fire) (omega arith, refl)
  | inl p ↦ elim (Result-cases (expiry s.spec i.state)) [
    | inr (x, e) ↦ rw (p, fire, e) (omega arith, refl)
    | inl (none, e) ↦ rw (p, fire, e) (omega arith, refl)
    | inl (some rule, e) ↦
        rw (p, fire, e) (raised (raise s i.id rule.raise) (raise-Fits s i.id rule.raise))
  ]
]
  where
    raised :
        (o : Outcome FsmSet)
        → Fits s o
        → FitsHandled s (elim o [
          | fault f ↦ fault f
          | done s' ↦
              done (alter s' r (λ x. record x { deadline = minus_one; index = minus_one }), none)
        ])
    raised (fault blocked) h = h
    raised (fault panicked) h = tt
    raised (done s') h = h

take_due-Fits : (s : FsmSet) (p : Option Ref × Timers) → FitsHandled s (take_due s p)
take_due-Fits s (none, t) = tt
take_due-Fits s (some r, t) = elim (Bool-cases t.stray) [
  | inl p ↦ rw (p, take_due) tt
  | inr p ↦ elim (Option-cases (get_elem? t.store r)) [
    | inl e ↦ rw (p, e, take_due) tt
    | inr (i, e) ↦ rw (p, e, take_due) (fire-Fits (record s { timers = t }) r i)
  ]
]

-- Room for one transaction per instance in the queue.
abbrev pub HasRoom : FsmSet → Type 0
HasRoom s = length s.transactions + length s.queue ≤ s.options.buffer_size

round :
    (n : ℕ) (s : FsmSet)
    → 0 < length s.queue
    → HasRoom s
    → ((x : FsmSet) → HasRoom x → fire_due n x ≢ fault blocked)
    → (o : Handled) → Kept (dequeue s.timers).1.queue s.now o
    → FitsHandled s o
    → ◌≢◌ {A = Handled}
        (elim o [
          | fault f ↦ fault f
          | done (s', some e) ↦ done (s', some e)
          | done (s', none) ↦ fire_due n s'
        ])
        (fault blocked)
round n s long room again (fault panicked) k h = ground arith
round n s long room again (fault blocked) k h = absurd (omega arith)
round n s long room again (done (s', some e)) k h = ground arith
round n s long room again (done (s', none)) k h =
    again s'
      (omega (arith, length-dequeue s.timers long, ap length k.0, ap (λ o. o.buffer_size) h.1, h.0))

fire_due-ne-blocked : (n : ℕ) (s : FsmSet) → HasRoom s → fire_due n s ≢ fault blocked
unfolding fire_due peek
fire_due-ne-blocked zero s h = ground arith
fire_due-ne-blocked (suc n) s h = elim (Option-cases (peek s.timers)) [
  | inl e ↦ rw (e, fire_due) (ground arith)
  | inr (r, e) ↦ elim (Option-cases (get_elem? s.store r)) [
    | inl f ↦ rw (e, fire_due, f) (ground arith)
    | inr (i, f) ↦ elim (Bool-cases (ltb_ℤ s.now i.deadline)) [
      | inl p ↦ rw (e, fire_due, f, p) (ground arith)
      | inr p ↦
          rw (e, fire_due, f, p)
            (round n s (get_elem?-lt s.queue 0 e) h (fire_due-ne-blocked n)
              (take_due s (dequeue s.timers)) (take_due-Kept s (dequeue s.timers))
              (take_due-Fits s (dequeue s.timers)))
    ]
  ]
]

-- With that room, the handler returns.
pub handle_clock_tick_total :
    (s : FsmSet) → SetInv s → HasRoom s → (p : FsmSet × Option Err) × (handle_clock_tick s ≡ done p)
unfolding handle_clock_tick
handle_clock_tick_total s v room =
    returned (handle_clock_tick s) (handle_clock_tick-SetInv s v)
      (fire_due-ne-blocked (suc (length s.queue)) (record s { now = add64 s.now (pos 1) }) room)
  where
    returned :
        (o : Handled)
        → Keeps SetInv o
        → o ≢ fault blocked
        → (p : FsmSet × Option Err) × (o ≡ done p)
    returned (fault f) k h = absurd (h (ap fault k))
    returned (done p) k h = (p, refl)
