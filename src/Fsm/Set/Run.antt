-- ===== src/Fsm/Set/Run.antt =====
-- The two goroutines of `run`: one puts inputs on the channel of transactions, the other takes them
-- off and runs them.
use deploykit.Base.{
  ◌⊎◌, inl, inr, Option-cases, ap, ◌+◌, ◌<◌, ◌≤◌, ◌^◌, ◌≡◌, refl, subst, none, some, true, List, [],
  ◌∷◌, ◌++◌, length, arith, is_some,
}
use deploykit.Base.Dict.{Dict, lookup, has}
use deploykit.Fsm.Types.{Index, InstanceId, index_key, id_key}
use deploykit.Fsm.Spec.{Spec}
use deploykit.Fsm.Set.{FsmSet, Outcome, fault, done, Handled, handle_error}
use deploykit.Fsm.Set.Registry.{IsIndexed, filed}
use deploykit.Fsm.Set.Invariant.{SetInv, SetInv-channels, Keeps, handle_error-SetInv, faces}
use deploykit.Fsm.Set.Events.{handle_event-SetInv}
use deploykit.Fsm.Set.Lifecycle.{handle_add-SetInv, handle_delete-SetInv}
use deploykit.Fsm.Set.{Txn, clock_tick, read, add, delete, send, new_set, empty_states}
use deploykit.Fsm.Set.Handlers.{handle, process}
use deploykit.Base.Int.{pos, add64}
use deploykit.Fsm.Set.Room.{HasRoom, handle_clock_tick_total}
use deploykit.Fsm.Set.Settled.{IsSettled, handle_clock_tick-IsSettled}
use deploykit.Base.{Option, none}
use deploykit.Fsm.Types.{Err}
use deploykit.Fsm.Set.Handlers.{handle_clock_tick}
use deploykit.Fsm.Set.ClockTick.{handle_clock_tick-SetInv}
use deploykit.Fsm.Types.{State, Options}
use deploykit.Fsm.Spec.Define.{IsCompiled}

-- The room that a transaction needs: only `handleAdd` takes an id.
abbrev pub HasIds : FsmSet → Type 0
HasIds s = s.next + 1 < 2 ^ 64

pub handle-SetInv : (s : FsmSet) (t : Txn) → SetInv s → HasIds s → Keeps SetInv (handle s t)
unfolding handle
handle-SetInv s clock_tick v h = handle_clock_tick-SetInv s v
handle-SetInv s read v h = v
handle-SetInv s (add initial) v h = handle_add-SetInv s initial v h
handle-SetInv s (delete id) v h = handle_delete-SetInv s id v
handle-SetInv s (send ev) v h = handle_event-SetInv s ev v

done_inj : {a b : FsmSet} → ◌≡◌ {A = Outcome FsmSet} (done a) (done b) → a ≡ b
done_inj e = cc

-- A transaction, with the error that its handler returns.
pub process-SetInv :
    (s s' : FsmSet) (t : Txn) → SetInv s → HasIds s → process s t ≡ done s' → SetInv s'
unfolding process
process-SetInv s s' t v h e = go (handle s t) (handle-SetInv s t v h) e
  where
    go :
        (r : Handled)
        → Keeps SetInv r
        → elim r [
          | fault f ↦ fault f
          | done (x, none) ↦ done x
          | done (x, some e) ↦ done (handle_error x e)
        ]
          ≡ done s'
        → SetInv s'
    go (fault f) k p = absurd (cc)
    go (done (x, none)) k p = subst SetInv (done_inj p) k
    go (done (x, some e)) k p = subst SetInv (done_inj p) (handle_error-SetInv e k)

-- What a channel may hold after the sends of two goroutines, each in its own order.
pub data Interleaved : List Txn → List Txn → List Txn → Type 0 where
  nothing : Interleaved [] [] []
  left :
      (t : Txn) (own arrived merged : List Txn)
      → Interleaved own arrived merged
      → Interleaved (t ∷ own) arrived (t ∷ merged)
  right :
      (t : Txn) (own arrived merged : List Txn)
      → Interleaved own arrived merged
      → Interleaved own (t ∷ arrived) (t ∷ merged)

-- One goroutine puts a transaction on the channel, if it has room; the other takes the oldest off
-- and runs it to its end. While it runs, inputs may arrive in between what it raises itself. A
-- transaction reads no more of the channel than whether it has room: where it returns with the
-- inputs that arrive it also returns without them, and leaves the same but for the channel.
pub data Step : FsmSet → FsmSet → Type 0 where
  input :
      (s : FsmSet) (t : Txn)
      → length s.transactions < s.options.buffer_size
      → Step s (record s { transactions = s.transactions ++ t ∷ [] })
  run :
      (s s' : FsmSet) (t : Txn) (rest arrived merged : List Txn)
      → s.transactions ≡ t ∷ rest
      → process (record s { transactions = rest }) t ≡ done s'
      → Interleaved s'.transactions arrived merged
      → length merged ≤ s'.options.buffer_size
      → Step s (record s' { transactions = merged })

-- The sets that a run passes through, as long as ids are left.
pub data Reach (s : FsmSet) : FsmSet → Type 0 where
  here : Reach s s
  next : {t u : FsmSet} → Reach s t → HasIds t → Step t u → Reach s u

Step-SetInv : {s t : FsmSet} → Step s t → HasIds s → SetInv s → SetInv t
Step-SetInv (input s t h) room v = SetInv-channels _ refl v
Step-SetInv (run s s' t rest arrived merged e p mixed h) room v =
    SetInv-channels _ refl
      (process-SetInv (record s { transactions = rest }) s' t (SetInv-channels _ refl v) room p)

Reach-SetInv : {s t : FsmSet} → SetInv s → Reach s t → SetInv t
Reach-SetInv v here = v
Reach-SetInv v (next r h st) = Step-SetInv st h (Reach-SetInv v r)

empty_states-lookup :
    (i : Index) (m : Dict Index State) → has i m ≡ true → is_some (lookup i (empty_states m)) ≡ true
unfolding has lookup empty_states
empty_states-lookup i [] h = absurd (cc)
empty_states-lookup i ((j, st) ∷ m) h = ground (arith, empty_states-lookup i m)

empty_states-filed :
    (i : Index) (id : InstanceId) (m : Dict Index State) → filed (empty_states m) i id ≡ none
unfolding lookup empty_states
empty_states-filed i id [] = refl
empty_states-filed i id ((j, st) ∷ m) = ground (arith, empty_states-filed i id m)

new_set-SetInv : (spec : Spec) (options : Options) → IsCompiled spec → SetInv (new_set spec options)
unfolding new_set lookup
new_set-SetInv spec options c = record {
  compiled = c;
  filled = λ i h. empty_states-lookup i spec.states h;
  indexed = record {
    located = λ id r e. absurd (cc);
    is_member = λ state id r e. absurd (cc (empty_states-filed state id spec.states));
  };
  fresh = λ id r e. absurd (cc);
  no_single = λ q h e. absurd (cc);
  refs = tt;
  placed = (refl, λ k r. (λ e. absurd (cc), λ e. absurd (ground arith)));
}

-- Whatever sequence of inputs and transactions leads from NewSet over a compiled spec to a set,
-- as long as ids are left, each member's instance has the member's id and is filed under its
-- state, and whatever is filed under a state is a member that is in that state.
pub Reach-new_set :
    (spec : Spec) (options : Options) (s : FsmSet)
    → IsCompiled spec
    → Reach (new_set spec options) s
    → IsIndexed s.members s.bystate (faces s.store)
Reach-new_set spec options s c r = (Reach-SetInv (new_set-SetInv spec options c) r).indexed

-- In every set over a compiled spec that is reached while ids are left, where the channel has
-- room for one more transaction per instance in the deadline queue, the handler of a clock tick
-- returns if no other goroutine sends on the channel while it runs; and where it returns without
-- an error, the time has advanced by one and the head of the queue, if there is one, is not due.
pub Reach-handle_clock_tick :
    (spec : Spec) (options : Options) (s : FsmSet)
    → IsCompiled spec
    → Reach (new_set spec options) s
    → HasRoom s
    → (s' : FsmSet) × (e : Option Err) × (handle_clock_tick s ≡ done (s', e))
      × ((is_some e ≡ true) ⊎ ((s'.now ≡ add64 s.now (pos 1)) × IsSettled s'))
Reach-handle_clock_tick spec options s c r room =
    let ((s', e), done_eq) =
      handle_clock_tick_total s (Reach-SetInv (new_set-SetInv spec options c) r) room in
    (
      s',
      e,
      done_eq,
      elim (Option-cases e) [
        | inl none_eq ↦ inr (handle_clock_tick-IsSettled s s' (rw (← none_eq) done_eq))
        | inr (x, some_eq) ↦ inl (ap is_some some_eq)
      ],
    )
