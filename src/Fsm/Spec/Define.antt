-- ===== src/Fsm/Spec/Define.antt =====
-- `Define`: which lists of states it accepts, and the spec that it yields.
use deploykit.Base.{
  ◌≡◌, ◌≢◌, ◌↔◌, inl, inr, refl, sym, ap, subst, ◌∙◌, false, List, [], ◌∷◌, ◌++◌, map, arith, ◌||◌,
  All, Bool-cases,
}
use deploykit.Base.Dict.{Dict, lookup, insert, has}
use deploykit.Fsm.Types.{Index, Signal, State, ok, index_key, >>=-eq-ok, ok_inj}
use deploykit.Fsm.Spec.{Spec, collect, compile, define}
use deploykit.Fsm.Spec.Compile.{AllWellFormed, is_used}
use deploykit.Fsm.Spec.Limits.{compile_total, compile_sound}
use mathlib.Core.List.{append_assoc, append-nil}

abbrev pub AllDifferent : List Index → Type 0
AllDifferent [] = Unit
AllDifferent (x ∷ xs) = All (λ y. x ≢ y) xs × AllDifferent xs

abbrev pub indexes : List State → List Index
indexes = map λ st. st.index

-- The table that lists each state under its index.
abbrev pub by_index : List State → Dict Index State
by_index = map λ st. (st.index, st)

insert_new :
    (a : Index) (st : State) (m : Dict Index State)
    → has a m ≡ false
    → insert a st m ≡ m ++ (a, st) ∷ []
unfolding has lookup insert
insert_new a st [] h = refl
insert_new a st ((b, w) ∷ m) h = ground (arith, insert_new a st m)

has-append_one :
    (a b : Index) (st : State) (m : Dict Index State)
    → has b (m ++ (a, st) ∷ []) ≡ (has b m || has b ((a, st) ∷ []))
unfolding has lookup
has-append_one a b st [] = refl
has-append_one a b st ((c, w) ∷ m) = ground (arith, has-append_one a b st m)

has-append_iff :
    (a b : Index) (st : State) (m : Dict Index State)
    → (has b m ≡ false → a ≢ b → has b (m ++ (a, st) ∷ []) ≡ false)
      × (has b (m ++ (a, st) ∷ []) ≡ false → (has b m ≡ false) × (a ≢ b))
unfolding has lookup
has-append_iff a b st m =
    (λ p q. ground (arith, has-append_one a b st m), λ p. ground (arith, has-append_one a b st m))

-- No state of the list is in the table yet.
abbrev AllNew : Dict Index State → List State → Type 0
AllNew m = All λ st. has st.index m ≡ false

AllNew-append :
    (m : Dict Index State) (st : State) (more : List State)
    → (AllNew m more × All (λ y. st.index ≢ y) (indexes more))
      ↔ AllNew (m ++ (st.index, st) ∷ []) more
AllNew-append m st [] = (λ h. tt, λ h. (tt, tt))
AllNew-append m st (x ∷ more) =
    let (to, from) = AllNew-append m st more in
    let (in_to, in_from) = has-append_iff st.index x.index st m in
    (
      λ h. (in_to h.0.0 h.1.0, to (h.0.1, h.1.1)),
      λ h. let (a, b) = in_from h.0 in let (c, d) = from h.1 in ((a, c), (b, d)),
    )

collect_total :
    (m : Dict Index State) (more : List State)
    → AllNew m more
    → AllDifferent (indexes more)
    → collect m more ≡ ok (m ++ by_index more)
unfolding collect
collect_total m [] new dist = ap ok (sym (append-nil m))
collect_total m (st ∷ more) new dist =
    rw (new.0, insert_new st.index st m new.0)
      (collect_total (m ++ (st.index, st) ∷ []) more ((AllNew-append m st more).0 (new.1, dist.0))
          dist.1
        ∙ ap ok (append_assoc m ((st.index, st) ∷ []) (by_index more)))

collect_sound :
    (m : Dict Index State) (more : List State) (out : Dict Index State)
    → collect m more ≡ ok out
    → AllNew m more × AllDifferent (indexes more)
unfolding collect
collect_sound m [] out h = (tt, tt)
collect_sound m (st ∷ more) out h = elim (Bool-cases (has st.index m)) [
  | inl p ↦ absurd (ground arith)
  | inr p ↦
      let grown : collect (m ++ (st.index, st) ∷ []) more ≡ ok out =
        rw (← insert_new st.index st m p) (ground arith) in
      let (new, dist) = collect_sound (m ++ (st.index, st) ∷ []) more out grown in
      let (new', apart) = (AllNew-append m st more).1 new in ((p, new'), (apart, dist))
]

first_apart :
    (st : State) (more : List State)
    → AllNew ((st.index, st) ∷ []) more ↔ All (λ y. st.index ≢ y) (indexes more)
unfolding has
first_apart st more =
    (λ h. ((AllNew-append [] st more).1 h).1, λ h. (AllNew-append [] st more).0 (none_new more, h))
  where
    none_new : (xs : List State) → AllNew [] xs
    none_new [] = tt
    none_new (x ∷ xs) = (refl, none_new xs)

-- Define returns a spec exactly when the states have different indexes and their table is well
-- formed: the targets of all transitions and error rules are states, every action has a
-- transition and is not nil, and what a positive TTL or visit limit raises has a transition.
pub define_iff :
    (s : Spec) (st : State) (more : List State)
    → ((out : Spec) × (define s st more ≡ ok out))
      ↔ (AllDifferent (indexes (st ∷ more)) × AllWellFormed (by_index (st ∷ more)))
unfolding define insert
define_iff s st more = (to, from)
  where
    to :
        ((out : Spec) × (define s st more ≡ ok out))
        → AllDifferent (indexes (st ∷ more)) × AllWellFormed (by_index (st ∷ more))
    to (out, h) =
        let (states, e, h₁) = >>=-eq-ok (collect ((st.index, st) ∷ []) more) _ h in
        let (sigs, e₂, h₂) = >>=-eq-ok (compile states) _ h₁ in
        let (new, dist) = collect_sound ((st.index, st) ∷ []) more states e in
        let same : ok (by_index (st ∷ more)) ≡ ok states =
          sym (collect_total _ more new dist) ∙ e in
        (
          (((first_apart st more).0 new), dist),
          rw (← ok_inj same) at ((compile_sound states sigs e₂).0),
        )

    from :
        AllDifferent (indexes (st ∷ more)) × AllWellFormed (by_index (st ∷ more))
        → (out : Spec) × (define s st more ≡ ok out)
    from h =
        let e = collect_total ((st.index, st) ∷ []) more ((first_apart st more).1 h.0.0) h.0.1 in
        let (sigs, e₂) = compile_total (by_index (st ∷ more)) h.1 in
        (record s { states = by_index (st ∷ more); signals = sigs }, rw (e, e₂))

-- What `Define` establishes: the table is well formed, and the known signals are those of the
-- transitions and the error rules.
pub record IsCompiled (s : Spec) : Type 0 where
  pub well_formed : AllWellFormed s.states
  pub registered : (x : Signal) → has x s.signals ≡ is_used x s.states

-- The spec that Define returns is well formed, and its known signals are exactly those of the
-- transitions and error rules of its states.
pub define-IsCompiled :
    (s : Spec) (st : State) (more : List State) {out : Spec}
    → define s st more ≡ ok out
    → IsCompiled out
unfolding define
define-IsCompiled s st more h =
    let (states, e, h₁) = >>=-eq-ok (collect (insert st.index st []) more) _ h in
    let (sigs, e₂, h₂) = >>=-eq-ok (compile states) _ h₁ in
    let (wf, reg) = compile_sound states sigs e₂ in
    subst IsCompiled (ok_inj h₂) (record { well_formed = wf; registered = reg })
