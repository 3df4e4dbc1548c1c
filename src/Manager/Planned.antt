-- ===== src/Manager/Planned.antt =====
-- Which operations a change of the leadership puts into the queue, in which order, and how many the
-- queue takes.
use deploykit.Base.{
  ◌+◌, ◌≡◌, ◌≤◌, ◌<◌, ◌∙◌, ap, ap₂, refl, sym, ◌↔◌, none, some, Bool, true, false, List, [], ◌∷◌,
  ◌++◌, length, ltb, if◌then◌else◌, Bool-cases, Option-cases, inl, inr, arith, length-append,
  dec_lt, dec_le,
}
use deploykit.Base.Dict.{lookup}
use deploykit.Group.Text.{eqb_str}
use deploykit.Group.Types.{reply}
use deploykit.Depends.{spec_key}
use deploykit.Manager.{
  GlobalSpec, Entry, StoredKey, StoredRecord, ordered_keys, visit, visit_keys, or_zero,
}
use deploykit.Manager.Exec.{
  Work, BackendOp, Queue, Exec, Scope, buffer_size, send, send_all, exec_step, exec_one,
  exec_plugins, is_controller, send_deferred,
}
use BackendOp.{on_spec, on_group, proxied}
use mathlib.Core.List.{append-nil, append_assoc}

-- The operation on a group that has properties.
abbrev on_properties : Work → StoredKey → StoredRecord → List BackendOp
on_properties work k r = elim r.spec.properties [
  | none ↦ []
  | some p ↦ on_group work r.handler (record { id = k.1; properties = some p }) ∷ []
]

-- The operations of an entry: one where its plugin can be reached, and none for another kind.
abbrev pub planned_one : Scope → Work → StoredKey → StoredRecord → List BackendOp
planned_one scope work k r =
    if is_controller k.0
    then (if scope.controller r.handler then on_spec work r.handler r.spec ∷ [] else [])
    else (if eqb_str k.0 "group"
        then (if scope.group r.handler then on_properties work k r else [])
        else [])

abbrev pub planned : Scope → Work → GlobalSpec → List StoredKey → List BackendOp
planned scope work g [] = []
planned scope work g (k ∷ keys) =
    planned_one scope work k (or_zero (lookup k g)) ++ planned scope work g keys

-- The operations on groups among them.
abbrev pub of_groups : List BackendOp → List BackendOp
of_groups [] = []
of_groups (on_group work handler spec ∷ ops) = on_group work handler spec ∷ of_groups ops
of_groups (on_spec work handler spec ∷ ops) = of_groups ops
of_groups (proxied name ∷ ops) = of_groups ops

send_all-append :
    (xs ys : List BackendOp) (q : Queue) → send_all (xs ++ ys) q ≡ send_all ys (send_all xs q)
unfolding send_all
send_all-append [] ys q = refl
send_all-append (x ∷ xs) ys q = send_all-append xs ys (send x q)

-- The queue that takes operations while there is room for them.
abbrev pub open_queue : List BackendOp → Queue
open_queue ops = record { ops = ops; blocked = false }

send-open_queue :
    (op : BackendOp) (l : List BackendOp)
    → length l < buffer_size
    → send op (open_queue l) ≡ open_queue (l ++ op ∷ [])
unfolding send
send-open_queue op l h = ground arith

send_full :
    (op : BackendOp) (l : List BackendOp)
    → ¬ (length l < buffer_size)
    → (send op (open_queue l)).blocked ≡ true
unfolding send
send_full op l h = ground arith

-- A full buffer blocks for good.
send_all-blocked : (ops : List BackendOp) (q : Queue) → q.blocked ≡ true → send_all ops q ≡ q
unfolding send_all send
send_all-blocked [] q h = refl
send_all-blocked (op ∷ ops) q h =
    ap (send_all ops) {x = send op q} (rw (send, h) refl) ∙ send_all-blocked ops q h

send_all-fits :
    (ops l : List BackendOp)
    → length l + length ops ≤ buffer_size
    → send_all ops (open_queue l) ≡ open_queue (l ++ ops)
unfolding send_all
send_all-fits [] l fits = ap open_queue (sym (append-nil l))
send_all-fits (op ∷ ops) l fits =
    ap (send_all ops) (send-open_queue op l (omega arith))
    ∙ send_all-fits ops (l ++ op ∷ []) (omega (arith, length-append l (op ∷ [])))
    ∙ ap open_queue (append_assoc l (op ∷ []) ops)

send_all-full :
    (ops l : List BackendOp)
    → length l ≤ buffer_size
    → buffer_size < length l + length ops
    → (send_all ops (open_queue l)).blocked ≡ true
unfolding send_all
send_all-full [] l before full = absurd (omega arith)
send_all-full (op ∷ ops) l before full = elim (dec_lt (length l) buffer_size) [
  | yes p ↦
      ap (λ q. (send_all ops q).blocked) (send-open_queue op l p)
      ∙ send_all-full ops (l ++ op ∷ []) (omega (arith, length-append l (op ∷ [])))
          (omega (arith, length-append l (op ∷ [])))
  | no p ↦
      let stuck : (send op (open_queue l)).blocked ≡ true = send_full op l p in
      ap (λ q. q.blocked) (send_all-blocked ops (send op (open_queue l)) stuck) ∙ stuck
]

module _ (scope : Scope) (work : Work) (requeue : Bool) where
  abbrev later : List BackendOp → List BackendOp
  later ops = if requeue then of_groups ops else []

  of_groups-append : (xs ys : List BackendOp) → of_groups (xs ++ ys) ≡ of_groups xs ++ of_groups ys
  of_groups-append [] ys = refl
  of_groups-append (on_group v h r ∷ xs) ys = ap (λ l. on_group v h r ∷ l) (of_groups-append xs ys)
  of_groups-append (on_spec v h r ∷ xs) ys = of_groups-append xs ys
  of_groups-append (proxied n ∷ xs) ys = of_groups-append xs ys

  later-append : (xs ys : List BackendOp) → later (xs ++ ys) ≡ later xs ++ later ys
  later-append xs ys = ground (arith, of_groups-append xs ys)

  exec_step_lem :
      (k : StoredKey) (r : StoredRecord) (e : Exec)
      → exec_step scope work requeue k r e ≡ record {
        queue = send_all (planned_one scope work k r) e.queue;
        deferred = e.deferred ++ later (planned_one scope work k r);
      }
  unfolding exec_step send_all
  exec_step_lem k r e = elim (Bool-cases (is_controller k.0)) [
    | inl p ↦
        rw (exec_step, p)
          (elim (Bool-cases (scope.controller r.handler)) [
            | inl q ↦ rw (q) (ground (arith, append-nil e.deferred))
            | inr q ↦ rw (q) (ground (arith, append-nil e.deferred))
          ])
    | inr p ↦
        rw (exec_step, p)
          (elim (Bool-cases (eqb_str k.0 "group")) [
            | inl q ↦ rw (q) (elim (Bool-cases (scope.group r.handler)) [
              | inl g ↦ rw (g) (elim (Option-cases r.spec.properties) [
                | inl h ↦ rw (h) (ground (arith, append-nil e.deferred))
                | inr (a, h) ↦ rw (h) (ground (arith, append-nil e.deferred))
              ])
              | inr g ↦ rw (g) (ground (arith, append-nil e.deferred))
            ])
            | inr q ↦ rw (q) (ground (arith, append-nil e.deferred))
          ])
  ]

  -- The visit: what it sends, and what it keeps for the end.
  visit_keys_lem :
      (g : GlobalSpec) (keys : List StoredKey) (e : Exec)
      → visit_keys (exec_one scope work requeue) g keys e ≡ (
        reply tt,
        record {
          queue = send_all (planned scope work g keys) e.queue;
          deferred = e.deferred ++ later (planned scope work g keys);
        },
      )
  unfolding visit_keys exec_one send_all
  visit_keys_lem g [] e = ground (arith, append-nil e.deferred)
  visit_keys_lem g (k ∷ keys) e =
      let r = or_zero (lookup k g) in
      let ops = planned_one scope work k r in
      let rest = planned scope work g keys in
      ap (visit_keys (exec_one scope work requeue) g keys) (exec_step_lem k r e)
      ∙ visit_keys_lem g keys
          (record { queue = send_all ops e.queue; deferred = e.deferred ++ later ops })
      ∙ ap₂ (λ q d. (reply tt, record { queue = q; deferred = d }))
          (sym (send_all-append ops rest e.queue))
          (append_assoc e.deferred (later ops) (later rest)
            ∙ ap (λ l. e.deferred ++ l) (sym (later-append ops rest)))

  -- All that a change of the leadership sends: an operation for each entry, and then, where they are
  -- requeued, those on groups once more.
  abbrev pub sent : List BackendOp → List BackendOp
  sent ops = ops ++ later ops

  run-exec_plugins :
      (range : GlobalSpec → List Entry) (g : GlobalSpec) (q : Queue)
      → exec_plugins range scope work requeue g q
        ≡ (reply tt, send_all (sent (planned scope work g (ordered_keys range g))) q)
  unfolding exec_plugins visit
  run-exec_plugins range g q =
      let ops = planned scope work g (ordered_keys range g) in
      ap send_deferred
        (visit_keys_lem g (ordered_keys range g) (record { queue = q; deferred = [] }))
      ∙ ap (λ x. (reply tt, x)) (sym (send_all-append ops (later ops) q))

  -- To a queue that is not over its buffer, execPlugins sends an operation for each entry whose
  -- plugin is reached, of a kind that it knows and with properties if it is a group, in the
  -- order of the visit, and then, where they are requeued, those on groups once more, if and
  -- only if the buffer has room for all of them; otherwise it blocks the worker for good. It
  -- never returns an error.
  pub exec_plugins_lem :
      (range : GlobalSpec → List Entry) (g : GlobalSpec) (l : List BackendOp)
      → length l ≤ buffer_size
      → let ops = sent (planned scope work g (ordered_keys range g)) in
        let end = exec_plugins range scope work requeue g (open_queue l) in
        (end.0 ≡ reply tt)
        × ((end.1 ≡ open_queue (l ++ ops)) ↔ (length l + length ops ≤ buffer_size))
        × (end.1.blocked ≡ ltb buffer_size (length l + length ops))
  exec_plugins_lem range g l room =
      let ops = sent (planned scope work g (ordered_keys range g)) in
      rw (run-exec_plugins range g (open_queue l))
        (elim (dec_le (length l + length ops) buffer_size) [
          | yes p ↦
              let fits = send_all-fits ops l p in
              (refl, (λ e. p, λ h. fits), ap (λ q. q.blocked) fits ∙ ground arith)
          | no p ↦
              let full = send_all-full ops l room (omega arith) in
              (
                refl,
                (λ e. absurd (cc (sym full ∙ ap (λ q. q.blocked) e)), λ h. absurd (p h)),
                full ∙ ground arith,
              )
        ])
