-- ===== src/Manager/Exec.antt =====
-- pkg/manager/manager.go: the queue of backend operations, what a change of the leadership puts into
-- it, and the worker that takes from it.
use Prim.Native.String.{String}
use deploykit.Base.{
  ℕ, zero, suc, ◌-◌, Option, none, some, Bool, true, false, ◌||◌, List, [], ◌∷◌, ◌++◌, length, ltb,
  if◌then◌else◌,
}
use deploykit.Group.Text.{eqb_str}
use deploykit.Group.Types.{Reply, failed, reply, Proc, give, ◌>>=◌}
use deploykit.Manager.{
  GlobalSpec, GroupSpec, Snapshot, Entry, StoredKey, StoredRecord, StoredSpec, load,
  update_group_spec, visit,
}

-- What is done to the specs: `doCommitAll` or `doFreeAll`.
pub data Work : Type 0 where
  commit free : Work

-- `backendOp`, on a spec at its controller, on a group at its plugin, or of the group proxy.
pub data BackendOp : Type 0 where
  on_spec : Work → String → StoredSpec → BackendOp
  on_group : Work → String → GroupSpec → BackendOp
  proxied : String → BackendOp

-- What the operation answers beside its error: whether it is tried again.
abbrev pub retries : BackendOp → Bool
retries (on_spec work handler spec) = true
retries (on_group work handler spec) = true
retries (proxied name) = false

-- `backendOps`, a channel with a buffer. The worker is the only one that receives from it, so that a
-- send of its own to a full buffer never returns; what stands after it is not reached.
pub record Queue : Type 0 where
  pub ops : List BackendOp
  pub blocked : Bool

abbrev pub buffer_size : ℕ
buffer_size = 100

unfoldable pub send : BackendOp → Queue → Queue
send op q =
    if q.blocked
    then q
    else (if ltb (length q.ops) buffer_size
        then record q { ops = q.ops ++ op ∷ [] }
        else record q { blocked = true })

unfoldable pub send_all : List BackendOp → Queue → Queue
send_all [] q = q
send_all (op ∷ ops) q = send_all ops (send op q)

-- The queue, and `deferredOps`.
pub record Exec : Type 0 where
  pub queue : Queue
  pub deferred : List BackendOp

-- The kinds of the first case.
abbrev pub is_controller : String → Bool
is_controller kind =
    eqb_str kind "ingress"
    || eqb_str kind "enrollment"
    || eqb_str kind "gc"
    || eqb_str kind "resource"
    || eqb_str kind "inventory"
    || eqb_str kind "pool"

-- The connections that the scope makes, by the name of the plugin.
pub record Scope : Type 0 where
  pub controller : String → Bool
  pub group : String → Bool

-- The function that `execPlugins` visits with. The errors of the cases are variables of their own, so
-- that the visit gets none of them.
abbrev pub exec_group : Work → Bool → StoredKey → StoredRecord → Exec → Exec
exec_group work requeue k r e = elim r.spec.properties [
  | none ↦ e
  | some p ↦
      let op = on_group work r.handler (record { id = k.1; properties = some p }) in
      record {
        queue = send op e.queue;
        deferred = if requeue then e.deferred ++ op ∷ [] else e.deferred;
      }
]

unfoldable pub exec_step : Scope → Work → Bool → StoredKey → StoredRecord → Exec → Exec
exec_step scope work requeue k r e =
    if is_controller k.0
    then (if scope.controller r.handler
        then record e { queue = send (on_spec work r.handler r.spec) e.queue }
        else e)
    else (if eqb_str k.0 "group"
        then (if scope.group r.handler then exec_group work requeue k r e else e)
        else e)

unfoldable pub exec_one : Scope → Work → Bool → StoredKey → StoredRecord → Proc Exec (Unit {0})
unfolding exec_step
exec_one scope work requeue k r e = (reply tt, exec_step scope work requeue k r e)

-- The end of `execPlugins`.
abbrev pub send_deferred : Reply (Unit {0}) × Exec → Reply (Unit {0}) × Queue
send_deferred (result, e) = (result, send_all e.deferred e.queue)

module _ (range : GlobalSpec → List Entry) (scope : Scope) where
  unfoldable pub exec_plugins : Work → Bool → GlobalSpec → Proc Queue (Unit {0})
  unfolding exec_one send_all visit
  exec_plugins work requeue config q =
      send_deferred
        (visit range (exec_one scope work requeue) config (record { queue = q; deferred = [] }))

  unfoldable pub do_commit_all : GlobalSpec → Proc Queue (Unit {0})
  unfolding exec_plugins
  do_commit_all = exec_plugins commit true

  unfoldable pub do_free_all : GlobalSpec → Proc Queue (Unit {0})
  unfolding exec_plugins
  do_free_all = exec_plugins free false

-- A world with the queue beside it.
abbrev pub beside : {W Q A : Type 0} → W → Reply A × Q → Reply A × (W × Q)
beside w (r, q) = (r, (w, q))

abbrev pub aside : {W Q A : Type 0} → Q → Reply A × W → Reply A × (W × Q)
aside q (r, w) = (r, (w, q))

abbrev pub queued : {W Q A : Type 0} → Proc Q A → Proc (W × Q) A
queued p (w, q) = beside w (p q)

abbrev pub outer : {W Q A : Type 0} → Proc W A → Proc (W × Q) A
outer p (w, q) = aside q (p w)

-- The loop of `onAssumeLeadership` over what is left of the retries: another attempt where the last
-- one failed.
unfoldable pub try_again :
    {V : Type 0} → ℕ → Proc V (Unit {0}) → Reply (Unit {0}) × V → Reply (Unit {0}) × V
try_again n p (reply tt, v) = (reply tt, v)
try_again zero p (failed e, v) = (failed e, v)
try_again (suc n) p (failed e, v) = try_again n p (p v)

module _ (range : GlobalSpec → List Entry) (scope : Scope) {W : Type 0} (S : Option (Snapshot W))
    (load_metadata : W → W) (inspect_groups : Proc W (List GroupSpec)) (handler : String) where
  -- `nil` where there is no store.
  unfoldable pub load_and_commit_specs : Proc (W × Queue) (Unit {0})
  unfolding do_commit_all
  load_and_commit_specs = elim S [
    | none ↦ give tt
    | some s ↦ outer (load s) >>= (λ config. queued (do_commit_all range scope config))
  ]

  -- `retries` is `LeaderCommitSpecsRetries`; an error of the metadata is only logged.
  unfoldable pub on_assume_leadership : ℕ → Proc (W × Queue) (Unit {0})
  unfolding load_and_commit_specs try_again
  on_assume_leadership retries (w, q) =
      try_again (retries - 1) load_and_commit_specs (load_and_commit_specs (load_metadata w, q))

  -- `getCurrentState`.
  unfoldable pub collect_specs : GlobalSpec → List GroupSpec → GlobalSpec
  collect_specs global [] = global
  collect_specs global (spec ∷ specs) = collect_specs (update_group_spec spec handler global) specs

  unfoldable pub on_lost_leadership : Proc (W × Queue) (Unit {0})
  unfolding do_free_all collect_specs
  on_lost_leadership =
      outer inspect_groups >>= (λ specs. queued (do_free_all range scope (collect_specs [] specs)))

-- The worker's case of an operation: one that fails and is to be tried again is sent again.
module _ {W : Type 0} (operation : BackendOp → Proc W (Unit {0})) where
  abbrev pub requeue : BackendOp → Queue → Reply (Unit {0}) × W → W × Queue
  requeue op q (reply tt, w) = (w, q)
  requeue op q (failed e, w) = (w, if retries op then send op q else q)

  unfoldable pub work_one : W × Queue → W × Queue
  work_one (w, q) = elim q.ops [
    | [] ↦ (w, q)
    | op ∷ ops ↦ requeue op (record q { ops = ops }) (operation op w)
  ]

  unfoldable pub work_n : ℕ → W × Queue → W × Queue
  unfolding work_one
  work_n zero v = v
  work_n (suc n) v = work_n n (work_one v)
