-- ===== src/Manager/Tests.antt =====
-- A manager over a store that keeps what it is given, the theorems at it, and runs of the worker.
use Prim.Native.String.{String, [], ◌∷◌}
use Prim.Native.Char.{code}
use deploykit.Base.{
  ℕ, zero, suc, ◌+◌, ◌≡◌, ◌≢◌, ◌≤◌, ap, subst, ◌∙◌, sym, refl, ◌↔◌, Option, none, some, Bool, true,
  false, List, [], ◌∷◌, ◌++◌, length, ltb, ◌==◌, if◌then◌else◌, arith,
}
use mathlib.Core.List.{Memᴰ}
use mathlib.Core.Option.{some_inj}
use deploykit.Base.Dict.{lookup, insert, has, erase}
use deploykit.Base.Int.{pos}
use deploykit.Group.Types.{Reply, failed, reply, Proc}
use deploykit.Depends.{spec_key, key_dec}
use deploykit.Group.Text.{string_dec}
use deploykit.Manager.{
  Any, GlobalSpec, GroupSpec, Entry, StoredKey, StoredRecord, StoredSpec, Snapshot, IsRange, load,
  load_from, update_group_spec, ordered_keys, sort_keys, insert_key, store, new_record,
  with_properties,
}
use deploykit.Manager.Stored.{IsSnapshot}
use deploykit.Manager.Proxy.{Codec, GroupPlugin, GroupProperties, commit_group, set_size, size}
use deploykit.Manager.Commit.{Holds, IsApart, written, commit_group-Holds}
use deploykit.Manager.Resize.{IsCodec, size-set_size}
use deploykit.Manager.Exec.{
  BackendOp, Scope, Work, work_n, work_one, send, buffer_size, exec_plugins,
}
use deploykit.Manager.Planned.{exec_plugins_lem, planned, sent}
use deploykit.Group.Text.{lt_str}
use deploykit.Manager.Order.{Ordered, ordered_keys_lem}
use deploykit.Manager.Leading.{
  watch, next_flag, poll_event, watch_lem, poll_all, Alternates, last_or,
}

-- The world is what the store holds.
abbrev memory : Snapshot (List Entry)
memory = record { save = λ entries w. (reply tt, entries); load = λ w. (reply w, w) }

memory-IsSnapshot : IsSnapshot memory
memory-IsSnapshot = record {
  load-save = λ entries w w' e. ap (λ v. (reply v, w')) (sym (ap (λ x. x.1) e));
}

abbrev idle : GroupPlugin (List Entry) (Unit {0})
idle = record {
  commit_group = λ grp pretend w. (reply "done", w);
  describe_group = λ id w. (reply tt, w);
  destroy_group = λ id w. (reply tt, w);
  free_group = λ id w. (reply tt, w);
  destroy_instances = λ id instances w. (reply tt, w);
}

idle-IsApart : IsApart memory idle
idle-IsApart = record {
  commit_group = λ grp pretend w entries e. e;
  destroy_group = λ id w entries e. e;
  free_group = λ id w entries e. e;
}

-- A range over lists in which the first entry of a key counts.
abbrev range : GlobalSpec → List Entry
range [] = []
range ((k, r) ∷ g) = (k, r) ∷ erase k (range g)

module _ (a b : StoredKey) (v : StoredRecord) (m : GlobalSpec) where
  erase_here : a ≡ b → erase b ((a, v) ∷ m) ≡ erase b m
  unfolding erase
  erase_here p = ground arith

  erase_there : a ≢ b → erase b ((a, v) ∷ m) ≡ (a, v) ∷ erase b m
  unfolding erase
  erase_there p = ground arith

  lookup_here : a ≡ b → lookup b ((a, v) ∷ m) ≡ some v
  unfolding lookup
  lookup_here p = ground arith

  lookup_there : a ≢ b → lookup b ((a, v) ∷ m) ≡ lookup b m
  unfolding lookup
  lookup_there p = ground arith

mem-erase :
    (b k : StoredKey) (r : StoredRecord) (m : GlobalSpec)
    → Memᴰ (k, r) (erase b m)
    → (b ≢ k) × Memᴰ (k, r) m
unfolding erase
mem-erase b k r [] h = elim h [ ]
mem-erase b k r ((a, v) ∷ m) h = elim (key_dec a b) [
  | yes p ↦
      let (other, there) = mem-erase b k r m (subst (Memᴰ (k, r)) (erase_here a b v m p) h) in
      (other, Memᴰ.tail there)
  | no p ↦ elim (subst (Memᴰ (k, r)) (erase_there a b v m p) h) [
    | Memᴰ.head e ↦ (λ q. p (sym (q ∙ ap (λ x. x.0) e)), Memᴰ.head e)
    | Memᴰ.tail m' ↦ let (other, there) = mem-erase b k r m m' in (other, Memᴰ.tail there)
  ]
]

mem-erase_other :
    (b k : StoredKey) (r : StoredRecord) (m : GlobalSpec)
    → b ≢ k
    → Memᴰ (k, r) m
    → Memᴰ (k, r) (erase b m)
mem-erase_other b k r [] n h = elim h [ ]
mem-erase_other b k r ((a, v) ∷ m) n h = elim (key_dec a b) [
  | yes p ↦ subst (Memᴰ (k, r)) (sym (erase_here a b v m p)) (elim h [
    | Memᴰ.head e ↦ absurd (n (sym p ∙ sym (ap (λ x. x.0) e)))
    | Memᴰ.tail h' ↦ mem-erase_other b k r m n h'
  ])
  | no p ↦ subst (Memᴰ (k, r)) (sym (erase_there a b v m p)) (elim h [
    | Memᴰ.head e ↦ Memᴰ.head e
    | Memᴰ.tail h' ↦ Memᴰ.tail (mem-erase_other b k r m n h')
  ])
]

range-IsRange : IsRange range
unfolding lookup
range-IsRange [] k r = (λ h. absurd (elim h [ ]), λ e. absurd (cc))
range-IsRange ((b, v) ∷ g) k r = elim (key_dec b k) [
  | yes p ↦ (
    λ h. lookup_here b k v g p ∙ elim h [
      | Memᴰ.head e ↦ ap some (sym (ap (λ x. x.1) e))
      | Memᴰ.tail h' ↦ absurd ((mem-erase b k r (range g) h').0 p)
    ],
    λ e.
        let same : v ≡ r = some_inj.0 (sym (lookup_here b k v g p) ∙ e) in
        Memᴰ.head (λ i. (sym p i, sym same i)),
  )
  | no p ↦ (
    λ h. lookup_there b k v g p ∙ elim h [
      | Memᴰ.head e ↦ absurd (p (sym (ap (λ x. x.0) e)))
      | Memᴰ.tail h' ↦ (range-IsRange g k r).0 (mem-erase b k r (range g) h').1
    ],
    λ e. Memᴰ.tail (
        mem-erase_other b k r (range g) p
          ((range-IsRange g k r).1 (sym (lookup_there b k v g p) ∙ e))),
  )
]

-- Properties without logical ids, as a size in strokes, a mark, and the rest.
abbrev strokes : ℕ → String → String
strokes zero rest = "." ∷ rest
strokes (suc n) rest = "x" ∷ strokes n rest

abbrev add_stroke : Reply GroupProperties → Reply GroupProperties
add_stroke (failed e) = failed e
add_stroke (reply p) = reply (record p { size = suc p.size })

abbrev read_strokes : String → Reply GroupProperties
read_strokes [] = failed "no mark"
read_strokes (c ∷ s) =
    let more = read_strokes s in
    if code c == 46
    then reply (record { size = 0; logical_ids = []; rest = s })
    else add_stroke more

abbrev read_properties : Option Any → Reply GroupProperties
read_properties none = failed "no properties"
read_properties (some s) = read_strokes s

abbrev strokes_codec : Codec
strokes_codec = record { parse = read_properties; print = λ p. strokes p.size p.rest }

read_strokes-strokes :
    (n : ℕ) (s : String)
    → read_strokes (strokes n s) ≡ reply (record { size = n; logical_ids = []; rest = s })
read_strokes-strokes zero s = refl
read_strokes-strokes (suc n) s = ap add_stroke (read_strokes-strokes n s)

strokes_codec-IsCodec : IsCodec strokes_codec
strokes_codec-IsCodec p none_set =
    read_strokes-strokes p.size p.rest
    ∙ ap (λ ids. reply (record { size = p.size; logical_ids = ids; rest = p.rest })) (sym none_set)

-- The group "web", of three instances.
abbrev web : GroupProperties
web = record { size = 3; logical_ids = []; rest = "" }

abbrev web_spec : GroupSpec
web_spec = record { id = "web"; properties = some (strokes 3 "") }

abbrev web_record : StoredRecord
web_record = with_properties (some (strokes 3 "")) (new_record "web" "group")

abbrev stored : GlobalSpec
stored = (("group", "web"), web_record) ∷ []

abbrev always : List Entry → Bool
always w = true

commit_group-Holds_example :
    (commit_group range strokes_codec always memory idle "group" web_spec false []
      ≡ idle.commit_group web_spec false stored)
    × Holds memory
        (commit_group range strokes_codec always memory idle "group" web_spec false []).1
        (written "group" web_spec (λ k. lookup k []))
unfolding load load_from store update_group_spec lookup insert key_dec string_dec erase
commit_group-Holds_example =
    commit_group-Holds range strokes_codec always memory idle "group" range-IsRange
      memory-IsSnapshot idle-IsApart web_spec [] {w = []} {w' = stored} refl refl refl

abbrev resized : GlobalSpec
resized = (("group", "web"), with_properties (some (strokes 5 "")) (new_record "web" "group")) ∷ []

size-set_size_example :
    (set_size range strokes_codec always memory idle "group" "web" (pos 5) stored
      ≡ (reply tt, resized))
    × (size range strokes_codec always memory idle "group" "web" resized ≡ (reply (pos 5), resized))
unfolding load load_from store update_group_spec lookup insert key_dec string_dec erase
size-set_size_example =
    size-set_size range strokes_codec always memory idle "group" range-IsRange memory-IsSnapshot
      idle-IsApart strokes_codec-IsCodec "web" (pos 5) stored web_record web {w = stored}
      {w₁ = resized} {w₂ = resized} {text = "done"} (omega arith, omega arith) refl refl refl refl
      refl refl refl refl

-- The plugins that can be reached.
abbrev everywhere : Scope
everywhere = record { controller = λ name. true; group = λ name. true }

abbrev of_kind : String → StoredSpec
of_kind kind = record { kind = kind; name = "n"; properties = none }

-- A pool, a group and an enrollment, which are visited in this order.
abbrev three : GlobalSpec
three =
    (("enrollment", "e"), record { handler = "enroll"; spec = of_kind "enrollment" })
    ∷ (("group", "web"), web_record)
    ∷ (("pool", "p"), record { handler = "pools"; spec = of_kind "pool" })
    ∷ []

ordered_keys_lem_example :
    Ordered (ordered_keys range three)
    × ((k : StoredKey) → Memᴰ k (ordered_keys range three) ↔ (has k three ≡ true))
ordered_keys_lem_example = ordered_keys_lem range three range-IsRange

ordered_three :
    ordered_keys range three ≡ ("pool", "p") ∷ ("group", "web") ∷ ("enrollment", "e") ∷ []
unfolding ordered_keys sort_keys insert_key erase key_dec string_dec lt_str
ordered_three = refl

-- A queue that holds an operation of the proxy.
abbrev describing : List BackendOp
describing = BackendOp.proxied "describe" ∷ []

exec_plugins_lem_example :
    let ops =
      sent everywhere Work.commit true
        (planned everywhere Work.commit three (ordered_keys range three)) in
    let end =
      exec_plugins range everywhere Work.commit true three
        (record { ops = describing; blocked = false }) in
    (end.0 ≡ reply tt)
    × ((end.1 ≡ record { ops = describing ++ ops; blocked = false })
        ↔ (length describing + length ops ≤ buffer_size))
    × (end.1.blocked ≡ ltb buffer_size (length describing + length ops))
exec_plugins_lem_example =
    exec_plugins_lem everywhere Work.commit true range three describing (omega arith)

abbrev answers : List (Option Bool)
answers = some true ∷ some true ∷ none ∷ none ∷ some true ∷ some false ∷ []

watch_lem_example :
    ((watch false (poll_all answers)).0 ≡ false)
    × (last_or false (watch false (poll_all answers)).1 ≡ false)
    × Alternates false (watch false (poll_all answers)).1
watch_lem_example = watch_lem false answers

-- Two polls that say the same, or two errors, are told once.
watch-answers : (watch false (poll_all answers)).1 ≡ true ∷ false ∷ true ∷ false ∷ []
unfolding watch next_flag poll_event
watch-answers = refl

-- An operation whose plugin fails until it was called twice; the world counts the calls.
abbrev flaky : BackendOp → Proc ℕ (Unit {0})
flaky op calls = (if ltb calls 2 then failed "unreachable" else reply tt, calls + 1)

abbrev commit_web : BackendOp
commit_web = BackendOp.on_group Work.commit "group" web_spec

abbrev free_web : BackendOp
free_web = BackendOp.on_group Work.free "group" web_spec

-- A commit that fails is tried again behind the free that the loss of the leadership sent: the group
-- is freed, and committed after that.
retry_after_loss :
    (work_n flaky 2 (1, record { ops = commit_web ∷ free_web ∷ []; blocked = false })).1.ops
    ≡ commit_web ∷ []
unfolding work_n work_one send
retry_after_loss = refl
