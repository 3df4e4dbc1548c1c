-- ===== src/Manager/Adapter.antt =====
-- pkg/manager/controller_proxy.go: the operations on controllers, whose commits are stored as well.
use Prim.Native.String.{String}
use deploykit.Base.{◌≡◌, ◌∙◌, refl, ite, Option, none, some, Bool, true, List, []}
use deploykit.Base.Dict.{lookup, lookup-insert, lookup-erase}
use deploykit.Group.Types.{reply, Proc, ◌>>=◌, ◌>>◌}
use deploykit.Depends.{spec_key, key_dec}
use deploykit.Manager.{
  GlobalSpec, Snapshot, Entry, StoredKey, StoredRecord, StoredSpec, IsRange, load, store, load_from,
  update_spec, remove_spec,
}
use deploykit.Manager.Stored.{IsSnapshot, load_from-range}
use deploykit.Manager.Proxy.{as_leader}
use deploykit.Manager.Commit.{Holds, load-entries}

-- `controller.Operation`, by the values that have a name.
pub data Operation : Type 0 where
  enforce destroy : Operation

-- `controller.Controller`, for objects of a type `O`, plans of a type `P` and searches of a type `Q`.
pub record Controller (W : Type 0) (O : Type 0) (P : Type 0) (Q : Type 0) : Type 0 where
  pub plan : Operation → StoredSpec → Proc W (O × P)
  pub commit : Operation → StoredSpec → Proc W O
  pub describe : Q → Proc W (List O)
  pub free : Q → Proc W (List O)

-- `updateSpec` and `removeSpec`: what is stored, after what an operation makes of it.
abbrev pub edited : String → Operation → StoredSpec → GlobalSpec → GlobalSpec
edited name enforce spec g = update_spec spec name g
edited name destroy spec g = remove_spec spec.kind spec.name g

module _ (range : GlobalSpec → List Entry) {W O P Q : Type 0} (is_leader : W → Bool)
    (S : Snapshot W) (backend : Controller W O P Q) (name : String) where
  unfoldable pub edit_spec : Operation → StoredSpec → Proc W (Unit {0})
  edit_spec op spec = load S >>= (λ stored. store range S (edited name op spec stored))

  unfoldable pub plan : Operation → StoredSpec → Proc W (O × P)
  unfolding as_leader
  plan op spec = as_leader is_leader (backend.plan op spec)

  unfoldable pub commit : Operation → StoredSpec → Proc W O
  unfolding as_leader edit_spec
  commit op spec = as_leader is_leader (edit_spec op spec >> backend.commit op spec)

  unfoldable pub describe : Q → Proc W (List O)
  unfolding as_leader
  describe query = as_leader is_leader (backend.describe query)

  unfoldable pub free : Q → Proc W (List O)
  unfolding as_leader
  free query = as_leader is_leader (backend.free query)

-- The record of a spec as an operation leaves it.
abbrev pub edited_at :
    String
    → Operation
    → StoredSpec
    → (StoredKey → Option StoredRecord)
    → StoredKey
    → Option StoredRecord
edited_at name enforce spec f k =
    ite (key_dec (spec.kind, spec.name) k) (some (record { handler = name; spec = spec })) (f k)
edited_at name destroy spec f k = ite (key_dec (spec.kind, spec.name) k) none (f k)

lookup-edited :
    (name : String) (op : Operation) (spec : StoredSpec) (g : GlobalSpec) (k : StoredKey)
    → lookup k (edited name op spec g) ≡ edited_at name op spec (λ j. lookup j g) k
unfolding update_spec remove_spec
lookup-edited name enforce spec g k = lookup-insert (spec.kind, spec.name) k _ g
lookup-edited name destroy spec g k = lookup-erase (spec.kind, spec.name) k g

module _ (range : GlobalSpec → List Entry) {W O P Q : Type 0} (is_leader : W → Bool)
    (S : Snapshot W) (backend : Controller W O P Q) (name : String) (ranges : IsRange range)
    (saves : IsSnapshot S) where
  -- A leader's commit, once the store takes the specs: the controller is told, in a world whose
  -- store has the change.
  commit-Holds :
      (op : Operation) (spec : StoredSpec) (g : GlobalSpec) {w w' : W}
      → is_leader w ≡ true
      → load S w ≡ (reply g, w)
      → store range S (edited name op spec g) w ≡ (reply tt, w')
      → (commit range is_leader S backend name op spec w ≡ backend.commit op spec w')
        × Holds S w' (edited_at name op spec (λ k. lookup k g))
  unfolding commit as_leader edit_spec store
  commit-Holds op spec g {w} {w'} leads loads stores =
      let entries = range (edited name op spec g) in
      (
        rw (commit, as_leader, leads, edit_spec, loads, stores) refl,
        (
          load_from [] entries,
          load-entries S w' entries (saves.load-save entries w w' stores),
          λ k.
              load_from-range range ranges (edited name op spec g) k
              ∙ lookup-edited name op spec g k,
        ),
      )
