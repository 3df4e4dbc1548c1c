-- ===== src/Manager/Commit.antt =====
-- What the operations on groups leave in the store.
use Prim.Native.String.{String}
use deploykit.Base.{◌≡◌, ◌∙◌, ap, refl, ite, Option, none, some, Bool, true, false, List, []}
use deploykit.Base.Dict.{lookup, lookup-insert, lookup-erase}
use deploykit.Group.Types.{reply, give, follow}
use deploykit.Depends.{spec_key, key_dec}
use deploykit.Manager.{
  GlobalSpec, GroupSpec, Snapshot, Entry, StoredKey, StoredRecord, IsRange, load, store, load_from,
  update_group_spec, remove_group, key_from_group_id, with_properties, or_new,
}
use deploykit.Manager.Stored.{IsSnapshot, load_from-range}
use deploykit.Manager.Proxy.{
  Codec, GroupPlugin, commit_group, destroy_group, free_group, update_config, remove_config,
  as_leader,
}

-- The store of a world, as a function from keys to records.
abbrev pub Holds : {W : Type 0} → Snapshot W → W → (StoredKey → Option StoredRecord) → Type 0
Holds S w f = (g : GlobalSpec) × (load S w ≡ (reply g, w)) × ((k : StoredKey) → lookup k g ≡ f k)

-- The function with the record of a group written, and without it.
abbrev pub written :
    String → GroupSpec → (StoredKey → Option StoredRecord) → StoredKey → Option StoredRecord
written handler grp f k =
    let at = key_from_group_id grp.id in
    ite (key_dec at k) (some (with_properties grp.properties (or_new grp.id handler (f at)))) (f k)

abbrev pub removed : String → (StoredKey → Option StoredRecord) → StoredKey → Option StoredRecord
removed id f k = ite (key_dec (key_from_group_id id) k) none (f k)

-- The plugin leaves the store alone: it answers after a call what it answered before.
pub record IsApart {W D : Type 0} (S : Snapshot W) (plugin : GroupPlugin W D) : Type 0 where
  pub commit_group :
      (grp : GroupSpec) (pretend : Bool) (w : W) (entries : List Entry)
      → S.load w ≡ (reply entries, w)
      → S.load (plugin.commit_group grp pretend w).1
        ≡ (reply entries, (plugin.commit_group grp pretend w).1)
  pub destroy_group :
      (id : String) (w : W) (entries : List Entry)
      → S.load w ≡ (reply entries, w)
      → S.load (plugin.destroy_group id w).1 ≡ (reply entries, (plugin.destroy_group id w).1)
  pub free_group :
      (id : String) (w : W) (entries : List Entry)
      → S.load w ≡ (reply entries, w)
      → S.load (plugin.free_group id w).1 ≡ (reply entries, (plugin.free_group id w).1)

pub load-entries :
    {W : Type 0} (S : Snapshot W) (w : W) (entries : List Entry)
    → S.load w ≡ (reply entries, w)
    → load S w ≡ (reply (load_from [] entries), w)
unfolding load
load-entries S w entries e = ap (follow (λ es. give (load_from [] es))) e

module _ (range : GlobalSpec → List Entry) (codec : Codec) {W D : Type 0} (is_leader : W → Bool)
    (S : Snapshot W) (plugin : GroupPlugin W D) (handler : String) (ranges : IsRange range)
    (saves : IsSnapshot S) (apart : IsApart S plugin) where
  -- Over a store that answers what was written to it, and a group plugin that leaves the store
  -- alone, CommitGroup of a leader whose store takes the specs does what the plugin does then,
  -- and, whatever the plugin answers, leaves the stored specs as a map in which the group's
  -- record has the committed properties, with the handler that it had or else the manager's, and
  -- the other records are as before.
  pub commit_group-Holds :
      (grp : GroupSpec) (g : GlobalSpec) {w w' : W}
      → is_leader w ≡ true
      → load S w ≡ (reply g, w)
      → store range S (update_group_spec grp handler g) w ≡ (reply tt, w')
      → (commit_group range codec is_leader S plugin handler grp false w
          ≡ plugin.commit_group grp false w')
        × Holds S
            (commit_group range codec is_leader S plugin handler grp false w).1
            (written handler grp (λ k. lookup k g))
  unfolding commit_group as_leader update_config store update_group_spec
  commit_group-Holds grp g {w} {w'} leads loads stores =
      let run : commit_group range codec is_leader S plugin handler grp false w
          ≡ plugin.commit_group grp false w' =
        rw (commit_group, as_leader, leads, update_config, loads, stores) refl in
      let entries = range (update_group_spec grp handler g) in
      let after = apart.commit_group grp false w' entries (saves.load-save entries w w' stores) in
      (
        run,
        rw (run) (
          load_from [] entries,
          load-entries S _ entries after,
          λ k.
              load_from-range range ranges (update_group_spec grp handler g) k
              ∙ lookup-insert (key_from_group_id grp.id) k _ g,
        ),
      )

  -- Destroying and freeing.
  destroy_group-Holds :
      (id : String) (g : GlobalSpec) {w w' : W}
      → is_leader w ≡ true
      → load S w ≡ (reply g, w)
      → store range S (remove_group id g) w ≡ (reply tt, w')
      → ((destroy_group range codec is_leader S plugin handler id w ≡ plugin.destroy_group id w')
          × Holds S
              (destroy_group range codec is_leader S plugin handler id w).1
              (removed id (λ k. lookup k g)))
        × ((free_group range codec is_leader S plugin handler id w ≡ plugin.free_group id w')
            × Holds S
                (free_group range codec is_leader S plugin handler id w).1
                (removed id (λ k. lookup k g)))
  unfolding destroy_group free_group as_leader remove_config store remove_group
  destroy_group-Holds id g {w} {w'} leads loads stores =
      let destroys : destroy_group range codec is_leader S plugin handler id w
          ≡ plugin.destroy_group id w' =
        rw (destroy_group, as_leader, leads, remove_config, loads, stores) refl in
      let frees : free_group range codec is_leader S plugin handler id w ≡ plugin.free_group id w' =
        rw (free_group, as_leader, leads, remove_config, loads, stores) refl in
      let entries = range (remove_group id g) in
      let kept = saves.load-save entries w w' stores in
      let left : (k : StoredKey)
          → lookup k (load_from [] entries) ≡ removed id (λ j. lookup j g) k =
        λ k.
          load_from-range range ranges (remove_group id g) k
          ∙ lookup-erase (key_from_group_id id) k g in
      (
        (
          destroys,
          rw (destroys) (
            load_from [] entries,
            load-entries S _ entries (apart.destroy_group id w' entries kept),
            left,
          ),
        ),
        (
          frees,
          rw (frees) (
            load_from [] entries,
            load-entries S _ entries (apart.free_group id w' entries kept),
            left,
          ),
        ),
      )
