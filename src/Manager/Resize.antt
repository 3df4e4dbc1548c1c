-- ===== src/Manager/Resize.antt =====
-- The size that is set is the size that is read.
use Prim.Native.String.{String}
use deploykit.Base.{
  ◌≡◌, ◌∙◌, ap, subst, refl, Option, some, Bool, true, false, List, [], ◌<◌, ◌≤◌, ◌^◌, arith,
}
use deploykit.Base.Dict.{lookup}
use deploykit.Base.Int.{ℤ, pos, negsuc, pos_part, neg_part}
use deploykit.Group.Types.{reply}
use deploykit.Depends.{spec_key}
use deploykit.Manager.{
  GlobalSpec, GroupSpec, Snapshot, Entry, StoredRecord, IsRange, load, store, update_group_spec,
  get_group_spec, key_from_group_id, with_properties, StoredKey,
}
use deploykit.Manager.Stored.{IsSnapshot}
use deploykit.Manager.Commit.{Holds, IsApart, commit_group-Holds, written}
use deploykit.Manager.Proxy.{
  Codec, GroupPlugin, GroupProperties, to_uint, to_int, commit_group, set_size, size, resize,
  load_group_spec, as_leader,
}

-- The decoder reads what the encoder wrote of properties without logical ids.
abbrev pub IsCodec : Codec → Type 0
IsCodec codec =
    (p : GroupProperties) → p.logical_ids ≡ [] → codec.parse (some (codec.print p)) ≡ reply p

-- A number of 64 bits with a sign.
abbrev pub IsInt : ℤ → Type 0
IsInt n = (pos_part n < 2 ^ 63) × (neg_part n ≤ 2 ^ 63)

to_int-to_uint : (n : ℤ) → IsInt n → to_int (to_uint n) ≡ n
to_int-to_uint (pos n) h = ground arith
to_int-to_uint (negsuc n) h = ground arith

written_own :
    (handler : String) (grp : GroupSpec) (f : StoredKey → Option StoredRecord) (r : StoredRecord)
    → f (key_from_group_id grp.id) ≡ some r
    → written handler grp f (key_from_group_id grp.id) ≡ some (with_properties grp.properties r)
written_own handler grp f r e = ground arith

module _ (range : GlobalSpec → List Entry) (codec : Codec) {W D : Type 0} (is_leader : W → Bool)
    (S : Snapshot W) (plugin : GroupPlugin W D) (handler : String) (ranges : IsRange range)
    (saves : IsSnapshot S) (apart : IsApart S plugin) (codes : IsCodec codec) where
  size-Holds :
      (id : String) (w : W) (f : StoredKey → Option StoredRecord) (r : StoredRecord)
      (parsed : GroupProperties)
      → Holds S w f
      → is_leader w ≡ true
      → f (key_from_group_id id) ≡ some r
      → codec.parse r.spec.properties ≡ reply parsed
      → parsed.logical_ids ≡ []
      → size range codec is_leader S plugin handler id w ≡ (reply (to_int parsed.size), w)
  unfolding size as_leader load_group_spec get_group_spec
  size-Holds id w f r parsed (g, loads, same) leads e parses none_set =
      let found : lookup (key_from_group_id id) g ≡ some r = same (key_from_group_id id) ∙ e in
      rw (size, as_leader, leads, load_group_spec, loads, get_group_spec, found, parses, none_set)
        refl

  -- Over such a store and such a plugin, where properties without logical ids are decoded as
  -- they were encoded: SetSize of a leader to any number of 64 bits succeeds for a stored group
  -- without logical ids, where the store and the plugin take the commit, and Size reads that
  -- number afterwards, where the manager still leads.
  pub size-set_size :
      (id : String) (n : ℤ) (g : GlobalSpec) (r : StoredRecord) (parsed : GroupProperties)
      {w w₁ w₂ : W} {text : String}
      → IsInt n
      → is_leader w ≡ true
      → load S w ≡ (reply g, w)
      → lookup (key_from_group_id id) g ≡ some r
      → codec.parse r.spec.properties ≡ reply parsed
      → parsed.logical_ids ≡ []
      → let spec : GroupSpec = record {
        id = id;
        properties = some (codec.print (record parsed { size = to_uint n }));
      } in
        store range S (update_group_spec spec handler g) w ≡ (reply tt, w₁)
        → plugin.commit_group spec false w₁ ≡ (reply text, w₂)
        → is_leader w₂ ≡ true
        → (set_size range codec is_leader S plugin handler id n w ≡ (reply tt, w₂))
          × (size range codec is_leader S plugin handler id w₂ ≡ (reply n, w₂))
  unfolding set_size size as_leader load_group_spec get_group_spec resize
  size-set_size id n g r parsed {w} {w₁} {w₂} {text} fits leads loads found parses none_set stores
        commits still =
      let new : GroupProperties = record parsed { size = to_uint n } in
      let spec : GroupSpec = record { id = id; properties = some (codec.print new) } in
      let done =
        commit_group-Holds range codec is_leader S plugin handler ranges saves apart spec g leads
          loads stores in
      let commit : commit_group range codec is_leader S plugin handler spec false w
          ≡ (reply text, w₂) =
        done.0 ∙ commits in
      let kept : Holds S w₂ (written handler spec (λ k. lookup k g)) =
        subst (λ x. Holds S x.1 (written handler spec (λ k. lookup k g))) commit done.1 in
      (
        rw
            (
              set_size, as_leader, leads, load_group_spec, loads, get_group_spec, found, parses,
              resize, none_set, commit,
            )
            refl,
        size-Holds id w₂ (written handler spec (λ k. lookup k g))
              (with_properties (some (codec.print new)) r) new kept still
              (written_own handler spec (λ k. lookup k g) r found) (codes new none_set) none_set
            ∙ ap (λ k. (reply k, w₂)) (to_int-to_uint n fits),
      )
