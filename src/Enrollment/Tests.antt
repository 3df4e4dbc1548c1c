-- ===== src/Enrollment/Tests.antt =====
-- Rounds over a plugin that keeps a list of instances, and the theorem at it.
use Prim.Native.String.{String, [], ◌∷◌, ◌++◌ as ◌<>◌}
use text.Mathlib.TextEquality.{eq_iff}
use text.Mathlib.TextLemmas.{nil-append, cons-append}
use text.Mathlib.TextPositions.{eq_refl}
use mathlib.Core.List.{Memᴰ}
use deploykit.Base.{
  ℕ, suc, ◌+◌, ◌≤◌, ◌≡◌, ◌⊎◌, inl, inr, ap, ◌∙◌, refl, sym, Option, none, some, false, not, ◌&&◌,
  List, [], ◌∷◌, ◌++◌, arith, if◌then◌else◌,
}
use deploykit.Base.Dict.{lookup, insert}
use deploykit.Group.Text.{lt_str, string_dec, string_key}
use deploykit.Group.Types.{Description, Plugins, reply, give, unknown, sort_by, insert_by}
use deploykit.Enrollment.{contains, KeySets, IsLawful, delta}
use deploykit.Enrollment.Keys.{has_key}
use deploykit.Enrollment.Rounds.{
  IsFaithful, without, has_id, plain_enroller, enable, tag_of, sync_settles,
}
use deploykit.Enrollment.Sync.{labels_of, instances, sync, source_id_tag}

abbrev filter_out : List String → List String → List String
filter_out [] b = []
filter_out (k ∷ a) b = if contains k b then filter_out a b else k ∷ filter_out a b

abbrev list_sets : KeySets
list_sets = record {
  Keys = List String;
  new = [];
  add = λ s k. k ∷ s;
  difference = filter_out;
  iter = λ s. s;
}

contains-filter_out :
    (a b : List String) (k : String)
    → contains k (filter_out a b) ≡ (contains k a && not (contains k b))
contains-filter_out [] b k = refl
contains-filter_out (j ∷ a) b k = elim (string_dec j k) [
  | yes same ↦ rw same (ground (arith, eq_refl k, contains-filter_out a b k))
  | no other ↦ ground (arith, eq_iff j k, contains-filter_out a b k)
]

list_sets-IsLawful : IsLawful list_sets
list_sets-IsLawful = record {
  iter-new = refl;
  contains-add = λ s j k. refl;
  contains-difference = contains-filter_out;
}

-- An id that is longer than every id of the list.
abbrev fresh : List Description → String
fresh [] = "x"
fresh (d ∷ list) = d.id <> fresh list

size : String → ℕ
size [] = 0
size (c ∷ s) = suc (size s)

size-append : (s t : String) → size (s <> t) ≡ size s + size t
unfolding size
size-append [] t = rw nil-append (ground arith)
size-append (c ∷ s) t = rw cons-append (ground (arith, size-append s t))

size-fresh : (list : List Description) → 1 ≤ size (fresh list)
unfolding size
size-fresh [] = ground arith
size-fresh (d ∷ list) = ground (arith, size-append d.id (fresh list), size-fresh list)

has_id_long :
    (id : String) (list : List Description) → size (fresh list) ≤ size id → has_id id list ≡ false
has_id_long id [] h = refl
has_id_long id (d ∷ list) h = elim (string_dec d.id id) [
  | yes same ↦ absurd (ground (arith, size-append d.id (fresh list), size-fresh list, ap size same))
  | no other ↦ ground (arith, eq_iff d.id id, size-append d.id (fresh list), has_id_long id list)
]

-- A plugin whose world is the list of its instances.
abbrev list_plugin : Plugins (List Description)
list_plugin = record {
  describe_instances = λ labels properties w. (reply w, w);
  label_instance = λ id labels w. (reply tt, w);
  destroy_instance = λ id context w. (reply tt, without id w);
  provision = λ spec w. (
    reply (fresh w),
    w ++ record { id = fresh w; logical_id = spec.logical_id; tags = spec.tags } ∷ [],
  );
  prepare = λ spec n w. (reply spec, w);
  health_of = λ d w. (reply unknown, w);
  drain = λ d w. (reply tt, w);
}

list_plugin-IsFaithful : IsFaithful list_plugin (λ w. w)
list_plugin-IsFaithful = record {
  lists = λ q w. refl;
  provisions = λ spec w. (fresh w, _, refl, has_id_long (fresh w) w (ground arith), refl);
  destroys = λ id context w. (without id w, refl, refl);
}

abbrev machine : String → Description
machine id = record { id = id; logical_id = none; tags = [] }

abbrev enrollment : String → String → Description
enrollment id source = record { id = id; logical_id = none; tags = (source_id_tag, source) ∷ [] }

-- One source is enrolled, one is not, and one enrollment has lost its source.
abbrev enrolled : List Description
enrolled = enrollment "e1" "a" ∷ enrollment "e2" "gone" ∷ []

abbrev sources : List Description
sources = machine "a" ∷ machine "b" ∷ []

differs :
    delta list_sets sources (λ d. some d.id) enrolled tag_of enable
    ≡ (machine "b" ∷ [], enrollment "e2" "gone" ∷ [])
unfolding delta insert lookup string_dec sort_by insert_by lt_str
differs = refl

-- The labels of the properties are left with the source of the last enrollment, by which the next
-- round lists the enrolled instances.
labels_kept :
    (labels_of (record (plain_enroller "ctl" enable) { labels = some [] }) (machine "b")).1.labels
    ≡ some ((source_id_tag, "b") ∷ ("infrakit.enrollment.name", "ctl") ∷ [])
unfolding labels_of insert string_dec
labels_kept = refl

abbrev OneOfTwo : Description → Type 0
OneOfTwo d = (d ≡ enrollment "e1" "a") ⊎ (d ≡ enrollment "e2" "gone")

one_of_two : (d : Description) → Memᴰ d enrolled → OneOfTwo d
one_of_two d (Memᴰ.head e) = inl e
one_of_two d (Memᴰ.tail (Memᴰ.head e)) = inr e
one_of_two d (Memᴰ.tail (Memᴰ.tail m)) = elim m [ ]

ids_apart : ◌≡◌ {A = String} "e1" "e2" → ⊥
ids_apart x = absurd (cc ((eq_iff "e1" "e2").1 x))

one_key : (d e : Description) → OneOfTwo d → OneOfTwo e → d.id ≡ e.id → tag_of d ≡ tag_of e
one_key d e (inl p) (inl q) h = ap tag_of (p ∙ sym q)
one_key d e (inr p) (inr q) h = ap tag_of (p ∙ sym q)
one_key d e (inl p) (inr q) h =
    absurd
      (ids_apart (sym (ap (λ (c : Description). c.id) p) ∙ (h ∙ ap (λ (c : Description). c.id) q)))
one_key d e (inr p) (inl q) h = absurd (
    ids_apart (sym (ap (λ (c : Description). c.id) q) ∙ (sym h ∙ ap (λ (c : Description). c.id) p)))

one_id :
    (d e : Description) (k : String)
    → OneOfTwo d
    → OneOfTwo e
    → tag_of d ≡ some k
    → tag_of e ≡ some k
    → d.id ≡ e.id
unfolding lookup string_dec
one_id d e k (inl p) (inl q) a b = ap (λ (c : Description). c.id) (p ∙ sym q)
one_id d e k (inr p) (inr q) a b = ap (λ (c : Description). c.id) (p ∙ sym q)
one_id d e k (inl p) (inr q) a b =
    absurd (distinct (sym (ap tag_of p) ∙ (a ∙ (sym b ∙ ap tag_of q))))
  where
    distinct : ◌≡◌ {A = Option String} (some "a") (some "gone") → ⊥
    distinct x = cc
one_id d e k (inr p) (inl q) a b =
    absurd (distinct (sym (ap tag_of p) ∙ (a ∙ (sym b ∙ ap tag_of q))))
  where
    distinct : ◌≡◌ {A = Option String} (some "gone") (some "a") → ⊥
    distinct x = cc

sync_settles_example :
    let round =
      sync list_sets list_plugin (give tt) (instances sources) (plain_enroller "ctl" enable) in
    (w : List Description) × (round enrolled ≡ (reply (plain_enroller "ctl" enable), w))
    × ((k : String) → has_key tag_of k w ≡ has_id k sources)
    × (round w ≡ (reply (plain_enroller "ctl" enable), w))
sync_settles_example =
    sync_settles list_plugin (λ w. w) list_plugin-IsFaithful list_sets list_sets-IsLawful "ctl"
      sources enrolled (λ d e m n. one_key d e (one_of_two d m) (one_of_two e n))
      (λ d e k m n. one_id d e k (one_of_two d m) (one_of_two e n))
