-- ===== src/Group/Rolling/Safety.antt =====
-- What a rolling update may destroy: whatever the other calls of plugins keep, it keeps.
use deploykit.Base.{
  ℕ, zero, suc, ◌+◌, ◌≡◌, Option, none, some, Bool, true, false, List, [], ◌∷◌, if◌then◌else◌,
  length, Bool-cases, inl, inr, All,
}
use deploykit.Base.Dict.{Dict}
use Prim.Native.String.{String}
use deploykit.Group.Text.{string_key}
use deploykit.Group.Types.{
  Updating, Description, GroupSettings, rolling_update, Reply, failed, reply, Proc, give, follow,
  logged_reply, ◌>>=◌, ◌>>◌, Plugins, is_self, less_by_id, insert_by, sort_by,
}
use deploykit.Group.Scaled.{
  ScaledGroup, destroy, finish_destroy, after_drain, is_skip_drain, health, list, label, label_all,
  label_and_list, needs_label, instance_needs_label,
}
use deploykit.Group.Rolling.{
  is_desired, desired_and_undesired, UpdatingCount, no_counts, after_tick, Wake, tick, halted,
  Progress, waiting, count_healthy, add_healthy, wait_until_quiesced, replace_first, roll,
  run_rolling_update,
}

-- What a predicate of descriptions says of a list it says of the sorted list.
module _ (P : Description → Type 0) (less : Description → Description → Bool) where
  All-insert_by :
      (x : Description) (l : List Description) → P x → All P l → All P (insert_by less x l)
  unfolding insert_by
  All-insert_by x [] h hs = (h, tt)
  All-insert_by x (y ∷ l) h hs = elim (Bool-cases (less y x)) [
    | inl p ↦ rw (p, insert_by) (hs.0, All-insert_by x l h hs.1)
    | inr p ↦ rw (p, insert_by) (h, hs)
  ]

  All-sort_by : (l : List Description) → All P l → All P (sort_by less l)
  unfolding sort_by
  All-sort_by [] hs = tt
  All-sort_by (x ∷ l) hs = All-insert_by x (sort_by less l) hs.0 (All-sort_by l hs.1)

-- None of the undesired has the hash.
undesired_lem :
    (hash : String) (instances : List Description)
    → All (λ d. is_desired hash d ≡ false) (desired_and_undesired hash instances).1
unfolding desired_and_undesired
undesired_lem hash [] = tt
undesired_lem hash (inst ∷ instances) = elim (Bool-cases (is_desired hash inst)) [
  | inl p ↦ rw (p, desired_and_undesired) (undesired_lem hash instances)
  | inr p ↦ rw (p, desired_and_undesired) (p, undesired_lem hash instances)
]

module _ {W : Type 0} (I : W → Type 0) where
  -- A computation that leaves a world in which `I` holds where it finds one.
  abbrev pub Preserves : {A : Type 0} → Proc W A → Type 0
  Preserves proc = (w : W) → I w → I (proc w).1

  Preserves-follow :
      {A B : Type 0} (f : A → Proc W B) (x : Reply A × W)
      → I x.1
      → ((a : A) → Preserves (f a))
      → I (follow f x).1
  Preserves-follow f (failed e, w) h k = h
  Preserves-follow f (reply a, w) h k = k a w h

  Preserves-logged :
      {A B : Type 0} (b : B) (f : A → B) (x : Reply A × W) → I x.1 → I (logged_reply b f x).1
  Preserves-logged b f (failed e, w) h = h
  Preserves-logged b f (reply a, w) h = h

module _ {W : Type 0} (I : W → Type 0) (p : Plugins W) (g : ScaledGroup) (from to : GroupSettings)
    (described : (tags : Dict String String) (all : Bool)
      → Preserves I (p.describe_instances tags all))
    (labelled : (id : String) (tags : Dict String String) → Preserves I (p.label_instance id tags))
    (asked : (d : Description) → Preserves I (p.health_of d))
    (drained : (d : Description) → Preserves I (p.drain d))
    (destroyed : (d : Description)
      → is_desired to.config_hash d ≡ false
      → is_self d g.settings ≡ false
      → Preserves I (p.destroy_instance d.id rolling_update)) where
  list-Preserves : Preserves I (list p g)
  unfolding list
  list-Preserves w h =
      Preserves-follow I _ (p.describe_instances g.member_tags true w) (described _ _ w h)
        (λ found w' h'. h')

  label_all-Preserves :
      (tags : Dict String String) (l : List Description) → Preserves I (label_all p g tags l)
  unfolding label_all
  label_all-Preserves tags [] w h = h
  label_all-Preserves tags (d ∷ l) w h = elim (Bool-cases (instance_needs_label d)) [
    | inl q ↦
        rw (q, label_all)
          (Preserves-follow I _ (p.label_instance d.id tags w) (labelled d.id tags w h)
            (λ a. label_all-Preserves tags l))
    | inr q ↦ rw (q, label_all) (label_all-Preserves tags l w h)
  ]

  label_and_list-Preserves : Preserves I (label_and_list p g)
  unfolding label_and_list label
  label_and_list-Preserves w h = Preserves-follow I _ (list p g w) (list-Preserves w h) relist
    where
      relist :
          (l : List Description)
          → Preserves I (if needs_label l then (label p g >> list p g) else give l)
      relist l w' h' = elim (Bool-cases (needs_label l)) [
        | inl q ↦ rw q (
            Preserves-follow I _ (label p g w')
              (Preserves-follow I _ (p.describe_instances g.member_tags false w')
                (described _ _ w' h') (label_all-Preserves _))
              (λ a. list-Preserves))
        | inr q ↦ rw q h'
      ]

  count_healthy-Preserves : (l : List Description) (n : ℕ) → Preserves I (count_healthy p g l n)
  unfolding count_healthy health
  count_healthy-Preserves [] n w h = h
  count_healthy-Preserves (d ∷ l) n w h =
      Preserves-follow I _ (health p g d w) (Preserves-logged I _ _ (p.health_of d w) (asked d w h))
        (λ a. count_healthy-Preserves l (add_healthy p g a n))

  wait-Preserves :
      (updating : Updating) (expected : ℕ) (counts : UpdatingCount) (wakes : List Wake)
      → Preserves I (wait_until_quiesced p g updating to expected counts wakes)
  unfolding wait_until_quiesced
  wait-Preserves updating expected counts [] w h = h
  wait-Preserves updating expected counts (halted ∷ wakes) w h = h
  wait-Preserves updating expected counts (tick now ∷ wakes) w h =
      Preserves-follow I _ (label_and_list p g w) (label_and_list-Preserves w h) (λ l w' h'.
        Preserves-follow I _ (count_healthy p g (desired_and_undesired to.config_hash l).0 0 w')
          (count_healthy-Preserves _ 0 w' h')
          (λ n.
            go (after_tick updating expected now n counts)
              (λ c. wait-Preserves updating expected c wakes)))
    where
      go :
          (o : Option UpdatingCount)
          → ((c : UpdatingCount)
              → Preserves I (wait_until_quiesced p g updating to expected c wakes))
          → Preserves I (elim o [
            | none ↦ give (some wakes)
            | some counts' ↦ wait_until_quiesced p g updating to expected counts' wakes
          ])
      go none again w h = h
      go (some c) again w h = again c w h

  finish_destroy-Preserves :
      (d : Description)
      → is_desired to.config_hash d ≡ false
      → Preserves I (finish_destroy p g d rolling_update)
  unfolding finish_destroy
  finish_destroy-Preserves d u w h = elim (Bool-cases (is_self d g.settings)) [
    | inl q ↦ rw (q, finish_destroy) h
    | inr q ↦ rw (q, finish_destroy) (destroyed d u q w h)
  ]

  destroy-Preserves :
      (d : Description)
      → is_desired to.config_hash d ≡ false
      → Preserves I (destroy p g d rolling_update)
  unfolding destroy
  destroy-Preserves d u w h = elim (Bool-cases (is_skip_drain g)) [
    | inl q ↦ rw (q, destroy) (finish_destroy-Preserves d u w h)
    | inr q ↦ rw (q, destroy) (go (p.drain d w) (drained d w h))
  ]
    where
      go : (x : Reply (Unit {0}) × W) → I x.1 → I (after_drain p g d rolling_update x).1
      go (failed e, w') h' = h'
      go (reply a, w') h' = finish_destroy-Preserves d u w' h'

  replace_first-Preserves :
      (l : List Description) (again : Proc W Progress)
      → All (λ d. is_desired to.config_hash d ≡ false) l
      → Preserves I again
      → Preserves I (replace_first p g from l again)
  unfolding replace_first
  replace_first-Preserves [] again hs k w h = h
  replace_first-Preserves (d ∷ l) again hs k w h =
      Preserves-follow I _ (destroy p g d rolling_update w) (destroy-Preserves d hs.0 w h)
        (λ a w' h'. elim (Bool-cases (is_self d from)) [ inl q ↦ rw q h' | inr q ↦ rw q (k w' h') ])

  roll-Preserves :
      (fuel : ℕ) (updating : Updating) (expected : ℕ) (wakes : List Wake)
      → Preserves I (roll p g fuel updating from to expected wakes)
  unfolding roll
  roll-Preserves zero updating expected wakes w h = h
  roll-Preserves (suc fuel) updating expected wakes w h =
      Preserves-follow I _ (wait_until_quiesced p g updating to _ no_counts wakes w)
        (wait-Preserves updating _ no_counts wakes w h)
        (go (roll-Preserves fuel updating (expected + 1)))
    where
      go :
          ((rest : List Wake) → Preserves I (roll p g fuel updating from to (expected + 1) rest))
          → (left : Option (List Wake))
          → Preserves I (elim left [
            | none ↦ give waiting
            | some rest ↦ label_and_list p g >>= (λ instances.
                replace_first p g from
                  (sort_by
                    (less_by_id (some from))
                    (desired_and_undesired to.config_hash instances).1)
                  (roll p g fuel updating from to (expected + 1) rest))
          ])
      go again none w h = h
      go again (some rest) w h =
          Preserves-follow I _ (label_and_list p g w) (label_and_list-Preserves w h) (λ l.
            replace_first-Preserves _ _
              (All-sort_by (λ d. is_desired to.config_hash d ≡ false) (less_by_id (some from)) _
                (undesired_lem to.config_hash l))
              (again rest))

  -- Any property of the infrastructure that listing, labelling, health checks and drains keep,
  -- and that the destruction of an instance keeps if that instance lacks the hash of the new
  -- configuration and is not the controller's own, is kept by a rolling update, over any ticks.
  pub run_rolling_update-Preserves :
      (updating : Updating) (wakes : List Wake) (w : W)
      → I w
      → I (run_rolling_update p g updating from to wakes w).1
  unfolding run_rolling_update
  run_rolling_update-Preserves updating wakes w h =
      Preserves-follow I _ (label_and_list p g w) (label_and_list-Preserves w h)
        (λ l. roll-Preserves (suc (length wakes)) updating _ wakes)
