-- ===== src/Group/Rolling/Fuel.antt =====
-- The fuel of `roll` is enough: more of it changes nothing.
use deploykit.Base.{
  ℕ, zero, suc, ◌+◌, ◌<◌, ◌≡◌, refl, Option, none, some, List, [], ◌∷◌, length, arith, Bool-cases,
  inl, inr,
}
use deploykit.Group.Types.{
  Updating, Description, GroupSettings, rolling_update, Reply, failed, reply, Proc, give, follow,
  Plugins, is_self,
}
use deploykit.Group.Scaled.{ScaledGroup, destroy, label_and_list}
use deploykit.Group.Rolling.{
  desired_and_undesired, UpdatingCount, no_counts, after_tick, Wake, tick, halted, Progress,
  count_healthy, wait_until_quiesced, desired_size, min_int, replace_first, roll,
}

module _ {W : Type 0} where
  -- An answer with fewer than `n` wakes left, if it has any.
  abbrev Short : ℕ → Reply (Option (List Wake)) × W → Type 0
  Short n (failed e, w) = Unit
  Short n (reply none, w) = Unit
  Short n (reply (some rest), w) = length rest < n

  Short-follow :
      {A : Type 0} (n : ℕ) (f : A → Proc W (Option (List Wake))) (x : Reply A × W)
      → ((a : A) (w : W) → Short n (f a w))
      → Short n (follow f x)
  Short-follow n f (failed e, w) h = tt
  Short-follow n f (reply a, w) h = h a w

  Short-mono : (n : ℕ) (x : Reply (Option (List Wake)) × W) → Short n x → Short (suc n) x
  Short-mono n (failed e, w) h = tt
  Short-mono n (reply none, w) h = tt
  Short-mono n (reply (some rest), w) h = omega arith

  follow_ext :
      {A B : Type 0} (f f' : A → Proc W B) (x : Reply A × W)
      → ((a : A) (w : W) → f a w ≡ f' a w)
      → follow f x ≡ follow f' x
  follow_ext f f' (failed e, w) h = refl
  follow_ext f f' (reply a, w) h = h a w

  follow-Short :
      {B : Type 0} (n : ℕ) (f f' : Option (List Wake) → Proc W B)
      (x : Reply (Option (List Wake)) × W)
      → Short n x
      → ((w : W) → f none w ≡ f' none w)
      → ((rest : List Wake) (w : W) → length rest < n → f (some rest) w ≡ f' (some rest) w)
      → follow f x ≡ follow f' x
  follow-Short n f f' (failed e, w) s h k = refl
  follow-Short n f f' (reply none, w) s h k = h w
  follow-Short n f f' (reply (some rest), w) s h k = k rest w s

module _ {W : Type 0} (p : Plugins W) (g : ScaledGroup) (updating : Updating)
    (from to : GroupSettings) where
  wait-Short :
      (wakes : List Wake) (expected : ℕ) (counts : UpdatingCount) (w : W)
      → Short (length wakes) (wait_until_quiesced p g updating to expected counts wakes w)
  unfolding wait_until_quiesced
  wait-Short [] expected counts w = tt
  wait-Short (halted ∷ wakes) expected counts w = tt
  wait-Short (tick now ∷ wakes) expected counts w = Short-follow _ _ (label_and_list p g w) (λ l w₁.
      Short-follow _ _ (count_healthy p g (desired_and_undesired to.config_hash l).0 0 w₁)
        (λ n w₂. go (after_tick updating expected now n counts) w₂ (wait-Short wakes expected)))
    where
      go :
          (o : Option UpdatingCount) (w' : W)
          → ((c : UpdatingCount) (v : W)
              → Short (length wakes) (wait_until_quiesced p g updating to expected c wakes v))
          → Short (suc (length wakes)) (
              (elim o as (λ o. Proc W (Option (List Wake))) [
                | none ↦ give (some wakes)
                | some c ↦ wait_until_quiesced p g updating to expected c wakes
              ])
                w')
      go none w' again = omega arith
      go (some c) w' again =
          Short-mono _ (wait_until_quiesced p g updating to expected c wakes w') (again c w')

  replace_first_ext :
      (l : List Description) (again again' : Proc W Progress) (w : W)
      → ((v : W) → again v ≡ again' v)
      → replace_first p g from l again w ≡ replace_first p g from l again' w
  unfolding replace_first
  replace_first_ext [] again again' w h = refl
  replace_first_ext (d ∷ l) again again' w h =
      follow_ext _ _ (destroy p g d rolling_update w)
        (λ a v. elim (Bool-cases (is_self d from)) [ inl q ↦ rw q refl | inr q ↦ rw q (h v) ])

  -- From a fuel above the number of the wakes on, a rolling update comes to the same result: it
  -- ends, fails, or still waits after the last wake, never for lack of fuel.
  roll_fuel :
      (n m : ℕ) (expected : ℕ) (wakes : List Wake) (w : W)
      → length wakes < n
      → length wakes < m
      → roll p g n updating from to expected wakes w ≡ roll p g m updating from to expected wakes w
  unfolding roll
  roll_fuel zero m expected wakes w h k = absurd (omega arith)
  roll_fuel (suc n) zero expected wakes w h k = absurd (omega arith)
  roll_fuel (suc n) (suc m) expected wakes w h k =
      follow-Short (length wakes) _ _
        (wait_until_quiesced p g updating to (min_int expected (desired_size to)) no_counts wakes w)
        (wait-Short wakes _ no_counts w) (λ v. refl)
        (λ rest v lt. follow_ext _ _ (label_and_list p g v) (λ l v'.
          replace_first_ext _ _ _ v'
            (λ u. roll_fuel n m (expected + 1) rest u (omega arith) (omega arith))))
