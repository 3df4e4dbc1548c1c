-- ===== src/Fsm/Types.antt =====
-- pkg/fsm/types.go, errors.go and the constants of instance.go: what a state machine is made of.
use Prim.Native.String.{String}
use deploykit.Base.{if◌then◌else◌, arith, ℕ, ◌≡◌, Option, Bool, true, List}
use deploykit.Base.Int.{ℤ, negsuc, ℤ-discrete}
use deploykit.Base.Dict.{Key, Dict}
use deploykit.Base

-- `Index` and `Signal` are Go `int`s that are compared and never computed with.
abbrev pub Index : Type 0
Index = ℤ

abbrev pub Signal : Type 0
Signal = ℤ

abbrev pub InstanceId : Type 0
InstanceId = ℕ

abbrev pub Tick : Type 0
Tick = ℤ

abbrev pub Time : Type 0
Time = ℤ

instance abbrev pub index_key : Key ℤ
index_key = record { dec_eq = ℤ-discrete }

unfoldable pub pair_dec : Discrete (ℤ × ℤ)
unfolding ℤ-discrete
pair_dec (a, b) (c, d) = elim (ℤ-discrete a c) [
  | yes p ↦ elim (ℤ-discrete b d) [
    | yes q ↦ yes (λ i. (p i, q i))
    | no nq ↦ no (λ e. nq (λ i. (e i).1))
  ]
  | no np ↦ no (λ e. np (λ i. (e i).0))
]

-- `[2]Index`.
instance abbrev pub pair_key : Key (Index × Index)
pair_key = record { dec_eq = pair_dec }

instance abbrev pub id_key : Key ℕ
id_key = record { dec_eq = Base.ℕ_discrete }

-- `interface{}` values are moved and never read, so a value is any number; `none` is `nil`.
abbrev pub Payload : Type 0
Payload = Option (List ℕ)

-- An action reads the instance that it is given (its id and data) and returns nil (`false`) or an
-- error (`true`). It is given how many actions have run before it as well, so that it may answer
-- differently each time. One that panics, or that never returns, is not an action of the model.
abbrev pub Action : Type 0
Action = ℕ → InstanceId → Payload → Bool

pub record Expiry : Type 0 where
  pub ttl : Tick
  pub raise : Signal

pub record Limit : Type 0 where
  pub value : ℤ
  pub raise : Signal

-- A nil `Action` in the map is `none`.
pub record State : Type 0 where
  pub index : Index
  pub transitions : Dict Signal Index
  pub actions : Dict Signal (Option Action)
  pub errors : Dict Signal Index
  pub ttl : Expiry
  pub visit : Limit

-- Two states whose oscillation is limited (flap.go).
pub record Flap : Type 0 where
  pub first : Index
  pub second : Index
  pub count : ℤ
  pub raise : Signal

-- The fields of the errors that name a state or a signal; `no_transitions` keeps the number of
-- states, which is all that its message reads of the spec.
pub data Err : Type 0 where
  duplicate_state : Index → Err
  unknown_state : Index → Err
  unknown_transition : Signal → Index → Err
  unknown_signal : Signal → Index → Err
  unknown_fsm : InstanceId → Err
  nil_action : Signal → Err
  no_transitions : ℕ → Err
  no_such_state : Index → Err

-- A value and a nil error, or an error.
pub data Result (A : Type 0) : Type 0 where
  err : Err → Result A
  ok : A → Result A

infixl 5 ◌>>=◌ ◌>>◌
abbrev pub ◌>>=◌ : {A B : Type 0} → Result A → (A → Result B) → Result B
err problem >>= rest = err problem
ok value >>= rest = rest value

abbrev pub ◌>>◌ : {B : Type 0} → Result (Unit {0}) → Result B → Result B
r >> rest = r >>= (λ done. rest)

-- `if !test { return e }`.
abbrev pub guard : Bool → Err → Result (Unit {0})
guard test problem = if test then ok tt else err problem

pub record Options : Type 0 where
  pub name : String
  pub buffer_size : ℕ
  pub ignore_undefined_states : Bool
  pub ignore_undefined_transitions : Bool
  pub ignore_undefined_signals : Bool

abbrev pub default_buffer_size : ℕ
default_buffer_size = 100

pub default_options : String → Options
default_options name = record {
  name = name;
  buffer_size = default_buffer_size;
  ignore_undefined_states = true;
  ignore_undefined_transitions = true;
  ignore_undefined_signals = true;
}

abbrev pub invalid_state : Index
invalid_state = negsuc 99998

-- Where a chain succeeds, its first step did.
pub >>=-eq-ok :
    {A B : Type 0} (r : Result A) (rest : A → Result B) {out : B}
    → r >>= rest ≡ ok out
    → (value : A) × (r ≡ ok value) × (rest value ≡ ok out)
>>=-eq-ok (ok value) rest e = (value, Base.refl, e)
>>=-eq-ok (err problem) rest e = absurd (cc)

pub guard-eq-ok : (test : Bool) (problem : Err) → guard test problem ≡ ok tt → test ≡ true
guard-eq-ok test problem e = ground arith

pub ok_inj : {A : Type 0} {a b : A} → ok a ≡ ok b → a ≡ b
ok_inj e = cc

pub Result-cases :
    {A : Type 0} (r : Result A)
    → Base.◌⊎◌ ((value : A) × (r ≡ ok value)) ((problem : Err) × (r ≡ err problem))
Result-cases (err problem) = Base.inr (problem, Base.refl)
Result-cases (ok value) = Base.inl (value, Base.refl)
