-- ===== src/Common/Defs.antt =====
-- Values of a dynamic language, and exceptions as values.
use Prim.Native.Nat.{ℕ}
use Prim.Native.String.{String}
use mathlib.Core.Path.{◌≡◌, refl}
use mathlib.Core.Logic.{◌⊎◌, inl, inr}
use mathlib.Core.Bool.{Bool}
use mathlib.Core.List.{List}

-- A JSON-like Python value. `atom` stands for a value of any other type (a float, a date), by its
-- type's name and its text.
mutual
  pub data Value : Type 0 where
    null : Value
    bool : Bool → Value
    int : ℕ → Value
    neg_int : ℕ → Value
    str : String → Value
    atom : String → String → Value
    obj : Members → Value
    arr : Elements → Value

  pub data Members : Type 0 where
    no_member : Members
    member : String → Value → Members → Members

  pub data Elements : Type 0 where
    no_element : Elements
    element : Value → Elements → Elements

-- A dict with string keys, in insertion order.
abbrev pub Record : Type 0
Record = List (String × Value)

-- Python's exceptions, as far as the program raises or catches them. `node_error` is one that a
-- node's body or another call that the program does not implement raises: its class and its text.
pub data Error : Type 0 where
  key_error : String → Error
  attribute_error : String → Error
  value_error : String → Error
  type_error : String → Error
  timeout_error : Error
  runtime_error : String → Error
  validation_error : String → Error
  ir_validation_error : String → Error
  capability_error : String → Error
  plugin_load_error : String → Error
  replay_error : String → Error
  checkpoint_error : String → Error
  exception_group : String → Error
  node_error : String → String → Error

-- `type(exc).__name__`
pub class_name : Error → String
class_name (key_error _) = "KeyError"
class_name (attribute_error _) = "AttributeError"
class_name (value_error _) = "ValueError"
class_name (type_error _) = "TypeError"
class_name timeout_error = "TimeoutError"
class_name (runtime_error _) = "StargraphRuntimeError"
class_name (validation_error _) = "ValidationError"
class_name (ir_validation_error _) = "IRValidationError"
class_name (capability_error _) = "CapabilityError"
class_name (plugin_load_error _) = "PluginLoadError"
class_name (replay_error _) = "ReplayError"
class_name (checkpoint_error _) = "CheckpointError"
class_name (exception_group _) = "ExceptionGroup"
class_name (node_error name _) = name

-- A call that may raise.
pub data Result {ℓ} (A : Type ℓ) : Type ℓ where
  ok : A → Result A
  err : Error → Result A

infixl 5 ◌>>=◌
abbrev pub ◌>>=◌ {ℓ κ} : {A : Type ℓ} {B : Type κ} → Result A → (A → Result B) → Result B
ok a >>= f = f a
err e >>= f = err e

-- A bind that succeeds has run both its parts.
pub >>=-eq-ok {ℓ κ} :
    {A : Type ℓ} {B : Type κ} (r : Result A) (next : A → Result B) {v : B}
    → (r >>= next) ≡ ok v
    → (x : A) × (r ≡ ok x) × (next x ≡ ok v)
>>=-eq-ok (err e) next eq = cc
>>=-eq-ok (ok x) next eq = (x, refl, eq)

pub Result-cases {ℓ} :
    {A : Type ℓ} (r : Result A) → ((x : A) × (r ≡ ok x)) ⊎ ((e : Error) × (r ≡ err e))
Result-cases (ok x) = inl (x, refl)
Result-cases (err e) = inr (e, refl)
