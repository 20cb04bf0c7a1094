-- ===== src/Core/Errors.antt =====
-- crates/rollout-core/src/errors.rs, and the `Result` and `?` of the code that returns it.
-- The text of a message is its fixed part: values that are formatted into it are left out.
use Prim.Native.String.{String}
use rollout.Prelude.{ℕ, ◌≡◌, refl, Option, none, some}

pub data RetryHint : Type 0 where
  never : RetryHint
  after : ℕ → RetryHint
  backoff : ℕ → ℕ → RetryHint

pub data RecoverableError : Type 0 where
  throttled : RetryHint → RecoverableError
  transient : String → RetryHint → RecoverableError
  preempted : RetryHint → RecoverableError

pub data FatalError : Type 0 where
  config_invalid : String → FatalError
  schema_violation : String → FatalError
  plugin_contract : String → String → FatalError
  internal : String → FatalError

pub data CoreError : Type 0 where
  recoverable : RecoverableError → CoreError
  fatal : FatalError → CoreError

pub data Result {ℓ} (T : Type ℓ) : Type ℓ where
  err : CoreError → Result T
  ok : (value : T) → Result T

-- `ok_or_else(|| Fatal(Internal { msg }))`
abbrev pub or_internal {ℓ} : {A : Type ℓ} → String → Option A → Result A
or_internal msg none = err (fatal (internal msg))
or_internal msg (some a) = ok a

-- The `?` operator: what follows a call runs on its value, and is left out after an error.
infixl 5 ◌>>=◌
abbrev pub ◌>>=◌ {ℓ κ} : {S : Type ℓ} {T : Type κ} → Result S → (S → Result T) → Result T
err failure >>= then = err failure
ok value >>= then = then value

pub >>=-eq-ok {ℓ κ} :
    {S : Type ℓ} {T : Type κ} (call : Result S) (then : S → Result T) {t : T}
    → (call >>= then) ≡ ok t
    → (s : S) × (call ≡ ok s) × (then s ≡ ok t)
>>=-eq-ok (err failure) then h = cc
>>=-eq-ok (ok s) then h = (s, refl, h)

pub ok-injective {ℓ} : {A : Type ℓ} (a b : A) → ok a ≡ ok b → a ≡ b
ok-injective a b h = cc
