-- ===== src/Netfault/Types.antt =====
-- netfault/types.go: modes, address families and execution contexts; the errors of the package,
-- with the results that carry them.
use action_kit.Prelude.{ℕ, Bool, true, false, Text, codes, ◌≡◌, refl, ◌⊎◌, inl, inr}

pub data Mode : Type 0 where
  add delete : Mode

abbrev pub mode_text : Mode → Text
mode_text add = codes "add"
mode_text delete = codes "del"

pub data Family : Type 0 where
  v4 v6 : Family

abbrev pub family_eq : Family → Family → Bool
family_eq v4 v4 = true
family_eq v6 v6 = true
family_eq _ _ = false

pub record ExecutionContext : Type 0 where
  pub experiment_key : Text
  pub experiment_execution_id : ℕ
  pub target_execution_id : Text

pub data Error : Type 0 where
  unknown_family : Error
  too_many_tc_commands : ℕ → Error
  rate_too_low : Text → Error
  newline_in_command : Text → Error
  -- the model's own: a loop has run out of fuel
  out_of_fuel : Error

pub data Result {ℓ} (A : Type ℓ) : Type ℓ where
  ok : A → Result A
  err : Error → Result A

infixl 5 ◌>>=◌ ◌>>◌
abbrev pub ◌>>=◌ {ℓ κ} : {A : Type ℓ} {B : Type κ} → Result A → (A → Result B) → Result B
ok a >>= f = f a
err e >>= f = err e

abbrev pub ◌>>◌ {ℓ κ} : {A : Type ℓ} {B : Type κ} → Result A → Result B → Result B
m >> k = m >>= λ _. k

-- To split on a computed result and keep the equation.
pub Result-cases {ℓ} :
    {A : Type ℓ} (r : Result A) → ((a : A) × (r ≡ ok a)) ⊎ ((e : Error) × (r ≡ err e))
Result-cases (ok a) = inl (a, refl)
Result-cases (err e) = inr (e, refl)
