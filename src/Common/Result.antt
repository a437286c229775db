-- ===== src/Common/Result.antt =====
-- Fallible code that changes a state: a call returns a value or throws, and what it changed before
-- the throw stays changed.
use mathlib.Core.Path.{◌≡◌, refl}
use mathlib.Core.Logic.{◌⊎◌, inl, inr}

-- The kinds that a `catch` clause of the program tells apart.
pub data Exception : Type 0 where
  runtime_error invalid_dialog_action out_of_range range_error : Exception
  disconnected not_authorized storage_error : Exception

pub data Result {ℓ} (A : Type ℓ) : Type ℓ where
  ok : A → Result A
  throw : Exception → Result A

abbrev pub Prog {ℓ κ} : Type ℓ → Type κ → Type (ℓ ⊔ κ)
Prog W A = W → Result A × W

abbrev pub resume {ℓ κ} : {W : Type ℓ} {A B : Type κ} → (A → Prog W B) → Result A × W → Result B × W
resume f (ok a, w) = f a w
resume f (throw e, w) = (throw e, w)

infixl 5 ◌>>=◌ ◌>>◌
abbrev pub ◌>>=◌ {ℓ κ} : {W : Type ℓ} {A B : Type κ} → Prog W A → (A → Prog W B) → Prog W B
◌>>=◌ m f w = resume f (m w)

abbrev pub ◌>>◌ {ℓ κ} : {W : Type ℓ} {A B : Type κ} → Prog W A → Prog W B → Prog W B
◌>>◌ m k w = resume (λ _. k) (m w)

abbrev pub return {ℓ κ} : {W : Type ℓ} {A : Type κ} → A → Prog W A
return a w = (ok a, w)

abbrev pub raise {ℓ κ} : {W : Type ℓ} {A : Type κ} → Exception → Prog W A
raise e w = (throw e, w)

-- `try { m } catch (std::exception& e) { handler(e) }`.
abbrev pub recover {ℓ κ} :
    {W : Type ℓ} {A : Type κ} → (Exception → Prog W A) → Result A × W → Result A × W
recover handler (ok a, w) = (ok a, w)
recover handler (throw e, w) = handler e w

abbrev pub catch {ℓ κ} : {W : Type ℓ} {A : Type κ} → Prog W A → (Exception → Prog W A) → Prog W A
catch m handler w = recover handler (m w)

-- The state after a call, whether it returned or threw.
abbrev pub state_after {ℓ κ} : {W : Type ℓ} {A : Type κ} → Result A × W → W
state_after r = r.1

pub Result-cases {ℓ} :
    {A : Type ℓ} (r : Result A) → ((a : A) × (r ≡ ok a)) ⊎ ((e : Exception) × (r ≡ throw e))
Result-cases (ok a) = inl (a, refl)
Result-cases (throw e) = inr (e, refl)
