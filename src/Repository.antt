-- ===== src/Repository.antt =====
-- messages/src/utils/timeoutedrepository.h: elements that wait for a removal until a time limit. The
-- time of a call is an argument, and times and durations are in the clock's ticks. The functions
-- `removed` and `timeouted` that the element's type supplies are arguments; they may throw. The
-- callbacks hold no reference to the repository, so it is no part of their state.
pub mod Entries
pub mod Expiry
use secure_dialogues.Common.{
  ℕ, ◌+◌, Bool, true, false, Option, none, some, List, [], ◌∷◌, ltb, if◌then◌else◌, is_some,
}
use secure_dialogues.Common.Maps.{Key, find, insert, erase, emplace}
use secure_dialogues.Common.Result.{Result, ok, throw, Prog}

pub record StoredElement {ℓ} (T : Type ℓ) : Type ℓ where
  pub element : T
  pub valid_to : ℕ

pub record Repository {ℓ κ} (T : Type ℓ) (K : Type κ) : Type (ℓ ⊔ κ) where
  pub default_timeout : ℕ
  pub check_period : ℕ
  pub values : List (K × StoredElement T)

unfoldable pub make {ℓ κ} : {T : Type ℓ} {K : Type κ} → ℕ → ℕ → Repository T K
make timeout check = record { default_timeout = timeout; check_period = check; values = [] }

abbrev pub make_stored {ℓ} : {T : Type ℓ} → T → ℕ → StoredElement T
make_stored obj valid = record { element = obj; valid_to = valid }

module _ {ℓ κ} {T : Type ℓ} {K : Type κ} ⦃o : Key K⦄ where
  unfoldable pub store : Repository T K → T → K → ℕ → ℕ → Repository T K × Bool
  store r obj key timeout now =
      if is_some (find key r.values)
      then (r, false)
      else (record r { values = emplace key (make_stored obj (now + timeout)) r.values }, true)

  unfoldable pub store_default : Repository T K → T → K → ℕ → Repository T K × Bool
  unfolding store
  store_default r obj key now = store r obj key r.default_timeout now

  module _ {μ} {W : Type μ} (removed timeouted : T → Prog W (Unit {0})) where
    -- `removed(element); mValues.erase(it)`: a throw skips the second.
    abbrev pub erase_after :
        Repository T K → K → Result (Unit {0}) × W → (Result Bool × W) × Repository T K
    erase_after r k (ok _, w) = ((ok true, w), record r { values = erase k r.values })
    erase_after r k (throw e, w) = ((throw e, w), r)

    abbrev pub remove_found :
        Repository T K → K → Option (StoredElement T) → W → (Result Bool × W) × Repository T K
    remove_found r k none w = ((ok false, w), r)
    remove_found r k (some s) w = erase_after r k (removed s.element w)

    unfoldable pub remove : Repository T K → K → W → (Result Bool × W) × Repository T K
    remove r k w = remove_found r k (find k r.values) w

    -- `timeouted(element); mValues.erase(rm)` and the rest of the loop, which a throw leaves.
    abbrev pub erase_expired :
        K × StoredElement T
        → List (K × StoredElement T)
        → (W → (Result (Unit {0}) × W) × List (K × StoredElement T))
        → Result (Unit {0}) × W
        → (Result (Unit {0}) × W) × List (K × StoredElement T)
    erase_expired entry rest next (ok _, w) = next w
    erase_expired entry rest next (throw e, w) = ((throw e, w), entry ∷ rest)

    abbrev pub keep_entry :
        K × StoredElement T
        → (Result (Unit {0}) × W) × List (K × StoredElement T)
        → (Result (Unit {0}) × W) × List (K × StoredElement T)
    keep_entry entry (out, rest) = (out, entry ∷ rest)

    unfoldable pub check_values :
        ℕ → List (K × StoredElement T) → W → (Result (Unit {0}) × W) × List (K × StoredElement T)
    check_values now [] w = ((ok tt, w), [])
    check_values now ((k, s) ∷ rest) w = elim (ltb now s.valid_to) [
      | true ↦ keep_entry (k, s) (check_values now rest w)
      | false ↦ erase_expired (k, s) rest (check_values now rest) (timeouted s.element w)
    ]

    unfoldable pub check_in_thread :
        Repository T K → ℕ → W → (Result (Unit {0}) × W) × Repository T K
    unfolding check_values
    check_in_thread r now w =
        let (out, values) = check_values now r.values w in (out, record r { values = values })
