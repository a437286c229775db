-- ===== src/Repository/Expiry.antt =====
-- What the periodic check does to the entries.
use secure_dialogues.Common.{ℕ, ◌≡◌, refl, List, [], ◌∷◌, ltb, if◌then◌else◌, Bool-cases, inl, inr}
use secure_dialogues.Common.Maps.{Key}
use secure_dialogues.Common.Result.{ok, Prog}
use secure_dialogues.Repository.{Repository, StoredElement, check_values, check_in_thread}

module _ {ℓ κ} {T : Type ℓ} {K : Type κ} where
  -- The entries that are still valid, and the elements of the others, in the order of the keys.
  pub live : ℕ → List (K × StoredElement T) → List (K × StoredElement T)
  live now [] = []
  live now ((k, s) ∷ rest) = if ltb now s.valid_to then (k, s) ∷ live now rest else live now rest

  pub expired : ℕ → List (K × StoredElement T) → List T
  expired now [] = []
  expired now ((k, s) ∷ rest) =
      if ltb now s.valid_to then expired now rest else s.element ∷ expired now rest

-- The state after the calls of a function on each element in turn.
pub call_each {ℓ μ} : {T : Type ℓ} {W : Type μ} → (T → W → W) → List T → W → W
call_each f [] w = w
call_each f (x ∷ xs) w = call_each f xs (f x w)

module _ {ℓ κ μ} {T : Type ℓ} {K : Type κ} ⦃o : Key K⦄ {W : Type μ}
    (removed timeouted : T → Prog W (Unit {0})) (effect : T → W → W)
    (returns : (x : T) (w : W) → timeouted x w ≡ (ok tt, effect x w)) where
  check_values_lem :
      (now : ℕ) (m : List (K × StoredElement T)) (w : W)
      → check_values removed timeouted now m w
        ≡ ((ok tt, call_each effect (expired now m) w), live now m)
  unfolding check_values live expired call_each
  check_values_lem now [] w = refl
  check_values_lem now ((k, s) ∷ rest) w = elim (Bool-cases (ltb now s.valid_to)) [
    | inl still ↦ rw (still, check_values) (rw (check_values_lem now rest w) refl)
    | inr over ↦
        rw (over, check_values)
          (rw (returns s.element w) (check_values_lem now rest (effect s.element w)))
  ]

  -- While `timeouted` returns, one check calls it once for each element whose time is over, in the
  -- order of the keys, and keeps exactly the other entries.
  pub check_in_thread_lem :
      (r : Repository T K) (now : ℕ) (w : W)
      → check_in_thread removed timeouted r now w ≡ (
        (ok tt, call_each effect (expired now r.values) w),
        record r { values = live now r.values },
      )
  unfolding check_in_thread
  check_in_thread_lem r now w = rw (check_values_lem now r.values w)
