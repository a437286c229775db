-- ===== src/Common/Maps.antt =====
-- `std::map`: a list of pairs in the order of the keys.
use mathlib.Core.Path.{◌≡◌, refl}
use mathlib.Core.Logic.{◌↔◌, inl, inr}
use mathlib.Core.Bool.{Bool, true, false, ◌&&◌, ◌||◌}
use mathlib.Core.Option.{Option, none, some}
use mathlib.Core.List.{List, [], ◌∷◌}
use Prim.Native.Nat.{ℕ}
use native.Mathlib.Omega.{arith}
use secure_dialogues.Common.Tests.{ltb, ◌==◌ as nat_eq, if◌then◌else◌, Bool-cases, Option-cases}
use secure_dialogues.Common.Texts.{Text, text_eq, text_eq_iff}

-- What `std::map` asks of its keys: `operator<`, and the equality that it stands for.
pub record Key {ℓ} (K : Type ℓ) : Type ℓ where
  pub eq : K → K → Bool
  pub lt : K → K → Bool
  pub eq_iff : (a b : K) → (eq a b ≡ true) ↔ (a ≡ b)

-- The order of `std::string`.
unfoldable pub text_lt : Text → Text → Bool
text_lt [] [] = false
text_lt [] (y ∷ ys) = true
text_lt (x ∷ xs) [] = false
text_lt (x ∷ xs) (y ∷ ys) = ltb x y || ((nat_eq x y) && text_lt xs ys)

instance abbrev pub text_key : Key Text
text_key = record { eq = text_eq; lt = text_lt; eq_iff = text_eq_iff }

-- The order of `std::pair`.
abbrev pub pair_eq : Text × ℕ → Text × ℕ → Bool
pair_eq (s, m) (t, n) = text_eq s t && nat_eq m n

abbrev pub pair_lt : Text × ℕ → Text × ℕ → Bool
pair_lt (s, m) (t, n) = text_lt s t || (text_eq s t && ltb m n)

pub pair_eq_iff : (a b : Text × ℕ) → (pair_eq a b ≡ true) ↔ (a ≡ b)
pair_eq_iff (s, m) (t, n) = ground (arith, text_eq_iff s t)

instance abbrev pub pair_key : Key (Text × ℕ)
pair_key = record { eq = pair_eq; lt = pair_lt; eq_iff = pair_eq_iff }

abbrev pub keep_found {κ} : {V : Type κ} → Option V → V → V
keep_found none v = v
keep_found (some w) v = w

module _ {ℓ κ} {K : Type ℓ} {V : Type κ} ⦃o : Key K⦄ where
  unfoldable pub find : K → List (K × V) → Option V
  find k [] = none
  find k ((j, v) ∷ m) = if o.eq j k then some v else find k m

  -- `m[k] = v`.
  unfoldable pub insert : K → V → List (K × V) → List (K × V)
  insert k v [] = (k, v) ∷ []
  insert k v ((j, w) ∷ m) =
      if o.eq j k
      then (k, v) ∷ m
      else if o.lt k j
      then (k, v) ∷ (j, w) ∷ m
      else (j, w) ∷ insert k v m

  -- `m.emplace(k, v)`: a key that is there keeps its value.
  unfoldable pub emplace : K → V → List (K × V) → List (K × V)
  emplace k v m = elim (find k m) [ none ↦ insert k v m | some _ ↦ m ]

  unfoldable pub erase : K → List (K × V) → List (K × V)
  erase k [] = []
  erase k ((j, v) ∷ m) = if o.eq j k then erase k m else (j, v) ∷ erase k m

  pub find-insert :
      (k j : K) (v : V) (m : List (K × V))
      → find j (insert k v m) ≡ (if o.eq k j then some v else find j m)
  unfolding find insert
  find-insert k j v [] = refl
  find-insert k j v ((i, w) ∷ m) =
      ground (arith, o.eq_iff k j, o.eq_iff i k, o.eq_iff i j, find-insert k j v m)

  pub find-erase :
      (k j : K) (m : List (K × V)) → find j (erase k m) ≡ (if o.eq k j then none else find j m)
  unfolding find erase
  find-erase k j [] = ground arith
  find-erase k j ((i, w) ∷ m) =
      ground (arith, o.eq_iff k j, o.eq_iff i k, o.eq_iff i j, find-erase k j m)

  pub find-emplace :
      (k j : K) (v : V) (m : List (K × V))
      → find j (emplace k v m) ≡ (if o.eq k j then some (keep_found (find k m) v) else find j m)
  unfolding emplace
  find-emplace k j v m = elim (Option-cases (find k m)) [
    | inl e ↦ rw (e, emplace) (find-insert k j v m)
    | inr (w, e) ↦
        rw (e, emplace)
          (elim (Bool-cases (o.eq k j)) [
            | inl same ↦ rw same (ground (arith, o.eq_iff k j))
            | inr other ↦ rw other
          ])
  ]
