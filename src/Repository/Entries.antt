-- ===== src/Repository/Entries.antt =====
-- What `store` and `remove` do to the entries.
use secure_dialogues.Common.{
  ℕ, ◌+◌, ◌≡◌, refl, true, false, none, some, arith, if◌then◌else◌, inl, inr, Option-cases,
  Bool-cases, is_some,
}
use secure_dialogues.Common.Maps.{Key, find, erase, find-emplace, find-erase, keep_found}
use secure_dialogues.Common.Result.{ok, throw, Prog, Exception}
use secure_dialogues.Repository.{Repository, StoredElement, make_stored, store, remove}

module _ {ℓ κ} {T : Type ℓ} {K : Type κ} ⦃o : Key K⦄ where
  -- `store` answers true exactly if the key is free. Then the key holds the element, valid for the
  -- time given; otherwise, and at all other keys, the entries are as they were.
  pub find-store :
      (r : Repository T K) (obj : T) (key j : K) (timeout now : ℕ)
      → ((store r obj key timeout now).1 ≡ (if is_some (find key r.values) then false else true))
        × (find j (store r obj key timeout now).0.values ≡ (
            if o.eq key j
            then some (keep_found (find key r.values) (make_stored obj (now + timeout)))
            else find j r.values))
  unfolding store
  find-store r obj key j timeout now = elim (Option-cases (find key r.values)) [
    | inl e ↦
        rw (e, store) (refl, rw (find-emplace key j (make_stored obj (now + timeout)) r.values, e))
    | inr (w, e) ↦
        rw (e, store)
          (
            refl,
            elim (Bool-cases (o.eq key j)) [
              | inl same ↦ rw same (ground (arith, o.eq_iff key j))
              | inr other ↦ rw other
            ],
          )
  ]

  module _ {μ} {W : Type μ} (removed timeouted : T → Prog W (Unit {0})) where
    remove_missing :
        (r : Repository T K) (k : K) (w : W)
        → find k r.values ≡ none
        → remove removed timeouted r k w ≡ ((ok false, w), r)
    unfolding remove
    remove_missing r k w e = rw (e, remove) refl

    remove_returns :
        (r : Repository T K) (k : K) (w w' : W) (s : StoredElement T)
        → find k r.values ≡ some s
        → removed s.element w ≡ (ok tt, w')
        → remove removed timeouted r k w ≡ ((ok true, w'), record r { values = erase k r.values })
    unfolding remove
    remove_returns r k w w' s e c = rw (e, remove) (rw c refl)

    -- Where `removed` throws on the element of the key, `remove` throws the same and keeps every entry,
    -- that of the key included: the element is then still there for a later `remove` or the check.
    pub remove_throws :
        (r : Repository T K) (k : K) (w w' : W) (s : StoredElement T) (e : Exception)
        → find k r.values ≡ some s
        → removed s.element w ≡ (throw e, w')
        → remove removed timeouted r k w ≡ ((throw e, w'), r)
    unfolding remove
    remove_throws r k w w' s x e c = rw (e, remove) (rw c refl)

    -- A key that was removed is not there any more: the next `remove` of it answers false and
    -- calls nothing, so `removed` runs once for an element that was stored once.
    pub remove_twice :
        (r : Repository T K) (k : K) (w v : W) (s : StoredElement T) (w' : W)
        → find k r.values ≡ some s
        → removed s.element w ≡ (ok tt, w')
        → let r' = (remove removed timeouted r k w).1 in
          remove removed timeouted r' k v ≡ ((ok false, v), r')
    remove_twice r k w v s w' e c = rw (remove_returns r k w w' s e c) (
        remove_missing (record r { values = erase k r.values }) k v
          (rw (find-erase k k r.values, (o.eq_iff k k).1 refl)))
