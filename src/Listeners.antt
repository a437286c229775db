-- ===== src/Listeners.antt =====
-- messages/src/containers/eventwatchers.h: who is told when a stored element is added, changed or
-- removed. A listener is a number; calling it changes the world that the listeners share, and may throw.
-- A weak pointer is alive or not in a world.
use secure_dialogues.Common.{ℕ, Bool, true, false, List, [], ◌∷◌, ◌++◌, ◌==◌, if◌then◌else◌}
use secure_dialogues.Common.Result.{Result, ok, throw, Prog, ◌>>◌, return}
pub mod Connections
pub mod Channels
pub mod Dialogs
pub mod Generated

pub record EventListeners : Type 0 where
  pub listeners : List ℕ
  pub permanent_listeners : List ℕ

abbrev pub no_listeners : EventListeners
no_listeners = record { listeners = []; permanent_listeners = [] }

unfoldable pub append_listener : ℕ → EventListeners → EventListeners
append_listener l s = record s { listeners = s.listeners ++ l ∷ [] }

unfoldable pub append_permanent_listener : ℕ → EventListeners → EventListeners
append_permanent_listener l s = record s { permanent_listeners = s.permanent_listeners ++ l ∷ [] }

-- `std::list::remove`.
abbrev pub remove_all : ℕ → List ℕ → List ℕ
remove_all l [] = []
remove_all l (k ∷ ks) = if k == l then remove_all l ks else k ∷ remove_all l ks

unfoldable pub remove_listener : ℕ → EventListeners → EventListeners
remove_listener l s = record s { permanent_listeners = remove_all l s.permanent_listeners }

module _ {W : Type 0} (call : ℕ → Prog W (Unit {0})) (alive : ℕ → W → Bool) where
  unfoldable pub notify_permanent : List ℕ → Prog W (Unit {0})
  notify_permanent [] = return tt
  notify_permanent (l ∷ ls) = call l >> notify_permanent ls

  -- The loop over the weak listeners, with the list that it leaves.
  abbrev pub kept_first : ℕ → (Result (Unit {0}) × W) × List ℕ → (Result (Unit {0}) × W) × List ℕ
  kept_first l (r, rest) = (r, l ∷ rest)

  abbrev pub after_call :
      ℕ
      → List ℕ
      → (W → (Result (Unit {0}) × W) × List ℕ)
      → Result (Unit {0}) × W
      → (Result (Unit {0}) × W) × List ℕ
  after_call l ls next (ok _, w) = kept_first l (next w)
  after_call l ls next (throw e, w) = ((throw e, w), l ∷ ls)

  unfoldable pub notify_weak : List ℕ → W → (Result (Unit {0}) × W) × List ℕ
  notify_weak [] w = ((ok tt, w), [])
  notify_weak (l ∷ ls) w =
      if alive l w then after_call l ls (notify_weak ls) (call l w) else notify_weak ls w

  abbrev pub notify_rest :
      EventListeners → Result (Unit {0}) × W → (Result (Unit {0}) × W) × EventListeners
  notify_rest s (throw e, w) = ((throw e, w), s)
  notify_rest s (ok _, w) =
      let (r, left) = notify_weak s.listeners w in (r, record s { listeners = left })

  -- `EventListeners::notify_listeners`, with the function of the listeners already chosen.
  unfoldable pub notify_listeners : EventListeners → W → (Result (Unit {0}) × W) × EventListeners
  unfolding notify_permanent notify_weak
  notify_listeners s w = notify_rest s (notify_permanent s.permanent_listeners w)
