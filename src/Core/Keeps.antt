-- ===== src/Core/Keeps.antt =====
-- Predicates on the world that the code of the core keeps, one rule for each way to build it.
use secure_dialogues.Common.{
  ℕ, Bool, true, false, List, Option, none, some, Text, ◌≡◌, refl, if◌then◌else◌,
}
use secure_dialogues.Common.Result.{
  Result, Exception, Prog, ok, throw, resume, recover, catch, ◌>>=◌, ◌>>◌,
}
use secure_dialogues.Repository.{Repository}
use secure_dialogues.Core.{
  Environment, World, DeliveryHandler, Severity, Notice, ChannelStatus, on_dialogs, notify,
  status_set, save_wrapper,
}
use secure_dialogues.Dialog.{Dialog}
pub mod Sending
pub mod Actions
pub mod Requests
pub mod Deliveries
pub mod Texts
pub mod Dispatching

module _ ⦃env : Environment⦄ (I : World env → Type 0) where
  -- The predicate does not look at what sending and the notifier change, and the changes of the storage
  -- of dialogs keep it.
  pub record IsStable : Type 0 where
    pub added : (w : World env) (d : Dialog) → I w → I (on_dialogs (env.add_dialog d) w).1
    pub removed : (w : World env) (d : Dialog) → I w → I (on_dialogs (env.remove_dialog d) w).1
    pub network : (w : World env) (x : env.Network) → I w → I (record w { network = x })
    pub repo :
        (w : World env) (x : Repository DeliveryHandler (Text × ℕ))
        → I w
        → I (record w { repo = x })
    pub notices :
        (w : World env) (x : List (Severity × Notice)) → I w → I (record w { notices = x })
    pub event_queue :
        (w : World env) (x : List (ChannelStatus × Text)) → I w → I (record w { event_queue = x })
    pub saved : (w : World env) (d : Dialog) → I w → I (save_wrapper d w).1

  abbrev pub Keeps : {A : Type 0} → Prog (World env) A → Type 0
  Keeps m = (w : World env) → I w → I (m w).1

  second_result :
      {A B : Type 0} (r : Result A × World env) (k : Prog (World env) B) (b : B)
      → (resume (λ _. k) r).0 ≡ ok b
      → (k r.1).0 ≡ ok b
  second_result (ok a, v) k b e = e
  second_result (throw x, v) k b e = cc e

  resume-Keeps :
      {A B : Type 0} (f : A → Prog (World env) B) (r : Result A × World env)
      → ((a : A) → Keeps (f a))
      → I r.1
      → I (resume f r).1
  resume-Keeps f (ok a, w) k i = k a w i
  resume-Keeps f (throw e, w) k i = i

  pub bind-Keeps :
      {A B : Type 0} (m : Prog (World env) A) (f : A → Prog (World env) B)
      → Keeps m
      → ((a : A) → Keeps (f a))
      → Keeps (m >>= f)
  bind-Keeps m f km kf w i = resume-Keeps f (m w) kf (km w i)

  pub then-Keeps :
      {A B : Type 0} (m : Prog (World env) A) (k : Prog (World env) B)
      → Keeps m
      → Keeps k
      → Keeps (m >> k)
  then-Keeps m k km kk w i = resume-Keeps (λ _. k) (m w) (λ _. kk) (km w i)

  resume_knows :
      {A B : Type 0} (Q : A → Type 0) (f : A → Prog (World env) B) (r : Result A × World env)
      → I r.1
      → ((a : A) → r.0 ≡ ok a → Q a)
      → ((a : A) → Q a → Keeps (f a))
      → I (resume f r).1
  resume_knows Q f (ok a, v) i q k = k a (q a refl) v i
  resume_knows Q f (throw e, v) i q k = i

  -- A result of two parts is that of the second, run after the first.
  pub then_result :
      {A B : Type 0} (m : Prog (World env) A) (k : Prog (World env) B) (w : World env) (b : B)
      → ((m >> k) w).0 ≡ ok b
      → (k (m w).1).0 ≡ ok b
  then_result m k w b e = second_result (m w) k b e

  -- The first part also tells something of its result, which the second part may use.
  pub bind_knows :
      {A B : Type 0} (Q : A → Type 0) (m : Prog (World env) A) (f : A → Prog (World env) B)
      (w : World env)
      → I (m w).1
      → ((a : A) → (m w).0 ≡ ok a → Q a)
      → ((a : A) → Q a → Keeps (f a))
      → I ((m >>= f) w).1
  bind_knows Q m f w i q k = resume_knows Q f (m w) i q k

  recover-Keeps :
      {A : Type 0} (h : Exception → Prog (World env) A) (r : Result A × World env)
      → ((e : Exception) → Keeps (h e))
      → I r.1
      → I (recover h r).1
  recover-Keeps h (ok a, w) k i = i
  recover-Keeps h (throw e, w) k i = k e w i

  pub catch-Keeps :
      {A : Type 0} (m : Prog (World env) A) (h : Exception → Prog (World env) A)
      → Keeps m
      → ((e : Exception) → Keeps (h e))
      → Keeps (catch m h)
  catch-Keeps m h km kh w i = recover-Keeps h (m w) kh (km w i)

  pub if-Keeps :
      {A : Type 0} (b : Bool) (x y : Result A × World env)
      → I x.1
      → I y.1
      → I (if b then x else y).1
  if-Keeps true x y i j = i
  if-Keeps false x y i j = j

  pub choose-Keeps :
      {A : Type 0} (b : Bool) (m n : Prog (World env) A)
      → Keeps m
      → Keeps n
      → Keeps (if b then m else n)
  choose-Keeps true m n km kn = km
  choose-Keeps false m n km kn = kn

  pub saved-Keeps : (d : Dialog) → IsStable → Keeps (save_wrapper d)
  saved-Keeps d s w i = s.saved w d i

  pub notify-Keeps : (v : Severity) (n : Notice) → IsStable → Keeps (notify v n)
  notify-Keeps v n s w i = s.notices w _ i

  pub status-Keeps : (o : Option Dialog) → Keeps (status_set o)
  status-Keeps none w i = i
  status-Keeps (some d) w i = i
