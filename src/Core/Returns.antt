-- ===== src/Core/Returns.antt =====
-- No exception leaves the handlers, so that a valid message cannot end the program by what it says.
use secure_dialogues.Common.{◌≡◌, refl, Text}
use secure_dialogues.Common.Result.{Result, Exception, Prog, ok, throw, recover, catch}
use secure_dialogues.DialogMessage.{DialogMessage}
use secure_dialogues.Core.{
  Environment, World, MessageHandler, dialog_action_handler, message_action_handler,
}
use secure_dialogues.Core.DialogRequests
use secure_dialogues.Core.TextMessages
use secure_dialogues.Core.Dispatch.{handle_by}

module _ ⦃env : Environment⦄ where
  recover_returns :
      (h : Exception → Prog (World env) (Unit {0})) (r : Result (Unit {0}) × World env)
      → ((e : Exception) (w : World env) → (h e w).0 ≡ ok tt)
      → (recover h r).0 ≡ ok tt
  recover_returns h (ok a, w) k = refl
  recover_returns h (throw e, w) k = k e w

  catch_returns :
      (body : Prog (World env) (Unit {0})) (h : Exception → Prog (World env) (Unit {0}))
      (w : World env)
      → ((e : Exception) (w : World env) → (h e w).0 ≡ ok tt)
      → (catch body h w).0 ≡ ok tt
  catch_returns body h w k = recover_returns h (body w) k

  -- Whatever the storages, the crypto system and the network throw, the two handlers of messages
  -- return.
  pub handle_returns :
      (h : MessageHandler) (m : DialogMessage) (channel : Text) (w : World env)
      → (handle_by h m channel w).0 ≡ ok tt
  unfolding DialogRequests.handle DialogRequests.prepare_handle_exception TextMessages.handle
      TextMessages.abort_on_exception
  handle_returns dialog_action_handler m channel w =
      catch_returns (DialogRequests.handle_body m channel)
        (DialogRequests.prepare_handle_exception m channel) w
        (λ e v.
          catch_returns (DialogRequests.abort_after m channel) DialogRequests.log_only v
            (λ x u. refl))
  handle_returns message_action_handler m channel w =
      catch_returns (TextMessages.handle_body m channel) (TextMessages.abort_on_exception m channel)
        w
        (λ e v.
          catch_returns (TextMessages.report_and_abort m channel) DialogRequests.log_only v
            (λ x u. refl))
