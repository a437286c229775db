-- ===== src/Core/History.antt =====
-- Where the messages of the dialogs come from, in every run of the program.
use secure_dialogues.Common.{refl, inl, inr}
use secure_dialogues.MessageContainer.Valid.{IsValid}
use secure_dialogues.MessageContainer.Grows.{
  Grown, Grown-same, Grown-then, Grown-by, Grown-activated, entries_by,
}
use secure_dialogues.Core.{Environment, World}
use secure_dialogues.Core.TextMessages.{set_active_dialog}
use secure_dialogues.Core.Steps.{
  Step, received, idle, sent, chosen, created, closed, aborted, removed, elsewhere, Run, start,
  next, IsExplained, IsExplainedIn, IsEnded,
}
use secure_dialogues.Core.Steps.Received.{dispatch-Grown}
use secure_dialogues.Core.Steps.Sent.{
  send_text-Grown, check_idle-Grown, create_dialog-Grown, close_dialog-Grown, abort_dialog-Grown,
  remove_dialog-Grown,
}

module _ ⦃env : Environment⦄ where
  Step-Grown :
      (w v : World env) (s : Step w v)
      → IsValid w.container
      → Grown (IsExplained s) w.container v.container
  unfolding set_active_dialog
  Step-Grown w v (received m channel e) valid = dispatch-Grown w valid m channel v e
  Step-Grown w v (idle e) valid = check_idle-Grown w valid (IsEnded w) (λ id x h. h) v e
  Step-Grown w v (sent text e) valid = rw e (send_text-Grown w valid text)
  Step-Grown w v (chosen id e) valid = rw e (Grown-activated (λ j x. ⊥) id w.container valid)
  Step-Grown w v (created c uiid e) valid =
      rw e (create_dialog-Grown w valid (IsEnded w) (λ j x h. h) c uiid)
  Step-Grown w v (closed id e) valid = rw e (close_dialog-Grown w valid (IsEnded w) (λ j x h. h) id)
  Step-Grown w v (aborted id e) valid =
      rw e (abort_dialog-Grown w valid (IsEnded w) (λ j x h. h) id)
  Step-Grown w v (removed id e) valid =
      rw e (remove_dialog-Grown w valid (IsEnded w) (λ j x h. h) id)
  Step-Grown w v (elsewhere ms heap a) valid =
      Grown-same (λ j x. ⊥) w.container v.container (rw (ms, heap, a) valid)
        (λ id. entries_by id w.container v.container ms heap)

  -- In any run of steps from a world whose container is valid, the container stays valid, and every
  -- dialog shows at the end what it showed at the start and after that new messages, compared by type
  -- and text, each of which a step of the run explains. An incoming text is what the crypto system
  -- decrypted from a message for that dialog with the action MESSAGE, whose signature it accepted and
  -- which was not too old, as the message was dispatched. An outgoing text is one that the user sent
  -- while the dialog was the active one. A note of the system comes from the dispatching of such a
  -- message or from such a sending, or it says that a dialog was aborted or closed, in that dialog, where
  -- a state of the storage, which additions, savings and removals of dialogs lead to from the one before
  -- the step, saves the dialog with that status. Choosing a dialog adds nothing.
  pub history :
      (w v : World env) (r : Run w v)
      → IsValid w.container
      → Grown (IsExplainedIn r) w.container v.container
  history w v start valid = Grown-same (λ j x. ⊥) w.container w.container valid (λ id. refl)
  history w v (next {u} r s) valid =
      let before = history w u r valid in
      Grown-then (IsExplainedIn (next r s)) w.container u.container v.container
        (Grown-by (IsExplainedIn r) (IsExplainedIn (next r s)) w.container u.container
          (λ id x e. inl e) before)
        (Grown-by (IsExplained s) (IsExplainedIn (next r s)) u.container v.container
          (λ id x e. inr e) (Step-Grown u v s before.0))
