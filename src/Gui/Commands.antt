-- ===== src/Gui/Commands.antt =====
-- gui/src/wrappers/dialogactionhandlerwrapper.cpp: the commands of the user about dialogs, as the menus
-- call them. What a command throws is shown to the user.
use secure_dialogues.Common.{Text}
use secure_dialogues.Common.Result.{Exception, out_of_range, Prog, catch}
use secure_dialogues.Contacts.{Contact}
use secure_dialogues.Core.{Environment, World, error, not_presented, command_failed, notify}
use secure_dialogues.Core.DialogActions.{create_dialog, close_dialog, abort_dialog, remove_dialog}

module _ ⦃env : Environment⦄ where
  -- The two `catch` clauses of the commands about a dialog that should be there.
  abbrev pub show_failure : Exception → Prog (World env) (Unit {0})
  show_failure out_of_range = notify error not_presented
  show_failure e = notify error command_failed

  unfoldable pub create_dialog_action : Contact → Text → Prog (World env) (Unit {0})
  create_dialog_action contact uiid =
      catch (create_dialog contact uiid) (λ e. notify error command_failed)

  unfoldable pub close_dialog_action : Text → Prog (World env) (Unit {0})
  close_dialog_action id = catch (close_dialog id) show_failure

  unfoldable pub abort_dialog_action : Text → Prog (World env) (Unit {0})
  abort_dialog_action id = catch (abort_dialog id) show_failure

  unfoldable pub remove_dialog_action : Text → Prog (World env) (Unit {0})
  remove_dialog_action id = catch (remove_dialog id) show_failure
