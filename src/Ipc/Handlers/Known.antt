-- ===== src/Ipc/Handlers/Known.antt =====
-- internal/app/ipc.go: the commands that are registered.
use dabri.Ipc.{get_handler, entry, new_server, command_key}
use dabri.Ipc.Handlers.{register_ipc_handlers, [], register, Backend}
use dabri.Prelude.{◌≡◌, arith, List, is_some, ◌∷◌}
use dabri.Text.{Text, codes, member, to_lower, trim_space}

abbrev command_names : List Text
command_names =
    codes "start-recording"
    ∷ codes "stop-recording"
    ∷ codes "toggle-recording"
    ∷ codes "status"
    ∷ codes "last-transcript"
    ∷ codes "set-model"
    ∷ codes "delete-model"
    ∷ []

-- A server with the handlers of the application knows a command exactly when it is one of the seven
-- names, in any case and with any white space around it.
known-member :
    (backend : Backend) (path command : Text)
    → is_some (get_handler (register_ipc_handlers backend (new_server path)) command)
      ≡ member (command_key command) command_names
unfolding register_ipc_handlers new_server register get_handler entry member to_lower trim_space
known-member backend path command = ground arith
