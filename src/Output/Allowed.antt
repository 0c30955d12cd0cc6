-- ===== src/Output/Allowed.antt =====
-- output/outputters: the commands that an outputter runs.
use mathlib.Core.Option.{none}
use dabri.Output.{
  copy_with, type_with, type_by_portal, copy_to_clipboard, Run, Platform, retry_with_ydotool,
  type_to_active_window, is_command_allowed, Text, Option, Tool, some, clipboard, typing, portal,
}
use dabri.Config.Model.{Config}
use dabri.Prelude.{◌≡◌, arith, true, All, List}

abbrev pub AreAllowed : Config → List Run → Type 0
AreAllowed cfg = All (λ run. is_command_allowed cfg run.tool ≡ true)

copy-AreAllowed :
    (p : Platform) (cfg : Config) (tool text : Text) → AreAllowed cfg (copy_with p cfg tool text).0
unfolding copy_with
copy-AreAllowed p cfg tool text = ground arith

type-AreAllowed :
    (p : Platform) (cfg : Config) (tool text : Text) → AreAllowed cfg (type_with p cfg tool text).0
unfolding type_with retry_with_ydotool
type-AreAllowed p cfg tool text = ground arith

portal-AreAllowed :
    (p : Platform) (cfg : Config) (clip : Option Text) (text : Text)
    → AreAllowed cfg (type_by_portal p cfg clip text).0
unfolding type_by_portal
portal-AreAllowed p cfg none text = ground arith
portal-AreAllowed p cfg (some tool) text = ground (arith, copy-AreAllowed p cfg tool text)

-- Every command that an outputter runs to copy or to type a text is allowed by the whitelist of its
-- configuration, the second attempt after a failure and the paste by way of the portal included.
pub outputter-AreAllowed :
    (p : Platform) (cfg : Config) (tool : Tool) (text : Text)
    → AreAllowed cfg (copy_to_clipboard p cfg tool text).0
      × AreAllowed cfg (type_to_active_window p cfg tool text).0
unfolding copy_to_clipboard type_to_active_window
outputter-AreAllowed p cfg (clipboard tool) text = (copy-AreAllowed p cfg tool text, tt)
outputter-AreAllowed p cfg (typing tool) text = (tt, type-AreAllowed p cfg tool text)
outputter-AreAllowed p cfg (portal none) text = (tt, portal-AreAllowed p cfg none text)
outputter-AreAllowed p cfg (portal (some tool)) text =
    (copy-AreAllowed p cfg tool text, portal-AreAllowed p cfg (some tool) text)
