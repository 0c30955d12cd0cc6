-- ===== src/Output.antt =====
-- internal/platform/environment.go, output/factory and output/outputters: the environment, the choice
-- of a tool, and the outputters with the commands that they run. What the desktop offers, and whether
-- a command or a call of the portal succeeds, are parameters.
pub mod Tools
pub mod Allowed
pub mod Found
pub mod Modes
use dabri.Prelude.{
  ℕ, Bool, true, false, not, ◌&&◌, ◌||◌, List, [], ◌∷◌, ◌++◌, Option, none, some, if◌then◌else◌,
  is_empty, is_some, any, ltb,
}
use dabri.Text.{Text, codes, text_eq}
use dabri.Config.Model.{Config}
use dabri.Config.Security.{is_command_allowed, sanitize_command_args}
use dabri.Services.Io.{Outputter}

pub data EnvironmentType : Type 0 where
  x11 wayland unknown : EnvironmentType

-- The command line of a tool and what it reads.
pub record Run : Type 0 where
  pub tool : Text
  pub args : List Text
  pub input : Text

-- The variables are empty when they are not set; `tools` are those in the path, and `runs` is that a
-- command ends without an error.
pub record Platform : Type 0 where
  pub wayland_display : Text
  pub display : Text
  pub xdg_current_desktop : Text
  pub desktop_session : Text
  pub flatpak_id : Text
  pub has_flatpak_info : Bool
  pub tools : Text → Bool
  pub runs : Run → Bool
  pub portal_available : Bool
  pub opens_portal : Bool
  pub portal_types : Text → Bool
  pub portal_pastes : Bool

unfoldable pub detect_environment : Platform → EnvironmentType
detect_environment p =
    if not (is_empty p.wayland_display)
    then wayland
    else if not (is_empty p.display)
    then x11
    else unknown

unfoldable pub detect_desktop_environment : Platform → Text
detect_desktop_environment p =
    if not (is_empty p.xdg_current_desktop)
    then p.xdg_current_desktop
    else if not (is_empty p.desktop_session)
    then p.desktop_session
    else codes "Unknown"

unfoldable pub is_gnome : Platform → Bool
is_gnome p =
    text_eq (detect_desktop_environment p) (codes "GNOME")
    || text_eq (detect_desktop_environment p) (codes "ubuntu:GNOME")

abbrev pub is_wayland : EnvironmentType → Bool
is_wayland wayland = true
is_wayland _ = false

abbrev pub is_x11 : EnvironmentType → Bool
is_x11 x11 = true
is_x11 _ = false

unfoldable pub is_gnome_with_wayland : Platform → Bool
is_gnome_with_wayland p = is_gnome p && is_wayland (detect_environment p)

unfoldable pub is_flatpak : Platform → Bool
is_flatpak p = not (is_empty p.flatpak_id) || p.has_flatpak_info

-- The outputters; a portal has the tool of a clipboard outputter or none.
pub data Tool : Type 0 where
  clipboard : Text → Tool
  typing : Text → Tool
  portal : Option Text → Tool

-- What an outputter ran, the first first, and whether it returned no error.
abbrev pub Outcome : Type 0
Outcome = List Run × Bool

abbrev run_of : Text → List Text → Text → Run
run_of tool args input = record { tool = tool; args = args; input = input }

-- The arguments of the clipboard tools that are supported.
unfoldable pub clipboard_args : Text → Option (List Text)
clipboard_args tool =
    if text_eq tool (codes "xsel")
    then some (codes "--clipboard" ∷ codes "--input" ∷ [])
    else if text_eq tool (codes "wl-copy")
    then some []
    else none

-- CopyToClipboard of a clipboard outputter.
unfoldable pub copy_with : Platform → Config → Text → Text → Outcome
copy_with p cfg tool text =
    if not (is_command_allowed cfg tool) then ([], false) else elim (clipboard_args tool) [
      | none ↦ ([], false)
      | some args ↦
          let run = run_of tool (sanitize_command_args args) text in (run ∷ [], p.runs run)
    ]

unfoldable is_non_ascii : Text → Bool
is_non_ascii text = any (λ c. ltb 127 c) text

unfoldable typing_args : Text → Text → Option (List Text)
typing_args tool text =
    if text_eq tool (codes "xdotool")
    then some (codes "type" ∷ codes "--clearmodifiers" ∷ codes "--" ∷ text ∷ [])
    else if text_eq tool (codes "wtype")
    then some (codes "--" ∷ text ∷ [])
    else if text_eq tool (codes "ydotool")
    then some (codes "type" ∷ text ∷ [])
    else none

-- The second attempt, after wtype has failed.
pub retry_with_ydotool : Platform → Config → Text → Text → Run → Outcome
retry_with_ydotool p cfg tool text run =
    let ydotool = codes "ydotool" in
    let again = run_of ydotool (codes "type" ∷ text ∷ []) [] in
    if text_eq tool (codes "wtype") && (is_command_allowed cfg ydotool && p.tools ydotool)
    then (run ∷ again ∷ [], p.runs again)
    else (run ∷ [], false)

-- TypeToActiveWindow of a type outputter.
pub type_with : Platform → Config → Text → Text → Outcome
type_with p cfg tool text =
    if not (is_command_allowed cfg tool)
    then ([], false)
    else if is_wayland (detect_environment p)
        && (text_eq tool (codes "ydotool") && is_non_ascii text)
    then ([], false)
    else elim (typing_args tool text) [
      | none ↦ ([], false)
      | some args ↦
          let run = run_of tool args [] in
          if p.runs run then (run ∷ [], true) else retry_with_ydotool p cfg tool text run
    ]

-- TypeToActiveWindow of the portal: a text that is not ASCII is pasted.
pub type_by_portal : Platform → Config → Option Text → Text → Outcome
type_by_portal p cfg clip text =
    if not (is_non_ascii text) then ([], p.portal_types text) else elim clip [
      | none ↦ ([], false)
      | some tool ↦
          let (runs, ok) = copy_with p cfg tool text in
          (runs, (if ok then p.portal_pastes else false))
    ]

unfoldable pub copy_to_clipboard : Platform → Config → Tool → Text → Outcome
copy_to_clipboard p cfg (clipboard tool) text = copy_with p cfg tool text
copy_to_clipboard p cfg (typing tool) text = ([], false)
copy_to_clipboard p cfg (portal none) text = ([], false)
copy_to_clipboard p cfg (portal (some tool)) text = copy_with p cfg tool text

pub type_to_active_window : Platform → Config → Tool → Text → Outcome
type_to_active_window p cfg (clipboard tool) text = ([], false)
type_to_active_window p cfg (typing tool) text = type_with p cfg tool text
type_to_active_window p cfg (portal clip) text = type_by_portal p cfg clip text

unfoldable pub get_tool_names : Tool → Text × Text
get_tool_names (clipboard tool) = (tool, [])
get_tool_names (typing tool) = ([], tool)
get_tool_names (portal none) = ([], codes "portal")
get_tool_names (portal (some tool)) = (tool, codes "portal")

-- An outputter as the output service sees it; it keeps the configuration that it was made with.
pub as_outputter : Platform → Config → Tool → Outputter
as_outputter p cfg tool = record {
  copies = λ text. (copy_to_clipboard p cfg tool text).1;
  types = λ text. (type_to_active_window p cfg tool text).1;
}
