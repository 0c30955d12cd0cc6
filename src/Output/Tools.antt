-- ===== src/Output/Tools.antt =====
-- output/factory/factory.go: the choice of the tools and of the outputter.
use dabri.Output.{
  Platform, EnvironmentType, is_flatpak, is_gnome_with_wayland, is_command_allowed, is_wayland,
  wayland, Tool, Outputter, x11, typing, portal, clipboard, as_outputter, unknown,
}
use dabri.Config.Model.{Config}
use dabri.Prelude.{
  Bool, false, not, ◌&&◌, List, [], ◌∷◌, Option, none, some, if◌then◌else◌, is_empty,
}
use dabri.Text.{Text, codes, text_eq}

unfoldable pub select_clipboard_tool : Config → EnvironmentType → Text
select_clipboard_tool cfg env =
    if not (text_eq cfg.output.clipboard_tool (codes "auto"))
    then cfg.output.clipboard_tool
    else if is_wayland env
    then codes "wl-copy"
    else codes "xsel"

unfoldable pub select_gnome_wayland_type_tool : Platform → Text
select_gnome_wayland_type_tool p =
    if p.tools (codes "ydotool")
    then codes "ydotool"
    else if p.tools (codes "wtype")
    then codes "wtype"
    else codes "xdotool"

unfoldable pub select_non_gnome_wayland_type_tool : Platform → Text
select_non_gnome_wayland_type_tool p =
    if is_flatpak p && p.tools (codes "ydotool")
    then codes "ydotool"
    else if p.tools (codes "wtype")
    then codes "wtype"
    else if p.tools (codes "ydotool")
    then codes "ydotool"
    else codes "xdotool"

unfoldable pub select_wayland_type_tool : Platform → Text
select_wayland_type_tool p =
    if is_gnome_with_wayland p
    then select_gnome_wayland_type_tool p
    else select_non_gnome_wayland_type_tool p

-- The first of the tools that is in the path.
unfoldable pub first_tool : Platform → List Text → Text
first_tool p [] = codes "xdotool"
first_tool p (tool ∷ tools) = if p.tools tool then tool else first_tool p tools

unfoldable pub select_fallback_type_tool : Platform → Text
select_fallback_type_tool p = first_tool p (codes "xdotool" ∷ codes "wtype" ∷ codes "ydotool" ∷ [])

unfoldable pub auto_type_tool : Platform → EnvironmentType → Text
auto_type_tool p wayland = select_wayland_type_tool p
auto_type_tool p x11 = codes "xdotool"
auto_type_tool p unknown = select_fallback_type_tool p

unfoldable pub select_type_tool : Platform → Config → EnvironmentType → Text
select_type_tool p cfg env =
    if not (text_eq cfg.output.type_tool (codes "auto"))
    then cfg.output.type_tool
    else auto_type_tool p env

-- The whitelist and the path, in the order in which the factory and the constructor test them.
unfoldable pub is_usable : Platform → Config → Text → Bool
is_usable p cfg tool =
    if not (is_empty tool) && not (is_command_allowed cfg tool) then false else p.tools tool

unfoldable pub create_clipboard_outputter : Platform → Config → EnvironmentType → Option Text
create_clipboard_outputter p cfg env =
    let tool = select_clipboard_tool cfg env in if is_usable p cfg tool then some tool else none

unfoldable pub create_tool_outputter : Platform → Config → EnvironmentType → Option Tool
create_tool_outputter p cfg env =
    let tool = select_type_tool p cfg env in
    if is_usable p cfg tool then some (typing tool) else none

unfoldable pub create_type_outputter : Platform → Config → EnvironmentType → Option Tool
create_type_outputter p cfg env =
    if is_wayland env && (text_eq cfg.output.type_tool (codes "auto") && p.portal_available)
    then if p.opens_portal
      then some (portal (create_clipboard_outputter p cfg env))
      else create_tool_outputter p cfg env
    else create_tool_outputter p cfg env

unfoldable pub get_outputter : Platform → Config → EnvironmentType → Option Tool
get_outputter p cfg env =
    if text_eq cfg.output.default_mode (codes "active_window")
    then create_type_outputter p cfg env
    else elim (create_clipboard_outputter p cfg env) [
      | none ↦ none
      | some tool ↦ some (clipboard tool)
    ]

-- GetOutputterFromConfig, as the output service calls it.
unfoldable pub get_outputter_from_config : Platform → EnvironmentType → Config → Option Outputter
get_outputter_from_config p env cfg = elim (get_outputter p cfg env) [
  | none ↦ none
  | some tool ↦ some (as_outputter p cfg tool)
]
