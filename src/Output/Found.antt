-- ===== src/Output/Found.antt =====
-- output/factory/factory.go: the automatic choice of the tool for typing.
use dabri.Output.{
  Platform, codes, Config, EnvironmentType, text_eq, true, false, is_some, is_command_allowed,
  is_x11, wayland, x11, is_empty, unknown,
}
use dabri.Output.Tools.{
  select_wayland_type_tool, select_fallback_type_tool, create_type_outputter,
  select_gnome_wayland_type_tool, first_tool, create_tool_outputter,
  select_non_gnome_wayland_type_tool, select_type_tool, is_usable, auto_type_tool,
}
use dabri.Prelude.{◌≡◌, arith, ◌||◌, ◌&&◌, if◌then◌else◌}

wayland-named : (p : Platform) → is_empty (select_wayland_type_tool p) ≡ false
unfolding select_wayland_type_tool select_gnome_wayland_type_tool select_non_gnome_wayland_type_tool
wayland-named p = ground arith

select_wayland-tools :
    (p : Platform)
    → p.tools (select_wayland_type_tool p)
      ≡ (p.tools (codes "ydotool") || (p.tools (codes "wtype") || p.tools (codes "xdotool")))
unfolding select_wayland_type_tool select_gnome_wayland_type_tool select_non_gnome_wayland_type_tool
select_wayland-tools p = ground arith

fallback-named : (p : Platform) → is_empty (select_fallback_type_tool p) ≡ false
unfolding select_fallback_type_tool first_tool
fallback-named p = ground arith

select_fallback-tools :
    (p : Platform)
    → p.tools (select_fallback_type_tool p)
      ≡ (p.tools (codes "ydotool") || (p.tools (codes "wtype") || p.tools (codes "xdotool")))
unfolding select_fallback_type_tool first_tool
select_fallback-tools p = ground arith

-- With the tool for typing left to the program and no portal, an outputter for typing is made
-- exactly when the chosen tool is allowed and one is installed: any of the three on Wayland and on
-- an unknown display, and xdotool on X11.
create-found :
    (p : Platform) (cfg : Config) (env : EnvironmentType)
    → text_eq cfg.output.type_tool (codes "auto") ≡ true
    → p.portal_available ≡ false
    → is_some (create_type_outputter p cfg env) ≡ (
        is_command_allowed cfg (auto_type_tool p env)
        && (if is_x11 env
            then p.tools (codes "xdotool")
            else p.tools (codes "ydotool")
              || (p.tools (codes "wtype") || p.tools (codes "xdotool"))))
unfolding create_type_outputter create_tool_outputter select_type_tool is_usable auto_type_tool
create-found p cfg wayland h k = ground (arith, h, k, select_wayland-tools p, wayland-named p)
create-found p cfg x11 h k = ground (arith, h, k)
create-found p cfg unknown h k = ground (arith, h, k, select_fallback-tools p, fallback-named p)
