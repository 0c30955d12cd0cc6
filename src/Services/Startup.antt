-- ===== src/Services/Startup.antt =====
-- internal/services/factory.go: what a new container is made with. The model manager, the recorder
-- and the engine are parameters; the wiring of callbacks is left out.
pub mod Fallback
use dabri.Output.Tools.{get_outputter}
use dabri.Recorders.Tools.{Kind, create_recorder}
use dabri.Output.{
  Platform, EnvironmentType, Tool, is_wayland, clipboard, is_flatpak, get_tool_names,
}
use dabri.Config.Model.{Config}
use dabri.Prelude.{
  Bool, true, false, not, ◌&&◌, Option, none, some, if◌then◌else◌, is_empty, ℕ, ltb, [],
}
use dabri.Prelude.Int.{ℤ, pos, negsuc}
use dabri.Text.{Text, codes, text_eq}

pub data StartError : Type 0 where
  no_model no_recorder no_engine no_output : StartError

-- What the parts are made of: the path of the model, and whether an engine is made for it.
pub record Parts : Type 0 where
  pub model_path : Option Text
  pub makes_engine : Text → Bool

-- Minutes.
unfoldable pub cleanup_timeout : Config → ℕ
cleanup_timeout cfg = elim cfg.audio.temp_file_cleanup_time [
  | pos n ↦ if ltb 0 n then n else 30
  | negsuc n ↦ 30
]

pub fallback_tool : Platform → EnvironmentType → Text
fallback_tool p env =
    if is_wayland env && p.tools (codes "wl-copy")
    then codes "wl-copy"
    else if p.tools (codes "xsel")
    then codes "xsel"
    else []

abbrev pub clipboard_config : Text → Config → Config
clipboard_config tool cfg = record cfg {
  output = record cfg.output { default_mode = codes "clipboard"; clipboard_tool = tool };
}

-- newFallbackOutputter: the configuration that it leaves, and the outputter. The tool was found in
-- the path, so that making the outputter does not fail.
pub new_fallback_outputter : Platform → EnvironmentType → Config → Config × Option Tool
new_fallback_outputter p env cfg =
    let tool = fallback_tool p env in
    if is_empty tool then (cfg, none) else (clipboard_config tool cfg, some (clipboard tool))

pub start_outputter : Platform → EnvironmentType → Config → Config × Option Tool
start_outputter p env cfg = elim (get_outputter p cfg env) [
  | some tool ↦ (cfg, some tool)
  | none ↦ new_fallback_outputter p env cfg
]

-- Whether the daemon of ydotool is started.
unfoldable needs_input_daemon : Platform → Tool → Bool
needs_input_daemon p out = is_flatpak p && text_eq (get_tool_names out).1 (codes "ydotool")

pub data Container : Type 0 where
  made : Config → Kind → Tool → Container
  refused : StartError → Container

-- NewContainer, in the order in which the parts are made.
pub new_container : Parts → Platform → EnvironmentType → Config → Container
new_container parts p env cfg = elim parts.model_path [
  | none ↦ refused no_model
  | some path ↦ elim (create_recorder (is_flatpak p) cfg) [
    | none ↦ refused no_recorder
    | some (kind, recorder) ↦
        if not (parts.makes_engine path)
        then refused no_engine
        else let (cfg', out) = start_outputter p env cfg in
          elim out [ none ↦ refused no_output | some tool ↦ made cfg' kind tool ]
  ]
]
