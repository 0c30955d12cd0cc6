-- ===== src/App.antt =====
-- internal/app/app.go, cmd/dabri/daemon.go, the start of the server in internal/app/ipc.go and
-- Shutdown of internal/services/interfaces.go: the life of the application as the steps that it
-- takes, in order. What the parts answer is a parameter; the lock, the load of the configuration and
-- the construction of the services are those of their modules.
pub mod Ending
mod Running
pub mod Released
use dabri.Prelude.{
  Bool, true, false, not, ◌&&◌, List, [], ◌∷◌, ◌++◌, Option, none, some, if◌then◌else◌, is_empty,
}
use dabri.Text.{Text}
use dabri.Config.Model.{Config, General}
use dabri.Config.Load.{Files, LoadError, Loaded, loaded, failed, load_config}
use dabri.Output.{Platform, detect_environment, Tool}
use dabri.Recorders.Tools.{Kind}
use dabri.Services.Startup.{Parts, StartError, Container, made, refused, new_container}

-- The services in the order in which they are shut down; the last two return no error.
pub data Service : Type 0 where
  audio ui io config hotkeys temp_files input_daemon : Service

-- Which services there are, and whose end fails.
pub record Services : Type 0 where
  pub has : Service → Bool
  pub fails : Service → Bool

pub data Step : Type 0 where
  lock_taken lock_released : Step
  config_loaded services_built hotkeys_set_up : Step
  server_started hotkeys_started socket_opened : Step
  loop_run cancelled socket_closed : Step
  ended : Service → Step

pub data Failure : Type 0 where
  locked not_initialized : Failure
  bad_config : LoadError → Failure
  no_services : StartError → Failure
  of_services : List Service → Failure

-- The end of one service, behind what came before: the steps, and the errors.
pub end_service : Services → Service → List Step × List Service → List Step × List Service
end_service sc s (steps, errs) =
    if sc.has s
    then (steps ++ ended s ∷ [], (if sc.fails s then errs ++ s ∷ [] else errs))
    else (steps, errs)

-- The end of one that returns no error.
pub end_silently : Services → Service → List Step × List Service → List Step × List Service
end_silently sc s (steps, errs) = if sc.has s then (steps ++ ended s ∷ [], errs) else (steps, errs)

-- Shutdown of the container
pub end_services : Services → List Step × List Service
end_services sc = end_silently sc input_daemon (
    end_silently sc temp_files (
      end_service sc hotkeys (
        end_service sc config
          (end_service sc io (end_service sc ui (end_service sc audio ([], [])))))))

-- What the application meets.
pub record World : Type 0 where
  pub locks : Bool
  pub defaults : Config
  pub files : Files
  pub parts : Parts
  pub platform : Platform
  pub starts_server : Bool
  pub starts_hotkeys : Bool
  pub opens_socket : Bool
  pub services : Services

-- The application: whether it has services, and whether it has a server for commands.
pub record App : Type 0 where
  pub config : Option Config
  pub has_services : Bool
  pub has_socket : Bool
  pub steps : List Step

abbrev pub new_app : App
new_app = record { config = none; has_services = false; has_socket = false; steps = [] }

abbrev pub also : List Step → App → App
also steps a = record a { steps = a.steps ++ steps }

-- initializeConfig
unfoldable initialize_config : World → Text → Bool → Loaded
initialize_config world file debug = elim (load_config world.defaults world.files file).0 [
  | failed e ↦ failed e
  | loaded cfg ↦
      if debug
      then loaded (record cfg { general = record cfg.general { debug = true } })
      else loaded cfg
]

-- What becomes of a container.
pub built : Container → App → App × Option Failure
built (refused e) a = (a, some (no_services e))
built (made cfg kind tool) a = (
  also (services_built ∷ hotkeys_set_up ∷ []) (record a { config = some cfg; has_services = true }),
  none,
)

-- initializeServices
pub initialize_services : World → Config → App → App × Option Failure
initialize_services world cfg a =
    built (new_container world.parts world.platform (detect_environment world.platform) cfg) a

-- What becomes of a configuration.
pub configured : World → Loaded → App → App × Option Failure
configured world (failed e) a = (a, some (bad_config e))
configured world (loaded cfg) a = initialize_services world cfg (also (config_loaded ∷ []) a)

-- Initialize
pub initialize : World → Text → Bool → App → App × Option Failure
initialize world file debug a = configured world (initialize_config world file debug) a

-- startServices; a server or hotkeys that do not start are only logged.
pub start_services : World → App → App × Option Failure
start_services world a = if not a.has_services then (a, some not_initialized) else (
  also
      ((if world.starts_server then server_started ∷ [] else [])
        ++ (if world.starts_hotkeys then hotkeys_started ∷ [] else []))
      a,
  none,
)

-- startIPCServer; a failure is only logged.
pub start_ipc_server : World → App → App
start_ipc_server world a =
    if a.has_services && world.opens_socket
    then also (socket_opened ∷ []) (record a { has_socket = true })
    else a

-- Shutdown
pub shutdown_app : World → App → App × Option Failure
shutdown_app world a =
    let a1 = also (cancelled ∷ []) a in
    let a2 = if a.has_socket then also (socket_closed ∷ []) a1 else a1 in
    if not a.has_services
    then (a2, none)
    else let (steps, errs) = end_services world.services in
      (also steps a2, (if is_empty errs then none else some (of_services errs)))

-- RunAndWait; the loop of the window runs until the application is asked to end.
pub run_and_wait : World → App → App × Option Failure
run_and_wait world a =
    let (a1, e) = start_services world a in
    elim e [
      | some err ↦ (a1, some err)
      | none ↦ shutdown_app world (also (loop_run ∷ []) (start_ipc_server world a1))
    ]

-- The end of runDaemonCobra behind the initialization: the lock is released whatever came before.
pub finish_daemon : World → App × Option Failure → App × Option Failure
finish_daemon world (a, some err) = (also (lock_released ∷ []) a, some err)
finish_daemon world (a, none) =
    let (a', e) = run_and_wait world a in (also (lock_released ∷ []) a', e)

-- runDaemonCobra
pub run_daemon : World → Text → Bool → App × Option Failure
run_daemon world file debug =
    if not world.locks
    then (new_app, some locked)
    else finish_daemon world (initialize world file debug (also (lock_taken ∷ []) new_app))
