-- ===== src/Lib.antt =====
-- Dabri turns speech into text on a Linux desktop: a hotkey, the tray, a command or a WebSocket
-- client starts and stops a recording, a speech model transcribes it, and the text is copied or typed.
-- This library models the parts that decide what happens and proves what they promise.
--
-- The parts and their files:
--
-- Text, with the children Chars, Trim and Pieces, is the part of Go's strings that the program uses,
-- on lists of bytes with the case and the white space of ASCII. Prelude holds what all modules share.
--
-- Hotkeys/Parser and Hotkeys/Keys are hotkeys/utils/parser.go (ParseHotkey, NormalizeHotkey,
-- ValidateHotkey) and hotkeys/utils/keys.go. Hotkeys/Evdev is hotkeys/providers/evdev_provider.go:
-- handleKeyEvent is `handle_key_event` with the loop over the callbacks as `collect`, listenDevice is
-- `listen` on a list of events, and the capture is `process_key_event` and `capture_once`. The order in
-- which Go visits the map of callbacks is the order of a list. Hotkeys/Dbus is
-- hotkeys/providers/dbus_provider.go, with the portal's session as a parameter and a time on each event.
-- Hotkeys/Adapter is hotkeys/adapters/adapter.go, and Hotkeys/Manager with its child Provider is
-- hotkeys/manager: the selection of a provider, registration, Start, Stop, ReloadConfig and the fallback
-- to the other provider; its children Held and
-- Registered say which hotkeys a provider has. What the system offers is the parameter `System`.
--
-- Config/Model is config/models/config.go and internal/constants/stt_models.go, Config/Clean Go's
-- filepath.Clean, Config/Validate config/validators/standard_validator.go, Config/Security
-- config/security/utils.go, and Config/Service internal/services/config_service.go. The embedded
-- defaults and the outcome of a write are the parameter `Disk`. Go's int is the type of Prelude/Int.
--
-- Websocket/Access is websocket/authentication.go and checkOriginFunc of websocket/server.go,
-- Websocket/Clients the set of clients in server.go, as whole handshakes and as schedules of their two
-- critical sections, Websocket/Retry websocket/retry_manager.go, and Websocket/Messages
-- websocket/message_handler.go over a controller that is a parameter. The recursion of executeWithRetry
-- is on fuel; four units are enough from a counter of zero, since the counter grows with each call and a
-- call at three is the last.
--
-- Services/Io is internal/services/io_service.go, Services/Audio internal/services/audio_service.go, and
-- Services/Actions internal/services/actions.go. They meet as in the program: the configuration service
-- is a field of the output service, that one a field of the audio service, and the actions work on the
-- audio service and a hotkey manager. The goroutine of a transcription is the event of its end; the
-- recorder, the model manager, the engine, the outputters and the filter on transcripts are parameters.
--
-- Services/Actions/Settings are the remaining actions of actions.go (reset, hotkey and output mode,
-- rebinding), Services/Hotkeys is internal/services/hotkey_service.go, and Services/Startup the
-- construction of the services in internal/services/factory.go. Config/Load is the loading and saving of
-- config/loaders/yaml_loader.go, EnforceFileSizeLimit of config/security/utils.go and
-- internal/utils/ipc_paths.go, with the files and YAML as parameters. Hotkeys/Manager/Capture is CaptureOnce and the removal of an action.
--
-- Ipc is internal/ipc/server.go and types.go (the table of handlers, the loop that accepts and the goroutine of a connection as steps in any order),
-- Ipc/Client internal/ipc/client.go, and Ipc/Handlers internal/app/ipc.go over the audio service.
-- Commands is cmd/dabri/commands.go and model.go: a subcommand is a function from its flags and the
-- exchange with the application to what it prints and its error.
--
-- Stt is the model manager: Stt/Paths is stt/providers/model_path_resolver.go, Stt/Download
-- stt/providers/model_downloader.go, Stt/Manager stt/manager/model_manager.go, over a file system that is
-- a map from paths to what stands there; the network is a parameter.
--
-- Output and Output/Tools are internal/platform/environment.go, output/factory/factory.go and
-- output/outputters: which tools are chosen, what commands an outputter runs and when it retries with
-- another tool. Recorders and Recorders/Tools are audio/recorders and audio/factory/factory.go: the
-- arguments of a recording, its start and its stop with the signals. What a process does is a parameter
-- in both.
--
-- Transcript is internal/utils/sanitize.go on code points, with the letters beyond ASCII as a parameter.
-- Lockfile is internal/utils/lockfile.go and disk_linux.go, with files as numbers, so that the file at a
-- path can change while a lock on the former one is held. TempFiles, with the child Created, is
-- audio/processing/tempfile_manager.go over the set of paths on the disk.
--
-- Ui/Tray is internal/ui/tray: a tray is the titles of its items under the keys of the source's maps, and
-- each update of settings_menu.go is a function on them; its child Setup creates the menus. A download of
-- its child Downloads is the goroutine of a click on a model with its context: the end of the switch and
-- what comes after the test on the context are two steps, and clicks fall between them. Ui/Clicks puts the
-- other clicks over the actions of Services/Actions/Settings, what these show included. Ui/Window is
-- internal/ui/window/gtk.go: what the widgets show and which actions they start, over a toolkit that is a
-- parameter. Ui/Notify is internal/notify/notification.go, and Ui/Service internal/services/ui_service.go,
-- which passes the calls of the other services on to the tray, the window and the notifications. Ui/Items
-- and Ui/Languages hold the items of a menu and internal/constants/languages.go.
--
-- App is internal/app/app.go, cmd/dabri/daemon.go, the start of the server for commands in
-- internal/app/ipc.go, and Shutdown of internal/services/interfaces.go: a run of the program is the list of
-- steps that it takes, from the lock over the configuration, the services and the servers to their end.
-- What starts and what fails is the parameter `World`; the lock, the configuration and the construction of
-- the services are modelled in their own modules.
--
-- Tests holds concrete runs.
--
-- Not modelled: devices, processes, YAML, JSON, HTTP, D-Bus and sockets (system calls and libraries,
-- parameters where a decision depends on them), what systray and GTK draw, the About page, signals,
-- logging, most texts of messages to the user, the speech engines, the process of the input daemon, the
-- start and stop of the HTTP server, and command line flags.
pub mod Prelude
pub mod Text
pub mod Hotkeys
pub mod Config
pub mod Websocket
pub mod Services
pub mod TempFiles
pub mod Transcript
pub mod Lockfile
pub mod Recorders
pub mod Output
pub mod Stt
pub mod Ipc
pub mod Commands
pub mod Ui
pub mod App
pub mod Tests
