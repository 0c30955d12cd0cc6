-- ===== src/App/Released.antt =====
-- cmd/dabri/daemon.go and internal/app/app.go: what is done by the end of the program.
use dabri.Prelude.{
  ◌≡◌, refl, sym, ap, ◌∙◌, arith, Bool, true, false, ◌⊎◌, inl, inr, List, [], ◌∷◌, ◌++◌, Option,
  none, some, if◌then◌else◌, select, any, map, Bool-cases, last,
}
use mathlib.Core.Path.{subst}
use mathlib.Core.List.{append_assoc, append-nil}
use dabri.Text.{Text}
use dabri.Config.Load.{Loaded, loaded, failed}
use dabri.Services.Startup.{Container, made, refused}
use dabri.App.{
  App, World, Step, Service, Services, Failure, lock_taken, lock_released, config_loaded,
  services_built, hotkeys_set_up, loop_run, cancelled, socket_closed, ended, new_app, also,
  initialize, initialize_services, built, configured, start_services, start_ipc_server,
  run_and_wait, shutdown_app, run_daemon, finish_daemon,
}
use dabri.App.Ending.{all_services, end_services-all}
use dabri.App.Running.{
  is_lock, is_end, is_build, IsUp, select-append, any-append, IsUp-append, services-IsUp,
  socket-IsUp, closed-IsQuiet,
}

abbrev locked_app : App
locked_app = also (lock_taken ∷ []) new_app

-- What an application has done when it is initialized.
abbrev Initialized : App × Option Failure → Type 0
Initialized (a, some e) = (a.steps ≡ lock_taken ∷ []) ⊎ (a.steps ≡ lock_taken ∷ config_loaded ∷ [])
Initialized (a, none) =
    (a.steps ≡ lock_taken ∷ config_loaded ∷ services_built ∷ hotkeys_set_up ∷ [])
    × (a.has_services ≡ true)
    × (a.has_socket ≡ false)

built-Initialized : (x : Container) → Initialized (built x (also (config_loaded ∷ []) locked_app))
unfolding built
built-Initialized (refused e) = inr refl
built-Initialized (made cfg kind tool) = (refl, refl, refl)

configured-Initialized : (world : World) (x : Loaded) → Initialized (configured world x locked_app)
unfolding configured initialize_services
configured-Initialized world (failed e) = inl refl
configured-Initialized world (loaded cfg) = built-Initialized _

initialize-Initialized :
    (world : World) (file : Text) (debug : Bool)
    → Initialized (initialize world file debug locked_app)
unfolding initialize
initialize-Initialized world file debug = configured-Initialized world _

ends-only :
    (ss : List Service)
    → (select is_lock (map ended ss ++ lock_released ∷ []) ≡ lock_released ∷ [])
      × (select is_end (map ended ss ++ lock_released ∷ []) ≡ map ended ss)
ends-only [] = (refl, refl)
ends-only (s ∷ ss) = ((ends-only ss).0, ap (◌∷◌ (ended s)) (ends-only ss).1)

last-released :
    (x : Step) (steps : List Step) → last x (steps ++ lock_released ∷ []) ≡ lock_released
last-released x [] = refl
last-released x (s ∷ ss) = last-released s ss

-- The end of a running application.
shutdown-steps :
    (world : World) (a : App)
    → a.has_services ≡ true
    → (shutdown_app world a).0.steps
      ≡ ((a.steps ++ cancelled ∷ []) ++ (if a.has_socket then socket_closed ∷ [] else []))
        ++ map ended (select world.services.has all_services)
unfolding shutdown_app
shutdown-steps world a h = elim (Bool-cases a.has_socket) [
  | inl k ↦ rw (h, k, end_services-all world.services) refl
  | inr k ↦ rw (h, k, end_services-all world.services, append-nil (a.steps ++ cancelled ∷ [])) refl
]

-- The application before its end.
abbrev running : World → App → App
running world a = also (loop_run ∷ []) (start_ipc_server world (start_services world a).0)

run-shutdown :
    (world : World) (a : App)
    → a.has_services ≡ true
    → run_and_wait world a ≡ shutdown_app world (running world a)
unfolding run_and_wait start_services
run-shutdown world a h = rw h refl

-- The lock is released last, and the services are ended exactly if they were built.
abbrev pub IsReleased : Services → List Step → Type 0
IsReleased sc steps =
    (select is_lock steps ≡ lock_taken ∷ lock_released ∷ [])
    × (last lock_taken steps ≡ lock_released)
    × (select is_end steps
        ≡ (if any is_build steps then map ended (select sc.has all_services) else []))

ended-IsReleased :
    (sc : Services) (xs : List Step)
    → IsUp xs
    → IsReleased sc ((xs ++ map ended (select sc.has all_services)) ++ lock_released ∷ [])
ended-IsReleased sc xs h =
    let ss = select sc.has all_services in
    let es = map ended ss in
    let tail = es ++ lock_released ∷ [] in
    subst (λ (ys : List Step). IsReleased sc ys) (sym (append_assoc xs es (lock_released ∷ [])))
      (
        select-append is_lock xs tail ∙ ground (arith, h.0, (ends-only ss).0),
        subst (λ (ys : List Step). last lock_taken ys ≡ lock_released)
            (append_assoc xs es (lock_released ∷ [])) (last-released lock_taken (xs ++ es)),
        select-append is_end xs tail
            ∙ ground (arith, h.1, h.2, (ends-only ss).1, any-append is_build xs tail),
      )

shutdown-IsReleased :
    (world : World) (a : App)
    → a.has_services ≡ true
    → IsUp a.steps
    → IsReleased world.services ((shutdown_app world a).0.steps ++ lock_released ∷ [])
shutdown-IsReleased world a h u =
    let first = a.steps ++ cancelled ∷ [] in
    let closed : List Step = if a.has_socket then socket_closed ∷ [] else [] in
    subst (λ (ys : List Step). IsReleased world.services (ys ++ lock_released ∷ []))
      (sym (shutdown-steps world a h))
      (ended-IsReleased world.services (first ++ closed) (
        IsUp-append first closed (IsUp-append a.steps (cancelled ∷ []) u (refl, refl))
          (closed-IsQuiet a.has_socket)))

run-IsReleased :
    (world : World) (a : App)
    → a.has_services ≡ true
    → IsUp a.steps
    → IsReleased world.services ((run_and_wait world a).0.steps ++ lock_released ∷ [])
run-IsReleased world a h u =
    let s = services-IsUp world a h u in
    let o = socket-IsUp world (start_services world a).0 s.0 s.1 in
    subst
      (λ (r : App × Option Failure). IsReleased world.services (r.0.steps ++ lock_released ∷ []))
      (sym (run-shutdown world a h))
      (shutdown-IsReleased world (running world a) o.0 (
        IsUp-append (start_ipc_server world (start_services world a).0).steps (loop_run ∷ []) o.1
          (refl, refl)))

finished_lem :
    (world : World) (x : App × Option Failure)
    → Initialized x
    → IsReleased world.services (finish_daemon world x).0.steps
unfolding finish_daemon
finished_lem world (a, some e) (inl h) = rw h (refl, refl, refl)
finished_lem world (a, some e) (inr h) = rw h (refl, refl, refl)
finished_lem world (a, none) h = run-IsReleased world a h.1 (rw h.0 (refl, refl, refl))

daemon-finish :
    (world : World) (file : Text) (debug : Bool)
    → world.locks ≡ true
    → run_daemon world file debug ≡ finish_daemon world (initialize world file debug locked_app)
unfolding run_daemon
daemon-finish world file debug h = rw h refl

-- However far the program gets, once it has taken the lock it releases it, once and last, and it ends
-- all of its services, each once and in order, exactly if they were built.
pub daemon-IsReleased :
    (world : World) (file : Text) (debug : Bool)
    → world.locks ≡ true
    → IsReleased world.services (run_daemon world file debug).0.steps
daemon-IsReleased world file debug h =
    subst (λ (r : App × Option Failure). IsReleased world.services r.0.steps)
      (sym (daemon-finish world file debug h))
      (finished_lem world (initialize world file debug locked_app)
        (initialize-Initialized world file debug))
