-- ===== src/App/Running.antt =====
-- internal/app/app.go: what a running application has done.
use dabri.Prelude.{
  ◌≡◌, refl, ap, ◌∙◌, arith, Bool, true, false, ◌||◌, inl, inr, List, [], ◌∷◌, ◌++◌, if◌then◌else◌,
  select, any, Bool-cases,
}
use dabri.App.{
  App, World, Step, lock_taken, lock_released, services_built, server_started, hotkeys_started,
  socket_opened, socket_closed, ended, start_services, start_ipc_server,
}

abbrev pub is_lock : Step → Bool
is_lock lock_taken = true
is_lock lock_released = true
is_lock _ = false

abbrev pub is_end : Step → Bool
is_end (ended s) = true
is_end _ = false

abbrev pub is_build : Step → Bool
is_build services_built = true
is_build _ = false

pub select-append :
    (p : Step → Bool) (xs ys : List Step) → select p (xs ++ ys) ≡ select p xs ++ select p ys
select-append p [] ys = refl
select-append p (x ∷ xs) ys = elim (Bool-cases (p x)) [
  | inl e ↦ rw e (ap (◌∷◌ x) (select-append p xs ys))
  | inr e ↦ rw e (select-append p xs ys)
]

pub any-append : (p : Step → Bool) (xs ys : List Step) → any p (xs ++ ys) ≡ (any p xs || any p ys)
any-append p [] ys = refl
any-append p (x ∷ xs) ys = ground (arith, any-append p xs ys)

-- Steps that neither take the lock nor end a service.
abbrev IsQuiet : List Step → Type 0
IsQuiet ys = (select is_lock ys ≡ []) × (select is_end ys ≡ [])

-- The lock is taken and the services are there.
abbrev pub IsUp : List Step → Type 0
IsUp xs = (select is_lock xs ≡ lock_taken ∷ []) × (select is_end xs ≡ []) × (any is_build xs ≡ true)

pub IsUp-append : (xs ys : List Step) → IsUp xs → IsQuiet ys → IsUp (xs ++ ys)
IsUp-append xs ys h q = (
  select-append is_lock xs ys ∙ ground (arith, h.0, q.0),
  select-append is_end xs ys ∙ ground (arith, h.1, q.1),
  any-append is_build xs ys ∙ ground (arith, h.2),
)

started-IsQuiet :
    (server keys : Bool)
    → IsQuiet (
        (if server then server_started ∷ [] else []) ++ (if keys then hotkeys_started ∷ [] else []))
started-IsQuiet true true = (refl, refl)
started-IsQuiet true false = (refl, refl)
started-IsQuiet false true = (refl, refl)
started-IsQuiet false false = (refl, refl)

pub services-IsUp :
    (world : World) (a : App)
    → a.has_services ≡ true
    → IsUp a.steps
    → ((start_services world a).0.has_services ≡ true) × IsUp (start_services world a).0.steps
unfolding start_services
services-IsUp world a h u =
    rw h (refl, IsUp-append a.steps _ u (started-IsQuiet world.starts_server world.starts_hotkeys))

pub socket-IsUp :
    (world : World) (a : App)
    → a.has_services ≡ true
    → IsUp a.steps
    → ((start_ipc_server world a).has_services ≡ true) × IsUp (start_ipc_server world a).steps
unfolding start_ipc_server
socket-IsUp world a h u = elim (Bool-cases world.opens_socket) [
  | inl e ↦ rw (h, e) (refl, IsUp-append a.steps (socket_opened ∷ []) u (refl, refl))
  | inr e ↦ rw (h, e) (refl, u)
]

pub closed-IsQuiet : (open_socket : Bool) → IsQuiet (if open_socket then socket_closed ∷ [] else [])
closed-IsQuiet true = (refl, refl)
closed-IsQuiet false = (refl, refl)
