-- ===== src/App/Ending.antt =====
-- internal/services/interfaces.go: the end of the services.
use dabri.Prelude.{
  ◌≡◌, refl, sym, ap, ◌∙◌, arith, Bool-cases, inl, inr, Bool, ◌&&◌, List, [], ◌∷◌, ◌++◌, select,
  map, Bool-cases, inl, inr,
}
use mathlib.Core.List.{append_assoc, append-nil}
use dabri.App.{
  Service, audio, ui, io, config, hotkeys, temp_files, input_daemon, Services, Step, ended,
  end_service, end_silently, end_services,
}

-- The services whose end can fail, and all, in order.
pub failing : List Service
failing = audio ∷ ui ∷ io ∷ config ∷ hotkeys ∷ []

pub all_services : List Service
all_services = failing ++ temp_files ∷ input_daemon ∷ []

run_all : Services → List Service → List Step × List Service → List Step × List Service
run_all sc [] x = x
run_all sc (s ∷ ss) x = run_all sc ss (end_service sc s x)

abbrev failed_of : Services → Service → Bool
failed_of sc s = sc.has s && sc.fails s

run_all-lem :
    (sc : Services) (ss : List Service) (steps : List Step) (errs : List Service)
    → run_all sc ss (steps, errs)
      ≡ (steps ++ map ended (select sc.has ss), errs ++ select (failed_of sc) ss)
unfolding run_all end_service
run_all-lem sc [] steps errs = ground (arith, append-nil steps, append-nil errs)
run_all-lem sc (s ∷ ss) steps errs = elim (Bool-cases (sc.has s)) [
  | inr h ↦ rw h (run_all-lem sc ss steps errs)
  | inl h ↦ elim (Bool-cases (sc.fails s)) [
    | inl f ↦
        rw (h, f)
          (run_all-lem sc ss (steps ++ ended s ∷ []) (errs ++ s ∷ [])
            ∙ ground (
              arith,
              append_assoc steps (ended s ∷ []) (map ended (select sc.has ss)),
              append_assoc errs (s ∷ []) (select (failed_of sc) ss),
            ))
    | inr f ↦
        rw (h, f)
          (run_all-lem sc ss (steps ++ ended s ∷ []) errs
            ∙ ground (arith, append_assoc steps (ended s ∷ []) (map ended (select sc.has ss))))
  ]
]

silently-lem :
    (sc : Services) (s : Service) (steps : List Step) (errs : List Service)
    → end_silently sc s (steps, errs) ≡ (steps ++ map ended (select sc.has (s ∷ [])), errs)
unfolding end_silently
silently-lem sc s steps errs = elim (Bool-cases (sc.has s)) [
  | inl h ↦ rw h refl
  | inr h ↦ rw h (ground (arith, append-nil steps))
]

-- The steps for a list with the two services behind it.
ended_parts :
    (sc : Services) (ss : List Service)
    → map ended (select sc.has (ss ++ temp_files ∷ input_daemon ∷ []))
      ≡ map ended (select sc.has ss)
        ++ (map ended (select sc.has (temp_files ∷ []))
            ++ map ended (select sc.has (input_daemon ∷ [])))
ended_parts sc [] = elim (Bool-cases (sc.has temp_files)) [ inl h ↦ rw h refl | inr h ↦ rw h refl ]
ended_parts sc (s ∷ ss) = elim (Bool-cases (sc.has s)) [
  | inl h ↦ rw h (ap (◌∷◌ (ended s)) (ended_parts sc ss))
  | inr h ↦ rw h (ended_parts sc ss)
]

-- By the loop.
by_loop :
    (sc : Services)
    → end_services sc
      ≡ end_silently sc input_daemon (end_silently sc temp_files (run_all sc failing ([], [])))
unfolding end_services run_all failing
by_loop sc = refl

-- Every service that there is is ended, once, in the order of its list, whatever the ends of others
-- return; the errors are those of the services whose end fails.
pub end_services-all :
    (sc : Services)
    → end_services sc
      ≡ (map ended (select sc.has all_services), select (λ s. sc.has s && sc.fails s) failing)
unfolding all_services
end_services-all sc =
    let done = map ended (select sc.has failing) in
    let errs = select (failed_of sc) failing in
    let files = map ended (select sc.has (temp_files ∷ [])) in
    let last = map ended (select sc.has (input_daemon ∷ [])) in
    by_loop sc
    ∙ ap (λ x. end_silently sc input_daemon (end_silently sc temp_files x))
        (run_all-lem sc failing [] [])
    ∙ ap (end_silently sc input_daemon) (silently-lem sc temp_files done errs)
    ∙ silently-lem sc input_daemon (done ++ files) errs
    ∙ ap (λ x. (x, errs)) (append_assoc done files last ∙ sym (ended_parts sc failing))
