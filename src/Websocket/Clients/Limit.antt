-- ===== src/Websocket/Clients/Limit.antt =====
-- websocket/server.go: the limit on the number of clients, with handshakes one after the other and
-- interleaved.
use mathlib.Core.Path.{subst}
use dabri.Prelude.{
  map, sym, ap, ◌∙◌, All-map, ℕ, zero, suc, ◌+◌, ◌≤◌, ◌<◌, ◌≡◌, refl, Bool, true, false, not, List,
  [], ◌∷◌, ◌++◌, none, arith, any, select, length, ◌==◌, All, inl, inr, Bool-cases,
}
use dabri.Prelude.Int.{pos}
use dabri.Websocket.Access.{Request}
use dabri.Websocket.Clients.{
  Server, is_full, admit, register_client, remove_client, handle_websocket, stop_server,
  ServerEvent, handshake, closed, stopped, serve, serve_all, Section, checks, registers,
  run_section, run_sections,
}

length-select : (p : ℕ → Bool) (xs : List ℕ) → length (select p xs) ≤ length xs
length-select p [] = omega arith
length-select p (x ∷ xs) = ground (arith, length-select p xs)

-- The limit is `suc m`, and it is respected.
abbrev IsBounded : ℕ → Server → Type 0
IsBounded m s = (s.config.max_clients ≡ pos (suc m)) × (length s.clients ≤ suc m)

serve-IsBounded : (m : ℕ) (e : ServerEvent) (s : Server) → IsBounded m s → IsBounded m (serve e s)
unfolding serve handle_websocket admit is_full register_client remove_client stop_server
serve-IsBounded m (handshake upgrades r conn) s h = ground (arith, h)
serve-IsBounded m (closed conn) s h =
    ground (arith, h, length-select (λ c. not (c == conn)) s.clients)
serve-IsBounded m stopped s h = ground (arith, h)

-- With a positive limit, and handshakes that are not interleaved, there are never more clients than
-- the limit allows.
serve_all-IsBounded :
    (m : ℕ) (es : List ServerEvent) (s : Server) → IsBounded m s → IsBounded m (serve_all es s)
unfolding serve_all
serve_all-IsBounded m [] s h = h
serve_all-IsBounded m (e ∷ es) s h = serve_all-IsBounded m es (serve e s) (serve-IsBounded m e s h)

-- `n` connections with different numbers.
abbrev pub connections : ℕ → List ℕ
connections zero = []
connections (suc n) = n ∷ connections n

-- Numbers from `n` on are not among the clients.
abbrev IsFresh : ℕ → List ℕ → Type 0
IsFresh n clients = All (λ c. n ≤ c) clients

fresh-any : (n : ℕ) (clients : List ℕ) → IsFresh (suc n) clients → any (λ c. c == n) clients ≡ false
fresh-any n [] h = refl
fresh-any n (c ∷ clients) h = ground (arith, fresh-any n clients h.1)

run_sections-append :
    (xs ys : List Section) (st : Server × List ℕ)
    → run_sections (xs ++ ys) st ≡ run_sections ys (run_sections xs st)
unfolding run_sections
run_sections-append [] ys st = refl
run_sections-append (x ∷ xs) ys st = run_sections-append xs ys (run_section x st)

-- The connections that passed, the latest first.
abbrev turn_onto : List ℕ → List ℕ → List ℕ
turn_onto [] passed = passed
turn_onto (c ∷ conns) passed = turn_onto conns (c ∷ passed)

check_passes :
    (r : Request) (c : ℕ) (s : Server) (passed : List ℕ)
    → admit s r ≡ none
    → run_section (checks r c) (s, passed) ≡ (s, c ∷ passed)
unfolding run_section
check_passes r c s passed a = rw (a, run_section) refl

register_passes :
    (c : ℕ) (s : Server) (passed : List ℕ)
    → any (λ d. d == c) passed ≡ true
    → any (λ d. d == c) s.clients ≡ false
    → run_section (registers c) (s, passed) ≡ (record s { clients = c ∷ s.clients }, passed)
unfolding run_section register_client
register_passes c s passed p f = rw p (rw f refl)

checks-passed :
    (r : Request) (conns : List ℕ) (s : Server) (passed : List ℕ)
    → admit s r ≡ none
    → run_sections (map (checks r) conns) (s, passed) ≡ (s, turn_onto conns passed)
unfolding run_sections
checks-passed r [] s passed a = refl
checks-passed r (c ∷ conns) s passed a =
    ap (run_sections (map (checks r) conns)) (check_passes r c s passed a)
    ∙ checks-passed r conns s (c ∷ passed) a

turn_onto-any :
    (conns passed : List ℕ) (c : ℕ)
    → any (λ d. d == c) passed ≡ true
    → any (λ d. d == c) (turn_onto conns passed) ≡ true
turn_onto-any [] passed c h = h
turn_onto-any (d ∷ conns) passed c h = turn_onto-any conns (d ∷ passed) c (ground arith)

connections-passed :
    (n : ℕ) (passed : List ℕ) (c : ℕ)
    → c < n
    → any (λ d. d == c) (turn_onto (connections n) passed) ≡ true
connections-passed zero passed c h = absurd (omega arith)
connections-passed (suc n) passed c h = elim (Bool-cases (n == c)) [
  | inl e ↦ turn_onto-any (connections n) (n ∷ passed) c (ground arith)
  | inr e ↦ connections-passed n (n ∷ passed) c (ground arith)
]

registers-length :
    (n : ℕ) (s : Server) (passed : List ℕ)
    → ((c : ℕ) → c < n → any (λ d. d == c) passed ≡ true)
    → IsFresh n s.clients
    → length (run_sections (map registers (connections n)) (s, passed)).0.clients
      ≡ n + length s.clients
unfolding run_sections
registers-length zero s passed p h = omega arith
registers-length (suc n) s passed p h =
    ap (λ st. length (run_sections (map registers (connections n)) st).0.clients)
      (register_passes n s passed (p n (omega arith)) (fresh-any n s.clients h))
    ∙ (registers-length n (record s { clients = n ∷ s.clients }) passed
          (λ c l. p c (omega (arith, l)))
          (omega arith, All-map (λ c. suc n ≤ c) (λ c. n ≤ c) (λ c l. omega (arith, l)) s.clients h)
        ∙ omega arith)

-- The check and the registration are two critical sections: on a server without clients that lets a
-- request in, any number of handshakes for it can pass the check before the first of them registers,
-- and then all of them become clients, whatever the limit is.
pub interleaved-length :
    (n : ℕ) (r : Request) (s : Server)
    → s.clients ≡ []
    → admit s r ≡ none
    → length
        (run_sections
          (map (checks r) (connections n) ++ map registers (connections n))
          (s, [])).0.clients
      ≡ n
interleaved-length n r s e a =
    rw
      (run_sections-append (map (checks r) (connections n)) (map registers (connections n)) (s, []))
      (rw (checks-passed r (connections n) s [] a) (
        registers-length n s (turn_onto (connections n) []) (connections-passed n [])
          (subst (IsFresh n) (sym e) tt)
        ∙ ap (λ cs. n + length cs) e
        ∙ omega arith))
