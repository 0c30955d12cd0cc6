-- ===== src/Ipc/Routes.antt =====
-- internal/ipc/server.go: the connections that the loop accepts, and the goroutines that serve them.
use dabri.Prelude.{
  ℕ, ◌+◌, ◌==◌, ◌≡◌, Bool, true, List, [], ◌∷◌, Option, arith, if◌then◌else◌, ltb, is_some,
}
use dabri.Text.{Text}
use dabri.Ipc.{
  Codec, Server, connection, failure, NetError, closed, timeout, interrupted, other, Accepting,
  ServerStep, accepts, serves, server_step,
}

abbrev pub server_steps {ℓ} :
    {S : Type ℓ} → Codec → Server S → List ServerStep → Accepting × S → Accepting × S
server_steps codec s [] x = x
server_steps codec s (t ∷ ts) x = server_steps codec s ts (server_step codec s t x)

-- An error behind which nothing is accepted: the listener is closed, the server is being stopped, or
-- it is neither a timeout nor an interruption.
abbrev is_last : NetError → Bool → Bool
is_last closed stopping = true
is_last timeout stopping = stopping
is_last interrupted stopping = stopping
is_last other stopping = true

-- The connections that arrive before the first such error.
abbrev arrivals : List ServerStep → ℕ
arrivals [] = 0
arrivals (accepts (connection line) ∷ ts) = 1 + arrivals ts
arrivals (accepts (failure e stopping) ∷ ts) =
    let rest = arrivals ts in if is_last e stopping then 0 else rest
arrivals (serves n ∷ ts) = arrivals ts

-- How many of these can a line be read from.
abbrev readable_arrivals : List ServerStep → ℕ
readable_arrivals [] = 0
readable_arrivals (accepts (connection line) ∷ ts) =
    (if is_some line then 1 else 0) + readable_arrivals ts
readable_arrivals (accepts (failure e stopping) ∷ ts) =
    let rest = readable_arrivals ts in if is_last e stopping then 0 else rest
readable_arrivals (serves n ∷ ts) = readable_arrivals ts

-- How many entries have a text: a line that is read, or a response that is written.
abbrev pub texts : List (ℕ × Option Text) → ℕ
texts [] = 0
texts ((k, x) ∷ entries) = (if is_some x then 1 else 0) + texts entries

-- How often a number stands in a list.
abbrev pub times : ℕ → List (ℕ × Option Text) → ℕ
times n [] = 0
times n ((k, line) ∷ entries) = (if k == n then 1 else 0) + times n entries

-- Each number below `next` is that of one goroutine, which runs or is done, and no other is.
abbrev pub IsServed : Accepting → Type 0
IsServed a = (n : ℕ) → times n a.in_flight + times n a.done ≡ (if ltb n a.next then 1 else 0)

abbrev pub new_loop : Accepting
new_loop = record { running = true; next = 0; in_flight = []; done = [] }

pub new_loop-IsServed : IsServed new_loop
new_loop-IsServed n = ground arith
