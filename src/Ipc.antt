-- ===== src/Ipc.antt =====
-- internal/ipc/types.go and internal/ipc/server.go: the requests and responses on the socket for
-- commands, and the server. A handler reads and changes a state of any type. The encodings, the
-- socket and what goes wrong with them are parameters; deadlines and log lines are left out.
pub mod Client
pub mod Routes
pub mod Handlers
use dabri.Prelude.{
  ℕ, ◌+◌, ◌==◌, select, Bool, true, false, not, ◌&&◌, List, [], ◌∷◌, ◌++◌, Option, none, some,
  if◌then◌else◌, is_empty,
}
use dabri.Prelude.Int.{ℤ}
use dabri.Text.{Text, codes, text_eq, to_lower, trim_space}

-- The parameters are the entries of a map; a key has one entry.
pub record Request : Type 0 where
  pub command : Text
  pub params : List (Text × Text)

-- The values in the data of a response.
mutual
  pub data Value : Type 0 where
    text : Text → Value
    flag : Bool → Value
    int : ℤ → Value
    object : Fields → Value

  pub data Fields : Type 0 where
    end : Fields
    field : Text → Value → Fields → Fields

pub record Response : Type 0 where
  pub ok : Bool
  pub message : Text
  pub data_of : Option Fields

abbrev pub new_success_response : Text → Fields → Response
new_success_response message fields = record { ok = true; message = message; data_of = some fields }

abbrev new_error_response : Text → Response
new_error_response message = record { ok = false; message = message; data_of = none }

-- What a handler returns: a response, or an error by its text.
pub data Answer : Type 0 where
  responds : Response → Answer
  fails : Text → Answer

abbrev pub Handler {ℓ} : Type ℓ → Type ℓ
Handler S = Request → S → S × Answer

-- `listens` is that there is an open listener, and `has_file` that a file stands at the path.
pub record Server {ℓ} (S : Type ℓ) : Type ℓ where
  pub path : Text
  pub listens : Bool
  pub has_file : Bool
  pub stopped : Bool
  pub handlers : List (Text × Handler S)

-- How the server spells a command.
abbrev pub command_key : Text → Text
command_key command = trim_space (to_lower command)

-- The parameters of a request as a map: the entry of a key, if there is one.
unfoldable pub entry {ℓ} : {A : Type ℓ} → Text → List (Text × A) → Option A
entry key [] = none
entry key ((k, a) ∷ entries) = if text_eq key k then some a else entry key entries

module _ {ℓ} {S : Type ℓ} where
  unfoldable pub new_server : Text → Server S
  new_server path = record {
    path = path;
    listens = false;
    has_file = false;
    stopped = false;
    handlers = [];
  }

  -- An entry in front hides those of the same key behind it. A handler may be nil.
  unfoldable pub register : Text → Option (Handler S) → Server S → Server S
  register command none s = s
  register command (some handler) s =
      let cmd = command_key command in
      if is_empty cmd then s else record s { handlers = (cmd, handler) ∷ s.handlers }

  unfoldable pub get_handler : Server S → Text → Option (Handler S)
  get_handler s command = entry (command_key command) s.handlers

-- What `Start` meets: whether each call on the system succeeds.
pub record SocketWorld : Type 0 where
  pub makes_dir : Bool
  pub removes : Bool
  pub binds : Bool
  pub chmods : Bool

pub data StartError : Type 0 where
  no_path no_dir stale_socket no_listener no_permissions : StartError

-- json.Unmarshal of a request and json.Marshal of a response, `none` for an error.
pub record Codec : Type 0 where
  pub parse : Text → Option Request
  pub encode : Response → Option Text

-- What Accept returns.
pub data NetError : Type 0 where
  closed timeout interrupted other : NetError

-- A connection by the line that is read from it, `none` for an error, or an error with whether the
-- server is being stopped then.
pub data Accepted : Type 0 where
  connection : Option Text → Accepted
  failure : NetError → Bool → Accepted

pub is_transient_accept_error : NetError → Bool
is_transient_accept_error timeout = true
is_transient_accept_error interrupted = true
is_transient_accept_error _ = false

pub ends_loop : NetError → Bool → Bool
ends_loop closed stopping = true
ends_loop e stopping = if stopping then true else not (is_transient_accept_error e)

-- What is written on the connection.
pub write_response : Codec → Response → Option Text
write_response codec resp = elim (codec.encode resp) [
  | none ↦ none
  | some bytes ↦ some (bytes ++ b'\n' ∷ [])
]

pub response_to : Answer → Response
response_to (responds resp) = resp
response_to (fails message) = new_error_response message

module _ {ℓ} {S : Type ℓ} where
  -- Closing a listener removes its file.
  unfoldable pub start : SocketWorld → Server S → Server S × Option StartError
  start world s =
      if is_empty s.path
      then (s, some no_path)
      else if not world.makes_dir
      then (s, some no_dir)
      else if not world.removes
      then (s, some stale_socket)
      else if not world.binds
      then (record s { has_file = false }, some no_listener)
      else if not world.chmods
      then (record s { has_file = false }, some no_permissions)
      else (record s { listens = true; has_file = true }, none)

  -- The wait for the goroutines is left out. A failure to remove the file is only logged.
  unfoldable pub stop : Bool → Server S → Server S
  stop removes s = if s.stopped then s else record s {
    stopped = true;
    listens = false;
    has_file =
        (if s.listens
          then false
          else if not (is_empty s.path) && removes
          then false
          else s.has_file);
  }

  -- The part of `handleConnection` behind the parsing.
  unfoldable pub answer_request : Server S → Request → S → S × Response
  answer_request s req state = elim (get_handler s req.command) [
    | none ↦ (state, new_error_response (codes "unknown command"))
    | some handler ↦ (let (state', answer) = handler req state in (state', response_to answer))
  ]

  unfoldable pub handle_line : Codec → Server S → Text → S → S × Response
  handle_line codec s line state = elim (codec.parse line) [
    | none ↦ (state, new_error_response (codes "invalid request payload"))
    | some req ↦ answer_request s req state
  ]

  unfoldable pub handle_connection : Codec → Server S → Option Text → S → S × Option Text
  handle_connection codec s none state = (state, none)
  handle_connection codec s (some line) state =
      let (state', resp) = handle_line codec s line state in (state', write_response codec resp)

-- The loop that accepts and the goroutines that it starts, by number: those that run, each with the
-- line that is read from its connection, and those that are done, with what they wrote.
pub record Accepting : Type 0 where
  pub running : Bool
  pub next : ℕ
  pub in_flight : List (ℕ × Option Text)
  pub done : List (ℕ × Option Text)

-- One round of `acceptLoop`: a connection gets a goroutine, an error may end the loop.
pub accept_loop : Accepted → Accepting → Accepting
accept_loop (connection line) a =
    if a.running
    then record a { in_flight = (a.next, line) ∷ a.in_flight; next = a.next + 1 }
    else a
accept_loop (failure e stopping) a =
    if ends_loop e stopping then record a { running = false } else a

pub line_of : ℕ → List (ℕ × Option Text) → Option (Option Text)
line_of n [] = none
line_of n ((k, line) ∷ entries) = let rest = line_of n entries in if k == n then some line else rest

-- The goroutines end in any order, also when the loop has ended.
pub data ServerStep : Type 0 where
  accepts : Accepted → ServerStep
  serves : ℕ → ServerStep

module _ {ℓ} {S : Type ℓ} where
  -- The goroutine of a connection does its work; the calls of handlers do not overlap.
  unfoldable pub serve : Codec → Server S → ℕ → Accepting × S → Accepting × S
  serve codec s n (a, state) = elim (line_of n a.in_flight) [
    | none ↦ (a, state)
    | some line ↦
        (let (state', written) = handle_connection codec s line state in
          (
            record a {
              in_flight = select (λ e. not (e.0 == n)) a.in_flight;
              done = (n, written) ∷ a.done;
            },
            state',
          ))
  ]

  unfoldable pub server_step : Codec → Server S → ServerStep → Accepting × S → Accepting × S
  server_step codec s (accepts x) (a, state) = (accept_loop x a, state)
  server_step codec s (serves n) x = serve codec s n x
