-- ===== src/Websocket/Clients.antt =====
-- The set of clients in websocket/server.go: `handleWebSocket` up to the welcome message and its
-- deferred clean-up, and the part of `Stop` that closes the clients. A connection is a number.
pub mod Limit
use dabri.Prelude.{
  ℕ, Bool, true, false, not, ◌&&◌, ◌||◌, List, [], ◌∷◌, Option, none, some, if◌then◌else◌, any,
  select, length, ◌==◌, leb,
}
use dabri.Prelude.Int.{ℤ, pos, negsuc, above}
use dabri.Config.Model.{WebServer}
use dabri.Websocket.Access.{Request, authenticate, check_origin}

pub record Server : Type 0 where
  pub config : WebServer
  pub clients : List ℕ
  pub started : Bool

pub data Refusal : Type 0 where
  unauthorized too_many_connections not_upgraded : Refusal

-- clientCount >= MaxClients, for a limit that is set
unfoldable pub is_full : ℕ → ℤ → Bool
is_full count (pos limit) = leb limit count
is_full count (negsuc n) = true

-- What is checked before the upgrade.
unfoldable pub admit : Server → Request → Option Refusal
admit s r =
    if not (authenticate s.config r)
    then some unauthorized
    else if above s.config.max_clients 0 && is_full (length s.clients) s.config.max_clients
    then some too_many_connections
    else none

-- `s.clients[conn] = true`
pub register_client : ℕ → Server → Server
register_client conn s =
    if any (λ c. c == conn) s.clients then s else record s { clients = conn ∷ s.clients }

-- `delete(s.clients, conn)`; the retry counter of the connection goes with it.
pub remove_client : ℕ → Server → Server
remove_client conn s = record s { clients = select (λ c. not (c == conn)) s.clients }

-- One handshake without another one in between; `upgrades` is whether the library's upgrade of a
-- request with an accepted origin succeeds.
pub handle_websocket : Bool → Request → ℕ → Server → Server × Option Refusal
handle_websocket upgrades r conn s = elim (admit s r) [
  | some e ↦ (s, some e)
  | none ↦
      if not (check_origin s.config r && upgrades)
      then (s, some not_upgraded)
      else (register_client conn s, none)
]

pub stop_server : Server → Server
stop_server s = if s.started then record s { clients = []; started = false } else s

-- A handshake, the end of a connection, or the stop of the server.
pub data ServerEvent : Type 0 where
  handshake : Bool → Request → ℕ → ServerEvent
  closed : ℕ → ServerEvent
  stopped : ServerEvent

pub serve : ServerEvent → Server → Server
serve (handshake upgrades r conn) s = (handle_websocket upgrades r conn s).0
serve (closed conn) s = remove_client conn s
serve stopped s = stop_server s

pub serve_all : List ServerEvent → Server → Server
serve_all [] s = s
serve_all (e ∷ es) s = serve_all es (serve e s)

-- A handshake as its two critical sections, and a schedule of several: the server, and the
-- connections that are past the checks.
pub data Section : Type 0 where
  checks : Request → ℕ → Section
  registers : ℕ → Section

pub run_section : Section → Server × List ℕ → Server × List ℕ
run_section (checks r conn) (s, passed) = elim (admit s r) [
  | some e ↦ (s, passed)
  | none ↦ (s, conn ∷ passed)
]
run_section (registers conn) (s, passed) =
    if any (λ c. c == conn) passed then (register_client conn s, passed) else (s, passed)

pub run_sections : List Section → Server × List ℕ → Server × List ℕ
run_sections [] st = st
run_sections (x ∷ xs) st = run_sections xs (run_section x st)
