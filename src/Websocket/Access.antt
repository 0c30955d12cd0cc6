-- ===== src/Websocket/Access.antt =====
-- Who may connect: `authenticate` in websocket/authentication.go and `checkOriginFunc` in
-- websocket/server.go.
pub mod Tokens
use dabri.Prelude.{
  ℕ, zero, suc, Bool, true, false, not, ◌&&◌, ◌||◌, List, [], ◌∷◌, if◌then◌else◌, is_empty, length,
  ltb,
}
use dabri.Text.{Text, codes, text_eq, has_prefix}
use dabri.Config.Model.{WebServer}

-- The parts of http.Request that the server reads.
pub record Request : Type 0 where
  pub origin : Text
  pub query_token : Text
  pub authorization : Text

abbrev pub bearer : Text
bearer = codes "Bearer "

abbrev pub drop : ℕ → Text → Text
drop zero s = s
drop (suc n) [] = []
drop (suc n) (c ∷ s) = drop n s

unfoldable pub bearer_token : Text → Text
bearer_token header =
    if ltb 7 (length header) && has_prefix header bearer then drop 7 header else header

-- subtle.ConstantTimeCompare gives 1 exactly on equal contents.
unfoldable pub authenticate : WebServer → Request → Bool
authenticate w r =
    if is_empty w.auth_token
    then true
    else text_eq r.query_token w.auth_token || text_eq (bearer_token r.authorization) w.auth_token

pub check_origin : WebServer → Request → Bool
check_origin w r =
    if is_empty r.origin
    then true
    else if text_eq w.cors_origins (codes "*")
    then not (is_empty w.auth_token)
    else text_eq r.origin w.cors_origins
