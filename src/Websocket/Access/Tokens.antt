-- ===== src/Websocket/Access/Tokens.antt =====
-- websocket/authentication.go and websocket/server.go: what a request must carry to be let in.
use dabri.Prelude.{
  ℕ, ◌≡◌, refl, ◌↔◌, ◌⊎◌, inl, inr, Bool, true, false, ◌&&◌, [], ◌∷◌, ◌++◌, arith, is_empty, length,
  ltb, Bool-cases,
}
use dabri.Text.{Text, codes, text_eq_iff, has_prefix}
use dabri.Config.Model.{WebServer}
use dabri.Websocket.Access.{Request, bearer, drop, bearer_token, authenticate, check_origin}

-- The header is `Bearer ` and something after it.
abbrev is_bearer : Text → Bool
is_bearer header = ltb 7 (length header) && has_prefix header bearer

bearer_append : (c : ℕ) (t : Text) → bearer_token (bearer ++ (c ∷ t)) ≡ c ∷ t
unfolding bearer_token has_prefix
bearer_append c t = ground arith

has_prefix-eq : (s p : Text) → has_prefix s p ≡ true → s ≡ p ++ drop (length p) s
unfolding has_prefix
has_prefix-eq s [] h = refl
has_prefix-eq [] (c ∷ p) h = cc
has_prefix-eq (d ∷ s) (c ∷ p) h = ground (arith, has_prefix-eq s p)

-- The token of a request, as the header carries it.
abbrev pub Carries : Text → Text → Type 0
Carries token header = (header ≡ bearer ++ token) ⊎ ((header ≡ token) × (is_bearer token ≡ false))

bearer_token-Carries : (token header : Text) → bearer_token header ≡ token → Carries token header
unfolding bearer_token
bearer_token-Carries token header e = elim (Bool-cases (is_bearer header)) [
  | inl b ↦ inl (ground (arith, has_prefix-eq header bearer))
  | inr b ↦ inr (ground (arith))
]

Carries-bearer_token :
    (token header : Text)
    → is_empty token ≡ false
    → Carries token header
    → bearer_token header ≡ token
unfolding bearer_token
Carries-bearer_token [] header h c = cc
Carries-bearer_token (c ∷ token) header h (inl e) = rw e (bearer_append c token)
Carries-bearer_token token header h (inr (e, b)) = rw e (rw b refl)

bearer_token_iff :
    (token header : Text)
    → is_empty token ≡ false
    → (bearer_token header ≡ token) ↔ Carries token header
unfolding bearer_token
bearer_token_iff token header h =
    (bearer_token-Carries token header, Carries-bearer_token token header h)

-- With a token configured, a request is let in exactly when the query or the header carries that
-- token, the header either after `Bearer ` or, for a token that does not itself begin with `Bearer `
-- and go on, alone.
pub authenticate_iff :
    (w : WebServer) (r : Request)
    → is_empty w.auth_token ≡ false
    → (authenticate w r ≡ true)
      ↔ ((r.query_token ≡ w.auth_token) ⊎ Carries w.auth_token r.authorization)
unfolding authenticate
authenticate_iff w r h = ground (
  arith,
  text_eq_iff r.query_token w.auth_token,
  text_eq_iff (bearer_token r.authorization) w.auth_token,
  bearer_token_iff w.auth_token r.authorization h,
)

-- With the origins left at `*`, a request that names an origin and passes both checks carries a
-- configured token: an arbitrary web page cannot connect without it.
star-Carries :
    (w : WebServer) (r : Request)
    → w.cors_origins ≡ codes "*"
    → is_empty r.origin ≡ false
    → (check_origin w r && authenticate w r) ≡ true
    → (is_empty w.auth_token ≡ false)
      × ((r.query_token ≡ w.auth_token) ⊎ Carries w.auth_token r.authorization)
unfolding check_origin
star-Carries w r s o h =
    ground (arith, authenticate_iff w r, text_eq_iff w.cors_origins (codes "*"))
