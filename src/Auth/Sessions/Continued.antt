-- ===== src/Auth/Sessions/Continued.antt =====
-- services/session_service.py: refreshing never makes a session longer.
use pos_pay.Base.{ℕ, ◌≤◌, some, ◌≡◌}
use pos_pay.Store.Rows.{Uuid, Tenant}
use pos_pay.Store.Db.{Db}
use pos_pay.Store.Exec.{ok}
use pos_pay.Auth.Tokens.{Claims, Jwt, AuthEnv, SessionTokens}
use pos_pay.Auth.Sessions.{refresh_session}

module _ {Token : Type 0} (jwt : Jwt Token) where
  -- The pairs of tokens that a refresh token leads to, by refreshing at any times.
  pub data Leads (first : Token) : SessionTokens Token → Type 0 where
    once :
        (env : AuthEnv) (db : Db) (tokens : SessionTokens Token) (tenant : Tenant)
        → (refresh_session jwt env first db).0 ≡ ok (tokens, tenant)
        → Leads first tokens
    again :
        (before : SessionTokens Token)
        → Leads first before
        → (env : AuthEnv) (db : Db) (tokens : SessionTokens Token) (tenant : Tenant)
        → (refresh_session jwt env before.refresh_token db).0 ≡ ok (tokens, tenant)
        → Leads first tokens

  -- The tokens belong to this session and end with it.
  pub record Continues (sid : Uuid) (session_end : ℕ) (tokens : SessionTokens Token) : Type 0 where
    pub session_id : tokens.session_id ≡ sid
    pub ends : tokens.session_expires_at ≡ session_end
    pub access_ends : tokens.access_expires_at ≤ session_end
    pub claims : Claims
    pub signed : tokens.refresh_token ≡ jwt.encode claims
    pub claims_end : claims.exp ≡ session_end
    pub claims_sid : claims.sid ≡ some sid
