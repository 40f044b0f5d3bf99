-- ===== src/Auth/Tokens.antt =====
-- auth/security.py: the claims of a token, and the pair of tokens of one login session. Signing
-- and verifying is the library's (`jwt`); instants are counted in seconds.
use pos_pay.Base.{ℕ, ◌+◌, ◌*◌, min, Bool, true, false, Option, none, some}
use pos_pay.Store.Rows.{Uuid}
use pos_pay.Store.Exec.{Exec, pure, new_uuid, ◌>>=◌}

pub data TokenType : Type 0 where
  access refresh mfa_pending sso_state : TokenType

abbrev pub same_token_type : TokenType → TokenType → Bool
same_token_type access access = true
same_token_type refresh refresh = true
same_token_type mfa_pending mfa_pending = true
same_token_type sso_state sso_state = true
same_token_type _ _ = false

-- The payload; a claim that may be left out is optional.
pub record Claims : Type 0 where
  pub sub : Uuid
  pub tenant_id : Uuid
  pub security_group_id : Uuid
  pub token_type : TokenType
  pub iat : ℕ
  pub exp : ℕ
  pub tv : Option ℕ
  pub customer_id : Option Uuid
  pub sid : Option Uuid
  pub sxp : Option ℕ

-- `jwt.decode`: the claims, ExpiredSignatureError or another InvalidTokenError.
pub data Decoded : Type 0 where
  valid : Claims → Decoded
  expired invalid : Decoded

-- The library under the program's key pair: `encode`, and `decode` at an instant.
pub record Jwt (Token : Type 0) : Type 0 where
  pub encode : Claims → Token
  pub decode : ℕ → Token → Decoded

-- The clock, and the settings of config.py.
pub record AuthEnv : Type 0 where
  pub now : ℕ
  pub jwt_access_token_expire_minutes : ℕ
  pub jwt_refresh_token_expire_minutes : ℕ
  pub mfa_pending_token_expire_minutes : ℕ

-- `x if x is not None else y`, and `x or y` of an instant or an id.
abbrev pub given_or : Option ℕ → ℕ → ℕ
given_or none n = n
given_or (some m) n = m

-- The arguments that the tokens of one session share.
pub record SessionOf : Type 0 where
  pub user_id : Uuid
  pub tenant_id : Uuid
  pub security_group_id : Uuid
  pub customer_id : Option Uuid
  pub token_version : ℕ

abbrev lifetime : AuthEnv → TokenType → Option ℕ → Option ℕ → ℕ
lifetime env access access_minutes refresh_minutes =
    given_or access_minutes env.jwt_access_token_expire_minutes
lifetime env refresh access_minutes refresh_minutes =
    given_or refresh_minutes env.jwt_refresh_token_expire_minutes
lifetime env _ access_minutes refresh_minutes = env.mfa_pending_token_expire_minutes

-- The payload that `create_token` signs.
unfoldable pub token_claims :
    AuthEnv
    → TokenType
    → SessionOf
    → Option ℕ
    → Option ℕ
    → Option Uuid
    → Option ℕ
    → Option ℕ
    → Claims
token_claims env token_type s access_minutes refresh_minutes session_id expires_at
      session_expires_at =
    record {
      sub = s.user_id;
      tenant_id = s.tenant_id;
      security_group_id = s.security_group_id;
      token_type = token_type;
      iat = env.now;
      exp =
          given_or expires_at
            (env.now + lifetime env token_type access_minutes refresh_minutes * 60);
      tv = some s.token_version;
      customer_id = s.customer_id;
      sid = session_id;
      sxp = session_expires_at;
    }

pub record SessionTokens (Token : Type 0) : Type 0 where
  pub access_token : Token
  pub refresh_token : Token
  pub session_id : Uuid
  pub access_expires_at : ℕ
  pub session_expires_at : ℕ

-- `session_id or uuid.uuid4()`
abbrev pub id_or_new : Option Uuid → Exec Uuid
id_or_new none = new_uuid
id_or_new (some i) = pure i

module _ {Token : Type 0} (jwt : Jwt Token) (env : AuthEnv) where
  abbrev pub token : TokenType → SessionOf → Uuid → ℕ → ℕ → Token
  token token_type s session_id expires_at session_expires_at = jwt.encode (
      token_claims env token_type s none none (some session_id) (some expires_at)
        (some session_expires_at))

  abbrev pub tokens_until : SessionOf → ℕ → ℕ → Uuid → SessionTokens Token
  tokens_until s access_expires_at session_expires_at session_id = record {
    access_token = token access s session_id access_expires_at session_expires_at;
    refresh_token = token refresh s session_id session_expires_at session_expires_at;
    session_id = session_id;
    access_expires_at = access_expires_at;
    session_expires_at = session_expires_at;
  }

  unfoldable pub create_session_tokens :
      SessionOf → Option ℕ → Option ℕ → Option Uuid → Option ℕ → Exec (SessionTokens Token)
  create_session_tokens s access_minutes refresh_minutes session_id session_expires_at = do
    i ← id_or_new session_id
    let access_for = given_or access_minutes env.jwt_access_token_expire_minutes
    let refresh_for = given_or refresh_minutes env.jwt_refresh_token_expire_minutes
    let session_end = given_or session_expires_at (env.now + refresh_for * 60)
    let access_end = min (env.now + access_for * 60) session_end
    pure (tokens_until s access_end session_end i)
