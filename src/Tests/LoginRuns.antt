-- ===== src/Tests/LoginRuns.antt =====
-- Signing in, the lock, and the sessions of a signed-in user.
use pos_pay.Base.{
  true, false, none, some, [], ◌∷◌, ltb, if◌then◌else◌, text_eq, codes, ◌≡◌, refl, arith,
}
use pos_pay.Store.Exec.{ok}
use pos_pay.Notify.{effective_preference}
use pos_pay.Auth.Login.{
  LoginEnv, success, locked, identity, verify_password, scope_allows_password_login,
  user_has_webauthn_credentials, accept, check_password, authenticate_password,
}
use pos_pay.Auth.Login.SignIn.{SignsIn, sign_in_only_if}
use pos_pay.Auth.Login.Standing.{Standing, IsOpen}
use pos_pay.Auth.Login.Lockout.{Attempt, after_each, locked_after_max}
use pos_pay.Auth.Tokens.{
  TokenType, Claims, valid, expired, Jwt, AuthEnv, SessionTokens, tokens_until,
}
use pos_pay.Auth.Sessions.{
  is_session_revoked, claims_are_current, revoke_session, revoke_all_sessions, session_of,
}
use pos_pay.Auth.Access.{context, effective_permissions, build_context, decode_and_build_context}
use pos_pay.Auth.Access.Granted.{Grants, permission_granted}
use pos_pay.Auth.Access.Revoked.{IsRefused, signed_out_session, signed_out_everywhere}
use pos_pay.Tests.Data.{bank, bank_tenant, maker, membership_of_maker, reviewers}

abbrev login_env : LoginEnv
login_env = record {
  checkpw = text_eq;
  now = 1000;
  login_max_failed_attempts = 3;
  login_lockout_minutes = 15;
}

right :
    (authenticate_password login_env "bank" "maker@bank.example" (codes "secret") bank).0
    ≡ ok (success (identity false maker bank_tenant membership_of_maker))
unfolding authenticate_password check_password verify_password accept scope_allows_password_login
    user_has_webauthn_credentials
right = refl

sign_in_only_if_example :
    SignsIn login_env "bank" "maker@bank.example"
      (codes "secret")
      bank
      (identity false maker bank_tenant membership_of_maker)
sign_in_only_if_example =
    sign_in_only_if login_env "bank" "maker@bank.example" (codes "secret") bank
      (identity false maker bank_tenant membership_of_maker) right

abbrev guess : Attempt
guess = record { env = login_env; slug = "bank"; password = codes "guess" }

bank-IsOpen : IsOpen "bank" bank.tenants
bank-IsOpen = record { tenant = bank_tenant; one = refl; active = refl }

maker-Standing : Standing "maker@bank.example" (codes "secret") 0 none bank
unfolding effective_preference
maker-Standing = record {
  user = maker;
  one = refl;
  active = refl;
  password = refl;
  failures = refl;
  lock = refl;
  channels = (true, false);
  readable = refl;
}

guess_wrong : verify_password login_env (codes "guess") (codes "secret") ≡ false
unfolding verify_password
guess_wrong = refl

-- The right password, a minute after the third wrong one.
locked_after_max_example :
    authenticate_password
      (record login_env { now = 1060 })
      "bank"
      "maker@bank.example"
      (codes "secret")
      (after_each "maker@bank.example" (guess ∷ guess ∷ guess ∷ []) bank)
    ≡ (ok locked, after_each "maker@bank.example" (guess ∷ guess ∷ guess ∷ []) bank)
locked_after_max_example =
    locked_after_max "maker@bank.example" (codes "secret") 0 3 bank (guess ∷ guess ∷ []) guess
      (record { env = record login_env { now = 1060 }; slug = "bank"; password = codes "secret" })
      maker-Standing
      (
        (guess_wrong, (refl, bank-IsOpen)),
        ((guess_wrong, (refl, bank-IsOpen)), ((guess_wrong, (refl, bank-IsOpen)), tt)),
      )
      (omega arith) bank-IsOpen (omega arith)

-- A library whose tokens are the claims themselves.
abbrev plain_jwt : Jwt Claims
plain_jwt = record { encode = λ c. c; decode = λ now c. if ltb now c.exp then valid c else expired }

abbrev auth_env : AuthEnv
auth_env = record {
  now = 1000;
  jwt_access_token_expire_minutes = 30;
  jwt_refresh_token_expire_minutes = 10080;
  mfa_pending_token_expire_minutes = 5;
}

abbrev access_claims : Claims
access_claims = record {
  sub = 70;
  tenant_id = 1;
  security_group_id = 80;
  token_type = TokenType.access;
  iat = 900;
  exp = 2700;
  tv = some 0;
  customer_id = none;
  sid = some 500;
  sxp = some 605700;
}

abbrev refresh_claims : Claims
refresh_claims = record access_claims { token_type = TokenType.refresh; exp = 605700 }

makers_context :
    decode_and_build_context plain_jwt auth_env TokenType.access access_claims bank
    ≡ ok (context access_claims maker membership_of_maker reviewers bank)
unfolding decode_and_build_context build_context claims_are_current is_session_revoked
makers_context = refl

permission_granted_example : Grants access_claims bank "exception:decide"
unfolding effective_permissions
permission_granted_example =
    permission_granted plain_jwt auth_env TokenType.access access_claims bank access_claims
      (context access_claims maker membership_of_maker reviewers bank) "exception:decide" refl
      makers_context refl

signed_out_session_example :
    IsRefused plain_jwt
      (record auth_env { now = 1200 })
      access_claims
      (revoke_session auth_env 500 70 bank).1
signed_out_session_example =
    signed_out_session plain_jwt auth_env (record auth_env { now = 1200 }) 500 70 bank access_claims
      access_claims refl refl

signed_out_everywhere_example :
    IsRefused plain_jwt auth_env refresh_claims (revoke_all_sessions maker bank).1
signed_out_everywhere_example =
    signed_out_everywhere plain_jwt auth_env maker bank refresh_claims refresh_claims refl refl
      (omega arith)

abbrev refreshed : SessionTokens Claims
refreshed =
    tokens_until plain_jwt auth_env (session_of refresh_claims maker membership_of_maker) 2800
      605700 500
