-- ===== src/Lib.antt =====
-- PosPay decides which checks and ACH entries a bank pays. Files and API calls present items; the
-- matching rules compare each with what the account holder issued or authorized; an item that
-- matches is paid, and any other becomes an exception that people decide, under dual control where
-- the bank asks for it, or that is decided automatically when its deadline passes.
--
-- Parts, and the files that model them (paths from the repository's root):
--   Base: the library's names, and what the sources use of Python's integers (Int), calendar dates
--     (Dates) and strings as lists of code points (Chars).
--   Store: the rows of src/pospay/domain (Rows, Db), the SQLAlchemy session as explicit state (Exec:
--     a service call takes the tables and returns a result or an error with the tables it leaves;
--     in_transaction is the commit or rollback of each row of a bulk loop), the scoped repositories
--     of src/pospay/repositories (Scope, Columns).
--   Check: src/pospay/networks/check, with rules.py and types.py (Rules), adapter.py (Adapter),
--     features.py (Features) and ingestion.py (Ingestion).
--   Ach: src/pospay/networks/ach, in the same files.
--   Networks: src/pospay/networks/registry.py, the two adapters as the review code calls them.
--   Files: src/pospay/bulk_import/nacha.py (Nacha), the parser of a NACHA file and its control
--     totals.
--   Scoring: src/pospay/ml/predict.py and what it calls of src/pospay/ml/registry.py.
--   Notify: src/pospay/services/notification_service.py.
--   Review: src/pospay/services/decision_service.py (Decide; Record has the steps it shares with
--     automatic decisions) and src/pospay/services/auto_disposition_service.py (Disposition,
--     AutoDecide), and exception_service.py (Queue).
--   Issuing: src/pospay/services/issued_item_service.py (Items) and stop_payment_service.py (Stops).
--   Auth: src/pospay/auth/password_policy.py (Password), login_service.py (Login), security.py
--     (Tokens), deps.py and permissions.py (Access), src/pospay/services/session_service.py
--     (Sessions).
--   Accounts: src/pospay/services/account_service.py (Numbers) and ach_authorization_service.py
--     (Authorizations).
--   Audit: src/pospay/services/audit_log_service.py, the signed and chained log.
--   Web: src/pospay/web/rate_limit.py (RateLimit), client_ip.py (ClientIp), pagination.py
--     (Pagination).
--   Tests: concrete tables and files, and the results below applied to them.
-- Ingestion calls the adapter of its network, which reads the tables and applies the rules; where
-- they do not match it calls Disposition for the deadline, Scoring and Notify. Decisions call the
-- adapters for the features that are kept as training data. Sign-in ends in a session, whose tokens
-- are compared with the table of revoked sessions.
--
-- Representation: an id is a number and new_uuid the next one; a date is its ordinal, an instant a
-- count of seconds (of microseconds in the rate limiter), an amount a whole number of cents; a float
-- is the bit pattern of a number that is not negative, which orders it. A WHERE clause is a Boolean
-- test on rows, a query a fold over the table in its order. A unique constraint raises where the
-- flush would. Texts that the program only compares are strings; payee names, passwords and the
-- lines of files are lists of code points, and upper is for ASCII. The lengths and precisions that
-- columns declare are not enforced: an amount or a text too large for its column is stored, where a
-- database may raise. Nothing runs on fuel: every loop is over a list.
--
-- Parameters (Store/Db, Env): rapidfuzz, SHA-256, the artifact files, the unpickled model, the
-- settings and the clock. In Auth, the tests of a character (str.isupper and the like), the password
-- hash, and the library that signs and reads tokens; in Audit, the signature and its check, and the
-- text of instants and ids.
--
-- Not modelled: the text of notifications and time stamps that the database writes; the parsers of
-- the other bulk files, OCR and tables; passkeys and single sign-on, whose cryptography is a
-- library's; the routers and templates, which call the services and render; workers, model
-- training, provisioning, export and migrations.

pub mod Base
pub mod Store
pub mod Check
pub mod Files
pub mod Ach
pub mod Networks
pub mod Scoring
pub mod Notify
pub mod Review
pub mod Issuing
pub mod Accounts
pub mod Auth
pub mod Audit
pub mod Web
pub mod Tests
