-- ===== src/Accounts/Errors.antt =====
-- crates/rivetlink-server/src/error.rs: the errors of the server and what a client sees of them.
-- The payload of a database error is sqlx's; its text stands for it.
use rivet_link.Prelude.{ℕ, String}

pub data ServerError : Type 0 where
  auth : String → ServerError
  invalid_credentials : ServerError
  account_locked : ℕ → ServerError
  token_expired : ServerError
  invalid_token : String → ServerError
  not_found : String → ServerError
  validation : String → ServerError
  forbidden : String → ServerError
  rate_limited : ServerError
  conflict : String → ServerError
  database : String → ServerError
  config : String → ServerError
  internal : String → ServerError

abbrev pub status_code : ServerError → ℕ
status_code (auth m) = 401
status_code invalid_credentials = 401
status_code (account_locked until) = 429
status_code token_expired = 401
status_code (invalid_token m) = 401
status_code (not_found m) = 404
status_code (validation m) = 400
status_code (forbidden m) = 403
status_code rate_limited = 429
status_code (conflict m) = 409
status_code (database m) = 500
status_code (config m) = 500
status_code (internal m) = 500

abbrev pub client_message : ServerError → String
client_message (auth m) = m
client_message invalid_credentials = "invalid credentials"
client_message (account_locked until) = "account locked"
client_message token_expired = "token expired"
client_message (invalid_token m) = m
client_message (not_found m) = m
client_message (validation m) = m
client_message (forbidden m) = m
client_message rate_limited = "rate limited"
client_message (conflict m) = m
client_message (database m) = "internal error"
client_message (config m) = "internal error"
client_message (internal m) = "internal error"
