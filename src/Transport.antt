-- ===== src/Transport.antt =====
-- extension/src/core/transport/client.ts: the typed failure of a request. The server is not in the
-- repository's client, and its answers are arguments of the definitions that ask it.
use pontis.Base.{ℕ, String, Bool, ◌==◌, any}
use pontis.Protocol.{sync_protocol_error_codes}

pub record ApiError : Type 0 where
  pub status : ℕ
  pub code : String
  pub message : String

unfoldable pub is_protocol_error_code : String → Bool
is_protocol_error_code code = any (λ (c : String). c == code) sync_protocol_error_codes

unfoldable pub is_protocol_error : ApiError → Bool
unfolding is_protocol_error_code
is_protocol_error e = is_protocol_error_code e.code

-- A promise: its value, an `ApiError`, or another exception with its text.
pub data Answer (A : Type 0) : Type 0 where
  ok : A → Answer A
  refused : ApiError → Answer A
  broken : String → Answer A
