-- ===== src/Api.antt =====
-- The HTTP API of internal/router/controllers/controller.go: the answer that a handler writes. As in net/http,
-- the first WriteHeader sends the headers that are set then, and a Write without one sends status 200.
pub mod Params
pub mod Receipts
pub mod Tables
pub mod Query
pub mod Row
pub mod Metadata
pub mod Rectangular
pub mod Formatted
pub mod Options
pub mod Answered
pub mod Saved
pub mod Route
pub mod Middlewares
pub mod Rpc
use go_tableland.Prelude.{ℕ, suc, String, Option, none, some, List, [], ◌∷◌, ◌++◌}
use go_tableland.Errors.{GoError}

-- What json.Encode is given, or the bytes of an answer to a query.
pub data Body (J : Type 0) : Type 0 where
  service_error : GoError → Body J
  bytes : String → Body J
  encoded : J → Body J

-- An http.ResponseWriter: Content-Type, the status and the type that were sent, and what was written.
pub record Writer (J : Type 0) : Type 0 where
  pub content_type : Option String
  pub sent : Option (ℕ × Option String)
  pub superfluous : ℕ
  pub body : List (Body J)

module _ {J : Type 0} where
  abbrev pub new_writer : Writer J
  new_writer = record { content_type = none; sent = none; superfluous = 0; body = [] }

  unfoldable pub set_content_type : String → Writer J → Writer J
  set_content_type t w = record w { content_type = some t }

  unfoldable pub send_header : Option (ℕ × Option String) → ℕ → Writer J → Writer J
  send_header none n w = record w { sent = some (n, w.content_type) }
  send_header (some s) n w = record w { superfluous = suc w.superfluous }

  -- WriteHeader
  unfoldable pub write_header : ℕ → Writer J → Writer J
  unfolding send_header
  write_header n w = send_header w.sent n w

  unfoldable pub send_default : Option (ℕ × Option String) → Writer J → Writer J
  send_default none w = record w { sent = some (200, w.content_type) }
  send_default (some s) w = w

  -- Write
  unfoldable pub write : Body J → Writer J → Writer J
  unfolding send_default
  write b w = let w' = send_default w.sent w in record w' { body = w'.body ++ (b ∷ []) }

  -- A status and a ServiceError.
  unfoldable pub refuse_with : ℕ → GoError → Writer J → Writer J
  unfolding write_header write
  refuse_with n e w = write (service_error e) (write_header n w)

  unfoldable pub respond : ℕ → Body J → Writer J → Writer J
  unfolding write_header write
  respond n b w = write b (write_header n w)
