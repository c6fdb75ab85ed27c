-- ===== src/Http.antt =====
-- The exceptions that the services throw (Nest's `HttpException` classes and the errors of the
-- repository's own), with what a caller can tell apart.
use mib_server.Prelude.{String, Result, ok, err}
use mib_server.Database.{DbError}

pub data HttpError : Type 0 where
  bad_request unauthorized forbidden not_found request_timeout conflict : String → HttpError
  -- `HttpStatus.TOO_MANY_REQUESTS`, with its `retryAfterSeconds`
  too_many_requests : String → HttpError
  -- a database error that no handler catches: status 500
  database : DbError → HttpError
  -- any other `Error`, with its message: status 500
  internal : String → HttpError

-- A database error that is thrown on.
abbrev pub rethrow : {A : Type 0} → Result DbError A → Result HttpError A
rethrow (ok a) = ok a
rethrow (err e) = err (HttpError.database e)
