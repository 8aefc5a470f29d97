-- ===== src/Http/Middleware.antt =====
-- The middleware of internal/order/controller/http (middleware.go). A handler takes the request's
-- context, the request and the store. The bytes of crypto/rand are an argument: `none` is its error.
use checkout_saga.Common.{
  ℕ, ◌+◌, ◌/◌, ◌%◌, String, List, [], ◌∷◌, Option, none, some, ltb, ◌-◌, if◌then◌else◌,
}
use checkout_saga.Common.Int.{ℤ}
use checkout_saga.Common.Text.{Text, codes, is_empty, has_prefix, trim_prefix}
use checkout_saga.Common.Text.Trim.{trim_space}
use checkout_saga.GoError.{lit, Result, ok, err}
use checkout_saga.Jwt.{Manager, parse}
use checkout_saga.Jwt.Golang.{TokenLibrary}
use checkout_saga.Http.Wire.{Context, with_user_id, Request, Reply, write_error}

abbrev pub trace_header : String
trace_header = "X-Request-ID"

abbrev pub auth_header : String
auth_header = "Authorization"

-- _bearerPrefix
abbrev pub bearer_prefix : Text
unfolding codes
bearer_prefix = codes "Bearer "

abbrev pub Handler : Type 0 → Type 0
Handler S = Context → Request → S → Reply × S

abbrev pub hex_digit : ℕ → ℕ
hex_digit n = if ltb n 10 then b'0' + n else b'a' + (n - 10)

-- hex.EncodeToString
unfoldable pub hex : List ℕ → Text
hex [] = []
hex (b ∷ bytes) = hex_digit (b / 16) ∷ hex_digit (b % 16) ∷ hex bytes

-- newTraceID
unfoldable pub new_trace_id : Option (List ℕ) → Text
unfolding codes
new_trace_id none = codes "unknown"
new_trace_id (some bytes) = hex bytes

-- withTraceID: the id that is echoed in the reply's header, and the context of the inner handler
unfoldable pub trace_id_of : Option (List ℕ) → Request → Text
trace_id_of random r =
    let given = r.header trace_header in if is_empty given then new_trace_id random else given

abbrev pub with_trace_id : Context → Text → Context
with_trace_id ctx id = record ctx { trace_id = some id }

-- A reply with the trace id in its header.
pub record Response : Type 0 where
  pub trace_id : Text
  pub reply : Reply

-- withTraceID: the handler that it makes of the next one
abbrev pub traced : {S : Type 0} → Option (List ℕ) → Handler S → Request → S → Response × S
traced random next r s =
    let id = trace_id_of random r in
    let (reply, s') = next (with_trace_id (record { user_id = none; trace_id = none }) id) r s in
    (record { trace_id = id; reply = reply }, s')

-- The token of a request.
unfoldable pub bearer_token : Request → Text
bearer_token r = trim_space (trim_prefix (r.header auth_header) bearer_prefix)

module _ (lib : TokenLibrary) (m : Manager) {S : Type 0} where
  -- authMiddleware behind Parse
  abbrev pub authenticated : Handler S → Context → Request → Result Text → S → Reply × S
  authenticated next ctx r (err e) s =
      (write_error 401 "invalid_token" (lit "the provided token is not valid" ∷ []), s)
  authenticated next ctx r (ok user_id) s = next (with_user_id ctx user_id) r s

  -- authMiddleware, at the instant `now`
  unfoldable pub auth_middleware : ℤ → Handler S → Handler S
  auth_middleware now next ctx r s =
      if has_prefix (r.header auth_header) bearer_prefix
      then authenticated next ctx r (parse lib m now (bearer_token r)) s
      else (
        write_error 401 "missing_token"
            (lit "authorization header with a bearer token is required" ∷ []),
        s,
      )
