-- ===== src/Api/Middlewares/RateLimit.antt =====
-- The key under which the rate limiter of internal/router/middlewares counts a request, and WithLogging, which
-- puts the same address into the context.
use Prim.Native.Char.{code}
use go_tableland.Prelude.{ℕ, String, Bool, Option, none, some, str_eq, ◌==◌, if◌then◌else◌}
use go_tableland.Errors.{GoError, text, flattened, Result, ok, err, panic}
use go_tableland.Api.{Writer}
use go_tableland.Api.Middlewares.{HttpRequest}

-- strings.Split(xff, ",")[0]
unfoldable pub before_comma : String → String
before_comma String.[] = ""
before_comma (String.◌∷◌ c s) =
    let rest = before_comma s in if code c == 44 then "" else String.◌∷◌ c rest

unfoldable pub remote_ip : Result String → Result String
remote_ip (ok ip) = ok ip
remote_ip (err e) = err (flattened "getting ip from remote addr" e)
remote_ip (panic p) = panic p

-- The key under which the rate limiter counts a request; `split_host_port` is net.SplitHostPort.
module _ (split_host_port : String → Result String) where
  unfoldable pub extract_client_ip : HttpRequest → Result String
  unfolding before_comma remote_ip
  extract_client_ip r =
      if str_eq r.forwarded_for ""
      then remote_ip (split_host_port r.remote_addr)
      else ok (before_comma r.forwarded_for)

  unfoldable pub logged_ip : Result String → String
  logged_ip (ok ip) = ip
  logged_ip (err e) = ""
  logged_ip (panic p) = ""

  -- WithLogging, without its logs.
  unfoldable pub with_logging :
      {J : Type 0}
      → (HttpRequest → Writer J → Result (Writer J))
      → HttpRequest
      → Writer J
      → Result (Writer J)
  unfolding logged_ip extract_client_ip
  with_logging next r w =
      next
        (record r {
          context = record r.context { ip_address = some (logged_ip (extract_client_ip r)) };
        })
        w

  unfoldable pub ip_key : Result String → Result String
  ip_key (ok ip) = ok ip
  ip_key (err e) = err (flattened "extract client ip" e)
  ip_key (panic p) = panic p

  unfoldable pub rate_key_of : HttpRequest → Option String → Result String
  unfolding ip_key extract_client_ip
  rate_key_of r none = ip_key (extract_client_ip r)
  rate_key_of r (some address) =
      if str_eq address "" then ip_key (extract_client_ip r) else ok address

  unfoldable pub rate_limit_key : HttpRequest → Result String
  unfolding rate_key_of
  rate_limit_key r = rate_key_of r r.context.address

-- Which of the limiters serves a request: the default one, or a method's own.
pub data Limiter : Type 0 where
  default_limiter : Limiter
  method_limiter : String → Limiter
  no_limiter : ℕ → GoError → Limiter
  limiter_panic : String → Limiter

module _ (method_of : String → Result String) (has_limit : String → Bool) where
  unfoldable pub limiter_of_method : Result String → Limiter
  limiter_of_method (ok name) = if has_limit name then method_limiter name else default_limiter
  limiter_of_method (err e) = no_limiter 400 (text "request body doesn't have a method field")
  limiter_of_method (panic p) = limiter_panic p

  unfoldable pub limiter_of_body : Result String → Limiter
  unfolding limiter_of_method
  limiter_of_body (ok b) = limiter_of_method (method_of b)
  limiter_of_body (err e) = no_limiter 500 (text "reading request body")
  limiter_of_body (panic p) = limiter_panic p

  -- The handler of RateLimitController, up to the limiter that it calls.
  unfoldable pub rate_limiter : String → HttpRequest → Limiter
  unfolding limiter_of_body
  rate_limiter json_rpc_route r =
      if str_eq r.path json_rpc_route then limiter_of_body r.body else default_limiter
