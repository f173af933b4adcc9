-- ===== src/Queue/Redis/Connect.antt =====
-- internal/adapters/out/queue/redis.go: making the queue, on a server that answers.
use gameserver_daemon.Common.{
  ℕ, String, Bool, ◌≡◌, refl, sym, ap, ◌∙◌, Option, none, some, if◌then◌else◌,
}
use gameserver_daemon.Errors.{GoError, wrapped, Result, ok, err}

-- `redis.Options`: what the constructor sets, and the rest as the url has it. `min_tls` is the least
-- version that a set `TLSConfig` asks for.
pub record Options (O : Type 0) : Type 0 where
  pub password : String
  pub min_tls : Option ℕ
  pub from_url : O

-- `tls.VersionTLS12`
abbrev pub version_tls_12 : ℕ
version_tls_12 = 771

-- `parse_url` is `redis.ParseURL`, `new_client` opens no connection, and `ping` has the time-out of the
-- context.
module _ {O Q : Type 0} (parse_url : String → Result (Options O)) (new_client : Options O → Q)
    (ping : Q → Option GoError) where
  abbrev pub secured : String → Bool → Options O → Options O
  secured password use_tls o =
      if use_tls
      then record o { password = password; min_tls = some version_tls_12 }
      else record o { password = password }

  abbrev pub answered : Q → Option GoError → Result Q
  answered q none = ok q
  answered q (some e) = err (wrapped "failed to connect to redis: " e "")

  abbrev pub with_options : String → Bool → Result (Options O) → Result Q
  with_options password use_tls (err e) = err (wrapped "failed to parse redis url: " e "")
  with_options password use_tls (ok o) =
      let q = new_client (secured password use_tls o) in answered q (ping q)

  -- `NewRedisQueue`
  unfoldable pub new_redis_queue : String → String → Bool → Result Q
  new_redis_queue url password use_tls = with_options password use_tls (parse_url url)

  answered-ok : (q made : Q) (r : Option GoError) → answered q r ≡ ok made → (q ≡ made) × (r ≡ none)
  answered-ok q made none h = (cc, refl)
  answered-ok q made (some e) h = cc

  with_options-ok :
      (password : String) (use_tls : Bool) (r : Result (Options O)) (made : Q)
      → with_options password use_tls r ≡ ok made
      → (o : Options O) × (r ≡ ok o)
        × (new_client (secured password use_tls o) ≡ made)
        × (ping made ≡ none)
  with_options-ok password use_tls (err e) made h = cc
  with_options-ok password use_tls (ok o) made h =
      let q = new_client (secured password use_tls o) in
      let (same, alive) = answered-ok q made (ping q) h in
      (o, refl, same, ap ping (sym same) ∙ alive)

  -- A queue that is made is on a server that has answered, over a client with the options of the url but
  -- for the password that was given and, where TLS is asked for, a version of 1.2 at least.
  pub new_redis_queue-ok :
      (url password : String) (use_tls : Bool) (made : Q)
      → new_redis_queue url password use_tls ≡ ok made
      → (o : Options O) × (parse_url url ≡ ok o)
        × (new_client (secured password use_tls o) ≡ made)
        × (ping made ≡ none)
  unfolding new_redis_queue
  new_redis_queue-ok url password use_tls made h =
      with_options-ok password use_tls (parse_url url) made h
