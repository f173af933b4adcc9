-- ===== src/Platform/Laws.antt =====
-- internal/adapters/out/platform/client.go: registering before reporting.
use gameserver_daemon.Common.{
  ℕ, String, ◌<>◌, Bool, true, false, ◌≡◌, ◌≢◌, refl, ap, ◌⊎◌, inl, inr, Option, none, some, ◌==◌,
  if◌then◌else◌, arith,
}
use gameserver_daemon.Errors.{GoError, failure, Result, ok, err}
use gameserver_daemon.Ports.{WorkloadStatusUpdate}
use gameserver_daemon.Platform.{
  Client, Http, PlatformJson, post, registration_call, keep_registration, after_registration,
  register_node, report_status, new_client,
}

-- The registration has given the client a token, or has failed and left the client alone.
abbrev pub Settled : Client → Option GoError → Client → Type 0
Settled c r c' =
    ((r ≡ none) × (c'.node_token ≢ "") × (c'.base_url ≡ c.base_url)) ⊎ ((r ≢ none) × (c' ≡ c))

module _ {W : Type 0} (http : Http W) (json : PlatformJson) where
  failed-Settled : (c : Client) (e : GoError) → Settled c (some e) c
  failed-Settled c e = inr ((λ k. cc), refl)

  kept :
      (c : Client) (r : Result (String × String))
      → Settled c (keep_registration http json c r).0 (keep_registration http json c r).1
  unfolding keep_registration
  kept c (err e) = failed-Settled c _
  kept c (ok (node, token)) = ground arith

  registered-Settled :
      (c : Client) (r : Result String × W)
      → Settled c (after_registration http json c r).0 (after_registration http json c r).1
  unfolding after_registration
  registered-Settled c (err e, w) = failed-Settled c e
  registered-Settled c (ok body, w) = kept c (json.registered body)

  pub register_node-Settled :
      (c : Client) (w : W)
      → Settled c (register_node http json c w).0 (register_node http json c w).1
  unfolding register_node
  register_node-Settled c w = go (c.base_url == "") (c.bootstrap_key == "")
    where
      sent : Option GoError × Client × W
      sent = after_registration http json c (
          post http (registration_call http json) (c.base_url <> "/api/v1/nodes") c.bootstrap_key
            (json.registration c) w)

      no_url : GoError
      no_url = failure "platform base url is required"

      no_secret : GoError
      no_secret = failure "platform shared secret is required"

      go :
          (a b : Bool)
          → Settled c
              (if a then (some no_url, c, w) else if b then (some no_secret, c, w) else sent).0
              (if a then (some no_url, c, w) else if b then (some no_secret, c, w) else sent).1
      go true b = failed-Settled c no_url
      go false true = failed-Settled c no_secret
      go false false = registered-Settled c _

  silent :
      (c : Client) (u : WorkloadStatusUpdate) (now : ℕ) (w : W)
      → c.node_token ≡ ""
      → ((report_status http json c u now w).0 ≢ none) × ((report_status http json c u now w).1 ≡ w)
  unfolding report_status
  silent c u now w empty = ground arith

  -- A new client that registers either has a token and the address that it had, or the registration has
  -- answered an error; then every status report is refused, and nothing is sent.
  pub register_before_report :
      (url key node file_api : String) (w : W) (u : WorkloadStatusUpdate) (now : ℕ) (later : W)
      → let c = new_client url key node file_api in
        let (r, c', w') = register_node http json c w in
        ((r ≡ none) × (c'.node_token ≢ "") × (c'.base_url ≡ c.base_url))
        ⊎ ((r ≢ none)
            × ((report_status http json c' u now later).0 ≢ none)
            × ((report_status http json c' u now later).1 ≡ later))
  unfolding new_client
  register_before_report url key node file_api w u now later =
      go (register_node-Settled (new_client url key node file_api) w)
    where
      c : Client
      c = new_client url key node file_api

      go :
          Settled c (register_node http json c w).0 (register_node http json c w).1
          → (((register_node http json c w).0 ≡ none)
              × ((register_node http json c w).1.node_token ≢ "")
              × ((register_node http json c w).1.base_url ≡ c.base_url))
            ⊎ (((register_node http json c w).0 ≢ none)
                × ((report_status http json (register_node http json c w).1 u now later).0 ≢ none)
                × ((report_status http json (register_node http json c w).1 u now later).1 ≡ later))
      go (inl done) = inl done
      go (inr (refused, same)) =
          let quiet =
            silent (register_node http json c w).1 u now later
              (ap (λ (x : Client). x.node_token) same) in
          inr (refused, quiet.0, quiet.1)
