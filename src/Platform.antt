-- ===== src/Platform.antt =====
-- internal/adapters/out/platform/client.go: the daemon's calls of the platform. The HTTP client and the
-- JSON package are parameters; `W` is the state of the world that the requests change.
pub mod Laws
use gameserver_daemon.Common.{
  ℕ, String, ◌<>◌, Bool, true, false, ◌&&◌, not, Option, none, some, List, [], ◌∷◌, ◌==◌, leb, ltb,
  if◌then◌else◌, ◌≡◌, refl, string_dec,
}
use gameserver_daemon.Common.Strings.{trim_right, trim_suffix, trim_space, take_text}
use gameserver_daemon.Errors.{GoError, failure, wrapped, Result, ok, err}
use gameserver_daemon.Ports.{WorkloadStatusUpdate}
use gameserver_daemon.Logs.Batches.{LogEntry}

pub record Client : Type 0 where
  pub base_url : String
  pub bootstrap_key : String
  pub node_id : String
  pub file_api_url : String
  pub node_token : String

-- `normalizeBaseURL`
unfoldable pub normalize_base_url : String → String
unfolding trim_suffix trim_right
normalize_base_url url = trim_suffix (trim_right url b'/') "/api/v1"

-- `NewClient`
unfoldable pub new_client : String → String → String → String → Client
unfolding normalize_base_url
new_client url key node file_api = record {
  base_url = normalize_base_url url;
  bootstrap_key = key;
  node_id = node;
  file_api_url = file_api;
  node_token = "";
}

-- A POST request with its bearer token.
pub record Post : Type 0 where
  pub url : String
  pub token : String
  pub body : String

-- A status code, its decimal digits, and the body.
pub record Reply : Type 0 where
  pub code : ℕ
  pub digits : String
  pub body : String

-- `build` is the error of `NewRequestWithContext`, `send` is `Do`.
pub record Http (W : Type 0) : Type 0 where
  pub build : String → Option GoError
  pub send : Post → W → Result Reply × W

-- What `json` makes of the payloads, the second one at a time, and of the answer to a registration: the
-- node's id and its token.
pub record PlatformJson : Type 0 where
  pub registration : Client → Result String
  pub status : WorkloadStatusUpdate → ℕ → Result String
  pub log_lines : String → String → List LogEntry → Result String
  pub registered : String → Result (String × String)

abbrev is_success : ℕ → Bool
is_success code = leb 200 code && ltb code 300

-- `call` names the request in the errors; `limit` is how much of a refusal's body is read.
pub record Call : Type 0 where
  pub payload_error : String
  pub build_error : String
  pub send_error : String
  pub refusal : String
  pub limit : ℕ

abbrev refused : Call → Reply → GoError
refused call r = failure (
    call.refusal <> ": status=" <> r.digits <> " body=" <> trim_space (take_text call.limit r.body))

module _ {W : Type 0} (http : Http W) where
  abbrev accepted : Call → Result Reply × W → Result String × W
  accepted call (err e, w) = (err (wrapped call.send_error e ""), w)
  accepted call (ok r, w) = (if is_success r.code then ok r.body else err (refused call r), w)

  abbrev built : Call → Post → Option GoError → W → Result String × W
  built call p (some e) w = (err (wrapped call.build_error e ""), w)
  built call p none w = accepted call (http.send p w)

  -- What the three requests share: the payload, the request, and the test of the status code.
  unfoldable pub post : Call → String → String → Result String → W → Result String × W
  post call url token (err e) w = (err (wrapped call.payload_error e ""), w)
  post call url token (ok body) w =
      built call (record { url = url; token = token; body = body }) (http.build url) w

  abbrev answer_of : Result String × W → Option GoError × W
  answer_of (err e, w) = (some e, w)
  answer_of (ok body, w) = (none, w)

  module _ (json : PlatformJson) where
    abbrev pub registration_call : Call
    registration_call = record {
      payload_error = "marshal node registration payload: ";
      build_error = "build node registration request: ";
      send_error = "register node request failed: ";
      refusal = "register node failed";
      limit = 2048;
    }

    abbrev status_call : Call
    status_call = record {
      payload_error = "marshal status payload: ";
      build_error = "build status callback request: ";
      send_error = "status callback request failed: ";
      refusal = "status callback failed";
      limit = 2048;
    }

    abbrev log_call : Call
    log_call = record {
      payload_error = "marshal log payload: ";
      build_error = "build log ship request: ";
      send_error = "log ship request failed: ";
      refusal = "log ship failed";
      limit = 512;
    }

    -- What `RegisterNode` keeps of the answer.
    unfoldable pub keep_registration : Client → Result (String × String) → Option GoError × Client
    keep_registration c (err e) = (some (wrapped "decode node registration response: " e ""), c)
    keep_registration c (ok (node, token)) =
        if token == ""
        then (some (failure "node registration response missing node_token"), c)
        else (
          none,
          record c { node_token = token; node_id = if node == "" then c.node_id else node },
        )

    unfoldable pub after_registration : Client → Result String × W → Option GoError × Client × W
    unfolding keep_registration
    after_registration c (err e, w) = (some e, c, w)
    after_registration c (ok body, w) =
        let (r, c') = keep_registration c (json.registered body) in (r, c', w)

    -- `RegisterNode`
    unfoldable pub register_node : Client → W → Option GoError × Client × W
    unfolding after_registration post
    register_node c w =
        if c.base_url == ""
        then (some (failure "platform base url is required"), c, w)
        else if c.bootstrap_key == ""
        then (some (failure "platform shared secret is required"), c, w)
        else after_registration c (
            post registration_call (c.base_url <> "/api/v1/nodes") c.bootstrap_key
              (json.registration c) w)

    -- `ReportStatus`, at a time.
    unfoldable pub report_status : Client → WorkloadStatusUpdate → ℕ → W → Option GoError × W
    unfolding post
    report_status c u now w =
        if c.node_token == ""
        then (some (failure "node token is not set; call RegisterNode first"), w)
        else answer_of (
            post status_call
              (c.base_url <> "/api/v1/internal/workloads/" <> u.workload_id <> "/status")
              c.node_token (json.status u now) w)

    -- `ShipLogs`
    unfoldable pub ship_logs :
        Client → String → String → String → List LogEntry → W → Option GoError × W
    unfolding post
    ship_logs c workload project environment [] w = (none, w)
    ship_logs c workload project environment (l ∷ ls) w = answer_of (
        post log_call (c.base_url <> "/api/v1/internal/workloads/" <> workload <> "/log-lines")
          c.node_token (json.log_lines project environment (l ∷ ls)) w)

base_url_tests :
    (normalize_base_url "http://h:8080/api/v1/" ≡ "http://h:8080")
    × (normalize_base_url "http://h//" ≡ "http://h")
unfolding normalize_base_url
base_url_tests = (refl, refl)
