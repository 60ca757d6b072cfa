-- ===== src/Gateway/Retry.antt =====
-- src/paybond_kit/gateway_retry.py: `httpx_with_gateway_retries`. The request and the sleep are
-- parameters, and so is `json.loads`, of whose result only `cloudflare_error` is read here. How
-- long a sleep lasts is not modelled.
pub mod Laws
mod Tests
use paybond_kit_python.Prelude.{
  ℕ, zero, suc, ◌+◌, String, Bool, true, false, not, ◌&&◌, ◌||◌, Option, none, some, List, [], ◌∷◌,
  ltb, ◌==◌, str_eq, if◌then◌else◌,
}
use paybond_kit_python.Prelude.Outcome.{Outcome, raised, returned}
use paybond_kit_python.Prelude.Text.{strip}

pub record Response : Type 0 where
  pub status_code : ℕ
  pub text : String

-- `transport` stands for a TimeoutException or a TransportError, `failed` for another exception,
-- `exhausted` for the RuntimeError at the end.
pub data Failure (E : Type 0) : Type 0 where
  transport : E → Failure E
  failed : E → Failure E
  exhausted : Failure E

abbrev pub is_retryable : ℕ → Bool
is_retryable status =
    status == 429 || status == 500 || status == 502 || status == 503 || status == 504

-- What the caller of the loop supplies; `json_loads` is `none` on a JSONDecodeError, and else says
-- whether the body is a dictionary whose "cloudflare_error" is True.
pub record Client (W E : Type 0) : Type 0 where
  pub request : W → Outcome (Failure E) Response × W
  pub sleep : ℕ → Option Response → W → W
  pub json_loads : String → Option Bool

-- The world, and the answers to the requests so far, the newest first.
pub record State (W E : Type 0) : Type 0 where
  pub world : W
  pub answers : List (Outcome (Failure E) Response)

abbrev or_false : Option Bool → Bool
or_false none = false
or_false (some b) = b

abbrev pub Loop : (W E : Type 0) → Type 0
Loop W E = State W E → Outcome (Failure E) Response × State W E

module _ {W E : Type 0} (client : Client W E) where
  abbrev pub is_cloudflare_edge_error_body : String → Bool
  is_cloudflare_edge_error_body body_text =
      let trimmed = strip body_text in
      if str_eq trimmed "" then false else or_false (client.json_loads trimmed)

  abbrev pub should_retry_gateway_http_status : ℕ → String → Bool
  should_retry_gateway_http_status status body_text =
      if not (is_retryable status) then false else not (is_cloudflare_edge_error_body body_text)

  abbrev after_sleep : ℕ → Option Response → State W E → State W E
  after_sleep attempt response s = record s { world = client.sleep attempt response s.world }

  -- A round that got a response; `again` is the rest of the loop, from the count of edge retries.
  on_response : ℕ → Bool → ℕ → (ℕ → Loop W E) → Response → Loop W E
  on_response attempt has_more cloudflare_retries again response s =
      let slept = after_sleep attempt (some response) s in
      if is_retryable response.status_code && has_more
      then (if is_cloudflare_edge_error_body response.text
          then (if ltb 0 cloudflare_retries
              then (returned response, s)
              else again (cloudflare_retries + 1) slept)
          else if not (should_retry_gateway_http_status response.status_code response.text)
          then (returned response, s)
          else again cloudflare_retries slept)
      else (returned response, s)

  on_answer :
      ℕ
      → Bool
      → ℕ
      → (ℕ → Option (Failure E) → Loop W E)
      → Option (Failure E)
      → Outcome (Failure E) Response
      → Loop W E
  unfolding on_response
  on_answer attempt has_more retries again last_exc (returned response) s =
      on_response attempt has_more retries (λ count. again count last_exc) response s
  on_answer attempt has_more retries again last_exc (raised (transport e)) s =
      if not has_more
      then (raised (transport e), s)
      else again retries (some (transport e)) (after_sleep attempt none s)
  on_answer attempt has_more retries again last_exc (raised exc) s = (raised exc, s)

  abbrev at_end : Option (Failure E) → Failure E
  at_end none = exhausted
  at_end (some exc) = exc

  -- the loop, with the number of rounds that are left, the one at hand included
  rounds : ℕ → ℕ → ℕ → Option (Failure E) → Loop W E
  unfolding on_answer
  rounds zero attempt retries last_exc s = (raised (at_end last_exc), s)
  rounds (suc left) attempt retries last_exc s =
      let (answer, world) = client.request s.world in
      on_answer attempt (ltb 0 left) retries (rounds left (attempt + 1)) last_exc answer
        (record { world = world; answers = answer ∷ s.answers })

  unfoldable pub httpx_with_gateway_retries : ℕ → W → Outcome (Failure E) Response × State W E
  unfolding rounds
  httpx_with_gateway_retries max_retries w =
      rounds max_retries 0 0 none (record { world = w; answers = [] })
