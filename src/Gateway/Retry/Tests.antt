-- ===== src/Gateway/Retry/Tests.antt =====
-- A gateway that fails twice, and the theorem at it. The world counts the requests.
use paybond_kit_python.Prelude.{ℕ, ◌+◌, ◌≡◌, refl, none, some, ltb, arith, if◌then◌else◌, str_eq}
use paybond_kit_python.Prelude.Outcome.{returned}
use paybond_kit_python.Prelude.Text.{strip}
use paybond_kit_python.Gateway.Retry.{Response, Client, httpx_with_gateway_retries}
use paybond_kit_python.Gateway.Retry.Laws.{IsLast, httpx_with_gateway_retries-IsLast}

abbrev unavailable : Response
unavailable = record { status_code = 503; text = "" }

abbrev edge_error : Response
edge_error = record { status_code = 502; text = "edge" }

abbrev fine : Response
fine = record { status_code = 200; text = "{}" }

abbrev recovers : Client ℕ ℕ
recovers = record {
  request = λ w. (if ltb w 2 then returned unavailable else returned fine, w + 1);
  sleep = λ attempt response w. w;
  json_loads = λ text. none;
}

abbrev behind_edge : Client ℕ ℕ
behind_edge = record {
  request = λ w. (returned edge_error, w + 1);
  sleep = λ attempt response w. w;
  json_loads = λ text. some (str_eq text "edge");
}

gets_third : (httpx_with_gateway_retries recovers 3 0).0 ≡ returned fine
unfolding httpx_with_gateway_retries strip
gets_third = refl

-- An edge error is retried once.
retries_edge_once : ((httpx_with_gateway_retries behind_edge 5 0).1).world ≡ 2
unfolding httpx_with_gateway_retries strip
retries_edge_once = refl

httpx_with_gateway_retries-IsLast_example : IsLast 3 (httpx_with_gateway_retries recovers 3 0)
httpx_with_gateway_retries-IsLast_example =
    httpx_with_gateway_retries-IsLast recovers 3 0 (ground arith)
