-- ===== src/Gateway/Retry/Laws.antt =====
-- The loop makes no more requests than it may, and ends in its last answer.
use paybond_kit_python.Prelude.{
  ℕ, zero, suc, ◌+◌, ◌≤◌, ◌<◌, ◌≡◌, refl, subst, Bool, true, false, not, ◌&&◌, Option, none, List,
  [], ◌∷◌, ltb, length, arith, if◌then◌else◌,
}
use paybond_kit_python.Prelude.Outcome.{Outcome, raised, returned}
use paybond_kit_python.Gateway.Retry.{
  Response, Failure, transport, failed, exhausted, Client, State, Loop, is_retryable,
  is_cloudflare_edge_error_body, should_retry_gateway_http_status, on_response, on_answer, rounds,
  httpx_with_gateway_retries,
}

if_elim :
    {A : Type 0} (P : A → Type 0) (b : Bool) {x y : A}
    → (b ≡ true → P x)
    → (b ≡ false → P y)
    → P (if b then x else y)
if_elim P true p q = p refl
if_elim P false p q = q refl

module _ {W E : Type 0} where
  -- The loop ended in the answer that came last, after at most `most` answers in all.
  pub record IsLast (most : ℕ) (r : Outcome (Failure E) Response × State W E) : Type 0 where
    pub older : List (Outcome (Failure E) Response)
    pub answers : (r.1).answers ≡ r.0 ∷ older
    pub bounded : length (r.1).answers ≤ most

module _ {W E : Type 0} (client : Client W E) where
  on_response-IsLast :
      (attempt retries left : ℕ) (has_more : Bool) (again : ℕ → Loop W E) (response : Response)
      (s : State W E) (older : List (Outcome (Failure E) Response))
      → s.answers ≡ returned response ∷ older
      → (has_more ≡ true
          → (count : ℕ) (t : State W E) → t.answers ≡ s.answers
          → IsLast (left + length s.answers) (again count t))
      → IsLast
          (left + length s.answers)
          (on_response client attempt has_more retries again response s)
  unfolding on_response
  on_response-IsLast attempt retries left has_more again response s older here more =
      if_elim P (is_retryable response.status_code && has_more)
        (λ goes.
          let open_ : has_more ≡ true = ground (arith, goes) in
          if_elim P (is_cloudflare_edge_error_body client response.text)
            (λ _. if_elim P (ltb 0 retries) (λ _. stop) (λ _. more open_ _ _ refl))
            (λ _.
              if_elim P
                (not (should_retry_gateway_http_status client response.status_code response.text))
                (λ _. stop) (λ _. more open_ _ _ refl)))
        (λ _. stop)
    where
      P : Outcome (Failure E) Response × State W E → Type 0
      P = IsLast (left + length s.answers)

      stop : IsLast (left + length s.answers) (returned response, s)
      stop = record { older = older; answers = here; bounded = ground arith }

  on_answer-IsLast :
      (attempt retries left : ℕ) (has_more : Bool) (again : ℕ → Option (Failure E) → Loop W E)
      (last_exc : Option (Failure E)) (answer : Outcome (Failure E) Response) (s : State W E)
      (older : List (Outcome (Failure E) Response))
      → s.answers ≡ answer ∷ older
      → (has_more ≡ true
          → (count : ℕ) (last : Option (Failure E)) (t : State W E) → t.answers ≡ s.answers
          → IsLast (left + length s.answers) (again count last t))
      → IsLast
          (left + length s.answers)
          (on_answer client attempt has_more retries again last_exc answer s)
  unfolding on_answer
  on_answer-IsLast attempt retries left has_more again last_exc (returned response) s older here
        more =
      on_response-IsLast attempt retries left has_more _ response s older here
        (λ open_ count t. more open_ count last_exc t)
  on_answer-IsLast attempt retries left true again last_exc (raised (transport e)) s older here
        more =
      more refl _ _ _ refl
  on_answer-IsLast attempt retries left false again last_exc (raised (transport e)) s older here
        more =
      record { older = older; answers = here; bounded = ground arith }
  on_answer-IsLast attempt retries left has_more again last_exc (raised (failed e)) s older here
        more =
      record { older = older; answers = here; bounded = ground arith }
  on_answer-IsLast attempt retries left has_more again last_exc (raised exhausted) s older here
        more =
      record { older = older; answers = here; bounded = ground arith }

  -- one round, over what the rounds after it promise
  round-IsLast :
      (left attempt retries : ℕ) (last_exc : Option (Failure E)) (s : State W E)
      → (ltb 0 left ≡ true
          → (count : ℕ) (last : Option (Failure E)) (t : State W E)
          → IsLast (left + length t.answers) (rounds client left (attempt + 1) count last t))
      → IsLast (suc left + length s.answers) (rounds client (suc left) attempt retries last_exc s)
  unfolding rounds
  round-IsLast left attempt retries last_exc s more =
      let answer = (client.request s.world).0 in
      let asked : State W E = record {
        world = (client.request s.world).1;
        answers = answer ∷ s.answers;
      } in
      let again = rounds client left (attempt + 1) in
      let most : left + length asked.answers ≡ suc left + length s.answers = ground arith in
      subst (λ n. IsLast n (rounds client (suc left) attempt retries last_exc s)) most
        (on_answer-IsLast attempt retries left (ltb 0 left) again last_exc answer asked s.answers
          refl
          (λ open_ count last t same.
            subst (λ a. IsLast (left + length a) (again count last t)) same
              (more open_ count last t)))

  rounds-IsLast :
      (left attempt retries : ℕ) (last_exc : Option (Failure E)) (s : State W E)
      → IsLast (suc left + length s.answers) (rounds client (suc left) attempt retries last_exc s)
  rounds-IsLast zero attempt retries last_exc s =
      round-IsLast zero attempt retries last_exc s (λ h. cc h)
  rounds-IsLast (suc n) attempt retries last_exc s =
      round-IsLast (suc n) attempt retries last_exc s
        (λ _ count last t. rounds-IsLast n (attempt + 1) count last t)

  -- If it may make a request at all, the client ends in the answer to its last request, a response
  -- or an exception, after at most `max_retries` requests; it never ends in the RuntimeError at the
  -- end of the loop by itself.
  pub httpx_with_gateway_retries-IsLast :
      (max_retries : ℕ) (w : W)
      → 0 < max_retries
      → IsLast max_retries (httpx_with_gateway_retries client max_retries w)
  unfolding httpx_with_gateway_retries
  httpx_with_gateway_retries-IsLast zero w some_left = absurd (ground arith)
  httpx_with_gateway_retries-IsLast (suc left) w some_left =
      let s : State W E = record { world = w; answers = [] } in
      let most : suc left + length s.answers ≡ suc left = ground arith in
      subst (λ n. IsLast n (rounds client (suc left) 0 0 none s)) most
        (rounds-IsLast left 0 0 none s)
