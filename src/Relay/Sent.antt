-- ===== src/Relay/Sent.antt =====
-- What the client of a stream is sent.
use ai_proxy.Common.{
  false, ℕ, String, ◌≡◌, refl, ap, inl, inr, Option, none, some, List, [], ◌∷◌, ◌++◌, Bool-cases,
  Option-cases,
}
use ai_proxy.Upstream.{Bytes, Codec, timeout, request_error}
use ai_proxy.Handlers.{text_or, transport_error_status, error_text}
use ai_proxy.Streaming.{StreamState, capture_stream_chunk}
use ai_proxy.Events.{parse_sse_chunk, inject_ai_proxy_route_chunk, stream_error_event}
use ai_proxy.Relay.{
  record_stream_exception, Ending, done, cancelled, broken, raised_with, closed, Relayed, send,
  fail_with, close_at, relay_end, capture_client_chunk, timed, relay_chunks, relay_stream_chunks,
}
use ai_proxy.Relay.Routed.{IsRouted, inject-IsRouted}

module _ (codec : Codec) (ai_proxy_route : Option String) where
  -- The second chunks are what the client is sent of the first.
  abbrev pub AreInjected : List Bytes → List Bytes → Type 0
  AreInjected [] [] = Unit
  AreInjected (c ∷ cs) (d ∷ ds) = IsRouted codec ai_proxy_route c d × AreInjected cs ds
  AreInjected _ _ = ⊥

  -- The chunks that the provider gives, with the one at which the generator is closed.
  abbrev pub given : List Bytes → Ending → List Bytes
  given [] (closed chunk_bytes) = chunk_bytes ∷ []
  given [] ending = []
  given (c ∷ chunks) ending = c ∷ given chunks ending

  -- A failure that is logged with a message and a status, and the one event that says so.
  pub record IsFailure (message : String) (status : ℕ) (state : StreamState) (events : List Bytes)
      : Type 0 where
    pub logged : state.stream_error_message ≡ some message
    pub with_status : state.response_status_code ≡ status
    pub told :
        events
        ≡ stream_error_event codec ai_proxy_route (text_or (some message) "Provider stream error")
          ∷ []

  -- What follows where all chunks were sent, by how the stream ended: nothing, or the failure.
  abbrev pub IsTold : Ending → StreamState → List Bytes → Type 0
  IsTold done state events = events ≡ []
  IsTold cancelled state events = events ≡ []
  IsTold (closed chunk_bytes) state events = events ≡ []
  IsTold (broken (timeout message)) state events = IsFailure message 504 state events
  IsTold (broken (request_error message)) state events = IsFailure message 502 state events
  IsTold (raised_with message) state events = IsFailure message 502 state events

  -- The state in which some chunks were captured, one after another.
  abbrev pub captured : StreamState → List Bytes → StreamState
  captured start [] = start
  captured start (d ∷ client) =
      captured (capture_stream_chunk start (parse_sse_chunk codec d)).0 client

  -- How what the client was sent ends: all chunks went through; the next one cannot be given the
  -- route; or the last one that was sent raises when it is captured, after those before it.
  pub data IsOver (start : StreamState) (ending : Ending) (state : StreamState)
      (rest client events : List Bytes) : Type 0 where
    all_sent : rest ≡ [] → IsTold ending state events → IsOver start ending state rest client events
    not_injected :
        (c : Bytes) (later : List Bytes) (message : String)
        → rest ≡ c ∷ later
        → inject_ai_proxy_route_chunk codec ai_proxy_route c ≡ none
        → IsFailure message 502 state events
        → IsOver start ending state rest client events
    not_captured :
        (before : List Bytes) (d : Bytes) (message : String)
        → client ≡ before ++ d ∷ []
        → (capture_stream_chunk (captured start before) (parse_sse_chunk codec d)).1 ≡ false
        → IsFailure message 502 state events
        → IsOver start ending state rest client events

  -- The client got the first of the chunks, and after them what the end of the stream asks for.
  pub record IsRelayed (start : StreamState) (ending : Ending) (chunks : List Bytes)
      (relayed : Relayed) : Type 0 where
    pub taken : List Bytes
    pub rest : List Bytes
    pub in_order : chunks ≡ taken ++ rest
    pub client : List Bytes
    pub injected : AreInjected taken client
    pub events : List Bytes
    pub all_in_order : relayed.sent ≡ client ++ events
    pub at_end : IsOver start ending relayed.state rest client events

  fail_with-IsFailure :
      (state : StreamState) (message : String) (status : ℕ)
      → IsFailure message status
          (fail_with codec ai_proxy_route state message status).state
          (fail_with codec ai_proxy_route state message status).sent
  unfolding fail_with record_stream_exception
  fail_with-IsFailure state message status = record {
    logged = refl;
    with_status = refl;
    told = refl;
  }

  -- Nothing of the chunks is sent.
  IsRelayed-over :
      (start : StreamState) (ending : Ending) (chunks : List Bytes) (relayed : Relayed)
      → IsOver start ending relayed.state chunks [] relayed.sent
      → IsRelayed start ending chunks relayed
  IsRelayed-over start ending chunks relayed over = record {
    taken = [];
    rest = chunks;
    in_order = refl;
    client = [];
    injected = tt;
    events = relayed.sent;
    all_in_order = refl;
    at_end = over;
  }

  IsOver-after :
      (start : StreamState) (ending : Ending) (state : StreamState)
      (rest client events : List Bytes) (d : Bytes)
      → IsOver (captured start (d ∷ [])) ending state rest client events
      → IsOver start ending state rest (d ∷ client) events
  IsOver-after start ending state rest client events d (all_sent e told) = all_sent e told
  IsOver-after start ending state rest client events d (not_injected c later message e f h) =
      not_injected c later message e f h
  IsOver-after start ending state rest client events d (not_captured before x message e f h) =
      not_captured (d ∷ before) x message (ap (λ (l : List Bytes). d ∷ l) e) f h

  IsRelayed-send :
      (start : StreamState) (ending : Ending) (c d : Bytes) (chunks : List Bytes)
      (relayed : Relayed)
      → inject_ai_proxy_route_chunk codec ai_proxy_route c ≡ some d
      → IsRelayed (captured start (d ∷ [])) ending chunks relayed
      → IsRelayed start ending (c ∷ chunks) (send d relayed)
  IsRelayed-send start ending c d chunks relayed e r = record {
    taken = c ∷ r.taken;
    rest = r.rest;
    in_order = ap (λ (l : List Bytes). c ∷ l) r.in_order;
    client = d ∷ r.client;
    injected = (inject-IsRouted codec ai_proxy_route c d e, r.injected);
    events = r.events;
    all_in_order = ap (λ (l : List Bytes). d ∷ l) r.all_in_order;
    at_end = IsOver-after start ending relayed.state r.rest r.client r.events d r.at_end;
  }

  -- A chunk is sent, and raises when it is captured.
  IsRelayed-stop :
      (start : StreamState) (ending : Ending) (c d : Bytes) (chunks : List Bytes)
      (state : StreamState) (message : String)
      → inject_ai_proxy_route_chunk codec ai_proxy_route c ≡ some d
      → (capture_stream_chunk start (parse_sse_chunk codec d)).1 ≡ false
      → IsRelayed start ending
          (c ∷ chunks)
          (send d (fail_with codec ai_proxy_route state message 502))
  IsRelayed-stop start ending c d chunks state message e raised = record {
    taken = c ∷ [];
    rest = chunks;
    in_order = refl;
    client = d ∷ [];
    injected = (inject-IsRouted codec ai_proxy_route c d e, tt);
    events = _;
    all_in_order = refl;
    at_end = not_captured [] d message refl raised (fail_with-IsFailure state message 502);
  }

  module _ (describe : StreamState → Bytes → String) where
    close_at-IsRelayed :
        (state : StreamState) (c : Bytes) (o : Option Bytes)
        → inject_ai_proxy_route_chunk codec ai_proxy_route c ≡ o
        → IsRelayed state (closed c) (c ∷ []) (close_at codec ai_proxy_route describe state c o)
    close_at-IsRelayed state c none e =
        IsRelayed-over state (closed c) (c ∷ []) _
          (not_injected c [] _ refl e (fail_with-IsFailure state (describe state c) 502))
    close_at-IsRelayed state c (some d) e =
        IsRelayed-send state (closed c) c d [] (record { state = state; sent = [] }) e
          (IsRelayed-over _ (closed c) [] _ (all_sent refl refl))

    relay_end-IsRelayed :
        (state : StreamState) (ending : Ending)
        → IsRelayed state ending
            (given [] ending)
            (relay_end codec ai_proxy_route describe state ending)
    unfolding relay_end transport_error_status error_text
    relay_end-IsRelayed state done = IsRelayed-over state done [] _ (all_sent refl refl)
    relay_end-IsRelayed state cancelled = IsRelayed-over state cancelled [] _ (all_sent refl refl)
    relay_end-IsRelayed state (broken (timeout message)) =
        IsRelayed-over state (broken (timeout message)) [] _
          (all_sent refl (fail_with-IsFailure state message 504))
    relay_end-IsRelayed state (broken (request_error message)) =
        IsRelayed-over state (broken (request_error message)) [] _
          (all_sent refl (fail_with-IsFailure state message 502))
    relay_end-IsRelayed state (raised_with message) =
        IsRelayed-over state (raised_with message) [] _
          (all_sent refl (fail_with-IsFailure state message 502))
    relay_end-IsRelayed state (closed c) = close_at-IsRelayed state c _ refl

    relay_chunks-IsRelayed :
        (chunks : List Bytes) (state : StreamState) (ending : Ending)
        → IsRelayed state ending
            (given chunks ending)
            (relay_chunks codec ai_proxy_route describe state chunks ending)
    unfolding relay_chunks
    relay_chunks-IsRelayed [] state ending = relay_end-IsRelayed state ending
    relay_chunks-IsRelayed (c ∷ chunks) state ending =
        elim (Option-cases (inject_ai_proxy_route_chunk codec ai_proxy_route c)) [
          | inl raised ↦
              rw (relay_chunks, raised)
                (IsRelayed-over state ending _ _ (
                  not_injected c _ _ refl raised
                    (fail_with-IsFailure state (describe state c) 502)))
          | inr (d, e) ↦
              rw (relay_chunks, e)
                (elim (Bool-cases (capture_client_chunk codec ai_proxy_route describe state d).1) [
                  | inl through ↦ rw through (
                      IsRelayed-send state ending c d (given chunks ending) _ e
                        (relay_chunks-IsRelayed chunks _ ending))
                  | inr raised ↦ rw raised (
                      IsRelayed-stop state ending c d (given chunks ending)
                        (capture_client_chunk codec ai_proxy_route describe state d).0 _ e raised)
                ])
        ]

    -- However the provider's stream ends, the client is sent its chunks from the first one on, in
    -- their order, each object with the route. Where that are all chunks, an event follows if the
    -- transport failed or an exception came, with its text, logged with the status 504 for a timeout
    -- and else 502, and nothing else follows. Otherwise the next chunk cannot be given the route or
    -- the last one that was sent cannot be captured after those before it, and an event follows that
    -- is logged with 502.
    pub relay_stream_chunks-IsRelayed :
        (state : StreamState) (ttft : Option ℕ) (chunks : List Bytes) (ending : Ending)
        → IsRelayed
            (timed codec ai_proxy_route describe state ttft chunks ending)
            ending
            (given chunks ending)
            (relay_stream_chunks codec ai_proxy_route describe state ttft (some (chunks, ending)))
    unfolding relay_stream_chunks
    relay_stream_chunks-IsRelayed state ttft chunks ending = relay_chunks-IsRelayed chunks _ ending
