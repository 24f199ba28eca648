-- ===== src/Tests/Requests.antt =====
-- The middlewares on concrete requests.
use substrate_rpc_proxy.Dto.{RpcFrame}
use substrate_rpc_proxy.Middleware.Throttle.{
  Event, enter, start, overflow, Throttler, System, start_of, advance, run, new_throttler, outside,
  waiting, running, leaving, finished, served, too_many_requests, err_capacity_exceeded, done,
  leave,
}
use substrate_rpc_proxy.Middleware.Throttle.Counts.{Reached, holds_backlog}
use substrate_rpc_proxy.Middleware.Throttle.Bounds.{
  running_count, inside_count, throttle_bounds, overflow_full,
}
use substrate_rpc_proxy.Middleware.Deny.{
  deny, forward, deny_rpc_methods, denied_frame, IsListed, deny_rpc_methods_iff, equal_fold,
}
use substrate_rpc_proxy.Middleware.JsonRpc.{Codec, serve_batch, panicked}
use substrate_rpc_proxy.Middleware.JsonRpc.Batch.{serve_batch-panicked_iff}
use substrate_rpc_proxy.Middleware.Headers.{
  is_among, skip_headers, values, copy_header, copy_header-values,
}
use substrate_rpc_proxy.Prelude.{
  true, ℕ_discrete, ℕ, suc, ◌+◌, ◌≤◌, ◌<◌, ◌≡◌, ◌≢◌, ◌⊎◌, ◌↔◌, refl, String, Bool, false, List, [],
  ◌∷◌, ◌&&◌, some, arith, leb, if◌then◌else◌, str_eq, zero,
}
use substrate_rpc_proxy.Prelude.Family.{put}
use substrate_rpc_proxy.Tests.Nodes.{reply}

abbrev http_only : ℕ → Bool
http_only i = false

-- A limit of 1 and a backlog of 1: two requests are inside, one of them is served.
abbrev one_token : Throttler
one_token = record { tokens = 1; backlog_tokens = 2 }

abbrev crowd : List (ℕ × Event)
crowd = (0, enter) ∷ (1, enter) ∷ (0, start) ∷ []

abbrev crowded : System
crowded = record {
  throttler = record { tokens = 0; backlog_tokens = 0 };
  phase = put (put (put (λ i. outside) 0 waiting) 1 waiting) 0 running;
}

crowded-run : run http_only crowd (start_of one_token) ≡ some crowded
unfolding run ℕ_discrete
crowded-run = refl

created : new_throttler 1 1 ≡ some one_token
unfolding new_throttler
created = refl

crowded-Reached : Reached 1 1 3 http_only crowded
crowded-Reached = record {
  throttler = one_token;
  created = created;
  events = crowd;
  numbered = (omega arith, (omega arith, (omega arith, tt)));
  history = crowded-run;
}

throttle_bounds_example : (running_count crowded 3 ≤ 1) × (inside_count crowded 3 ≤ 1 + 1)
throttle_bounds_example = throttle_bounds 1 1 3 http_only crowded crowded-Reached

-- A third request overflows.
overflow_run :
    advance http_only 2 overflow crowded
    ≡ some (record {
      throttler = crowded.throttler;
      phase = put crowded.phase 2 (finished (too_many_requests err_capacity_exceeded));
    })
unfolding advance ℕ_discrete
overflow_run = refl

overflow_full_example : inside_count crowded 3 ≡ 1 + 1
overflow_full_example =
    overflow_full 1 1 3 http_only crowded crowded-Reached 2
      (record {
        throttler = crowded.throttler;
        phase = put crowded.phase 2 (finished (too_many_requests err_capacity_exceeded));
      })
      overflow_run

-- One request comes, is served and goes.
abbrev visit : List (ℕ × Event)
visit = (0, enter) ∷ (0, start) ∷ (0, done) ∷ (0, leave) ∷ []

abbrev visited : System
visited = record {
  throttler = one_token;
  phase =
      put (put (put (put (λ i. outside) 0 waiting) 0 running) 0 (leaving served)) 0
        (finished served);
}

visited-run : run http_only visit (start_of one_token) ≡ some visited
unfolding run ℕ_discrete
visited-run = refl

visited-Reached : Reached 1 1 1 http_only visited
visited-Reached = record {
  throttler = one_token;
  created = created;
  events = visit;
  numbered = (omega arith, (omega arith, (omega arith, (omega arith, tt))));
  history = visited-run;
}

quiet : (i : ℕ) → i < 1 → holds_backlog (visited.phase i) ≡ 0
unfolding ℕ_discrete
quiet zero h = refl
quiet (suc i) h = absurd (omega arith)

-- Folding to lower case, for the letters of ASCII.
abbrev lower : ℕ → ℕ
lower c = if leb 65 c && leb c 90 then c + 32 else c

abbrev unsafe_methods : List String
unsafe_methods = "author_removeExtrinsic" ∷ "author_rotateKeys" ∷ []

denied_run : deny_rpc_methods lower unsafe_methods "Author_RotateKeys" 4 ≡ deny (denied_frame 4)
unfolding deny_rpc_methods equal_fold
denied_run = refl

deny_rpc_methods_iff_example :
    ((deny_rpc_methods lower unsafe_methods "Author_RotateKeys" 4 ≡ deny (denied_frame 4)) ↔ (
      (◌≢◌ {A = String} "Author_RotateKeys" "")
      × IsListed lower "Author_RotateKeys" unsafe_methods
      × (◌≢◌ {A = ℕ} 4 0)))
    × ((deny_rpc_methods lower unsafe_methods "Author_RotateKeys" 4 ≡ deny (denied_frame 4))
        ⊎ (deny_rpc_methods lower unsafe_methods "Author_RotateKeys" 4 ≡ forward))
deny_rpc_methods_iff_example = deny_rpc_methods_iff lower unsafe_methods "Author_RotateKeys" 4

-- A codec of one frame, and a batch of two.
abbrev codec : Codec
codec = record {
  starts_with_bracket = λ t. str_eq t "[]";
  decode_batch = λ t. some [];
  decode_frame = λ t. some reply;
  encode_frame = λ f. "{}";
  encode_batch = λ fs. "[{},{}]";
}

abbrev two : List RpcFrame
two = reply ∷ reply ∷ []

serve_batch-panicked_iff_example : (serve_batch codec (λ f. "{}") two ≡ panicked) ↔ (two ≡ [])
serve_batch-panicked_iff_example = serve_batch-panicked_iff codec (λ f. "{}") two

-- Two cookies.
abbrev cookies : List (String × List String)
cookies = ("Cookie", "a=1" ∷ "b=2" ∷ []) ∷ []

copy_header-values_example :
    ((is_among "Cookie" skip_headers ≡ false)
      × (values "Cookie" (copy_header [] cookies) ≡ "b=2" ∷ []))
    ⊎ ((is_among "Cookie" skip_headers ≡ true)
        × (values "Cookie" (copy_header [] cookies) ≡ values "Cookie" []))
copy_header-values_example = copy_header-values [] [] [] "Cookie" ("a=1" ∷ []) "b=2" tt tt
