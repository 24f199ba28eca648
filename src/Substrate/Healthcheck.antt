-- ===== src/Substrate/Healthcheck.antt =====
-- Healthcheck of pkg/middleware-substrate/upstreamcheck.go. `post` is one HTTP request with its
-- whole response body, `decode_into` the JSON decoder, which keeps the fields that a text lacks.
use substrate_rpc_proxy.Dto.{RpcFrame, mapped_result}
use substrate_rpc_proxy.Dto.Mapped.{null, must_int}
use substrate_rpc_proxy.Endpoint.{EndpointStatus, unreachable, available, healthy}
use substrate_rpc_proxy.Prelude.{
  ℕ, ◌+◌, ◌^◌, ◌≤◌, ◌<◌, ◌≡◌, ◌≢◌, ◌⊎◌, ◌↔◌, inl, inr, refl, sym, ◌∙◌, String, Bool, true, false,
  not, ◌&&◌, ◌||◌, List, [], ◌∷◌, ◌++◌, Option, none, some, leb, ◌==◌, sub64, if◌then◌else◌, arith,
  sub64-cases, Option-cases, none-ne-some,
}

-- strings.Split(s, "://"), on code points.
abbrev pub onto_first : ℕ → List (List ℕ) → List (List ℕ)
onto_first c [] = (c ∷ []) ∷ []
onto_first c (p ∷ ps) = (c ∷ p) ∷ ps

unfoldable pub split_scheme : List ℕ → List (List ℕ)
split_scheme (a ∷ b ∷ c ∷ r) =
    let here = split_scheme r in
    let rest = split_scheme (b ∷ c ∷ r) in
    if (a == b':') && (b == b'/') && (c == b'/') then [] ∷ here else onto_first a rest
split_scheme s = s ∷ []

-- strings.Join(parts, "://")
unfoldable pub join_scheme : List (List ℕ) → List ℕ
join_scheme [] = []
join_scheme (p ∷ []) = p
join_scheme (p ∷ ps) = p ++ b':' ∷ b'/' ∷ b'/' ∷ join_scheme ps

abbrev pub has_prefix : List ℕ → List ℕ → Bool
has_prefix [] s = true
has_prefix (c ∷ cs) [] = false
has_prefix (c ∷ cs) (d ∷ ds) = (c == d) && has_prefix cs ds

-- strings.Contains(s, t)
unfoldable pub contains_text : List ℕ → List ℕ → Bool
contains_text t [] = has_prefix t []
contains_text t (c ∷ cs) = has_prefix t (c ∷ cs) || contains_text t cs

abbrev pub https : List ℕ
https = b'h' ∷ b't' ∷ b't' ∷ b'p' ∷ b's' ∷ []

abbrev pub http : List ℕ
http = b'h' ∷ b't' ∷ b't' ∷ b'p' ∷ []

-- The first part is replaced where there are at least two.
unfoldable pub http_server : List (List ℕ) → List (List ℕ)
unfolding contains_text
http_server (scheme ∷ p ∷ ps) = (if contains_text https scheme then https else http) ∷ p ∷ ps
http_server parts = parts

-- The last test, on numbers of 64 bits.
unfoldable pub assess : ℕ → ℕ → ℕ → ℕ → ℕ → EndpointStatus
assess min_peers max_gap peers current highest =
    if leb min_peers peers && not (highest == 0) && leb (sub64 highest current) max_gap
    then healthy
    else available

abbrev pub no_frame : RpcFrame
no_frame = record {
  id = 0;
  rpc = "";
  method = "";
  raw = "";
  params = null;
  result = null;
  error = none;
}

abbrev pub health_request : String
health_request = "{\"id\":11,\"jsonrpc\":\"2.0\",\"method\":\"system_health\",\"params\":[] }"

abbrev pub sync_request : String
sync_request = "{\"id\":13,\"jsonrpc\":\"2.0\",\"method\":\"system_syncState\",\"params\":[]}"

module _ {W : Type 0} (post : List ℕ → String → W → Option String × W)
    (decode_into : RpcFrame → String → Option RpcFrame) (min_peers max_gap : ℕ) where
  -- What the two bodies say: the second is decoded over the frame of the first.
  unfoldable pub judge : String → String → EndpointStatus
  unfolding assess mapped_result must_int
  judge raw_health raw_sync = elim (decode_into no_frame raw_health) [
    | none ↦ available
    | some v ↦ elim (decode_into v raw_sync) [
      | none ↦ available
      | some v' ↦
          assess min_peers max_gap (must_int "peers" (mapped_result v))
            (must_int "currentBlock" (mapped_result v'))
            (must_int "highestBlock" (mapped_result v'))
    ]
  ]

  unfoldable pub after_health : List ℕ → Option String × W → EndpointStatus × W
  unfolding judge
  after_health server (none, w) = (unreachable, w)
  after_health server (some raw_health, w) =
      let (answer, w') = post server sync_request w in
      elim answer [ none ↦ (unreachable, w') | some raw_sync ↦ (judge raw_health raw_sync, w') ]

  unfoldable pub healthcheck : List ℕ → W → EndpointStatus × W
  unfolding split_scheme join_scheme http_server after_health
  healthcheck address w =
      let server = join_scheme (http_server (split_scheme address)) in
      after_health server (post server health_request w)

-- A node is healthy exactly if it has enough peers, knows a highest block, and either is behind that
-- by at most the largest gap, or is so far ahead of it that the unsigned difference wraps around to
-- at most the largest gap.
pub assess-healthy_iff :
    (min_peers max_gap peers current highest : ℕ)
    → current < 2 ^ 64
    → highest < 2 ^ 64
    → (assess min_peers max_gap peers current highest ≡ healthy) ↔ (
        (min_peers ≤ peers)
        × (highest ≢ 0)
        × (((current ≤ highest) × (highest ≤ current + max_gap))
            ⊎ ((highest < current) × (highest + 2 ^ 64 ≤ current + max_gap))))
unfolding assess
assess-healthy_iff min_peers max_gap peers current highest c h =
    ground (arith, sub64-cases highest current)

module _ {W : Type 0} (post : List ℕ → String → W → Option String × W)
    (decode_into : RpcFrame → String → Option RpcFrame) (min_peers max_gap : ℕ) where
  judge-ne-unreachable :
      (raw_health raw_sync : String)
      → judge post decode_into min_peers max_gap raw_health raw_sync ≢ unreachable
  unfolding judge assess
  judge-ne-unreachable raw_health raw_sync = ground arith

  after_health-unreachable_iff :
      (server : List ℕ) (first : Option String × W)
      → ((after_health post decode_into min_peers max_gap server first).0 ≡ unreachable)
        ↔ ((first.0 ≡ none) ⊎ ((first.0 ≢ none) × ((post server sync_request first.1).0 ≡ none)))
  unfolding after_health
  after_health-unreachable_iff server (none, w) = (λ e. inl refl, λ e. refl)
  after_health-unreachable_iff server (some raw, w) =
      elim (Option-cases ((post server sync_request w).0)) [
        | inl e ↦ (λ q. inr (λ n. none-ne-some (sym n), e), λ q. rw (e, after_health) refl)
        | inr (body, e) ↦ (
          λ q. absurd (judge-ne-unreachable raw body (rw (e, after_health) at q)),
          λ q. elim q [
            | inl n ↦ absurd (none-ne-some (sym n))
            | inr (n, e') ↦ absurd (none-ne-some (sym e' ∙ e))
          ],
        )
      ]

  -- A node is unreachable exactly if one of the two requests, sent to the address with its scheme
  -- replaced, gets no whole response; the second is sent only after the first had one.
  pub healthcheck-unreachable_iff :
      (address : List ℕ) (w : W)
      → let server = join_scheme (http_server (split_scheme address)) in
        let first = post server health_request w in
        ((healthcheck post decode_into min_peers max_gap address w).0 ≡ unreachable)
        ↔ ((first.0 ≡ none) ⊎ ((first.0 ≢ none) × ((post server sync_request first.1).0 ≡ none)))
  unfolding healthcheck after_health
  healthcheck-unreachable_iff address w =
      let server = join_scheme (http_server (split_scheme address)) in
      after_health-unreachable_iff server (post server health_request w)
