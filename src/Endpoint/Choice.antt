-- ===== src/Endpoint/Choice.antt =====
-- The second half of GetEndpoint: the choice among the rated addresses, with the tries.
pub mod Candidates
pub mod Best
pub mod Everyone
pub mod Order
use substrate_rpc_proxy.Prelude.{
  ℕ, zero, suc, ◌+◌, String, List, [], ◌∷◌, Option, none, some, length, get_elem?, ◌==◌, not,
  if◌then◌else◌,
}
use substrate_rpc_proxy.Endpoint.Rating.{Rating, Upstreams, rate_all}

-- `at n` are the upstreams as they are when `n` tries are left, and `rand n k` is the result of
-- rand.Intn(k) then. `none` is the panic of an index out of range, or of Intn(0).
module _ (at : ℕ → Upstreams) (rand : ℕ → ℕ → ℕ) where
  -- A retry goes through GetAliveEndpoint, which excludes nothing.
  unfoldable pub get_endpoint : String → String → ℕ → Option String
  unfolding rate_all
  get_endpoint kind exclude zero =
      let r = rate_all kind exclude (at 0) in
      if not (r.healthy_count == 0)
      then get_elem? r.rating (rand 0 r.healthy_count)
      else (if not (r.available_count == 0)
          then get_elem? r.rating (rand 0 r.available_count)
          else get_elem? r.all (rand 0 (length r.all)))
  get_endpoint kind exclude (suc tries) =
      let r = rate_all kind exclude (at (suc tries)) in
      let retry = get_endpoint kind "" tries in
      if not (r.healthy_count == 0)
      then get_elem? r.rating (rand (suc tries) r.healthy_count)
      else (if not (r.available_count == 0)
          then get_elem? r.rating (rand (suc tries) r.available_count)
          else retry)

  unfoldable pub get_alive_endpoint : String → ℕ → Option String
  unfolding get_endpoint
  get_alive_endpoint kind tries = get_endpoint kind "" tries
