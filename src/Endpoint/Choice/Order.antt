-- ===== src/Endpoint/Choice/Order.antt =====
-- GetEndpoint and the order in which a Go map yields its entries.
use mathlib.Core.List.{Permᴰ}
use substrate_rpc_proxy.Prelude.{ℕ, zero, suc, ◌≡◌, ◌∙◌, String}
use substrate_rpc_proxy.Endpoint.Rating.{Upstreams, rate_all}
use substrate_rpc_proxy.Endpoint.Rating.Ports.{IsLookedUp, SameUpstreams, rate_all-SameUpstreams}
use substrate_rpc_proxy.Endpoint.Rating.Order.{IsMap, rate_all-Permᴰ}
use substrate_rpc_proxy.Endpoint.Choice.{get_endpoint}

-- The entries of one map of upstreams, read twice: in two orders, and the ports of each in two orders.
abbrev pub Reordered : Upstreams → Upstreams → Type 0
Reordered ups ups' = (mid : Upstreams) × Permᴰ ups mid × SameUpstreams mid ups'

rate_all-Reordered :
    (kind exclude : String) (ups ups' : Upstreams)
    → IsLookedUp kind
    → IsMap ups
    → Reordered ups ups'
    → rate_all kind exclude ups ≡ rate_all kind exclude ups'
rate_all-Reordered kind exclude ups ups' looked_up m (mid, moved, same) =
    rate_all-Permᴰ kind exclude moved m
    ∙ rate_all-SameUpstreams kind exclude looked_up mid ups' same

module _ (at at' : ℕ → Upstreams) (rand : ℕ → ℕ → ℕ) where
  -- The entries of the same maps of upstreams and, in each upstream, of the same map of ports, in any
  -- two orders, and the same random numbers: then GetEndpoint returns the same address for the kinds
  -- websocket and http, whatever the excluded address and the tries. For other kinds any port may be taken.
  pub get_endpoint-order :
      ((n : ℕ) → IsMap (at n))
      → ((n : ℕ) → Reordered (at n) (at' n))
      → (kind exclude : String) (tries : ℕ) → IsLookedUp kind
      → get_endpoint at rand kind exclude tries ≡ get_endpoint at' rand kind exclude tries
  unfolding get_endpoint
  get_endpoint-order m d kind exclude zero k =
      rw (rate_all-Reordered kind exclude (at 0) (at' 0) k (m 0) (d 0))
  get_endpoint-order m d kind exclude (suc tries) k = rw (
    rate_all-Reordered kind exclude (at (suc tries)) (at' (suc tries)) k (m (suc tries))
        (d (suc tries)),
    get_endpoint-order m d kind "" tries k,
  )
