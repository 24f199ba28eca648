-- ===== src/Tests/Provided.antt =====
-- A provider of two addresses with one host name.
use substrate_rpc_proxy.Endpoint.Check.{Lookup, resolved}
use substrate_rpc_proxy.Endpoint.Provider.{Url}
use substrate_rpc_proxy.Prelude.{ℕ, String, List, [], ◌∷◌, Option, some, str_eq, if◌then◌else◌}

abbrev secure : Url
secure = record { scheme = "wss"; hostname = "node"; port = "443"; path = "" }

abbrev plain : Url
plain = record { scheme = "http+ws"; hostname = "node"; port = "9944"; path = "" }

abbrev parse : String → Option Url
parse s = if str_eq s "wss://node:443" then some secure else some plain

abbrev addresses : List String
addresses = "wss://node:443" ∷ "node:9944" ∷ []

abbrev one_address : String → ℕ → Lookup × ℕ
one_address name w = (resolved ("10.0.0.1" ∷ []), w)
