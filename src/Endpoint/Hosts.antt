-- ===== src/Endpoint/Hosts.antt =====
-- updateHostIPs: the endpoints of an upstream after its name was resolved again.
pub mod Members
use mathlib.Core.List.{append_assoc}
use substrate_rpc_proxy.Prelude.{
  ℕ, zero, suc, ◌+◌, ◌≡◌, ◌≢◌, ◌↔◌, ◌⊎◌, inl, inr, refl, ap, ◌∙◌, sym, String, Bool, true, false,
  ◌||◌, List, [], ◌∷◌, ◌++◌, map, str_eq, eq_iff, if◌then◌else◌, length, length-append, take, drop,
  take-append_here, drop-append_here, In, In-append_left, In-append_right, In-append_cases, arith,
  Bool-cases,
}
use substrate_rpc_proxy.Endpoint.{UpstreamEndpoint, unreachable}

-- The inner loops: an address among the resolved ones, and the other way round.
unfoldable pub among : String → List String → Bool
among a [] = false
among a (ip ∷ ips) = str_eq ip a || among a ips

unfoldable pub has_endpoint : String → List UpstreamEndpoint → Bool
has_endpoint ip [] = false
has_endpoint ip (e ∷ es) = str_eq e.address ip || has_endpoint ip es

-- The first loop: the indices of endpoints that are gone, the last one first.
unfoldable pub gone_indices : List String → ℕ → List ℕ → List UpstreamEndpoint → List ℕ
gone_indices ips i gone [] = gone
gone_indices ips i gone (e ∷ es) =
    gone_indices ips (suc i) (if among e.address ips then gone else i ∷ gone) es

-- append(endpoints[:i], endpoints[i+1:]...)
unfoldable pub delete_at : ℕ → List UpstreamEndpoint → List UpstreamEndpoint
delete_at i es = take i es ++ drop (suc i) es

unfoldable pub delete_all : List ℕ → List UpstreamEndpoint → List UpstreamEndpoint
unfolding delete_at
delete_all [] es = es
delete_all (i ∷ is) es = delete_all is (delete_at i es)

abbrev pub new_endpoint : String → UpstreamEndpoint
new_endpoint ip = record { address = ip; status = unreachable }

-- The last loop.
unfoldable pub add_missing : List String → List UpstreamEndpoint → List UpstreamEndpoint
unfolding has_endpoint
add_missing [] es = es
add_missing (ip ∷ ips) es =
    add_missing ips (if has_endpoint ip es then es else es ++ new_endpoint ip ∷ [])

unfoldable pub update_host_ips : List String → List UpstreamEndpoint → List UpstreamEndpoint
unfolding gone_indices delete_all add_missing
update_host_ips ips es = add_missing ips (delete_all (gone_indices ips 0 [] es) es)

-- The endpoints whose address is still resolved.
unfoldable pub kept : List String → List UpstreamEndpoint → List UpstreamEndpoint
kept ips [] = []
kept ips (e ∷ es) = if among e.address ips then e ∷ kept ips es else kept ips es

take-append_pre : (pre suf : List UpstreamEndpoint) → take (length pre) (pre ++ suf) ≡ pre
take-append_pre [] suf = refl
take-append_pre (x ∷ pre) suf = ap (λ r. x ∷ r) (take-append_pre pre suf)

drop-append_after :
    (pre suf : List UpstreamEndpoint) (e : UpstreamEndpoint)
    → drop (suc (length pre)) (pre ++ e ∷ suf) ≡ suf
drop-append_after [] suf e = refl
drop-append_after (x ∷ pre) suf e = drop-append_after pre suf e

delete_at-append :
    (pre suf : List UpstreamEndpoint) (e : UpstreamEndpoint)
    → delete_at (length pre) (pre ++ e ∷ suf) ≡ pre ++ suf
unfolding delete_at
delete_at-append pre suf e = rw (take-append_pre pre (e ∷ suf), drop-append_after pre suf e)

length-append_one :
    (pre : List UpstreamEndpoint) (e : UpstreamEndpoint) → length (pre ++ e ∷ []) ≡ suc (length pre)
length-append_one pre e = omega (arith, length-append pre (e ∷ []))

-- Deleting the found indices from the last to the first is a filter.
delete_all-gone_indices :
    (ips : List String) (gone : List ℕ) (pre es : List UpstreamEndpoint)
    → delete_all (gone_indices ips (length pre) gone es) (pre ++ es)
      ≡ delete_all gone (pre ++ kept ips es)
unfolding gone_indices delete_all kept
delete_all-gone_indices ips gone pre [] = refl
delete_all-gone_indices ips gone pre (e ∷ es) = elim (Bool-cases (among e.address ips)) [
  | inl still ↦
      rw (still, gone_indices, kept)
        (move gone (delete_all-gone_indices ips gone (pre ++ e ∷ []) es))
  | inr lost ↦
      rw (lost, gone_indices, kept)
        (move (length pre ∷ gone)
            (delete_all-gone_indices ips (length pre ∷ gone) (pre ++ e ∷ []) es)
          ∙ ap (delete_all gone) (delete_at-append pre (kept ips es) e))
]
  where
    move :
        (g : List ℕ)
        → delete_all (gone_indices ips (length (pre ++ e ∷ [])) g es) ((pre ++ e ∷ []) ++ es)
          ≡ delete_all g ((pre ++ e ∷ []) ++ kept ips es)
        → delete_all (gone_indices ips (suc (length pre)) g es) (pre ++ e ∷ es)
          ≡ delete_all g (pre ++ e ∷ kept ips es)
    move g h =
        rw
          (
            length-append_one pre e,
            append_assoc pre (e ∷ []) es,
            append_assoc pre (e ∷ []) (kept ips es),
          )
          at h

-- The endpoints whose address is still resolved stay, in their order, and the missing ones follow.
pub update_host_ips-eq :
    (ips : List String) (es : List UpstreamEndpoint)
    → update_host_ips ips es ≡ add_missing ips (kept ips es)
unfolding update_host_ips
update_host_ips-eq ips es = ap (add_missing ips) (delete_all-gone_indices ips [] [] es)
