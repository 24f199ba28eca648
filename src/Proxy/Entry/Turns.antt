-- ===== src/Proxy/Entry/Turns.antt =====
-- Where the handlers behind the JSON-RPC middleware send a frame that is no extension's.
use substrate_rpc_proxy.Decoder.Extrinsic.{Extracted, extracted}
use substrate_rpc_proxy.Decoder.Extrinsic as Extrinsic
use substrate_rpc_proxy.Decoder.Storage.{RuntimeModule}
use substrate_rpc_proxy.Dto.{RpcFrame}
use substrate_rpc_proxy.Middleware.Deny.{denied_frame, deny_rpc_methods, deny_rpc_methods_iff}
use substrate_rpc_proxy.Prelude.{
  ℕ, ◌≡◌, ◌≢◌, ◌⊎◌, inl, inr, refl, sym, ap, ◌∙◌, String, List, Option, none, some, Bool-cases,
}
use substrate_rpc_proxy.Proxy.Pipeline.{
  denied, proxied, Settings, route, inspect_and_extend, extend, extend-passed, IsDenied,
  deny-ne-forward,
}
use substrate_rpc_proxy.Rpc.Client.Connections.{Network}
use substrate_rpc_proxy.Substrate.Extension.{Scale, Served}
use substrate_rpc_proxy.Substrate.Extension as Extension
use substrate_rpc_proxy.Substrate.Inspector.{
  Inspector, passed_on, log_to_db, inspect, needs_inspection,
}

module _ {P : Type 0} (settings : Settings) (scale : Scale P) (net : Network)
    (find_submatch : String → Option (String × String)) (metadata : List RuntimeModule) where
  abbrev IsDeniedHere : RpcFrame → Type 0
  IsDeniedHere = IsDenied settings scale net find_submatch metadata

  pub route-none :
      (now : ℕ) (i : Inspector net.World)
      → route settings scale net find_submatch metadata now none i ≡ (proxied, i)
  unfolding route inspect_and_extend extend log_to_db deny_rpc_methods Extension.serve
  route-none now i = elim (Bool-cases settings.inspect_extrinsics) [
    | inl t ↦ rw (t)
    | inr n ↦ rw (n)
  ]

  -- The inspector lets the frame pass, and it is none for the storage extension.
  abbrev pub IsPlain : RpcFrame → Type 0
  IsPlain f =
      (settings.extract f.params ≢ Extrinsic.panicked) × (f.rpc ≢ "extensions/get-storage/1.0")

  inspect-passed :
      (now : ℕ) (f : RpcFrame) (x : Extracted) (i : Inspector net.World)
      → x ≢ Extrinsic.panicked
      → (inspect net now f x i).0 ≡ passed_on
  unfolding inspect
  inspect-passed now f Extrinsic.nothing i h = refl
  inspect-passed now f (extracted extr) i h = refl
  inspect-passed now f Extrinsic.panicked i h = absurd (h refl)

  log_to_db-passed :
      (now : ℕ) (f : RpcFrame) (i : Inspector net.World)
      → settings.extract f.params ≢ Extrinsic.panicked
      → (log_to_db net settings.fold settings.inspect_methods settings.extract now (some f) i).0
        ≡ passed_on
  unfolding log_to_db
  log_to_db-passed now f i h =
      elim (Bool-cases (needs_inspection settings.fold settings.inspect_methods f.method)) [
        | inl t ↦ rw (t) (inspect-passed now f (settings.extract f.params) i h)
        | inr n ↦ rw (n)
      ]

  inspect_and_extend-plain :
      (now : ℕ) (f : RpcFrame) (i : Inspector net.World)
      → IsPlain f
      → (inspect_and_extend settings scale net find_submatch metadata now (some f) i).0 ≡ proxied
  unfolding inspect_and_extend
  inspect_and_extend-plain now f i (calm, other) = elim (Bool-cases settings.inspect_extrinsics) [
    | inl t ↦ rw (t) (
        ap (λ y. y.0)
          (extend-passed settings scale net find_submatch metadata f
            (log_to_db net settings.fold settings.inspect_methods settings.extract now (some f) i)
            (log_to_db-passed now f i calm) other))
    | inr n ↦ rw (n) (
        ap (λ y. y.0)
          (extend-passed settings scale net find_submatch metadata f (passed_on, i) refl other))
  ]

  pub route-plain :
      (now : ℕ) (f : RpcFrame) (i : Inspector net.World)
      → IsPlain f
      → let r = (route settings scale net find_submatch metadata now (some f) i).0 in
        (IsDeniedHere f × (r ≡ denied (denied_frame f.id))) ⊎ ((IsDeniedHere f → ⊥) × (r ≡ proxied))
  unfolding route
  route-plain now f i plain =
      let (listed, outcome) =
        deny_rpc_methods_iff settings.fold settings.deny_methods f.method f.id in
      elim outcome [
        | inl d ↦ inl (listed.0 d, rw (route, d))
        | inr d ↦ inr (
          λ h. deny-ne-forward (sym (listed.1 h) ∙ d),
          rw (route, d) (inspect_and_extend-plain now f i plain),
        )
      ]
