-- ===== src/Proxy/Pipeline.antt =====
-- The handlers behind the throttle, in the order of cmd/proxy/main.go: denied methods, the inspector if
-- it is on, the storage extension, and the proxy. The inspector and the extension share one client.
use substrate_rpc_proxy.Decoder.Extrinsic.{Extracted, extracted}
use substrate_rpc_proxy.Decoder.Storage.{RuntimeModule}
use substrate_rpc_proxy.Dto.{RpcFrame, ExtrinsicData}
use substrate_rpc_proxy.Dto.Mapped.{Value}
use substrate_rpc_proxy.Middleware.Deny.{
  deny, forward, denied_frame, deny_rpc_methods, IsListed, deny_rpc_methods_iff,
}
use substrate_rpc_proxy.Prelude.{
  ℕ, ◌+◌, ◌≡◌, ◌≢◌, ◌⊎◌, inl, inr, sym, ◌∙◌, ap, String, Bool, true, List, ◌∷◌, Option, none, some,
  str_eq, eq_iff, if◌then◌else◌, Bool-cases,
}
use substrate_rpc_proxy.Rpc.Client.Connections.{Network, Session}
use substrate_rpc_proxy.Rpc.Client.Calls.{chain_get_header}
use substrate_rpc_proxy.Substrate.Extension.{Scale, Served, serve}
use substrate_rpc_proxy.Substrate.Extension as Extension
use substrate_rpc_proxy.Substrate.Inspector.{
  Inspector, Handled, passed_on, needs_inspection, message_of, log_to_db,
}
use substrate_rpc_proxy.Substrate.Inspector as Inspector
use substrate_rpc_proxy.Substrate.Inspector.Stored.{header_for, log_to_db-stored}

pub deny-ne-forward : {f : RpcFrame} → deny f ≡ forward → ⊥
deny-ne-forward e = cc

-- Who answers a request.
pub data Routed (P : Type 0) : Type 0 where
  denied : RpcFrame → Routed P
  crashed : Routed P
  extended : Served P → Routed P
  proxied : Routed P

-- The settings of the program; `extract` is GetExtrinsicDataFrom.
pub record Settings : Type 0 where
  pub fold : ℕ → ℕ
  pub deny_methods : List String
  pub inspect_extrinsics : Bool
  pub inspect_methods : List String
  pub extract : Value → Extracted

-- GetRPCMethod and GetRPCRequestID
unfoldable pub method_of : Option RpcFrame → String
method_of none = ""
method_of (some f) = f.method

unfoldable pub id_of : Option RpcFrame → ℕ
id_of none = 0
id_of (some f) = f.id

module _ {P : Type 0} (settings : Settings) (scale : Scale P) (net : Network)
    (find_submatch : String → Option (String × String)) (metadata : List RuntimeModule) where
  open net use {World}

  abbrev pub routed : Served P → Routed P
  routed Extension.passed_on = proxied
  routed s = extended s

  unfoldable pub extend : Option RpcFrame → Handled × Inspector World → Routed P × Inspector World
  unfolding serve
  extend frame (Inspector.panicked, i) = (crashed, i)
  extend frame (passed_on, i) =
      let (reply, session) = serve scale net find_submatch metadata frame i.session in
      (routed reply, record i { session = session })

  unfoldable pub inspect_and_extend :
      ℕ → Option RpcFrame → Inspector World → Routed P × Inspector World
  unfolding extend log_to_db
  inspect_and_extend now frame i =
      if settings.inspect_extrinsics
      then extend frame
          (log_to_db net settings.fold settings.inspect_methods settings.extract now frame i)
      else extend frame (passed_on, i)

  unfoldable pub route : ℕ → Option RpcFrame → Inspector World → Routed P × Inspector World
  unfolding inspect_and_extend deny_rpc_methods method_of id_of
  route now frame i =
      elim (deny_rpc_methods settings.fold settings.deny_methods (method_of frame) (id_of frame)) [
        | deny f ↦ (denied f, i)
        | forward ↦ inspect_and_extend now frame i
      ]

  -- The condition under which a frame is denied.
  abbrev pub IsDenied : RpcFrame → Type 0
  IsDenied f = (f.method ≢ "") × IsListed settings.fold f.method settings.deny_methods × (f.id ≢ 0)

  serve_other :
      (f : RpcFrame) (s : Session World)
      → f.rpc ≢ "extensions/get-storage/1.0"
      → serve scale net find_submatch metadata (some f) s ≡ (Extension.passed_on, s)
  unfolding serve
  serve_other f s other = elim (Bool-cases (str_eq f.rpc "extensions/get-storage/1.0")) [
    | inl t ↦ absurd (other ((eq_iff f.rpc "extensions/get-storage/1.0").0 t))
    | inr n ↦ rw (serve, n)
  ]

  pub extend-passed :
      (f : RpcFrame) (x : Handled × Inspector World)
      → x.0 ≡ passed_on
      → f.rpc ≢ "extensions/get-storage/1.0"
      → extend (some f) x ≡ (proxied, x.1)
  unfolding extend
  extend-passed f (passed_on, i) e other = rw (serve_other f i.session other)
  extend-passed f (Inspector.panicked, i) e other = cc

  -- With the inspector on, a request whose method is inspected and whose parameters hold an extrinsic,
  -- and that is none for the storage extension, is either one to deny, and is answered with the error
  -- while nothing is stored, counted or asked of the node, or it goes on to the proxy, and is stored on
  -- top of the messages of before and counted.
  pub route-submission :
      (now : ℕ) (f : RpcFrame) (extr : ExtrinsicData) (i : Inspector World)
      → settings.inspect_extrinsics ≡ true
      → needs_inspection settings.fold settings.inspect_methods f.method ≡ true
      → settings.extract f.params ≡ extracted extr
      → f.rpc ≢ "extensions/get-storage/1.0"
      → let after = route now (some f) i in
        (IsDenied f × (after ≡ (denied (denied_frame f.id), i)))
        ⊎ ((IsDenied f → ⊥)
            × (after.0 ≡ proxied)
            × (after.1.stored
                ≡ message_of net f extr
                    (header_for net now i (chain_get_header net none "" i.session).0)
                  ∷ i.stored)
            × (after.1.counted ≡ i.counted + 1))
  unfolding route inspect_and_extend extend
  route-submission now f extr i on wanted found other =
      let (listed, outcome) =
        deny_rpc_methods_iff settings.fold settings.deny_methods f.method f.id in
      elim outcome [
        | inl d ↦ inl (listed.0 d, rw (route, d))
        | inr d ↦
            let x =
              log_to_db net settings.fold settings.inspect_methods settings.extract now (some f)
                i in
            let (passed, stored, counted) =
              log_to_db-stored net settings.fold settings.inspect_methods settings.extract now f
                extr i wanted found in
            let whole : route now (some f) i ≡ (proxied, x.1) =
              rw (route, d, inspect_and_extend, on) (extend-passed f x passed other) in
            inr (
              λ h. deny-ne-forward (sym (listed.1 h) ∙ d),
              ap (λ y. y.0) whole,
              ap (λ y. y.1.stored) whole ∙ stored,
              ap (λ y. y.1.counted) whole ∙ counted,
            )
      ]
