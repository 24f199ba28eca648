-- ===== src/Middleware/Deny.antt =====
-- pkg/middleware/denymethods.go: methods that are not forwarded. strings.EqualFold compares texts up
-- to Unicode case folding: `fold` gives the representative of a code point's class, the library's
-- table.
use substrate_rpc_proxy.Dto.{RpcFrame}
use substrate_rpc_proxy.Dto.Mapped.{null, codes}
use substrate_rpc_proxy.Prelude.{
  ℕ, negsuc, ◌≡◌, ◌≢◌, ◌⊎◌, ◌↔◌, inr, refl, String, Bool, true, false, not, ◌&&◌, List, [], ◌∷◌,
  map, some, ◌==◌, str_eq, eq_iff, if◌then◌else◌, arith,
}

abbrev pub codes_eq : List ℕ → List ℕ → Bool
codes_eq [] [] = true
codes_eq (a ∷ as') (b ∷ bs) = a == b && codes_eq as' bs
codes_eq _ _ = false

unfoldable pub equal_fold : (ℕ → ℕ) → String → String → Bool
equal_fold fold s t = codes_eq (map fold (codes s)) (map fold (codes t))

-- dto.RPCFrame{RPC: "2.0", Id: id, Error: …}
abbrev pub denied_frame : ℕ → RpcFrame
denied_frame id = record {
  id = id;
  rpc = "2.0";
  method = "";
  raw = "";
  params = null;
  result = null;
  error =
      some (record { code = negsuc 32600; message = "RPC call is unsafe to be called externally" });
}

-- What becomes of a request: it is answered here, or passed to the next handler.
pub data Verdict : Type 0 where
  deny : RpcFrame → Verdict
  forward : Verdict

module _ (fold : ℕ → ℕ) where
  -- The loop over the denied methods: a match with id 0 goes on.
  unfoldable pub deny_loop : String → ℕ → List String → Verdict
  deny_loop method id [] = forward
  deny_loop method id (m ∷ ms) =
      let rest = deny_loop method id ms in
      if equal_fold fold m method
      then (if not (id == 0) then deny (denied_frame id) else rest)
      else rest

  -- The method and the id are those of the request's context, "" and 0 where it has none.
  unfoldable pub deny_rpc_methods : List String → String → ℕ → Verdict
  unfolding deny_loop
  deny_rpc_methods methods method id =
      if not (str_eq method "") then deny_loop method id methods else forward

  -- The method is one of the denied ones, in any case.
  abbrev pub IsListed : String → List String → Type 0
  IsListed method [] = ⊥
  IsListed method (m ∷ ms) = (equal_fold fold m method ≡ true) ⊎ IsListed method ms

  deny_loop_iff :
      (method : String) (id : ℕ) (ms : List String)
      → (deny_loop method id ms ≡ deny (denied_frame id)) ↔ (IsListed method ms × (id ≢ 0))
  unfolding deny_loop
  deny_loop_iff method id [] = ground arith
  deny_loop_iff method id (m ∷ ms) = ground (arith, deny_loop_iff method id ms)

  deny_loop_outcome :
      (method : String) (id : ℕ) (ms : List String)
      → (deny_loop method id ms ≡ deny (denied_frame id)) ⊎ (deny_loop method id ms ≡ forward)
  unfolding deny_loop
  deny_loop_outcome method id [] = inr refl
  deny_loop_outcome method id (m ∷ ms) = ground (arith, deny_loop_outcome method id ms)

  -- A request is answered with the error for unsafe calls, under its own id, exactly if it has a
  -- method that is listed in any case, and an id other than 0; every other request is forwarded.
  pub deny_rpc_methods_iff :
      (methods : List String) (method : String) (id : ℕ)
      → ((deny_rpc_methods methods method id ≡ deny (denied_frame id))
          ↔ ((method ≢ "") × IsListed method methods × (id ≢ 0)))
        × ((deny_rpc_methods methods method id ≡ deny (denied_frame id))
            ⊎ (deny_rpc_methods methods method id ≡ forward))
  unfolding deny_rpc_methods
  deny_rpc_methods_iff methods method id = ground (
    arith,
    eq_iff method "",
    deny_loop_iff method id methods,
    deny_loop_outcome method id methods,
  )
