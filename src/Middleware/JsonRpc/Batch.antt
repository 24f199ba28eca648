-- ===== src/Middleware/JsonRpc/Batch.antt =====
-- Which answer a batch gets.
use substrate_rpc_proxy.Dto.{RpcFrame}
use substrate_rpc_proxy.Prelude.{
  ◌↔◌, ◌≤◌, ◌≡◌, ◌≢◌, refl, String, List, [], ◌∷◌, map, some, ltb, length, arith, false,
}
use substrate_rpc_proxy.Middleware.JsonRpc.{
  Codec, responded, panicked, max_batch, collect, respond, write_batch_response, serve_batch,
}

module _ (codec : Codec) (next : RpcFrame → String) where
  open codec use {decode_frame, encode_batch}

  -- `answers fs rs`: each frame of the batch has its answer at its place.
  abbrev pub Answers : List RpcFrame → List RpcFrame → Type 0
  Answers [] [] = Unit
  Answers (f ∷ fs) (r ∷ rs) = (decode_frame (next f) ≡ some r) × Answers fs rs
  Answers _ _ = ⊥

  collect-Answers : (fs rs : List RpcFrame) → Answers fs rs → collect codec (map next fs) ≡ some rs
  unfolding collect
  collect-Answers [] [] h = refl
  collect-Answers [] (r ∷ rs) h = absurd h
  collect-Answers (f ∷ fs) [] h = absurd h
  collect-Answers (f ∷ fs) (r ∷ rs) (e, h) = rw (e, collect) (rw (collect-Answers fs rs h))

  -- A batch of 1 to 50 frames whose answers are all frames is answered by exactly these, in the order
  -- of the batch.
  pub serve_batch-Answers :
      (fs rs : List RpcFrame)
      → fs ≢ []
      → length fs ≤ max_batch
      → Answers fs rs
      → serve_batch codec next fs ≡ responded (encode_batch rs)
  unfolding serve_batch respond
  serve_batch-Answers [] rs filled small h = absurd (filled refl)
  serve_batch-Answers (f ∷ fs) rs filled small h =
      let short : ltb max_batch (length (f ∷ fs)) ≡ false = ground arith in
      rw (short, collect-Answers (f ∷ fs) rs h)

  -- A batch makes the handler panic exactly if it is empty.
  pub serve_batch-panicked_iff :
      (fs : List RpcFrame) → (serve_batch codec next fs ≡ panicked) ↔ (fs ≡ [])
  unfolding serve_batch write_batch_response respond collect
  serve_batch-panicked_iff [] = (λ e. refl, λ e. refl)
  serve_batch-panicked_iff (f ∷ fs) = ground arith
