-- ===== src/Rpc/Broker/Subscriptions/Pushes.antt =====
-- What reaches the reader of one subscription while the broker serves others.
use mathlib.Core.Bool.{true≢false}
use mathlib.Core.List.{append-nil}
use mathlib.Core.Path.{subst}
use substrate_rpc_proxy.Dto.{RpcFrame, string_result}
use substrate_rpc_proxy.Dto.Mapped.{must_map, must_string}
use substrate_rpc_proxy.Prelude.{
  ℕ, ◌≡◌, ◌≢◌, refl, sym, ap, ◌∙◌, inl, inr, ◌⊎◌, String, Bool, true, List, [], ◌∷◌, ◌++◌, map,
  none, some, some_inj, Bool-cases, Option-cases, if◌then◌else◌, ◌&&◌, ◌==◌, In, str_eq, eq_iff,
  str_eq_self, arith,
}
use substrate_rpc_proxy.Rpc.Broker.{
  frame, Incoming, incoming, unparsed, read_error, cancelled, WsMessageBroker, load, delete, store,
  dispatch_push, dispatch_request, dispatch_response, dispatch, turn,
}
use substrate_rpc_proxy.Rpc.Broker.Delivery.{put-same, put-other, ==_ne_zero}
use substrate_rpc_proxy.Rpc.Broker.Subscriptions.Tables.{
  load-delete_other, load-delete, load-store_same, load-store_other,
}

abbrev pub same_id : ℕ → ℕ → Bool
same_id j k = j == k

same_id_sound : (j k : ℕ) → same_id j k ≡ true → j ≡ k
same_id_sound j k t = ground (arith, t)

same_id_itself : (k : ℕ) → same_id k k ≡ true
same_id_itself k = ground arith

pub str_eq_sound : (s t : String) → str_eq s t ≡ true → s ≡ t
str_eq_sound s t = (eq_iff s t).0

-- The subscription that a push names.
abbrev pub subscription_of : RpcFrame → String
subscription_of f = must_string "subscription" (must_map f.params)

-- The pushes of one subscription among those of all.
unfoldable pub pushes : String → List Incoming → List RpcFrame
pushes subscription [] = []
pushes subscription (incoming f ∷ is) =
    let rest = pushes subscription is in
    if f.id == 0 && str_eq (subscription_of f) subscription then f ∷ rest else rest
pushes subscription (i ∷ is) = pushes subscription is

module _ (init_key : ℕ → String) (subscription : String) (others : List String) where
  -- What the socket brings while no other subscription is confirmed under this one's identifier:
  -- pushes of it and of the other subscriptions, responses to requests and to other subscriptions,
  -- and texts that do not parse.
  abbrev pub IsTraffic : Incoming → Type 0
  IsTraffic (incoming f) =
      ((f.id ≡ 0) × ((subscription_of f ≡ subscription) ⊎ In (subscription_of f) others))
      ⊎ ((f.id ≢ 0) × (string_result f ≢ subscription))
  IsTraffic unparsed = Unit
  IsTraffic _ = ⊥

  abbrev pub AreTraffic : List Incoming → Type 0
  AreTraffic [] = Unit
  AreTraffic (i ∷ is) = IsTraffic i × AreTraffic is

  -- The other subscriptions have channels.
  abbrev pub IsKnown : WsMessageBroker → Type 0
  IsKnown b = (s : String) → In s others → (d : ℕ) × (load str_eq s b.subscriptions ≡ some d)

  -- The channel is that of the subscription and of nothing else, and holds these frames.
  abbrev pub Holds : ℕ → List RpcFrame → WsMessageBroker → Type 0
  Holds c fs b =
      (load str_eq subscription b.subscriptions ≡ some c)
      × ((k : String) → k ≢ subscription → load str_eq k b.subscriptions ≢ some c)
      × ((k : ℕ) → load same_id k b.requests ≢ some c)
      × (b.inbox c ≡ map frame fs)
      × (b.err ≡ none)
      × IsKnown b

  map-snoc :
      (fs : List RpcFrame) (f : RpcFrame) → map frame fs ++ frame f ∷ [] ≡ map frame (fs ++ f ∷ [])
  map-snoc [] f = refl
  map-snoc (g ∷ fs) f = ap (λ r. frame g ∷ r) (map-snoc fs f)

  push-Holds :
      (f : RpcFrame) (c : ℕ) (fs : List RpcFrame) (b : WsMessageBroker)
      → f.id ≡ 0
      → subscription_of f ≡ subscription
      → Holds c fs b
      → Holds c (fs ++ f ∷ []) (turn init_key (incoming f) b)
  unfolding turn dispatch dispatch_push
  push-Holds f c fs b zero_id own (here, alone, apart, sent, working, known) =
      let push : (f.id == 0) ≡ true = ground (arith, zero_id) in
      let found : load str_eq (subscription_of f) b.subscriptions ≡ some c =
        ap (λ s. load str_eq s b.subscriptions) own ∙ here in
      rw (turn, dispatch, push, dispatch_push, found)
        (
          here,
          alone,
          apart,
          put-same b.inbox c (b.inbox c ++ frame f ∷ [])
              ∙ ap (λ r. r ++ frame f ∷ []) sent
              ∙ map-snoc fs f,
          working,
          known,
        )

  -- A push of another subscription goes to another channel, or to none.
  foreign-Holds :
      (f : RpcFrame) (c : ℕ) (fs : List RpcFrame) (b : WsMessageBroker)
      → f.id ≡ 0
      → subscription_of f ≢ subscription
      → In (subscription_of f) others
      → Holds c fs b
      → Holds c fs (turn init_key (incoming f) b)
  unfolding turn dispatch dispatch_push
  foreign-Holds f c fs b zero_id foreign listed (here, alone, apart, sent, working, known) =
      let push : (f.id == 0) ≡ true = ground (arith, zero_id) in
      let (d, found) = known (subscription_of f) listed in
      let other : c ≢ d = λ e. alone (subscription_of f) foreign (found ∙ ap some (sym e)) in
      rw (turn, dispatch, push, dispatch_push, found)
        (
          here,
          alone,
          apart,
          put-other b.inbox d c (b.inbox d ++ frame f ∷ []) other ∙ sent,
          working,
          known,
        )

  -- A subscription that is known stays known when another one is confirmed.
  pub confirmed-IsKnown :
      (key confirmed s : String) (d e : ℕ) (t : List (String × ℕ))
      → s ≢ key
      → load str_eq s t ≡ some e
      → (d' : ℕ) × (load str_eq s (store str_eq confirmed d (delete str_eq key t)) ≡ some d')
  confirmed-IsKnown key confirmed s d e t apart found = elim (Bool-cases (str_eq confirmed s)) [
    | inl same ↦ (
      d,
      ap (λ k. load str_eq k (store str_eq confirmed d (delete str_eq key t)))
            (sym (str_eq_sound confirmed s same))
          ∙ load-store_same str_eq str_eq_sound str_eq_self confirmed d (delete str_eq key t),
    )
    | inr differs ↦ (
      e,
      load-store_other str_eq str_eq_sound str_eq_self confirmed s d (delete str_eq key t)
            (λ h. true≢false (sym (str_eq_self s) ∙ ap (λ k. str_eq k s) h ∙ differs))
          ∙ load-delete_other str_eq str_eq_sound str_eq_self key s t apart
          ∙ found,
    )
  ]

  module _ (keys : (n : ℕ) → init_key n ≢ subscription)
      (other_keys : (n : ℕ) (s : String) → In s others → init_key n ≢ s) where
    request-Holds :
        (f : RpcFrame) (c : ℕ) (fs : List RpcFrame) (b : WsMessageBroker)
        → Holds c fs b
        → Holds c fs (dispatch_request init_key f b)
    unfolding dispatch_request
    request-Holds f c fs b (here, alone, apart, sent, working, known) =
        elim (Option-cases (load same_id f.id b.requests)) [
          | inl unknown ↦ rw (dispatch_request, unknown) (here, alone, apart, sent, working, known)
          | inr (d, found) ↦
              let other : c ≢ d = λ e. apart f.id (found ∙ ap some (sym e)) in
              rw (dispatch_request, found)
                (
                  here,
                  alone,
                  λ k e.
                      apart k (
                        (load-delete same_id same_id_sound same_id_itself f.id k b.requests c e).1),
                  put-other b.inbox d c (b.inbox d ++ frame f ∷ []) other ∙ sent,
                  working,
                  known,
                )
        ]

    response-Holds :
        (f : RpcFrame) (c : ℕ) (fs : List RpcFrame) (b : WsMessageBroker)
        → string_result f ≢ subscription
        → Holds c fs b
        → Holds c fs (dispatch_response init_key f b)
    unfolding dispatch_response
    response-Holds f c fs b foreign (here, alone, apart, sent, working, known) =
        elim (Option-cases (load str_eq (init_key f.id) b.subscriptions)) [
          | inl unknown ↦
              rw (dispatch_response, unknown)
                (request-Holds f c fs b (here, alone, apart, sent, working, known))
          | inr (d, found) ↦
              let rest = delete str_eq (init_key f.id) b.subscriptions in
              let other : d ≢ c = λ e. alone (init_key f.id) (keys f.id) (found ∙ ap some e) in
              rw (dispatch_response, found)
                (
                  load-store_other str_eq str_eq_sound str_eq_self (string_result f) subscription d
                        rest (λ e. foreign (sym e))
                      ∙ load-delete_other str_eq str_eq_sound str_eq_self (init_key f.id)
                          subscription b.subscriptions (λ e. keys f.id (sym e))
                      ∙ here,
                  λ k n e.
                      stays k n d rest other
                        (λ h. alone k n (
                          (load-delete str_eq str_eq_sound str_eq_self (init_key f.id) k
                            b.subscriptions c h).1))
                        e,
                  apart,
                  sent,
                  working,
                  λ s listed.
                      let (e, was) = known s listed in
                      confirmed-IsKnown (init_key f.id) (string_result f) s d e b.subscriptions
                        (λ h. other_keys f.id s listed (sym h)) was,
                )
        ]
      where
        stays :
            (k : String)
            → k ≢ subscription
            → (d : ℕ) (rest : List (String × ℕ)) → d ≢ c
            → (load str_eq k rest ≡ some c → ⊥)
            → load str_eq k (store str_eq (string_result f) d rest) ≡ some c
            → ⊥
        stays k n d rest other gone e = elim (Bool-cases (str_eq (string_result f) k)) [
          | inl t ↦ other (
              some_inj (
                sym (
                  ap (λ s. load str_eq s (store str_eq (string_result f) d rest))
                    (sym (str_eq_sound (string_result f) k t))
                  ∙ load-store_same str_eq str_eq_sound str_eq_self (string_result f) d rest)
                ∙ e))
          | inr differs ↦ gone (
              sym (
                load-store_other str_eq str_eq_sound str_eq_self (string_result f) k d rest
                  (λ h. true≢false (sym (str_eq_self k) ∙ ap (λ s. str_eq s k) h ∙ differs)))
              ∙ e)
        ]

    pub traffic-Holds :
        (i : Incoming) (c : ℕ) (fs : List RpcFrame) (b : WsMessageBroker)
        → IsTraffic i
        → Holds c fs b
        → Holds c (fs ++ pushes subscription (i ∷ [])) (turn init_key i b)
    unfolding turn dispatch pushes
    traffic-Holds unparsed c fs b t h = rw (append-nil fs) h
    traffic-Holds (read_error e) c fs b t h = absurd t
    traffic-Holds (cancelled e) c fs b t h = absurd t
    traffic-Holds (incoming f) c fs b (inl (zero_id, whose)) h =
        let push : (f.id == 0) ≡ true = ground (arith, zero_id) in
        elim (Bool-cases (str_eq (subscription_of f) subscription)) [
          | inl own ↦
              let one : pushes subscription (incoming f ∷ []) ≡ f ∷ [] = rw (pushes, push, own) in
              subst (λ gs. Holds c (fs ++ gs) (turn init_key (incoming f) b)) (sym one)
                (push-Holds f c fs b zero_id (str_eq_sound (subscription_of f) subscription own) h)
          | inr other ↦
              let none_of : pushes subscription (incoming f ∷ []) ≡ [] = rw (pushes, push, other) in
              let foreign : subscription_of f ≢ subscription =
                λ e. true≢false (sym ((eq_iff (subscription_of f) subscription).1 e) ∙ other) in
              subst (λ gs. Holds c gs (turn init_key (incoming f) b))
                (sym (append-nil fs) ∙ ap (λ gs. fs ++ gs) (sym none_of))
                (foreign-Holds f c fs b zero_id foreign
                  (elim whose [ inl e ↦ absurd (foreign e) | inr listed ↦ listed ]) h)
        ]
    traffic-Holds (incoming f) c fs b (inr (real, foreign)) h =
        rw (pushes, ==_ne_zero f.id real, append-nil fs, turn, dispatch)
          (response-Holds f c fs b foreign h)
