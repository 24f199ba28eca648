-- ===== src/Proxy/Session.antt =====
-- A client's websocket: each of its messages takes the path of Proxy/Entry.antt, and the answers are
-- written back. `read` of the socket gives the messages in turn, and then the error of its end; a
-- connection that is cancelled, or closed by an error page, and a panic end the loop of
-- AcceptConnection. What the handlers and the node do may differ from one message to the next.
use substrate_rpc_proxy.Dto.{RpcFrame}
use substrate_rpc_proxy.Middleware.JsonRpc.{Codec, Outcome, responded, cancelled, panicked}
use substrate_rpc_proxy.Middleware.Websocket.{ClientContext, read_loop}
use substrate_rpc_proxy.Prelude.{
  ℕ, zero, suc, ◌≡◌, refl, ap, ◌∙◌, sym, ◌≤◌, arith, String, Bool, true, false, List, [], ◌∷◌, ◌++◌,
  Option, none, some, length, if◌then◌else◌,
}
use substrate_rpc_proxy.Proxy.Entry.{Turn, entry}
use substrate_rpc_proxy.Middleware.Logger.{Logged}
use substrate_rpc_proxy.Substrate.Extension.{Served}
use mathlib.Core.List.{append-nil, append_assoc}

-- What the client has yet to send, how many messages were read, and what it got.
pub record Client : Type 0 where
  pub number : ℕ
  pub unsent : List String
  pub answers : List String

unfoldable pub read_message : Client → Option String × Client
read_message c = elim c.unsent [ [] ↦ (none, c) | m ∷ ms ↦ (some m, record c { unsent = ms }) ]

-- Whether the connection is cancelled, after an answer was written or not.
unfoldable pub after_outcome : Outcome → Client → Bool × Client
after_outcome (responded s) c =
    (false, record c { number = suc (c.number); answers = c.answers ++ s ∷ [] })
after_outcome cancelled c = (true, c)
after_outcome panicked c = (true, c)

module _ (answer : ℕ → String → Outcome) where
  unfoldable pub serve_message : ClientContext → String → Client → Bool × Client
  unfolding after_outcome
  serve_message ctx message c = after_outcome (answer c.number message) c

  unfoldable pub session : ClientContext → ℕ → List String → Option Client
  unfolding read_loop read_message serve_message
  session ctx fuel messages =
      read_loop read_message serve_message ctx fuel
        (record { number = 0; unsent = messages; answers = [] })

  -- The answers of the messages from a number on, up to the first one that has none.
  unfoldable pub answers_of : ℕ → List String → List String
  answers_of n [] = []
  answers_of n (m ∷ ms) = elim (answer n m) [
    | responded s ↦ s ∷ answers_of (suc n) ms
    | cancelled ↦ []
    | panicked ↦ []
  ]

  -- The answers of a list of messages, for an outcome of the first.
  abbrev answers_from : Outcome → List String → List String
  answers_from (responded s) rest = s ∷ rest
  answers_from _ rest = []

  answers_of-cons :
      (n : ℕ) (m : String) (ms : List String) (o : Outcome)
      → answer n m ≡ o
      → answers_of n (m ∷ ms) ≡ answers_from o (answers_of (suc n) ms)
  unfolding answers_of
  answers_of-cons n m ms o e =
      ap (λ x. elim x [ responded s ↦ s ∷ answers_of (suc n) ms | cancelled ↦ [] | panicked ↦ [] ])
        e
      ∙ same o
    where
      same :
          (x : Outcome)
          → (elim x as (λ y. List String) [
            | responded s ↦ s ∷ answers_of (suc n) ms
            | cancelled ↦ []
            | panicked ↦ []
          ])
            ≡ answers_from x (answers_of (suc n) ms)
      same (responded s) = refl
      same cancelled = refl
      same panicked = refl

  -- Where the loop ends, for a client that has got some answers already.
  abbrev Ends : ℕ → List String → List String → Option Client → Type 0
  Ends n got ms end = (c : Client) × (end ≡ some c) × (c.answers ≡ got ++ answers_of n ms)

  abbrev client_with : ℕ → List String → List String → Client
  client_with n ms got = record { number = n; unsent = ms; answers = got }

  -- The loop behind the next handler.
  abbrev continue : ClientContext → ℕ → Bool × Client → Option Client
  continue ctx fuel x = if x.0 then some x.1 else read_loop read_message serve_message ctx fuel x.1

  read_loop-message :
      (ctx : ClientContext) (fuel n : ℕ) (m : String) (ms got : List String) (o : Outcome)
      → answer n m ≡ o
      → read_loop read_message serve_message ctx (suc fuel) (client_with n (m ∷ ms) got)
        ≡ continue ctx fuel (after_outcome o (client_with n ms got))
  unfolding read_loop read_message serve_message
  read_loop-message ctx fuel n m ms got o e =
      ap (λ x. continue ctx fuel (after_outcome x (client_with n ms got))) e

  read_loop-Ends :
      (ctx : ClientContext) (fuel n : ℕ) (ms got : List String)
      → length ms ≤ fuel
      → Ends n got ms (read_loop read_message serve_message ctx (suc fuel) (client_with n ms got))
  unfolding read_loop read_message answers_of after_outcome
  read_loop-Ends ctx fuel n [] got h = (client_with n [] got, refl, sym (append-nil got))
  read_loop-Ends ctx zero n (m ∷ ms) got h = absurd (omega (arith, h))
  read_loop-Ends ctx (suc fuel) n (m ∷ ms) got h =
      by (answer n m) refl (λ g. read_loop-Ends ctx fuel (suc n) ms g (omega (arith, h)))
    where
      by :
          (o : Outcome)
          → answer n m ≡ o
          → ((g : List String)
              → Ends
                  (suc n)
                  g
                  ms
                  (read_loop read_message serve_message ctx (suc fuel) (client_with (suc n) ms g)))
          → Ends n got (m ∷ ms) (
              read_loop read_message serve_message ctx
                (suc (suc fuel))
                (client_with n (m ∷ ms) got))
      by (responded s) e rest =
          let (c, ended, got_all) = rest (got ++ s ∷ []) in
          (
            c,
            read_loop-message ctx (suc fuel) n m ms got (responded s) e ∙ ended,
            got_all
                ∙ append_assoc got (s ∷ []) (answers_of (suc n) ms)
                ∙ ap (λ r. got ++ r) (sym (answers_of-cons n m ms (responded s) e)),
          )
      by cancelled e rest = (
        client_with n ms got,
        read_loop-message ctx (suc fuel) n m ms got cancelled e,
        sym (ap (λ r. got ++ r) (answers_of-cons n m ms cancelled e) ∙ append-nil got),
      )
      by panicked e rest = (
        client_with n ms got,
        read_loop-message ctx (suc fuel) n m ms got panicked e,
        sym (ap (λ r. got ++ r) (answers_of-cons n m ms panicked e) ∙ append-nil got),
      )

module _ {P : Type 0} (codec : Codec) (write : Served P → String)
    (exchange : ℕ → String → Option String) (turn : ℕ → Option RpcFrame → Turn P)
    (logged : ℕ → Option RpcFrame → Logged × Logged) where
  -- The outcome of a message by its number.
  abbrev pub outcome : ℕ → String → Outcome
  outcome n message =
      entry codec write (record { websocket = true; refusal = ""; exchange = exchange n }) (turn n)
        (logged n) message

  -- The loop of a client's websocket ends, for any fuel above the number of its messages, and the
  -- client has got the answers of its messages, one for each in their order, up to the first message
  -- for which the connection is cancelled or closed or a handler panics; that one and those
  -- behind it have none.
  pub session-answered :
      (ctx : ClientContext) (fuel : ℕ) (messages : List String)
      → length messages ≤ fuel
      → (c : Client) × (session outcome ctx (suc fuel) messages ≡ some c)
        × (c.answers ≡ answers_of outcome 0 messages)
  unfolding session
  session-answered ctx fuel messages h = read_loop-Ends outcome ctx fuel 0 messages [] h
