-- ===== src/Rpc/Broker/Subscriptions.antt =====
-- Subscribe: a subscription, and what its goroutine hands to the reader.
pub mod Tables
pub mod Pushes
pub mod Reader
use substrate_rpc_proxy.Dto.{RpcFrame}
use substrate_rpc_proxy.Prelude.{ℕ, String, Bool, true, List, [], ◌∷◌, Option, none, some}
use substrate_rpc_proxy.Rpc.Broker.{Message, frame, failure, Incoming, WsMessageBroker, submit}

-- The two channels that Subscribe returns: the first is nil where the request is not sent.
pub data Subscribed : Type 0 where
  refused : String → Subscribed
  subscribed : ℕ → Subscribed

module _ (init_key : ℕ → String) where
  unfoldable pub after_submit :
      Option String → (Option ℕ × RpcFrame) × WsMessageBroker → Subscribed × WsMessageBroker
  after_submit error ((some c, f), b) = (subscribed c, b)
  after_submit (some e) ((none, f), b) = (refused e, b)
  after_submit none ((none, f), b) = (refused "", b)

  -- `error` is that of the write, and `during` what the read loop handles until the channel is stored.
  unfoldable pub subscribe :
      ℕ → Option String → List Incoming → RpcFrame → WsMessageBroker → Subscribed × WsMessageBroker
  unfolding after_submit submit
  subscribe random error during req b =
      after_submit error (submit init_key true random error during req b)

-- What the reader has: the frames, the error, and whether the channels are closed.
pub record Delivered : Type 0 where
  pub frames : List RpcFrame
  pub error : Option String
  pub closed : Bool

abbrev pub with_frame : RpcFrame → Delivered → Delivered
with_frame f d = record d { frames = f ∷ d.frames }

-- The goroutine, for what was sent on the channel; an error is the last that it passes on.
unfoldable pub deliver : Bool → List Message → Delivered
deliver closed [] = record { frames = []; error = none; closed = closed }
deliver closed (frame f ∷ ms) = with_frame f (deliver closed ms)
deliver closed (failure e ∷ ms) = record { frames = []; error = some e; closed = true }
