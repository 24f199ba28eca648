-- ===== src/Substrate/Inspector.antt =====
-- ExtrinsicsInspector of pkg/middleware-substrate/extrinsics.go: submitted extrinsics are stored with
-- the number of the latest header, which is read anew after five seconds. The clock, the stored
-- messages and the decoder are parameters; the goroutine of a request runs to its end before the
-- next one. A panic of the decoder is that of the handler.
pub mod Stored
use substrate_rpc_proxy.Decoder.Extrinsic.{Extracted, extracted}
use substrate_rpc_proxy.Decoder.Extrinsic as Extrinsic
use substrate_rpc_proxy.Dto.{RpcFrame, ExtrinsicData, StoredMessage}
use substrate_rpc_proxy.Dto.Mapped.{Value, Fields, empty, must_int}
use substrate_rpc_proxy.Middleware.Deny.{equal_fold}
use substrate_rpc_proxy.Prelude.{
  ℕ, ◌+◌, String, Bool, true, false, ◌||◌, List, [], ◌∷◌, Option, none, some, ltb, if◌then◌else◌,
}
use substrate_rpc_proxy.Rpc.Client.Connections.{Result, ok, err, Network, Session}
use substrate_rpc_proxy.Rpc.Client.Calls.{chain_get_header}

-- The fields that change, with the client's session; times are in seconds. `stored` is what XADD was
-- called with, the last message first, and `counted` the events MetricExtrinsicsCount.
pub record Inspector (W : Type 0) : Type 0 where
  pub header_next_update : ℕ
  pub header_current : Fields
  pub session : Session W
  pub stored : List StoredMessage
  pub counted : ℕ

-- A new one: the zero time, and the nil map.
abbrev pub new_inspector : {W : Type 0} → Session W → Inspector W
new_inspector s = record {
  header_next_update = 0;
  header_current = empty;
  session = s;
  stored = [];
  counted = 0;
}

-- strings.EqualFold with one of the methods to inspect; `fold` as in Middleware/Deny.antt.
unfoldable pub needs_inspection : (ℕ → ℕ) → List String → String → Bool
unfolding equal_fold
needs_inspection fold [] method = false
needs_inspection fold (m ∷ ms) method = equal_fold fold m method || needs_inspection fold ms method

-- Whether the handler goes on to the next one.
pub data Handled : Type 0 where
  passed_on : Handled
  panicked : Handled

module _ (net : Network) where
  open net use {World}

  -- A header that cannot be read leaves the old one, and no wait before the next try.
  unfoldable pub after_header :
      ℕ → Inspector World → Result Fields × Session World → Inspector World
  after_header now i (ok header, s) = record i {
    header_next_update = now + 5;
    header_current = header;
    session = s;
  }
  after_header now i (err e, s) = record i { session = s }

  -- time.Until(i.headerNextUpdate) < 0
  unfoldable pub update_header : ℕ → Inspector World → Inspector World
  unfolding after_header chain_get_header
  update_header now i =
      let updated = after_header now i (chain_get_header net none "" i.session) in
      if ltb i.header_next_update now then updated else i

  abbrev pub message_of : RpcFrame → ExtrinsicData → Fields → StoredMessage
  message_of frame extr header = record {
    rpc_frame = frame;
    extrinsic = record extr { first_seen_block_no = must_int "number" header };
    contains_extrinsic = false;
  }

  -- The goroutine.
  unfoldable pub store_extrinsic : ℕ → RpcFrame → ExtrinsicData → Inspector World → Inspector World
  unfolding update_header must_int
  store_extrinsic now frame extr i =
      let updated = update_header now i in
      record updated { stored = message_of frame extr updated.header_current ∷ updated.stored }

  unfoldable pub inspect : ℕ → RpcFrame → Extracted → Inspector World → Handled × Inspector World
  unfolding store_extrinsic
  inspect now frame Extrinsic.nothing i = (passed_on, i)
  inspect now frame (extracted extr) i =
      (passed_on, store_extrinsic now frame extr (record i { counted = i.counted + 1 }))
  inspect now frame Extrinsic.panicked i = (panicked, i)

  -- LogToDB, for a request with its frame in the context or without one.
  unfoldable pub log_to_db :
      (ℕ → ℕ)
      → List String
      → (Value → Extracted)
      → ℕ
      → Option RpcFrame
      → Inspector World
      → Handled × Inspector World
  unfolding needs_inspection inspect
  log_to_db fold methods decode now none i = (passed_on, i)
  log_to_db fold methods decode now (some frame) i =
      let inspected = inspect now frame (decode frame.params) i in
      if needs_inspection fold methods frame.method then inspected else (passed_on, i)
