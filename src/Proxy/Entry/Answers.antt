-- ===== src/Proxy/Entry/Answers.antt =====
-- Which answers the frames of a payload get, and what passes without a look at its method.
use substrate_rpc_proxy.Decoder.Storage.{RuntimeModule}
use substrate_rpc_proxy.Dto.{RpcFrame}
use substrate_rpc_proxy.Middleware.Deny.{denied_frame}
use substrate_rpc_proxy.Middleware.JsonRpc.{
  Codec, batch, unparsed, Outcome, responded, cancelled, panicked, max_batch, parse_payload, serve,
  serve_batch,
}
use substrate_rpc_proxy.Middleware.JsonRpc.Batch.{Answers, serve_batch-Answers}
use substrate_rpc_proxy.Prelude.{
  ℕ, ◌≤◌, ◌≡◌, ◌≢◌, ◌⊎◌, inl, inr, refl, sym, ap, ◌∙◌, ◌&&◌, none-ne-some, String, Bool, true,
  false, List, [], ◌∷◌, Option, none, some, ltb, length, All, Bool-cases, Option-cases,
  if◌then◌else◌,
}
use substrate_rpc_proxy.Proxy.Pipeline.{denied, proxied, Settings, IsDenied}
use substrate_rpc_proxy.Proxy.Entry.{
  Turn, behind, Ends, is_crashed, is_panic, breaks, any_breaks, reply, is_lost, is_lost_alone,
  any_lost, loses, crashes, frame_body, entry, turn_of, Logging, logged_of,
}
use substrate_rpc_proxy.Middleware.Logger.{Logged, line, silent}
use substrate_rpc_proxy.Middleware.Logger as Logger
use substrate_rpc_proxy.Middleware.Logger.Chain.{
  apply_options, apply_options-IsOf, logger, log_batch_frame, new_frame_context,
}
use substrate_rpc_proxy.Middleware.Logger.Details.{log_request_details-panicked_iff}
use substrate_rpc_proxy.Rpc.Client.Connections.{Network}
use substrate_rpc_proxy.Substrate.Extension.{Scale, Served}
use substrate_rpc_proxy.Substrate.Inspector.{Inspector}
use substrate_rpc_proxy.Proxy.Entry.Turns.{IsPlain, route-none, route-plain}

is_panic-false :
    {P : Type 0} (turn : Option RpcFrame → Turn P) (logged : Option RpcFrame → Logged × Logged)
    (l : Logged)
    → l ≢ Logger.panicked
    → is_panic turn logged l ≡ false
is_panic-false turn logged (line fields) n = refl
is_panic-false turn logged silent n = refl
is_panic-false turn logged Logger.panicked n = absurd (n refl)

-- The program logs the parameters of requests and has methods to ignore.
abbrev pub IsBlind : Logging → Type 0
IsBlind l =
    let r = apply_options l.options l.request in
    (r.with_params ≡ some true)
    × ((m : String) × (ms : List String) × (r.ignore_methods ≡ some (m ∷ ms)))

-- The lines of a frame can be written.
logged_of-frame :
    (l : Logging) (f : RpcFrame)
    → ((logged_of l (some f)).0 ≢ Logger.panicked) × ((logged_of l (some f)).1 ≢ Logger.panicked)
unfolding logged_of log_batch_frame logger new_frame_context
logged_of-frame l f =
    let r = new_frame_context f l.start (l.fields f) l.request in
    let framed = (apply_options-IsOf l.show l.show_duration l.fold f l.options r (refl, refl)).0 in
    (
      λ p. none-ne-some (
          sym
            ((log_request_details-panicked_iff l.show l.show_duration l.fold true
                (apply_options l.options r) l.now).0
              p).1.no_frame
          ∙ framed),
      λ p. none-ne-some (
          sym
            ((log_request_details-panicked_iff l.show l.show_duration l.fold true r l.later).0
              p).1.no_frame),
    )

-- The line of a text that does not parse can be written, unless the program is blind for it.
logged_of-none : (l : Logging) → (IsBlind l → ⊥) → (logged_of l none).0 ≢ Logger.panicked
unfolding logged_of logger
logged_of-none l sees p =
    let (on, named, ignores) =
      (log_request_details-panicked_iff l.show l.show_duration l.fold true
          (apply_options l.options l.request) l.now).0
        p in
    sees (named.with_params, ignores)

module _ {P : Type 0} (codec : Codec) (write : Served P → String) (ends : Ends)
    (settings : Settings) (scale : Scale P) (net : Network)
    (find_submatch : String → Option (String × String)) (metadata : List RuntimeModule)
    (refuses : Option RpcFrame → Bool) (now : Option RpcFrame → ℕ)
    (inspector : Option RpcFrame → Inspector net.World) (log : Logging) where
  turn : Option RpcFrame → Turn P
  turn = turn_of settings scale net find_submatch metadata refuses now inspector

  logged : Option RpcFrame → Logged × Logged
  logged = logged_of log

  turn-none : refuses none ≡ false → turn none ≡ behind proxied
  unfolding turn turn_of
  turn-none room = rw (room) (
      ap (λ y. behind (y.0))
        (route-none settings scale net find_submatch metadata (now none) (inspector none)))

  line-none : (IsBlind log → ⊥) → is_panic turn logged (logged none).0 ≡ false
  unfolding logged
  line-none sees = is_panic-false turn logged _ (logged_of-none log sees)

  line-frame : (f : RpcFrame) → is_panic turn logged (logged (some f)).0 ≡ false
  unfolding logged
  line-frame f = is_panic-false turn logged _ ((logged_of-frame log f).0)

  line_again-frame : (f : RpcFrame) → is_panic turn logged (logged (some f)).1 ≡ false
  unfolding logged
  line_again-frame f = is_panic-false turn logged _ ((logged_of-frame log f).1)

  -- What comes of the proxy's exchange with the node.
  abbrev pub outcome_of : Option String → Outcome
  outcome_of none = cancelled
  outcome_of (some s) = responded s

  -- A text that is neither a batch nor a frame, which the throttle does not refuse and whose line can be
  -- written, since the program does not both log parameters and ignore methods: the proxy exchanges it with
  -- the node as it is, whatever the methods that are denied and that are inspected, and the client gets what
  -- this exchange gives, or its connection is cancelled where the exchange fails.
  pub entry-unparsed :
      (text : String)
      → parse_payload codec text ≡ unparsed
      → refuses none ≡ false
      → (IsBlind log → ⊥)
      → entry codec write ends
          (turn_of settings scale net find_submatch metadata refuses now inspector)
          (logged_of log)
          text
        ≡ outcome_of (ends.exchange text)
  unfolding entry crashes breaks serve reply turn logged
  entry-unparsed text e room sees =
      let quiet : is_crashed turn logged (turn none) ≡ false = rw (turn-none room) in
      let calm : breaks turn logged none ≡ false = rw (breaks, quiet, line-none sees) in
      elim (Option-cases (ends.exchange text)) [
        | inl lost ↦
            rw (entry, e, crashes, calm, loses, is_lost_alone, turn-none room, is_lost, lost)
        | inr (s, found) ↦ rw (
          entry,
          e,
          crashes,
          calm,
          loses,
          is_lost_alone,
          turn-none room,
          is_lost,
          found,
          serve,
          reply,
          kept ends.websocket,
        )
      ]
    where
      kept : (b : Bool) → (b && false) ≡ false
      kept true = refl
      kept false = refl

  -- The answer of a frame: the error for a denied one, and else what the exchange with the node gives.
  abbrev pub IsAnswer : RpcFrame → RpcFrame → Type 0
  IsAnswer f r =
      (IsDenied settings scale net find_submatch metadata f × (r ≡ denied_frame f.id))
      ⊎ ((IsDenied settings scale net find_submatch metadata f → ⊥)
          × ((b : String) × (ends.exchange (codec.encode_frame f) ≡ some b)
              × (codec.decode_frame b ≡ some r)))

  abbrev pub AreAnswers : List RpcFrame → List RpcFrame → Type 0
  AreAnswers [] [] = Unit
  AreAnswers (f ∷ fs) (r ∷ rs) = IsAnswer f r × AreAnswers fs rs
  AreAnswers _ _ = ⊥

  -- The inspector lets the frame pass, it is none for the storage extension, and the throttle admits it.
  abbrev pub IsAdmitted : RpcFrame → Type 0
  IsAdmitted f = IsPlain settings scale net find_submatch metadata f × (refuses (some f) ≡ false)

  turn-cases :
      (f : RpcFrame)
      → IsAdmitted f
      → (IsDenied settings scale net find_submatch metadata f
          × (turn (some f) ≡ behind (denied (denied_frame f.id))))
        ⊎ ((IsDenied settings scale net find_submatch metadata f → ⊥)
            × (turn (some f) ≡ behind proxied))
  unfolding turn turn_of
  turn-cases f (plain, room) =
      elim (route-plain settings scale net find_submatch metadata (now (some f)) f
        (inspector (some f)) plain) [
          | inl (d, e) ↦ inl (d, rw (room) (ap behind e))
          | inr (n, e) ↦ inr (n, rw (room) (ap behind e))
        ]

  breaks-frame : (f : RpcFrame) → IsAdmitted f → breaks turn logged (some f) ≡ false
  unfolding breaks
  breaks-frame f admitted = elim (turn-cases f admitted) [
    | inl (d, t) ↦ rw (t, line-frame f)
    | inr (d, t) ↦ rw (t, line-frame f)
  ]

  any_breaks-admitted : (fs : List RpcFrame) → All IsAdmitted fs → any_breaks turn logged fs ≡ false
  unfolding any_breaks
  any_breaks-admitted [] h = refl
  any_breaks-admitted (f ∷ fs) (admitted, h) =
      rw (breaks-frame f admitted, line_again-frame f) (any_breaks-admitted fs h)

  replies-Answers :
      ((id : ℕ)
        → codec.decode_frame (codec.encode_frame (denied_frame id)) ≡ some (denied_frame id))
      → (fs rs : List RpcFrame) → All IsAdmitted fs
      → AreAnswers fs rs
      → Answers codec (λ f. reply codec write ends (codec.encode_frame f) (turn (some f))) fs rs
  unfolding reply
  replies-Answers law [] [] plain h = tt
  replies-Answers law [] (r ∷ rs) plain h = absurd h
  replies-Answers law (f ∷ fs) [] plain h = absurd h
  replies-Answers law (f ∷ fs) (r ∷ rs) (plain, plains) (h, hs) =
      (reply_of (turn-cases f plain) h, replies-Answers law fs rs plains hs)
    where
      reply_of :
          (IsDenied settings scale net find_submatch metadata f
              × (turn (some f) ≡ behind (denied (denied_frame f.id))))
            ⊎ ((IsDenied settings scale net find_submatch metadata f → ⊥)
                × (turn (some f) ≡ behind proxied))
          → IsAnswer f r
          → codec.decode_frame (reply codec write ends (codec.encode_frame f) (turn (some f)))
            ≡ some r
      reply_of (inl (d, t)) (inl (d', e)) = rw (t, reply, law f.id, e)
      reply_of (inl (d, t)) (inr (n, e)) = absurd (n d)
      reply_of (inr (n, t)) (inl (d, e)) = absurd (n d)
      reply_of (inr (n, t)) (inr (n', (b, found, e))) = rw (t, reply, found) e

  -- A batch whose frames do not crash is served by the handlers behind, one frame at a time.
  entry-serve_batch :
      (text : String) (fs : List RpcFrame)
      → parse_payload codec text ≡ batch fs
      → any_breaks turn logged fs ≡ false
      → any_lost codec write ends turn logged fs ≡ false
      → entry codec write ends turn logged text
        ≡ serve_batch codec (λ f. reply codec write ends (codec.encode_frame f) (turn (some f))) fs
  unfolding entry crashes serve frame_body loses
  entry-serve_batch text fs e calm kept =
      let quiet : crashes turn logged (batch fs) ≡ false =
        elim (Bool-cases (ltb max_batch (length fs))) [
          | inl long ↦ rw (crashes, long)
          | inr short ↦ rw (crashes, short, calm)
        ] in
      ap
        (λ p.
          if crashes turn logged p
          then panicked
          else if loses codec write ends turn logged text p
          then cancelled
          else serve codec (λ f. reply codec write ends (frame_body codec p f) (turn (some f)))
              (λ body. reply codec write ends body (turn none)) text)
        e
      ∙ rw (quiet, kept, serve, e)

  any_lost-answered :
      (fs rs : List RpcFrame)
      → All IsAdmitted fs
      → AreAnswers fs rs
      → any_lost codec write ends turn logged fs ≡ false
  unfolding any_lost is_lost
  any_lost-answered [] rs plain h = refl
  any_lost-answered (f ∷ fs) [] plain h = absurd h
  any_lost-answered (f ∷ fs) (r ∷ rs) (plain, plains) (h, hs) =
      rw (kept (turn-cases f plain) h) (any_lost-answered fs rs plains hs)
    where
      kept :
          (IsDenied settings scale net find_submatch metadata f
              × (turn (some f) ≡ behind (denied (denied_frame f.id))))
            ⊎ ((IsDenied settings scale net find_submatch metadata f → ⊥)
                × (turn (some f) ≡ behind proxied))
          → IsAnswer f r
          → is_lost codec write ends (codec.encode_frame f) (turn (some f)) ≡ false
      kept (inl (d, t)) k = rw (t, is_lost)
      kept (inr (n, t)) (inl (d, e)) = absurd (n d)
      kept (inr (n, t)) (inr (n', (b, found, e))) = rw (t, is_lost, found)

  -- A batch of 1 to 50 frames, none of which is for the storage extension, makes the decoder panic or
  -- is refused by the throttle, and such that the proxy's exchange gives a frame for each that is not
  -- denied, where the JSON library reads the error of a denied frame back: the answer is the batch of the
  -- answers of its frames, in their order, where a denied frame has the error under its own id at its
  -- place, and every other frame what the exchange gives for it. The program's log has no influence,
  -- whatever its options.
  pub entry-batch :
      ((id : ℕ)
        → codec.decode_frame (codec.encode_frame (denied_frame id)) ≡ some (denied_frame id))
      → (text : String) (fs rs : List RpcFrame) → parse_payload codec text ≡ batch fs
      → fs ≢ []
      → length fs ≤ max_batch
      → All IsAdmitted fs
      → AreAnswers fs rs
      → entry codec write ends
          (turn_of settings scale net find_submatch metadata refuses now inspector)
          (logged_of log)
          text
        ≡ responded (codec.encode_batch rs)
  unfolding turn logged
  entry-batch law text fs rs e filled small plain h =
      entry-serve_batch text fs e (any_breaks-admitted fs plain) (any_lost-answered fs rs plain h)
      ∙ serve_batch-Answers codec
          (λ f. reply codec write ends (codec.encode_frame f) (turn (some f))) fs rs filled small
          (replies-Answers law fs rs plain h)
