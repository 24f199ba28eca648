-- ===== src/Proxy/Connection/Race.antt =====
-- The send of a response while the goroutines of the requests run: handleUpstreamResponse looks the
-- request up, and sends later, when its channel has room. In between, the parts of UpstreamWrite and of
-- UpstreamRead come in any order.
use mathlib.Core.Path.{subst}
use substrate_rpc_proxy.Dto.{RpcFrame}
use substrate_rpc_proxy.Prelude.{
  ℕ, ◌<◌, ◌≡◌, ◌≢◌, ◌↔◌, inl, inr, refl, sym, ap, ◌∙◌, String, Bool, true, false, List, [], ◌∷◌,
  Option, none, some, none-ne-some, arith, ℕ_discrete, Option-cases, Bool-cases, if◌then◌else◌,
  ◌||◌, ◌==◌,
}
use substrate_rpc_proxy.Prelude.Family.{put}
use substrate_rpc_proxy.Proxy.Connection.{
  Channel, vacant, holding, closed, is_closed, close, RequestPayload, ProxiedConnection, load,
  delete, store_and_write, deliver, panicked, Action, perform_all, new_connection,
}
use substrate_rpc_proxy.Proxy.Connection.Entries.{IsOpen, IsSound, load-All}
use substrate_rpc_proxy.Proxy.Connection.Sound.{Channel-cases, perform_all-IsSound, new-IsSound}

-- LoadOrStore with the write where it stored, and what follows where it found a request: Delete by the id,
-- and close of the channel that was found. A reader takes what its channel has, and deletes by its id.
pub data Part : Type 0 where
  stores : ℕ → String → Bool → Part
  deletes : ℕ → Part
  closes : ℕ → Part
  takes : ℕ → Part

abbrev pub taken : Channel → Channel
taken vacant = vacant
taken (holding b) = vacant
taken (closed rest) = closed none

-- A second close of one channel panics: `none`.
unfoldable pub perform_part : Part → ProxiedConnection → Option ProxiedConnection
unfolding load store_and_write delete
perform_part (stores id b accepted) pc = elim (load id pc.requests) [
  | none ↦ some (store_and_write id b accepted pc).1
  | some p ↦ some pc
]
perform_part (deletes id) pc = some (record pc { requests = delete id pc.requests })
perform_part (closes c) pc =
    if is_closed (pc.channels c)
    then none
    else some (record pc { channels = put pc.channels c (close (pc.channels c)) })
perform_part (takes c) pc =
    some (record pc { channels = put pc.channels c (taken (pc.channels c)) })

unfoldable pub perform_parts : List Part → ProxiedConnection → Option ProxiedConnection
unfolding perform_part
perform_parts [] pc = some pc
perform_parts (a ∷ parts) pc = elim (perform_part a pc) [
  | none ↦ none
  | some pc' ↦ perform_parts parts pc'
]

-- Whether a duplicate closes the channel.
unfoldable pub any_closes : ℕ → List Part → Bool
any_closes c [] = false
any_closes c (closes d ∷ parts) = (d == c) || any_closes c parts
any_closes c (_ ∷ parts) = any_closes c parts

-- The lookup of handleUpstreamResponse, for a text that is a frame.
unfoldable pub find_request :
    (String → Option RpcFrame) → String → ProxiedConnection → Option RequestPayload
unfolding load
find_request parse response pc = elim (parse response) [
  | none ↦ none
  | some f ↦ load f.id pc.requests
]

-- Where the channel is made, and closed if it was or is closed now.
abbrev Keeps : ℕ → Bool → Option ProxiedConnection → Type 0
Keeps c shut none = Unit
Keeps c shut (some pc) = (c < pc.next) × (is_closed (pc.channels c) ≡ shut)

close-is_closed : (x : Channel) → is_closed (close x) ≡ true
close-is_closed vacant = refl
close-is_closed (holding b) = refl
close-is_closed (closed rest) = refl

taken-is_closed : (x : Channel) → is_closed (taken x) ≡ is_closed x
taken-is_closed vacant = refl
taken-is_closed (holding b) = refl
taken-is_closed (closed rest) = refl

put-other : (f : ℕ → Channel) (c d : ℕ) (a : Channel) → d ≢ c → put f c a d ≡ f d
put-other f c d a n = ground arith

put-same : (f : ℕ → Channel) (c : ℕ) (a : Channel) → put f c a c ≡ a
put-same f c a = ground arith

closes_it : ℕ → Part → Bool
closes_it c a = any_closes c (a ∷ [])

store_and_write-Keeps :
    (c id : ℕ) (b : String) (accepted : Bool) (pc : ProxiedConnection)
    → c < pc.next
    → Keeps c (is_closed (pc.channels c)) (some (store_and_write id b accepted pc).1)
unfolding store_and_write
store_and_write-Keeps c id b true pc h =
    (omega arith, ap is_closed (put-other pc.channels pc.next c vacant (λ e. omega arith)))
store_and_write-Keeps c id b false pc h =
    (omega arith, ap is_closed (put-other pc.channels pc.next c vacant (λ e. omega arith)))

or-false : (x : Bool) → (x || false) ≡ x
or-false true = refl
or-false false = refl

perform_part-Keeps :
    (c : ℕ) (a : Part) (pc : ProxiedConnection)
    → c < pc.next
    → Keeps c (is_closed (pc.channels c) || closes_it c a) (perform_part a pc)
unfolding perform_part closes_it any_closes
perform_part-Keeps c (stores id b accepted) pc h =
    rw (or-false (is_closed (pc.channels c))) (elim (Option-cases (load id pc.requests)) [
      | inl e ↦ rw (e, Keeps, perform_part) (store_and_write-Keeps c id b accepted pc h)
      | inr (p, e) ↦ rw (e, Keeps, perform_part) (h, refl)
    ])
perform_part-Keeps c (deletes id) pc h = (h, sym (or-false (is_closed (pc.channels c))))
perform_part-Keeps c (takes d) pc h = elim (ℕ_discrete c d) [
  | yes e ↦ (
    h,
    subst
        (λ k.
          is_closed (put pc.channels d (taken (pc.channels d)) k)
          ≡ (is_closed (pc.channels k) || false))
        (sym e)
        (ap is_closed (put-same pc.channels d (taken (pc.channels d)))
          ∙ taken-is_closed (pc.channels d)
          ∙ sym (or-false (is_closed (pc.channels d)))),
  )
  | no n ↦ (
    h,
    ap is_closed (put-other pc.channels d c (taken (pc.channels d)) n)
        ∙ sym (or-false (is_closed (pc.channels c))),
  )
]
perform_part-Keeps c (closes d) pc h = elim (Bool-cases (is_closed (pc.channels d))) [
  | inl t ↦ rw (t, Keeps, perform_part) tt
  | inr f ↦ rw (f, Keeps, perform_part) (h, kept f)
]
  where
    kept :
        is_closed (pc.channels d) ≡ false
        → is_closed (put pc.channels d (close (pc.channels d)) c)
          ≡ (is_closed (pc.channels c) || ((d == c) || false))
    kept f = elim (ℕ_discrete c d) [
      | yes e ↦
          let same : (d == c) ≡ true = ground (arith, e) in
          let open_ : is_closed (pc.channels c) ≡ false =
            ap (λ k. is_closed (pc.channels k)) e ∙ f in
          rw (same, open_)
            (ap (λ k. is_closed (put pc.channels d (close (pc.channels d)) k)) e
              ∙ ap is_closed (put-same pc.channels d (close (pc.channels d)))
              ∙ close-is_closed (pc.channels d))
      | no n ↦
          let other : (d == c) ≡ false = ground (arith, n) in
          rw (other, or-false (is_closed (pc.channels c)))
            (ap is_closed (put-other pc.channels d c (close (pc.channels d)) n))
    ]

or_assoc : (x y z : Bool) → ((x || y) || z) ≡ (x || (y || z))
or_assoc true y z = refl
or_assoc false y z = refl

any_closes-cons :
    (c : ℕ) (a : Part) (parts : List Part)
    → any_closes c (a ∷ parts) ≡ (closes_it c a || any_closes c parts)
unfolding any_closes closes_it
any_closes-cons c (stores id b accepted) parts = refl
any_closes-cons c (deletes id) parts = refl
any_closes-cons c (takes d) parts = refl
any_closes-cons c (closes d) parts = ap (λ x. x || any_closes c parts) (sym (or-false (d == c)))

perform_parts-Keeps :
    (c : ℕ) (parts : List Part) (pc : ProxiedConnection)
    → c < pc.next
    → Keeps c (is_closed (pc.channels c) || any_closes c parts) (perform_parts parts pc)
unfolding perform_parts any_closes
perform_parts-Keeps c [] pc h = (h, sym (or-false (is_closed (pc.channels c))))
perform_parts-Keeps c (a ∷ parts) pc h =
    subst (λ x. Keeps c x (perform_parts (a ∷ parts) pc))
      (or_assoc (is_closed (pc.channels c)) (closes_it c a) (any_closes c parts)
        ∙ ap (λ x. is_closed (pc.channels c) || x) (sym (any_closes-cons c a parts)))
      (by (perform_part a pc) (perform_part-Keeps c a pc h) (perform_parts-Keeps c parts))
  where
    by :
        (r : Option ProxiedConnection)
        → Keeps c (is_closed (pc.channels c) || closes_it c a) r
        → ((q : ProxiedConnection)
            → c < q.next
            → Keeps c (is_closed (q.channels c) || any_closes c parts) (perform_parts parts q))
        → Keeps c
            ((is_closed (pc.channels c) || closes_it c a) || any_closes c parts)
            (elim r as (λ x. Option ProxiedConnection) [
              | none ↦ none
              | some pc' ↦ perform_parts parts pc'
            ])
    by none k rest = tt
    by (some pc') (made, shut) rest =
        subst (λ x. Keeps c (x || any_closes c parts) (perform_parts parts pc')) shut
          (rest pc' made)

deliver-panicked_iff :
    (response : String) (p : RequestPayload) (pc : ProxiedConnection)
    → ((deliver response p pc).0 ≡ panicked) ↔ (is_closed (pc.channels p.ready) ≡ true)
unfolding deliver
deliver-panicked_iff response p pc = elim (Channel-cases (pc.channels p.ready)) [
  | inl e ↦ rw (e, deliver) ((λ q. cc), (λ q. cc))
  | inr (inl (b, e)) ↦ rw (e, deliver) ((λ q. cc), (λ q. cc))
  | inr (inr (rest, e)) ↦ rw (e, deliver) ((λ q. refl), (λ q. refl))
]

module _ (parse : String → Option RpcFrame) where
  found-IsOpen :
      (response : String) (p : RequestPayload) (pc : ProxiedConnection)
      → IsSound pc
      → find_request parse response pc ≡ some p
      → (p.ready < pc.next) × (is_closed (pc.channels p.ready) ≡ false)
  unfolding find_request
  found-IsOpen response p pc s found = elim (Option-cases (parse response)) [
    | inl e ↦ absurd (none-ne-some (rw (e, find_request) at found))
    | inr (f, e) ↦
        (load-All (IsOpen pc.channels pc.next) f.id pc.requests p (rw (e, find_request) at found)
          s.open_entries).1
  ]

  -- After any history of a new connection, whose methods ran one at a time, a response comes and its
  -- request is found; then any parts of UpstreamWrite and UpstreamRead run, in any order and none of them
  -- panicking, before the response is sent: the send panics exactly if one of them closes the
  -- request's channel, as a duplicate of the request does. A full channel does not change that.
  pub send-panicked_iff :
      (as' : List Action) (response : String) (p : RequestPayload) (parts : List Part)
      (pc : ProxiedConnection)
      → find_request parse response (perform_all parse as' new_connection) ≡ some p
      → perform_parts parts (perform_all parse as' new_connection) ≡ some pc
      → ((deliver response p pc).0 ≡ panicked) ↔ (any_closes p.ready parts ≡ true)
  send-panicked_iff as' response p parts pc found ran =
      let start = perform_all parse as' new_connection in
      let (made, open_) =
        found-IsOpen response p start (perform_all-IsSound parse as' new_connection new-IsSound)
          found in
      let shut : is_closed (pc.channels p.ready) ≡ any_closes p.ready parts =
        (subst (Keeps p.ready (is_closed (start.channels p.ready) || any_closes p.ready parts)) ran
          (perform_parts-Keeps p.ready parts start made)).1
        ∙ ap (λ x. x || any_closes p.ready parts) open_ in
      let panics = deliver-panicked_iff response p pc in
      (λ q. sym shut ∙ panics.0 q, λ q. panics.1 (shut ∙ q))
