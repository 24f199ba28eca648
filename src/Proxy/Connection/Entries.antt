-- ===== src/Proxy/Connection/Entries.antt =====
-- Lemmas on the entries of the map of running requests, and on their channels.
use mathlib.Core.Path.{subst}
use substrate_rpc_proxy.Prelude.{
  ℕ, ◌≤◌, ◌<◌, ◌≡◌, ◌≢◌, false, inl, inr, sym, List, [], ◌∷◌, some, ◌==◌, arith, All, none-ne-some,
  some_inj, Bool-cases,
}
use substrate_rpc_proxy.Prelude.Family.{put}
use substrate_rpc_proxy.Proxy.Connection.{
  Channel, is_closed, RequestPayload, ProxiedConnection, load, delete,
}

-- The entry's channel is made, and open.
abbrev pub IsOpen : (ℕ → Channel) → ℕ → ℕ × RequestPayload → Type 0
IsOpen channels next (k, p) = (p.ready < next) × (is_closed (channels p.ready) ≡ false)

abbrev pub IsOther : ℕ → ℕ × RequestPayload → Type 0
IsOther c (k, p) = c ≢ p.ready

-- No two entries have the same channel.
abbrev pub IsApart : List (ℕ × RequestPayload) → Type 0
IsApart [] = Unit
IsApart ((k, p) ∷ r) = All (IsOther p.ready) r × IsApart r

pub record IsSound (pc : ProxiedConnection) : Type 0 where
  pub open_entries : All (IsOpen pc.channels pc.next) pc.requests
  pub apart : IsApart pc.requests

module _ (P : ℕ × RequestPayload → Type 0) where
  pub All-delete : (id : ℕ) (xs : List (ℕ × RequestPayload)) → All P xs → All P (delete id xs)
  unfolding delete
  All-delete id [] _ = tt
  All-delete id ((k, p) ∷ r) (h, hs) = elim (Bool-cases (k == id)) [
    | inl e ↦ rw e (All-delete id r hs)
    | inr e ↦ rw e (h, All-delete id r hs)
  ]

  pub load-All :
      (id : ℕ) (xs : List (ℕ × RequestPayload)) (p : RequestPayload)
      → load id xs ≡ some p
      → All P xs
      → (k : ℕ) × P (k, p)
  unfolding load
  load-All id [] p e _ = absurd (none-ne-some e)
  load-All id ((k, q) ∷ r) p e (h, hs) = elim (Bool-cases (k == id)) [
    | inl t ↦ (k, subst (λ x. P (k, x)) (some_inj (rw (t, load) at e)) h)
    | inr t ↦ load-All id r p (rw (t, load) at e) hs
  ]

pub IsApart-delete : (id : ℕ) (xs : List (ℕ × RequestPayload)) → IsApart xs → IsApart (delete id xs)
unfolding delete
IsApart-delete id [] _ = tt
IsApart-delete id ((k, p) ∷ r) (h, hs) = elim (Bool-cases (k == id)) [
  | inl e ↦ rw e (IsApart-delete id r hs)
  | inr e ↦ rw e (All-delete (IsOther p.ready) id r h, IsApart-delete id r hs)
]

-- The entries that are left have other channels than the one that was found.
pub delete-load-IsOther :
    (id : ℕ) (xs : List (ℕ × RequestPayload)) (p : RequestPayload)
    → load id xs ≡ some p
    → IsApart xs
    → All (IsOther p.ready) (delete id xs)
unfolding delete load
delete-load-IsOther id [] p e _ = absurd (none-ne-some e)
delete-load-IsOther id ((k, q) ∷ r) p e (h, hs) = elim (Bool-cases (k == id)) [
  | inl t ↦
      let same : q ≡ p = some_inj (rw (t, load) at e) in
      rw t (rw (sym same) (All-delete (IsOther q.ready) id r h))
  | inr t ↦
      let found : load id r ≡ some p = rw (t, load) at e in
      let (j, apart) = load-All (IsOther q.ready) id r p found h in
      rw t (λ same. apart (sym same), delete-load-IsOther id r p found hs)
]

-- A change of one channel keeps the others open.
pub put-IsOpen_others :
    (channels : ℕ → Channel) (next c : ℕ) (new : Channel) (xs : List (ℕ × RequestPayload))
    → All (IsOther c) xs
    → All (IsOpen channels next) xs
    → All (IsOpen (put channels c new) next) xs
put-IsOpen_others channels next c new [] _ _ = tt
put-IsOpen_others channels next c new ((k, p) ∷ r) (h, hs) ((lt, open_), os) =
    ((lt, ground arith), put-IsOpen_others channels next c new r hs os)

-- A change of one channel to an open one keeps all open.
pub put-IsOpen :
    (channels : ℕ → Channel) (next next' c : ℕ) (new : Channel) (xs : List (ℕ × RequestPayload))
    → is_closed new ≡ false
    → next ≤ next'
    → All (IsOpen channels next) xs
    → All (IsOpen (put channels c new) next') xs
put-IsOpen channels next next' c new [] _ _ _ = tt
put-IsOpen channels next next' c new ((k, p) ∷ r) o le ((lt, open_), os) =
    ((omega arith, ground arith), put-IsOpen channels next next' c new r o le os)

-- A channel that is not made yet belongs to no entry.
pub fresh :
    (channels : ℕ → Channel) (next : ℕ) (xs : List (ℕ × RequestPayload))
    → All (IsOpen channels next) xs
    → All (IsOther next) xs
fresh channels next [] _ = tt
fresh channels next ((k, p) ∷ r) ((lt, o), os) = (λ e. omega arith, fresh channels next r os)
