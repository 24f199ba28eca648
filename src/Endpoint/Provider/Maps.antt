-- ===== src/Endpoint/Provider/Maps.antt =====
-- The maps of ports and of upstreams, key by key.
use substrate_rpc_proxy.Endpoint.Address.{lookup}
use substrate_rpc_proxy.Endpoint.Hosts.{among}
use substrate_rpc_proxy.Endpoint.Provider.{set_key, set_ports, merge_ports}
use substrate_rpc_proxy.Endpoint.Rating.{Upstreams, find_upstream}
use substrate_rpc_proxy.Prelude.{
  ◌≡◌, inl, inr, refl, sym, ◌∙◌, ap, String, Bool, true, false, ◌||◌, List, [], ◌∷◌, Option, none,
  some, str_eq, str_eq-same, str_eq-other, if◌then◌else◌, Bool-cases, All,
}

-- Looking a key up in any map; `lookup` and `find_upstream` are it.
unfoldable pub find : {A : Type 0} → String → List (String × A) → Option A
find key [] = none
find key ((k, a) ∷ r) = if str_eq k key then some a else find key r

pub find-lookup : (key : String) (m : List (String × String)) → lookup key m ≡ find key m
unfolding lookup find
find-lookup key [] = refl
find-lookup key ((k, a) ∷ r) = ap (λ x. if str_eq k key then some a else x) (find-lookup key r)

pub find-find_upstream : (key : String) (m : Upstreams) → find_upstream key m ≡ find key m
unfolding find_upstream find
find-find_upstream key [] = refl
find-find_upstream key ((k, a) ∷ r) =
    ap (λ x. if str_eq k key then some a else x) (find-find_upstream key r)

pub find-set_key :
    {A : Type 0} (key other : String) (v : A) (m : List (String × A))
    → find other (set_key key v m) ≡ (if str_eq key other then some v else find other m)
unfolding find set_key
find-set_key key other v [] = refl
find-set_key key other v ((k, a) ∷ r) = elim (Bool-cases (str_eq k key)) [
  | inl t ↦ elim (Bool-cases (str_eq k other)) [
    | inl u ↦ rw (t, find, u, sym (str_eq-same k key other t) ∙ u)
    | inr u ↦ rw (t, find, u, sym (str_eq-same k key other t) ∙ u)
  ]
  | inr f ↦ elim (Bool-cases (str_eq k other)) [
    | inl u ↦ rw (f, find, u, str_eq-other k key other f u)
    | inr u ↦ rw (f, find, u) (find-set_key key other v r)
  ]
]

if-or :
    {A : Type 0} (a b : Bool) (x y : A)
    → (if b then x else (if a then x else y)) ≡ (if a || b then x else y)
if-or true true x y = refl
if-or false true x y = refl
if-or true false x y = refl
if-or false false x y = refl

pub find-set_ports :
    (port n : String) (ns : List String) (m : List (String × String))
    → find n (set_ports port ns m) ≡ (if among n ns then some port else find n m)
unfolding set_ports among
find-set_ports port n [] m = refl
find-set_ports port n (k ∷ ns) m =
    find-set_ports port n ns (set_key k port m)
    ∙ ap (λ x. if among n ns then some port else x) (find-set_key k n port m)
    ∙ if-or (str_eq k n) (among n ns) (some port) (find n m)

-- All values of a map are one port, as in a new upstream.
unfoldable pub HasOnePort : String → List (String × String) → Type 0
HasOnePort port m = All (λ e. e.1 ≡ port) m

HasOnePort-set_key :
    (port k : String) (m : List (String × String))
    → HasOnePort port m
    → HasOnePort port (set_key k port m)
unfolding HasOnePort set_key
HasOnePort-set_key port k [] h = (refl, tt)
HasOnePort-set_key port k ((l, v) ∷ r) (e, h) = elim (Bool-cases (str_eq l k)) [
  | inl t ↦ rw t (refl, h)
  | inr f ↦ rw f (e, HasOnePort-set_key port k r h)
]

pub HasOnePort-set_ports :
    (port : String) (ns : List String) (m : List (String × String))
    → HasOnePort port m
    → HasOnePort port (set_ports port ns m)
unfolding set_ports
HasOnePort-set_ports port [] m h = h
HasOnePort-set_ports port (n ∷ ns) m h =
    HasOnePort-set_ports port ns (set_key n port m) (HasOnePort-set_key port n m h)

-- A port in place of what an old map has, if the new one has the key.
abbrev pub over : String → Option String → Option String → Option String
over port none old = old
over port (some v) old = some port

over-if :
    (port : String) (b : Bool) (v : String) (o old : Option String)
    → over port o (if b then some port else old) ≡ over port (if b then some v else o) old
over-if port true v none old = refl
over-if port true v (some x) old = refl
over-if port false v none old = refl
over-if port false v (some x) old = refl

pub find-merge_ports :
    (port n : String) (r m : List (String × String))
    → HasOnePort port r
    → find n (merge_ports r m) ≡ over port (find n r) (find n m)
unfolding merge_ports find HasOnePort
find-merge_ports port n [] m h = refl
find-merge_ports port n ((k, v) ∷ r) m (e, h) =
    find-merge_ports port n r (set_key k v m) h
    ∙ ap (λ x. over port (find n r) x)
        (find-set_key k n v m ∙ ap (λ x. if str_eq k n then some x else find n m) e)
    ∙ over-if port (str_eq k n) v (find n r) (find n m)
