-- ===== src/Router/Document/Inserts.antt =====
-- The maps that `UnmarshalRouterConfig` of pkg/qdr/qdr.go fills, value by value.
use mathlib.Core.List.{append-nil, append_assoc}
use skupper_docker.Base.{◌≡◌, refl, ◌∙◌, ap, sym, String, false, none, [], ◌∷◌, ◌++◌, ◌==◌, arith}
use skupper_docker.Base.Dict
use skupper_docker.Base.Dict.{Dict}
use skupper_docker.Router.{SslProfile, Listener, Connector, Address, TcpEndpoint, HttpEndpoint}

-- Each value of a map stands under its own name, once.
abbrev pub IsNamed {ℓ} : {V : Type ℓ} → (V → String) → Dict V → Type ℓ
IsNamed name [] = Unit
IsNamed name ((k, v) ∷ d) = (name v ≡ k) × (Dict.lookup k d ≡ none) × IsNamed name d

-- Putting all values of a map, one after the other, behind the entries of another.
unfoldable pub insert_all {ℓ} : {V : Type ℓ} → (V → String) → Dict V → Dict V → Dict V
insert_all name [] old = old
insert_all name ((_, v) ∷ d) old = insert_all name d (Dict.insert (name v) v old)

insert-fresh {ℓ} :
    {V : Type ℓ} (k : String) (v : V) (d : Dict V)
    → Dict.lookup k d ≡ none
    → Dict.insert k v d ≡ d ++ (k, v) ∷ []
unfolding Dict.insert Dict.lookup
insert-fresh k v [] h = refl
insert-fresh k v ((j, w) ∷ d) h = ground (arith, insert-fresh k v d)

lookup-snoc {ℓ} :
    {V : Type ℓ} (j k : String) (v : V) (d : Dict V)
    → Dict.lookup j d ≡ none
    → (j == k) ≡ false
    → Dict.lookup j (d ++ (k, v) ∷ []) ≡ none
unfolding Dict.lookup
lookup-snoc j k v [] h ne = rw ne
lookup-snoc j k v ((i, w) ∷ d) h ne = ground (arith, lookup-snoc j k v d)

-- No key of the second map is in the first.
abbrev FreshIn {ℓ} : {V : Type ℓ} → Dict V → Dict V → Type ℓ
FreshIn old [] = Unit
FreshIn old ((k, v) ∷ d) = (Dict.lookup k old ≡ none) × FreshIn old d

FreshIn-snoc {ℓ} :
    {V : Type ℓ} (k : String) (v : V) (old d : Dict V)
    → FreshIn old d
    → Dict.lookup k d ≡ none
    → FreshIn (old ++ (k, v) ∷ []) d
unfolding Dict.lookup
FreshIn-snoc k v old [] f h = tt
FreshIn-snoc k v old ((j, w) ∷ d) (g, f) h =
    (lookup-snoc j k v old g (ground arith), FreshIn-snoc k v old d f (ground arith))

FreshIn-nil {ℓ} : {V : Type ℓ} (d : Dict V) → FreshIn [] d
FreshIn-nil [] = tt
FreshIn-nil ((k, v) ∷ d) = (Dict.lookup-nil k, FreshIn-nil d)

insert_all-append {ℓ} :
    {V : Type ℓ} (name : V → String) (d old : Dict V)
    → IsNamed name d
    → FreshIn old d
    → insert_all name d old ≡ old ++ d
unfolding insert_all
insert_all-append name [] old n f = sym (append-nil old)
insert_all-append name ((k, v) ∷ d) old (e, fresh, n) (g, f) =
    ap (λ (x : String). insert_all name d (Dict.insert x v old)) e
    ∙ ap (insert_all name d) (insert-fresh k v old g)
    ∙ insert_all-append name d (old ++ (k, v) ∷ []) n (FreshIn-snoc k v old d f fresh)
    ∙ append_assoc old ((k, v) ∷ []) d

pub insert_all-nil {ℓ} :
    {V : Type ℓ} (name : V → String) (d : Dict V) → IsNamed name d → insert_all name d [] ≡ d
insert_all-nil name d n = insert_all-append name d [] n (FreshIn-nil d)

abbrev pub ssl_profile_name : SslProfile → String
ssl_profile_name x = x.name

abbrev pub connector_name : Connector → String
connector_name x = x.name

abbrev pub listener_name : Listener → String
listener_name x = x.name

abbrev pub address_prefix : Address → String
address_prefix x = x.prefix

abbrev pub tcp_name : TcpEndpoint → String
tcp_name x = x.name

abbrev pub http_name : HttpEndpoint → String
http_name x = x.name
