-- ===== src/Site/Remove/Proxies.antt =====
-- The loop of `RouterRemove` of client/router_remove.go over the proxies.
use skupper_docker.Base.{
  ◌≡◌, refl, sym, ap, ◌∙◌, String, Bool, false, ◌&&◌, Option, none, some, List, [], ◌∷◌, ◌==◌, any,
  arith, Bool-cases, inl, inr, eq→path, if◌then◌else◌,
}
use skupper_docker.Base.Dict
use skupper_docker.Errors.{proxy_not_stopped, proxy_not_removed}
use skupper_docker.Docker.Api.{Container}
use skupper_docker.Docker.Daemon.{
  Daemon, Held, CanRemove, AreEntries, name_of, labels_of, has_label,
}
use skupper_docker.Site.Remove.{is_proxy, stop_and_remove, remove_proxies, remove_listed}
use skupper_docker.Site.Remove.Containers.{stop_and_remove_lem, stop_and_remove-id}

-- whether a container is labelled as a proxy
abbrev pub is_proxy_held : Option Held → Bool
is_proxy_held held = is_proxy (Dict.lookup "skupper.io/component" (labels_of held))

-- a proxy has the label
labelled_proxy :
    (held : Option Held)
    → (has_label "skupper.io/component" held && is_proxy_held held) ≡ is_proxy_held held
unfolding Dict.lookup
labelled_proxy none = refl
labelled_proxy (some c) = ground arith

eq_sym_false : (s t : String) → (s == t) ≡ false → (t == s) ≡ false
eq_sym_false s t h = ground arith

-- the entry is labelled as a proxy
abbrev is_proxy_entry : Container → Bool
is_proxy_entry c = is_proxy (Dict.lookup "skupper.io/component" c.labels)

module _ {D : Type 0} {dd : Daemon D} {find : D → String → Option Held}
    {id_of : D → String → String} (can : CanRemove dd find id_of) where
  -- entries stay entries when another container is removed
  AreEntries-kept :
      (n : String) (d d' : D) (l : List Container)
      → ((m : String) → find d' m ≡ (if m == n then none else find d m))
      → ((m : String) → (m == n) ≡ false → id_of d' m ≡ id_of d m)
      → any (λ (e : Container). n == name_of e) l ≡ false
      → AreEntries find id_of d l
      → AreEntries find id_of d' l
  AreEntries-kept n d d' [] found ids others entries = tt
  AreEntries-kept n d d' (c ∷ l) found ids others (held, id, labels, once, entries) =
      let other : (name_of c == n) ≡ false = eq_sym_false n (name_of c) (ground arith) in
      let same : find d' (name_of c) ≡ find d (name_of c) = found (name_of c) ∙ rw other refl in
      let others' : any (λ (e : Container). n == name_of e) l ≡ false = ground arith in
      (
        rw same held,
        id ∙ sym (ids (name_of c) other),
        rw same labels,
        once,
        AreEntries-kept n d d' l found ids others' entries,
      )

  remove_proxies_lem :
      (l : List Container) (d : D)
      → AreEntries find id_of d l
      → ((remove_proxies dd l d).0 ≡ [])
        × ((m : String)
            → find (remove_proxies dd l d).1 m ≡ (
                if any (λ (c : Container). m == name_of c && is_proxy_entry c) l
                then none
                else find d m))
  unfolding remove_proxies
  remove_proxies_lem [] d entries = (refl, λ (m : String). refl)
  remove_proxies_lem (c ∷ l) d (held, id, labels, once, entries) =
      elim (Bool-cases (is_proxy_entry c)) [
        | inl proxy ↦
            let n = name_of c in
            let same : stop_and_remove dd proxy_not_stopped proxy_not_removed c.id d
                ≡ stop_and_remove dd proxy_not_stopped proxy_not_removed n d =
              ap (λ (i : String). stop_and_remove dd proxy_not_stopped proxy_not_removed i d) id
              ∙ stop_and_remove-id can proxy_not_stopped proxy_not_removed n d held in
            let (quiet, found, ids) =
              stop_and_remove_lem can proxy_not_stopped proxy_not_removed n d held in
            let d1 = (stop_and_remove dd proxy_not_stopped proxy_not_removed n d).1 in
            let (quiet', found') =
              remove_proxies_lem l d1 (AreEntries-kept n d d1 l found ids once entries) in
            rw (proxy, same, quiet) (quiet', λ (m : String). found' m ∙ rw found (ground arith))
        | inr other ↦
            let (quiet, found) = remove_proxies_lem l d entries in
            rw other (quiet, λ (m : String). found m ∙ ground arith)
      ]

  -- By their labels the entries tell the proxies.
  entries-is_proxy_held :
      (l : List Container) (d : D) (m : String)
      → AreEntries find id_of d l
      → any (λ (c : Container). m == name_of c && is_proxy_entry c) l
        ≡ (any (λ (c : Container). m == name_of c) l && is_proxy_held (find d m))
  entries-is_proxy_held [] d m entries = refl
  entries-is_proxy_held (c ∷ l) d m (held, id, labels, once, entries) =
      elim (Bool-cases (m == name_of c)) [
        | inl same ↦
            let here : is_proxy_entry c ≡ is_proxy_held (find d m) =
              rw (eq→path m (name_of c) same, labels) refl in
            rw (same, here) (rw (entries-is_proxy_held l d m entries) (ground arith))
        | inr other ↦ rw other (entries-is_proxy_held l d m entries)
      ]

  -- All proxies that are there are removed.
  pub remove_listed_lem :
      (d : D)
      → (let after = remove_listed dd (dd.list_containers "skupper.io/component" d) d in
          (after.0 ≡ [])
          × ((m : String) → find after.1 m ≡ (if is_proxy_held (find d m) then none else find d m)))
  remove_listed_lem d =
      let (l, listing, entries, complete) = can.entries "skupper.io/component" d in
      let (quiet, found) = remove_proxies_lem l d entries in
      rw listing (
        quiet,
        λ (m : String).
            found m
            ∙ rw (entries-is_proxy_held l d m entries, complete m, labelled_proxy (find d m)) refl,
      )
