-- ===== src/Site/Remove/Containers.antt =====
-- Stopping and removing one container, as `RouterRemove` of client/router_remove.go does.
use skupper_docker.Base.{
  ◌≡◌, refl, sym, ap, ◌∙◌, String, Bool, true, false, ◌&&◌, Option, none, some, List, [], ◌==◌,
  arith, Bool-cases, inl, inr, eq_self, eq→path, if◌then◌else◌,
}
use skupper_docker.Base.Exec.{Result, ok, err, is_ok, Result-cases}
use skupper_docker.Errors.{Error}
use skupper_docker.Docker.Daemon.{Daemon, Held, CanRemove, is_held, is_stopped, set_running}
use skupper_docker.Site.Remove.{noted, stop_and_remove, remove_if_there}

pub noted-ok :
    {A : Type 0} (f : Error → Error) (r : Result Error A) → is_ok r ≡ true → noted f r ≡ []
noted-ok f (ok a) e = refl
noted-ok f (err x) e = cc

-- stopped and removed: what is under the name of which the test holds
gone :
    (held : Option Held) (same : Bool)
    → (let stopped = if same then set_running false held else held in
        (if same && is_stopped stopped then none else stopped))
      ≡ (if same then none else held)
gone none true = refl
gone (some c) true = refl
gone held false = refl

stopped_held :
    (held : Option Held) → is_held held ≡ true → is_stopped (set_running false held) ≡ true
stopped_held none h = cc
stopped_held (some c) h = refl

still_held : (held : Option Held) → is_held held ≡ true → is_held (set_running false held) ≡ true
still_held none h = cc
still_held (some c) h = refl

not_held : (held : Option Held) → is_held held ≡ false → held ≡ none
not_held none h = refl
not_held (some c) h = cc

module _ {D : Type 0} {dd : Daemon D} {find : D → String → Option Held}
    {id_of : D → String → String} (can : CanRemove dd find id_of) where
  -- no errors, one container gone, and the others with their identifiers
  abbrev Removes : String → D → List Error × D → Type 0
  Removes n d after =
      (after.0 ≡ [])
      × ((m : String) → find after.1 m ≡ (if m == n then none else find d m))
      × ((m : String) → (m == n) ≡ false → id_of after.1 m ≡ id_of d m)

  pub stop_and_remove_lem :
      (f g : Error → Error) (n : String) (d : D)
      → is_held (find d n) ≡ true
      → Removes n d (stop_and_remove dd f g n d)
  unfolding stop_and_remove
  stop_and_remove_lem f g n d held =
      let d' = (dd.stop_container n d).1 in
      let fine : is_ok (dd.remove_container n d').0 ≡ true =
        can.removed n d' ∙ rw (can.find_stopped, eq_self n) (stopped_held (find d n) held) in
      elim (Result-cases (dd.stop_container n d).0) [
        | inl (u, e) ↦ rw e (
          noted-ok g (dd.remove_container n d').0 fine,
          λ (m : String). can.find_removed n d' m ∙ rw can.find_stopped (gone (find d m) (m == n)),
          λ (m : String) other. can.id_removed n d' m other ∙ can.id_stopped n d m,
        )
        | inr (x, e) ↦ absurd (ground (arith, can.stopped n d))
      ]

  -- by its identifier a container is removed as by its name
  pub stop_and_remove-id :
      (f g : Error → Error) (n : String) (d : D)
      → is_held (find d n) ≡ true
      → stop_and_remove dd f g (id_of d n) d ≡ stop_and_remove dd f g n d
  unfolding stop_and_remove
  stop_and_remove-id f g n d held =
      let d' = (dd.stop_container n d).1 in
      let held' : is_held (find d' n) ≡ true =
        rw (can.find_stopped, eq_self n) (still_held (find d n) held) in
      let same : dd.remove_container (id_of d n) d' ≡ dd.remove_container n d' =
        ap (λ (i : String). dd.remove_container i d') (sym (can.id_stopped n d n))
        ∙ can.remove_id n d' held' in
      rw (can.stop_id n d held) (elim (Result-cases (dd.stop_container n d).0) [
        | inl (u, e) ↦ rw (e, same) refl
        | inr (x, e) ↦ rw e refl
      ])

  absent_lem :
      (m n : String) (d : D)
      → is_held (find d n) ≡ false
      → find d m ≡ (if m == n then none else find d m)
  absent_lem m n d absent = elim (Bool-cases (m == n)) [
    | inl same ↦ rw (eq→path m n same, eq_self n) (not_held (find d n) absent)
    | inr other ↦ rw other refl
  ]

  pub remove_if_there_lem :
      (f g : Error → Error) (n : String) (d : D)
      → ((remove_if_there dd f g n d).0 ≡ [])
        × ((m : String)
            → find (remove_if_there dd f g n d).1 m ≡ (if m == n then none else find d m))
  unfolding remove_if_there
  remove_if_there_lem f g n d = elim (Bool-cases (is_held (find d n))) [
    | inl held ↦
        let (quiet, found, _) = stop_and_remove_lem f g n d held in
        rw (can.seen, held) (quiet, found)
    | inr absent ↦ rw (can.seen, absent) (refl, λ (m : String). absent_lem m n d absent)
  ]
