-- ===== src/Cli/Check.antt =====
-- The command check-connection of cmd/skupper-docker/main.go. What the router tells of its
-- connections, the result of qdr.GetConnections, is an argument: it is asked once for each inspection
-- of a connector, in each second.
use skupper_docker.Base.{
  ℕ, zero, suc, ◌+◌, ◌≤◌, ◌≡◌, refl, sym, ◌∙◌, String, Bool, true, false, ◌&&◌, ◌||◌, not, List, [],
  ◌∷◌, ◌==◌, map, ltb, arith, Bool-cases, inl, inr, if◌then◌else◌,
}
use skupper_docker.Base.Int.{ℤ, pos, negsuc}
use skupper_docker.Base.Exec.{Result, ok, err, is_ok}
use skupper_docker.Errors.{Error}
use skupper_docker.Router.{Connector}
use skupper_docker.Docker.Daemon.{Daemon}
use skupper_docker.Network.{Connection}
use skupper_docker.Site.Files.{World}
use skupper_docker.Connectors.{connector_list}
use skupper_docker.Connectors.Inspect.{connector_inspect}

-- An element of `connectors`: the name, and whether the connection was found active.
pub record Checked : Type 0 where
  pub name : String
  pub connected : Bool

abbrev count : List Checked → ℕ
count [] = 0
count (c ∷ cs) = if c.connected then suc (count cs) else count cs

abbrev length : List Checked → ℕ
length [] = 0
length (c ∷ cs) = suc (length cs)

-- the loop over the connectors in one second, and the new value of `connected`
mark : (String → Bool) → List Checked → ℕ → List Checked × ℕ
mark ask [] n = ([], n)
mark ask (c ∷ cs) n =
    let (rest, n') = mark ask cs (if ask c.name && not c.connected then n + 1 else n) in
    ((if ask c.name && not c.connected then record c { connected = true } else c) ∷ rest, n')

-- `for i := 0; connected < len(connectors) && i < waitFor; i++`, for the rounds that are left
wait : (ℕ → String → Bool) → (rounds i : ℕ) → List Checked → ℕ → List Checked
unfolding mark
wait ask zero i cs n = cs
wait ask (suc rounds) i cs n =
    let marked = mark (ask i) cs n in
    let rest = wait ask rounds (suc i) marked.0 marked.1 in if ltb n (length cs) then rest else cs

-- a negative number of seconds is none
abbrev rounds_of : ℤ → ℕ
rounds_of (pos n) = n
rounds_of (negsuc n) = 0

unconnected : Result Error (List Connector) → List Checked
unconnected (err e) = []
unconnected (ok vcis) = map (λ (c : Connector). record { name = c.name; connected = false }) vcis

module _ {D : Type 0} (dd : Daemon D) (told : ℕ → String → Result Error (List Connection)) where
  -- `err == nil && vci.Connected` of an inspection
  pub is_connected : World D → ℕ → String → Bool
  is_connected w i name =
      let (r, vci) = connector_inspect dd (told i name) name w in is_ok r && vci.connected

  -- the connectors before the loop, for the argument
  pub to_check : String → World D → List Checked
  unfolding unconnected is_connected
  to_check arg w =
      if arg == "all"
      then unconnected (connector_list dd w).0
      else if is_ok (connector_inspect dd (told 0 arg) arg w).0
      then record { name = arg; connected = is_connected w 0 arg } ∷ []
      else []

  -- What the command reports of each connector, for the value of --wait.
  unfoldable pub check_connection : String → ℤ → World D → List Checked
  unfolding to_check wait
  check_connection arg wait_for w =
      wait (λ (i : ℕ). is_connected w (suc i)) (rounds_of wait_for) 0 (to_check arg w)
        (count (to_check arg w))

-- whether one of the inspections from a second on finds the connection active
abbrev is_found : (ℕ → String → Bool) → (rounds i : ℕ) → String → Bool
is_found ask zero i name = false
is_found ask (suc rounds) i name = ask i name || is_found ask rounds (suc i) name

-- the report of a check that asks in every second, without an end before the time
abbrev pub polled : (ℕ → String → Bool) → (rounds i : ℕ) → Checked → Checked
polled ask rounds i c = record c { connected = c.connected || is_found ask rounds i c.name }

marked : (String → Bool) → Checked → Checked
marked ask c = record c { connected = c.connected || ask c.name }

mark_lem :
    (ask : String → Bool) (cs : List Checked) (n : ℕ)
    → ((mark ask cs n).0 ≡ map (marked ask) cs)
      × ((mark ask cs n).1 + count cs ≡ n + count (map (marked ask) cs))
unfolding mark marked
mark_lem ask [] n = (refl, refl)
mark_lem ask (c ∷ cs) n = elim (Bool-cases (ask c.name)) [
  | inl found ↦ elim (Bool-cases c.connected) [
    | inl old ↦
        rw (found, old) (ground (arith, mark_lem ask cs n), ground (arith, mark_lem ask cs n))
    | inr new ↦
        rw (found, new)
          (ground (arith, mark_lem ask cs (n + 1)), ground (arith, mark_lem ask cs (n + 1)))
  ]
  | inr missed ↦ rw missed (ground (arith, mark_lem ask cs n), ground (arith, mark_lem ask cs n))
]

count-le-length : (cs : List Checked) → count cs ≤ length cs
count-le-length [] = omega arith
count-le-length (c ∷ cs) = ground (arith, count-le-length cs)

-- all are connected: asking again tells nothing new
polled_all :
    (ask : ℕ → String → Bool) (rounds i : ℕ) (cs : List Checked)
    → length cs ≤ count cs
    → map (polled ask rounds i) cs ≡ cs
polled_all ask rounds i [] full = refl
polled_all ask rounds i (c ∷ cs) full = elim (Bool-cases c.connected) [
  | inl old ↦ ground (arith, polled_all ask rounds i cs, count-le-length cs)
  | inr new ↦ absurd (ground (arith, count-le-length cs))
]

polled_none :
    (ask : ℕ → String → Bool) (i : ℕ) (cs : List Checked) → map (polled ask zero i) cs ≡ cs
polled_none ask i [] = refl
polled_none ask i (c ∷ cs) = ground (arith, polled_none ask i cs)

-- a second, and then the others
polled_step :
    (ask : ℕ → String → Bool) (rounds i : ℕ) (cs : List Checked)
    → map (polled ask rounds (suc i)) (map (marked (ask i)) cs) ≡ map (polled ask (suc rounds) i) cs
unfolding marked
polled_step ask rounds i [] = refl
polled_step ask rounds i (c ∷ cs) = ground (arith, polled_step ask rounds i cs)

wait_lem :
    (ask : ℕ → String → Bool) (rounds i : ℕ) (cs : List Checked)
    → wait ask rounds i cs (count cs) ≡ map (polled ask rounds i) cs
unfolding wait
wait_lem ask zero i cs = sym (polled_none ask i cs)
wait_lem ask (suc rounds) i cs = elim (Bool-cases (ltb (count cs) (length cs))) [
  | inl more ↦
      let (same, counted) = mark_lem (ask i) cs (count cs) in
      let counted' : (mark (ask i) cs (count cs)).1 ≡ count (map (marked (ask i)) cs) =
        omega arith in
      rw (more, same, counted')
        (wait_lem ask rounds (suc i) (map (marked (ask i)) cs) ∙ polled_step ask rounds i cs)
  | inr done ↦ rw done (sym (polled_all ask (suc rounds) i cs (ground arith)))
]

module _ {D : Type 0} (dd : Daemon D) (told : ℕ → String → Result Error (List Connection)) where
  -- `check-connection` stops asking when all its connectors are connected, and counts a
  -- connector once; yet it reports of each what a check would that asks of every connector in every
  -- second: connected if it was at first, or is found so in one of the seconds.
  pub check_connection_lem :
      (arg : String) (wait_for : ℤ) (w : World D)
      → check_connection dd told arg wait_for w
        ≡ map
            (polled (λ (i : ℕ). is_connected dd told w (suc i)) (rounds_of wait_for) 0)
            (to_check dd told arg w)
  unfolding check_connection
  check_connection_lem arg wait_for w =
      wait_lem (λ (i : ℕ). is_connected dd told w (suc i)) (rounds_of wait_for) 0
        (to_check dd told arg w)
