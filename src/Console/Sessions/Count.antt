-- ===== src/Console/Sessions/Count.antt =====
-- What the count of consoles is worth.
use seapath_webui.Common.{
  ℕ, zero, suc, ◌+◌, ◌≤◌, length, Option, List, [], ◌∷◌, ◌++◌, ◌≡◌, refl, ap, arith, Text,
}
use seapath_webui.Common.Int.{ℤ}
use seapath_webui.Console.Targets.{granted}
use seapath_webui.Console.Sessions.Admitted.{
  prepare_terminal-IsAdmitted, prepare_display-IsAdmitted,
}
use seapath_webui.Console.Sessions.{
  Settings, Surroundings, Opened, Machine, count_opened, count_closed, Step, asks_terminal,
  asks_display, opens, fails, leaves, closes, Reach, start, next, at_start, prepare_terminal,
}

length-middle :
    {A : Type 0} (pre post : List A) (x : A) → length (pre ++ x ∷ post) ≡ length (pre ++ post) + 1
length-middle [] post x = omega arith
length-middle (y ∷ pre) post x = omega (arith, length-middle pre post x)

-- Whatever is asked, opened and closed at once, the count is the number of consoles that are open or
-- whose end is awaited: none is counted twice, and none forgotten.
pub Reach-count :
    {settings : Settings} (m : Machine)
    → Reach settings m
    → m.active ≡ length m.consoles + length m.closing
unfolding count_opened count_closed
Reach-count _ start = refl
Reach-count _ (next {mid} r (asks_terminal around columns lines host serial opened e)) =
    Reach-count mid r
Reach-count _ (next {mid} r (asks_display around guest_name opened e)) = Reach-count mid r
Reach-count _ (next {mid} r (opens pre post opened e)) = omega (arith, Reach-count mid r)
Reach-count _ (next {mid} r (fails pre post opened e)) = Reach-count mid r
Reach-count _ (next {mid} r (leaves pre post opened e)) =
    omega (arith, Reach-count mid r, length-middle pre post opened, ap length e)
Reach-count _ (next {mid} r (closes pre post opened e)) =
    omega (arith, Reach-count mid r, length-middle pre post opened, ap length e)

-- A step that asks while another opening awaits the adapter is not calm.
abbrev pub IsCalm : {settings : Settings} {from to : Machine} → Step settings from to → Type 0
IsCalm {from} (asks_terminal around columns lines host serial opened e) = from.opening ≡ []
IsCalm {from} (asks_display around guest_name opened e) = from.opening ≡ []
IsCalm (opens pre post opened e) = Unit
IsCalm (fails pre post opened e) = Unit
IsCalm (leaves pre post opened e) = Unit
IsCalm (closes pre post opened e) = Unit

abbrev pub AllCalm : {settings : Settings} {m : Machine} → Reach settings m → Type 0
AllCalm start = Unit
AllCalm (next r step) = AllCalm r × IsCalm step

-- Where no opening is asked for while another awaits the adapter, the consoles that are open, with the
-- one being opened, are never more than the most that the node allows.
pub Reach-limit :
    {settings : Settings} (m : Machine) (r : Reach settings m)
    → AllCalm r
    → m.active + length m.opening ≤ settings.max_sessions
unfolding count_opened count_closed
Reach-limit _ start calm = omega arith
Reach-limit {settings} _ (next {mid} r (asks_terminal around columns lines host serial opened e))
      calm =
    let room =
      (prepare_terminal-IsAdmitted settings around columns lines host serial mid.active opened
        e).room in
    omega (arith, room, ap length calm.1)
Reach-limit {settings} _ (next {mid} r (asks_display around guest_name opened e)) calm =
    let room = (prepare_display-IsAdmitted settings around guest_name mid.active opened e).room in
    omega (arith, room, ap length calm.1)
Reach-limit _ (next {mid} r (opens pre post opened e)) calm =
    omega (arith, Reach-limit mid r calm.0, length-middle pre post opened, ap length e)
Reach-limit _ (next {mid} r (fails pre post opened e)) calm =
    omega (arith, Reach-limit mid r calm.0, length-middle pre post opened, ap length e)
Reach-limit _ (next {mid} r (leaves pre post opened e)) calm = Reach-limit mid r calm.0
Reach-limit _ (next {mid} r (closes pre post opened e)) calm =
    omega (arith, Reach-limit mid r calm.0)

abbrev times : ℕ → Opened → List Opened
times zero opened = []
times (suc n) opened = opened ∷ times n opened

module _ (settings : Settings) (around : Surroundings) (columns lines : ℤ)
    (host serial : Option Text) (opened : Opened)
    (asked : prepare_terminal settings around columns lines host serial 0 ≡ granted opened) where
  all_asked : (n : ℕ) → Reach settings (record at_start { opening = times n opened })
  all_asked zero = start
  all_asked (suc n) =
      next (all_asked n) (asks_terminal around columns lines host serial opened asked)

  all_opened :
      (n k : ℕ) (consoles : List Opened)
      → Reach settings
          (record { active = k; opening = times n opened; consoles = consoles; closing = [] })
      → (m : Machine) × Reach settings m × (m.active ≡ n + k)
  unfolding count_opened
  all_opened zero k consoles r = (_, r, omega arith)
  all_opened (suc n) k consoles r =
      let (m, reached, count) =
        all_opened n (k + 1) (opened ∷ consoles) (next r (opens [] (times n opened) opened refl)) in
      (m, reached, omega (arith, count))

  -- A terminal that may be opened while none is open may be opened any number of times at once: for
  -- every number there is an order of the requests after which that many consoles are open, whatever the
  -- most that the node allows. The limit is read before the adapter is awaited, and counted after.
  pub Reach-over_limit : (n : ℕ) → (m : Machine) × Reach settings m × (m.active ≡ n)
  Reach-over_limit n =
      let (m, reached, count) = all_opened n 0 [] (all_asked n) in
      (m, reached, omega (arith, count))
