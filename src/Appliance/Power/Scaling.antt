-- ===== src/Appliance/Power/Scaling.antt =====
-- crates/myriadmesh-appliance/src/power.rs: the transmit power that a battery level gives.
use mathlib.Core.List.{Mem, mem-cons_self, mem-cons_of_mem}
use myriadmesh_server.Base.{
  ℕ, ◌≤◌, ◌<◌, ◌≡◌, ◌⊎◌, inl, inr, refl, sym, ap, true, false, [], ◌∷◌, ◌++◌, ◌∙◌, if◌then◌else◌,
  All, arith, ltb, leb, eqb, Bool-cases, ◌&&◌, any_of,
}
use myriadmesh_server.Base.Map.{Map}
use myriadmesh_server.Base.Members.{All-mono}
use myriadmesh_server.Appliance.Power.{closer, closest_entry, tx_power, tx_step, sub8}

-- With an entry at or below the level of the battery and one above it of less power, the
-- transmission power depends on the order in which the table is read.
pub tx_power_by_order :
    (percent low high p q : ℕ)
    → low ≤ percent
    → percent < high
    → q < p
    → p ≤ 30
    → (tx_power percent 30 ((low, p) ∷ (high, q) ∷ []) ≡ q)
      × (tx_power percent 30 ((high, q) ∷ (low, p) ∷ []) ≡ p)
unfolding tx_power
tx_power_by_order percent low high p q hl hh below fits = ground (arith, hl, hh, below, fits)

module _ (percent m : ℕ) where
  -- The powers of the entries at or below the level are at most `m`, those above it at least.
  abbrev pub Divides : ℕ × ℕ → Type 0
  Divides e = (e.0 ≤ percent → e.1 ≤ m) × (percent < e.0 → m ≤ e.1)

  tx_power_reaches :
      (result : ℕ) (table : Map ℕ ℕ)
      → All Divides table
      → m ≤ result
      → (result ≡ m) ⊎ (any_of (λ e. ltb percent e.0 && eqb e.1 m) table ≡ true)
      → tx_power percent result table ≡ m
  unfolding tx_power any_of
  tx_power_reaches result [] a above found = ground (arith, found)
  tx_power_reaches result ((t, p) ∷ rest) a above found =
      tx_power_reaches (tx_step percent result (t, p)) rest a.1
        (ground (arith, a.0.0, a.0.1, above)) (ground (arith, a.0.0, a.0.1, above, found))

  start_cases :
      (table : Map ℕ ℕ)
      → (m ≡ 30) ⊎ (any_of (λ e. ltb percent e.0 && eqb e.1 m) table ≡ true)
      → (30 ≡ m) ⊎ (any_of (λ e. ltb percent e.0 && eqb e.1 m) table ≡ true)
  start_cases table (inl same) = inl (sym same)
  start_cases table (inr found) = inr found

  -- Where the powers of the entries at or below the level of the battery are at most some
  -- power, not above 30, and those of the entries above it at least that power, and it is 30
  -- or the power of an entry above the level, the transmission power is that power, whatever
  -- the order of the table.
  pub tx_power_lem :
      (table : Map ℕ ℕ)
      → All Divides table
      → m ≤ 30
      → (m ≡ 30) ⊎ (any_of (λ e. ltb percent e.0 && eqb e.1 m) table ≡ true)
      → tx_power percent 30 table ≡ m
  tx_power_lem table a fits found = tx_power_reaches 30 table a fits (start_cases table found)

-- the greatest, and the least, of a power and those of the entries
abbrev pub greatest : ℕ → Map ℕ ℕ → ℕ
greatest x [] = x
greatest x (e ∷ rest) = greatest (if ltb x e.1 then e.1 else x) rest

abbrev pub least : ℕ → Map ℕ ℕ → ℕ
least x [] = x
least x (e ∷ rest) = least (if ltb e.1 x then e.1 else x) rest

module _ (percent : ℕ) where
  -- the entries are at or below the level of the battery
  abbrev pub AreBelow : Map ℕ ℕ → Type 0
  AreBelow = All (λ e. e.0 ≤ percent)

  -- the entries are above the level of the battery
  abbrev pub AreAbove : Map ℕ ℕ → Type 0
  AreAbove = All (λ e. percent < e.0)

  tx_power-append :
      (x : ℕ) (first second : Map ℕ ℕ)
      → tx_power percent x (first ++ second) ≡ tx_power percent (tx_power percent x first) second
  unfolding tx_power
  tx_power-append x [] second = refl
  tx_power-append x (e ∷ first) second = tx_power-append (tx_step percent x e) first second

  tx_power-below :
      (x : ℕ) (lows : Map ℕ ℕ) → AreBelow lows → tx_power percent x lows ≡ greatest x lows
  unfolding tx_power
  tx_power-below x [] below = refl
  tx_power-below x ((t, p) ∷ lows) below =
      let step : tx_step percent x (t, p) ≡ (if ltb x p then p else x) = ground (arith, below.0) in
      rw step (tx_power-below (if ltb x p then p else x) lows below.1)

  tx_power-above :
      (x : ℕ) (highs : Map ℕ ℕ) → AreAbove highs → tx_power percent x highs ≡ least x highs
  unfolding tx_power
  tx_power-above x [] above = refl
  tx_power-above x ((t, p) ∷ highs) above =
      let step : tx_step percent x (t, p) ≡ (if ltb p x then p else x) = ground (arith, above.0) in
      rw step (tx_power-above (if ltb p x then p else x) highs above.1)

  -- Where the entries at or below the level of the battery are read first, the transmission
  -- power is the least of the powers above the level and of the greatest of 30 and the powers
  -- at or below it; where those above the level are read first, it is the greatest of the
  -- powers at or below the level and of the least of 30 and the powers above it.
  pub tx_power_orders :
      (lows highs : Map ℕ ℕ)
      → AreBelow lows
      → AreAbove highs
      → (tx_power percent 30 (lows ++ highs) ≡ least (greatest 30 lows) highs)
        × (tx_power percent 30 (highs ++ lows) ≡ greatest (least 30 highs) lows)
  tx_power_orders lows highs below above = (
    tx_power-append 30 lows highs
        ∙ ap (λ x. tx_power percent x highs) (tx_power-below 30 lows below)
        ∙ tx_power-above (greatest 30 lows) highs above,
    tx_power-append 30 highs lows
        ∙ ap (λ x. tx_power percent x lows) (tx_power-above 30 highs above)
        ∙ tx_power-below (least 30 highs) lows below,
  )

-- What the search for the closest entry ends with.
record IsClosest (percent : ℕ) (start : ℕ × ℕ) (table : Map ℕ ℕ) (r : ℕ × ℕ) : Type 0 where
  origin : (r ≡ start) ⊎ (Mem r table × (r.0 ≤ percent))
  nearest : All (λ e. e.0 ≤ percent → sub8 percent r.0 ≤ sub8 percent e.0) table
  below_start : sub8 percent r.0 ≤ sub8 percent start.0

IsClosest-hit :
    (percent : ℕ) (start entry : ℕ × ℕ) (rest : Map ℕ ℕ) (r : ℕ × ℕ)
    → (leb entry.0 percent && ltb (sub8 percent entry.0) (sub8 percent start.0)) ≡ true
    → IsClosest percent entry rest r
    → IsClosest percent start (entry ∷ rest) r
IsClosest-hit percent start entry rest r hit c = record {
  origin = inr (elim c.origin [
    | inl same ↦ (rw same mem-cons_self, rw same (ground (arith, hit)))
    | inr (m, low) ↦ (mem-cons_of_mem entry m, low)
  ]);
  nearest = (λ low. c.below_start, c.nearest);
  below_start = ground (arith, c.below_start, hit);
}

IsClosest-miss :
    (percent : ℕ) (start entry : ℕ × ℕ) (rest : Map ℕ ℕ) (r : ℕ × ℕ)
    → (leb entry.0 percent && ltb (sub8 percent entry.0) (sub8 percent start.0)) ≡ false
    → IsClosest percent start rest r
    → IsClosest percent start (entry ∷ rest) r
IsClosest-miss percent start entry rest r miss c = record {
  origin = elim c.origin [
    | inl same ↦ inl same
    | inr (m, low) ↦ inr (mem-cons_of_mem entry m, low)
  ];
  nearest = (λ low. ground (arith, c.below_start, miss, low), c.nearest);
  below_start = c.below_start;
}

IsClosest-step :
    (percent : ℕ) (start entry : ℕ × ℕ) (rest : Map ℕ ℕ) (r : ℕ × ℕ)
    → IsClosest percent (closer percent start entry) rest r
    → IsClosest percent start (entry ∷ rest) r
IsClosest-step percent start entry rest r c =
    elim (Bool-cases (leb entry.0 percent && ltb (sub8 percent entry.0) (sub8 percent start.0))) [
      | inl hit ↦ IsClosest-hit percent start entry rest r hit (rw hit at c)
      | inr miss ↦ IsClosest-miss percent start entry rest r miss (rw miss at c)
    ]

closest_entry-IsClosest :
    (percent : ℕ) (start : ℕ × ℕ) (table : Map ℕ ℕ)
    → IsClosest percent start table (closest_entry percent start table)
unfolding closest_entry
closest_entry-IsClosest percent start [] = record {
  origin = inl refl;
  nearest = tt;
  below_start = omega arith;
}
closest_entry-IsClosest percent start (entry ∷ rest) =
    IsClosest-step percent start entry rest
      (closest_entry percent (closer percent start entry) rest)
      (closest_entry-IsClosest percent (closer percent start entry) rest)

-- Below the full level, the entry that is chosen is the one of the highest percentage at or
-- below the level, or the default where no entry is at or below it, in a table of bytes.
pub closest_entry-nearest :
    (percent : ℕ) (table : Map ℕ ℕ)
    → percent < 100
    → let r = closest_entry percent (100, 30) table in
      ((r ≡ (100, 30)) × All (λ e. percent < e.0) table)
      ⊎ (Mem r table × (r.0 ≤ percent) × All (λ e. e.0 ≤ percent → e.0 ≤ r.0) table)
closest_entry-nearest percent table below =
    let r = closest_entry percent (100, 30) table in
    let c = closest_entry-IsClosest percent (100, 30) table in
    elim c.origin [
      | inl same ↦
          inl (
            same,
            All-mono (λ e h. ground (arith, h, ap (λ (x : ℕ × ℕ). x.0) same)) table c.nearest,
          )
      | inr (m, low) ↦ inr (m, low, All-mono (λ e h at. ground (arith, h, low, at)) table c.nearest)
    ]
