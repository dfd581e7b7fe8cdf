-- ===== src/Ledger/Consensus/Selection.antt =====
-- crates/myriadmesh-ledger/src/consensus.rs: the eligible creators and the choice of the next one.
use mathlib.Core.List.{Perm, Mem}
use mathlib.Core.List.Perm
use native.Mathlib.Decide.{dec_le}
use native.Mathlib.Nat.{mod-lt, mod-add-mod, add-mod_right, mod-eq_of_lt}
use myriadmesh_server.Base.{
  ℕ, ◌+◌, ◌-◌, ◌%◌, ◌<◌, ◌≡◌, ◌↔◌, true, none, some, List, [], ◌∷◌, length, is_empty, get_elem?,
  arith, inl, inr, Bool-cases, refl, sym, ap, ◌∙◌, All, All-get_elem?, Option-cases, if◌then◌else◌,
}
use myriadmesh_server.Base.Bytes.{
  bytes_eq, bytes_leb, bytes_leb_total, bytes_leb_antisymm, bytes_leb_trans, Bytes-set,
}
use myriadmesh_server.Base.Members.{Mem-index, select-perm, All-mono}
use myriadmesh_server.Base.Map
use myriadmesh_server.Base.Map.{Map}
use myriadmesh_server.Base.Sort.{
  sort_by, sort_by-eq_of_perm, length-sort_by, sort_by-perm, All-sort_by,
}
use myriadmesh_server.Ledger.Entry.{NodeId}
use myriadmesh_server.Ledger.Float.{Float}
use myriadmesh_server.Ledger.Consensus.{
  ConsensusManager, NodeReputation, score, can_create_blocks, get_eligible_creators,
  select_next_creator,
}

-- A whole turn of the index meets every value below the modulus.
offset_to : (n h i : ℕ) → i < n → (k : ℕ) × (k < n) × ((h + k) % n ≡ i)
offset_to n h i inside = elim (dec_le (h % n) i) [
  | yes before ↦ (
    i - h % n,
    omega arith,
    sym (mod-add-mod h n (i - h % n)) ∙ ap (λ t. t % n) (omega arith) ∙ mod-eq_of_lt inside,
  )
  | no after ↦
      let below : h % n < n = mod-lt h (omega arith) in
      let sum_b : h % n + (i + n - h % n) ≡ i + n = omega arith in
      (
        i + n - h % n,
        omega arith,
        sym (mod-add-mod h n (i + n - h % n))
            ∙ ap (λ t. t % n) sum_b
            ∙ add-mod_right i n
            ∙ mod-eq_of_lt inside,
      )
]

module _ (f : Float) where
  -- A node is in the list of eligible creators exactly when it may create blocks, where no
  -- node stands twice in the table.
  pub eligible_iff :
      (m : ConsensusManager) (n : NodeId)
      → Map.Distinct m.reputations
      → Mem n (get_eligible_creators f m) ↔ (can_create_blocks f m n ≡ true)
  unfolding get_eligible_creators can_create_blocks
  eligible_iff m n d = (
    λ inside.
        let (i, below, at) = Mem-index n (get_eligible_creators f m) inside in
        let (r, found, keeps) =
          All-get_elem? (Map.Kept (λ _ r. f.le m.min_reputation (score f r)) m.reputations)
            (get_eligible_creators f m) i n
            (Map.All-Kept (λ _ r. f.le m.min_reputation (score f r)) m.reputations d) at in
        ground arith,
    λ can. elim (Option-cases (Map.get m.reputations n)) [
      | inl e ↦ absurd (ground arith)
      | inr (r, e) ↦
          Map.Mem-retain (λ _ r. f.le m.min_reputation (score f r)) m.reputations n r e
            (ground arith)
    ],
  )

  All-eligible :
      (m : ConsensusManager)
      → Map.Distinct m.reputations
      → All (λ x. can_create_blocks f m x ≡ true) (get_eligible_creators f m)
  unfolding get_eligible_creators can_create_blocks
  All-eligible m d =
      All-mono (λ n kept. let (r, found, keeps) = kept in ground arith) (get_eligible_creators f m)
        (Map.All-Kept (λ _ r. f.le m.min_reputation (score f r)) m.reputations d)

  select-eq-get :
      (m : ConsensusManager) (h : ℕ)
      → 0 < length (get_eligible_creators f m)
      → select_next_creator f m h
        ≡ get_elem?
            (sort_by bytes_leb (get_eligible_creators f m))
            (h % length (get_eligible_creators f m))
  unfolding select_next_creator
  select-eq-get m h some_node = ground arith

  -- the choice from a list of eligible nodes
  pick-eq_of_perm :
      (xs ys : List NodeId) (h : ℕ)
      → Perm xs ys
      → (if is_empty xs then none else get_elem? (sort_by bytes_leb xs) (h % length xs))
        ≡ (if is_empty ys then none else get_elem? (sort_by bytes_leb ys) (h % length ys))
  pick-eq_of_perm xs ys h p =
      let sorted =
        sort_by-eq_of_perm bytes_leb Bytes-set bytes_leb_total bytes_leb_antisymm bytes_leb_trans xs
          ys p in
      go xs ys sorted
        (sym (length-sort_by bytes_leb xs) ∙ ap length sorted ∙ length-sort_by bytes_leb ys)
    where
      go :
          (xs ys : List NodeId)
          → sort_by bytes_leb xs ≡ sort_by bytes_leb ys
          → length xs ≡ length ys
          → (if is_empty xs then none else get_elem? (sort_by bytes_leb xs) (h % length xs))
            ≡ (if is_empty ys then none else get_elem? (sort_by bytes_leb ys) (h % length ys))
      go [] [] s n = refl
      go [] (y ∷ ys) s n = absurd (omega arith)
      go (x ∷ xs) [] s n = absurd (omega arith)
      go (x ∷ xs) (y ∷ ys) s n = cc (s, n)

  -- Two managers with one threshold whose tables hold the same reputations in another order
  -- select the same creator at a height.
  pub select_next_creator_deterministic :
      (m n : ConsensusManager) (h : ℕ)
      → m.min_reputation ≡ n.min_reputation
      → Perm m.reputations n.reputations
      → select_next_creator f m h ≡ select_next_creator f n h
  unfolding select_next_creator get_eligible_creators
  select_next_creator_deterministic m n h same p =
      pick-eq_of_perm (get_eligible_creators f m) (get_eligible_creators f n) h (
        rw same (
          Perm.map (λ (x : NodeId × NodeReputation). x.0)
            (select-perm (λ x. f.le n.min_reputation (score f x.1)) m.reputations n.reputations p)))

  -- From any height on, a node that may create blocks is selected within as many heights as
  -- there are such nodes, where no node stands twice in the table.
  pub select_next_creator_rotates :
      (m : ConsensusManager) (n : NodeId) (h : ℕ)
      → Map.Distinct m.reputations
      → can_create_blocks f m n ≡ true
      → (k : ℕ) × (k < length (get_eligible_creators f m))
        × (select_next_creator f m (h + k) ≡ some n)
  select_next_creator_rotates m n h d can =
      let eligible = get_eligible_creators f m in
      let sorted = sort_by bytes_leb eligible in
      let (i, below, at) =
        Mem-index n sorted
          ((Perm.mem_iff (sort_by-perm bytes_leb eligible)).1 ((eligible_iff m n d).1 can)) in
      let below' : i < length eligible = omega (arith, length-sort_by {0} bytes_leb eligible) in
      let (k, turn, meets) = offset_to (length eligible) h i below' in
      (k, turn, select-eq-get m (h + k) (omega arith) ∙ ap (get_elem? sorted) meets ∙ at)

  -- A node that is selected may create blocks, where no node stands twice in the table.
  pub select_next_creator_eligible :
      (m : ConsensusManager) (h : ℕ) (n : NodeId)
      → Map.Distinct m.reputations
      → select_next_creator f m h ≡ some n
      → can_create_blocks f m n ≡ true
  unfolding select_next_creator
  select_next_creator_eligible m h n d chosen =
      elim (Bool-cases (is_empty (get_eligible_creators f m))) [
        | inl e ↦ absurd (ground arith)
        | inr e ↦
            All-get_elem? (λ x. can_create_blocks f m x ≡ true)
              (sort_by bytes_leb (get_eligible_creators f m))
              (h % length (get_eligible_creators f m)) n
              (All-sort_by bytes_leb (λ x. can_create_blocks f m x ≡ true)
                (get_eligible_creators f m) (All-eligible m d))
              (ground arith)
      ]
