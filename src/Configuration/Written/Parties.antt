-- ===== src/Configuration/Written/Parties.antt =====
-- The parties in the configuration of a chain.
use reliable_broadcast.Prelude.{
  ℕ, ◌+◌, ◌<◌, ◌≡◌, refl, ◌∙◌, zero, suc, Eq, true, false, Option, none, some, List, [], ◌∷◌, arith,
  length, nat_eq, nat_beq_iff, if◌then◌else◌, if_true, if_false, Text, ◌==◌, Bool-cases, inl, inr,
  contains, Distinct, get_elem?,
}
use reliable_broadcast.Configuration.{Party, parties_from, chain_conf}

-- The party that a list has under an id.
unfoldable pub party_at : ℕ → List Party → Option Party
party_at id [] = none
party_at id (p ∷ parties) = if p.id == id then some p else party_at id parties

-- The parties of a machine among others: those that differ from it.
module _ {Machine : Type 0} ⦃e : Eq Machine⦄ (ip_of : Machine → Text) where
  -- The machine at a place, if it is another one, with the place as its id.
  abbrev pub other_party : Machine → ℕ → Option Machine → Option Party
  other_party n j none = none
  other_party n j (some m) =
      if n == m then none else some (record { id = j; ip = ip_of m; port = 1400 })

  no_earlier :
      (k id : ℕ) (n : Machine) (nodes : List Machine)
      → id < k
      → party_at id (parties_from ip_of k n nodes) ≡ none
  unfolding party_at parties_from
  no_earlier k id n [] h = refl
  no_earlier k id n (m ∷ nodes) h =
      ground (arith, h, no_earlier (suc k) id n nodes, nat_beq_iff k id)

  pub party_at-parties_from :
      (k d id : ℕ) (n : Machine) (nodes : List Machine)
      → id ≡ k + d
      → party_at id (parties_from ip_of k n nodes) ≡ other_party n id (get_elem? nodes d)
  unfolding party_at parties_from get_elem?
  party_at-parties_from k d id n [] h = refl
  party_at-parties_from k zero id n (m ∷ nodes) h = elim (Bool-cases (n == m)) [
    | inl same ↦ rw same (no_earlier (suc k) id n nodes (omega (arith, h)))
    | inr other ↦
        let here : k ≡ id = omega (arith, h) in
        rw (other, here) (if_true _ _ ((nat_beq_iff id id).1 refl))
  ]
  party_at-parties_from k (suc d) id n (m ∷ nodes) h =
      let rest = party_at-parties_from (suc k) d id n nodes (omega (arith, h)) in
      elim (Bool-cases (n == m)) [
        | inl same ↦ rw same rest
        | inr other ↦
            rw other (if_false {b = k == id} _ _ (ground (arith, h, nat_beq_iff k id)) ∙ rest)
      ]

  length-parties_absent :
      (j : ℕ) (n : Machine) (nodes : List Machine)
      → contains nodes n ≡ false
      → length (parties_from ip_of j n nodes) ≡ length nodes
  unfolding parties_from contains
  length-parties_absent j n [] h = refl
  length-parties_absent j n (m ∷ nodes) h =
      ground (arith, length-parties_absent (suc j) n nodes, e.beq_iff n m, e.beq_iff m n)

  length-parties :
      (j : ℕ) (n : Machine) (nodes : List Machine)
      → Distinct nodes
      → contains nodes n ≡ true
      → length (parties_from ip_of j n nodes) + 1 ≡ length nodes
  unfolding parties_from contains
  length-parties j n [] d h = cc
  length-parties j n (m ∷ nodes) d h = elim (Bool-cases (n == m)) [
    | inl here ↦
        let same : n ≡ m = (e.beq_iff n m).0 here in
        let absent : contains nodes n ≡ false = rw same d.0 in
        rw here (omega (arith, length-parties_absent (suc j) n nodes absent))
    | inr there ↦
        let later : contains nodes n ≡ true =
          ground (arith, h, there, e.beq_iff m n, e.beq_iff n m) in
        rw there (omega (arith, length-parties (suc j) n nodes d.1 later))
  ]

-- In the chain configuration of one of several machines, all different, each other machine is the
-- party whose id is its place in the list, with its ip and the port 1400, the machine itself is no
-- party, and there is one party fewer than there are machines.
pub chain_conf-others :
    {Machine : Type 0} ⦃e : Eq Machine⦄ (ip_of : Machine → Text) (nodes : List Machine)
    (n : Machine) (j : ℕ)
    → Distinct nodes
    → contains nodes n ≡ true
    → (party_at j (chain_conf ip_of n nodes).nodes ≡ other_party ip_of n j (get_elem? nodes j))
      × (length (chain_conf ip_of n nodes).nodes + 1 ≡ length nodes)
unfolding chain_conf
chain_conf-others ip_of nodes n j d h =
    (party_at-parties_from ip_of 0 j j n nodes (omega arith), length-parties ip_of 0 n nodes d h)
