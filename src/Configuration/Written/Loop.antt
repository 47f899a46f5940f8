-- ===== src/Configuration/Written/Loop.antt =====
-- The files that the generator leaves.
use reliable_broadcast.Prelude.{
  ℕ, ◌+◌, ◌<◌, ◌≡◌, refl, sym, ap, ◌∙◌, zero, suc, Eq, true, some, List, [], ◌∷◌, arith, nat_eq,
  list_eq, beq_refl, if◌then◌else◌, if_true, if_false, Text, codes, ◌==◌, contains, get_elem?,
}
use reliable_broadcast.Result.{ok, ◌>>=◌}
use reliable_broadcast.Dict.{lookup, insert, lookup-insert}
use reliable_broadcast.Files.{FilePath, Disk, parent}
use reliable_broadcast.Files.Made.{on_way, write_lem}
use reliable_broadcast.Configuration.{
  Content, ChainConf, chain_json, node_json, node_dir, chain_path, node_path, chain_conf, node_conf,
  write_node, write_nodes, generate_conf,
}
use reliable_broadcast.Configuration.Written.{
  IsClear, nodes_dir, shorter, short, way_nodes, way_node, free_nodes, free_node, make-IsClear,
  written-IsClear, beq_differs, chain_path-injective, node_path-injective, paths_differ,
}
use reliable_broadcast.Configuration.Written.Parties.{party_at, other_party, party_at-parties_from}

on_own_way : (i : ℕ) → on_way [] (node_dir i) (node_dir i) ≡ true
unfolding on_way node_dir
on_own_way i = ground (arith, beq_refl (node_dir i))

module _ {Machine : Type 0} ⦃e : Eq Machine⦄ (ip_of : Machine → Text) (nodes : List Machine) where
  -- A turn writes the two files of its machine.
  write_node_lem :
      (i : ℕ) (n : Machine) (disk : Disk Content)
      → IsClear disk
      → (disk' : Disk Content) × (write_node ip_of nodes i n disk ≡ ok disk')
        × IsClear disk'
        × ((q : FilePath)
            → lookup q disk'.entries ≡ (
                if node_path i == q
                then some (node_json (node_conf ip_of i n))
                else if chain_path i == q
                then some (chain_json (chain_conf ip_of n nodes))
                else lookup q disk.entries))
  unfolding write_node
  write_node_lem i n disk c =
      let X = chain_json (chain_conf ip_of n nodes) in
      let Y = node_json (node_conf ip_of i n) in
      let (a, ea, ma, ca) =
        make-IsClear nodes_dir disk (free_nodes disk c) c.above
          (λ j. (way_nodes _ (shorter j).0, way_nodes _ (shorter j).1)) c in
      let (b, eb, mb, cb) =
        make-IsClear (node_dir i) a (free_node i a ca) (ca.node_dir i)
          (λ j.
            (way_node i _ (shorter j).0 (short i j).0, way_node i _ (shorter j).1 (short i j).1))
          ca in
      let there : contains b.directories (node_dir i) ≡ true = mb.there (on_own_way i) in
      let chained : Disk Content = record b { entries = insert (chain_path i) X b.entries } in
      let cc' =
        written-IsClear (chain_path i) X b (λ h. (shorter i).0 (sym h))
          (λ j h. (short j i).0 (sym h)) cb in
      (
        record b { entries = insert (node_path i) Y (insert (chain_path i) X b.entries) },
        rw
            (
              ea,
              eb,
              write_lem (chain_path i) X b (cb.chain_path i)
                  (unfold parent chain_path node_dir in there),
              write_lem (node_path i) Y chained (cb.node_path i)
                  (unfold parent node_path node_dir in there),
            )
            refl,
        written-IsClear (node_path i) Y chained (λ h. (shorter i).1 (sym h))
            (λ j h. (short j i).1 (sym h)) cc',
        λ q.
            lookup-insert (node_path i) q Y _
            ∙ ap (λ r. if node_path i == q then some Y else r)
                (lookup-insert (chain_path i) q X b.entries
                  ∙ ap (λ r. if chain_path i == q then some X else r)
                      (ap (lookup q) (mb.entries ∙ ma.entries))),
      )

  -- The one turn, as `write_node_lem` describes it.
  abbrev Turn : ℕ → Machine → Disk Content → Disk Content → Type 0
  Turn i n disk disk' =
      (q : FilePath)
      → lookup q disk'.entries ≡ (
          if node_path i == q
          then some (node_json (node_conf ip_of i n))
          else if chain_path i == q
          then some (chain_json (chain_conf ip_of n nodes))
          else lookup q disk.entries)

  -- The files of the turns before `i` are left.
  abbrev Kept : ℕ → Disk Content → Disk Content → Type 0
  Kept i disk disk' =
      (j : ℕ)
      → j < i
      → (lookup (chain_path j) disk'.entries ≡ lookup (chain_path j) disk.entries)
        × (lookup (node_path j) disk'.entries ≡ lookup (node_path j) disk.entries)

  -- The files of the turns from `i` on are there.
  abbrev Done : ℕ → List Machine → Disk Content → Type 0
  Done i more disk' =
      (d j : ℕ) (n : Machine)
      → j ≡ i + d
      → get_elem? more d ≡ some n
      → (lookup (chain_path j) disk'.entries ≡ some (chain_json (chain_conf ip_of n nodes)))
        × (lookup (node_path j) disk'.entries ≡ some (node_json (node_conf ip_of j n)))

  Turn-Kept :
      (i : ℕ) (n : Machine) (disk disk' : Disk Content) → Turn i n disk disk' → Kept i disk disk'
  Turn-Kept i n disk disk' turn j h = (
    turn (chain_path j)
        ∙ (if_false _ _
              (beq_differs (node_path i) (chain_path j) (λ same. paths_differ j i (sym same)))
            ∙ if_false _ _ (
                beq_differs (chain_path i) (chain_path j)
                  (λ same. omega (arith, h, chain_path-injective i j same)))),
    turn (node_path j)
        ∙ (if_false _ _ (
              beq_differs (node_path i) (node_path j)
                (λ same. omega (arith, h, node_path-injective i j same)))
            ∙ if_false _ _ (beq_differs (chain_path i) (node_path j) (paths_differ i j))),
  )

  Turn-now :
      (i : ℕ) (n : Machine) (disk disk' : Disk Content)
      → Turn i n disk disk'
      → (lookup (chain_path i) disk'.entries ≡ some (chain_json (chain_conf ip_of n nodes)))
        × (lookup (node_path i) disk'.entries ≡ some (node_json (node_conf ip_of i n)))
  Turn-now i n disk disk' turn = (
    turn (chain_path i)
        ∙ (if_false _ _
              (beq_differs (node_path i) (chain_path i) (λ same. paths_differ i i (sym same)))
            ∙ if_true _ _ (beq_refl (chain_path i))),
    turn (node_path i) ∙ if_true _ _ (beq_refl (node_path i)),
  )

  Done-cons :
      (i : ℕ) (m : Machine) (more : List Machine) (disk a b : Disk Content)
      → Turn i m disk a
      → Kept (suc i) a b
      → Done (suc i) more b
      → Done i (m ∷ more) b
  unfolding get_elem?
  Done-cons i m more disk a b turn kept later zero j n place h =
      let here : j ≡ i = omega (arith, place) in
      let same : n ≡ m = cc in
      let (chain, node) = Turn-now i m disk a turn in
      let (chain_kept, node_kept) = kept i (omega arith) in
      rw (here, same) (chain_kept ∙ chain, node_kept ∙ node)
  Done-cons i m more disk a b turn kept later (suc d) j n place h =
      later d j n (omega (arith, place)) h

  write_nodes_lem :
      (i : ℕ) (more : List Machine) (disk : Disk Content)
      → IsClear disk
      → (disk' : Disk Content) × (write_nodes ip_of nodes i more disk ≡ ok disk')
        × Kept i disk disk'
        × Done i more disk'
  unfolding write_nodes get_elem?
  write_nodes_lem i [] disk c = (disk, refl, λ j h. (refl, refl), λ d j n place h. absurd (cc))
  write_nodes_lem i (m ∷ more) disk c =
      let (a, ea, ca, turn) = write_node_lem i m disk c in
      let (b, eb, kept, done) = write_nodes_lem (suc i) more a ca in
      (
        b,
        ap (λ r. r >>= write_nodes ip_of nodes (suc i) more) ea ∙ eb,
        λ j h.
            let (chain, node) = Turn-Kept i m disk a turn j h in
            let (chain_kept, node_kept) = kept j (omega (arith, h)) in
            (chain_kept ∙ chain, node_kept ∙ node),
        Done-cons i m more disk a b turn kept done,
      )

-- On a disk where no file stands in the place of a directory that it needs, and no directory in the
-- place of a file, the generator ends without an exception. It leaves, for each machine and its place
-- in the list, the file of the node, with that place and the ip of the machine, and the file of the
-- chain, where each machine that differs from it is the party whose id is its place, and the machine
-- itself is no party.
pub generate_conf-files :
    {Machine : Type 0} ⦃e : Eq Machine⦄ (ip_of : Machine → Text) (nodes : List Machine)
    (disk : Disk Content) (i j : ℕ) (n : Machine)
    → IsClear disk
    → get_elem? nodes i ≡ some n
    → (disk' : Disk Content) × (conf : ChainConf) × (generate_conf ip_of nodes disk ≡ ok disk')
      × (lookup (chain_path i) disk'.entries ≡ some (chain_json conf))
      × (conf.m_chain_hash ≡ 1234)
      × (party_at j conf.nodes ≡ other_party ip_of n j (get_elem? nodes j))
      × (lookup (node_path i) disk'.entries
          ≡ some (
              node_json (record {
                id = i;
                ip = ip_of n;
                port = 1400;
                local_port = 1122;
                chain_config_dir = codes "/tmp/node/m_chains";
                pipes_dir = codes "/tmp/node/pipes";
                redis_host = codes "localhost";
                redis_port = 6378;
              })))
unfolding generate_conf chain_conf node_conf
generate_conf-files ip_of nodes disk i j n c h =
    let (disk', run, kept, done) = write_nodes_lem ip_of nodes 0 nodes disk c in
    let (chain, node) = done i i n (omega arith) h in
    (
      disk',
      chain_conf ip_of n nodes,
      run,
      chain,
      refl,
      party_at-parties_from ip_of 0 j j n nodes (omega arith),
      node,
    )
