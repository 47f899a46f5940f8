-- ===== src/ProcessManager/Made.antt =====
-- What process_manager/init_configs.py leaves on the disk.
use reliable_broadcast.Prelude.{
  ◌≡◌, refl, ap, ◌∙◌, true, false, none, some, [], ◌∷◌, ◌++◌, contains, list_eq, nat_eq, list_beq,
  ◌==◌, if◌then◌else◌, codes,
}
use reliable_broadcast.Result.{ok}
use reliable_broadcast.Dict.{lookup}
use reliable_broadcast.Files.{FilePath, Disk, parent, create_dir}
use reliable_broadcast.Files.Made.{is_free, on_way, IsMade, create_dir-IsMade, replaced}
use reliable_broadcast.ProcessManager.{
  DiskEntry, node_file, chain_file, fifo, path_in, write_file, make_skale_fifo, node_directory,
  chains_conf_dir, pipes_dir, default_node, default_chain, write_chains, init_configs,
}

-- The three files that init_configs.py makes.
abbrev pub node_path : FilePath
node_path = path_in node_directory (codes "node_conf.json")

abbrev pub fifo_path : FilePath
fifo_path = path_in pipes_dir (codes "1234")

abbrev pub chain_path : FilePath
chain_path = path_in chains_conf_dir (codes "chain_1.json")

-- No file stands where a directory is needed, and no directory where a file is.
pub record IsClear (disk : Disk DiskEntry) : Type 0 where
  pub tmp : lookup (codes "tmp" ∷ []) disk.entries ≡ none
  pub node_directory : lookup node_directory disk.entries ≡ none
  pub pipes_dir : lookup pipes_dir disk.entries ≡ none
  pub chains_conf_dir : lookup chains_conf_dir disk.entries ≡ none
  pub node_path : contains disk.directories node_path ≡ false
  pub fifo_path : contains disk.directories fifo_path ≡ false
  pub chain_path : contains disk.directories chain_path ≡ false

free_node : (disk : Disk DiskEntry) → IsClear disk → is_free [] node_directory disk.entries ≡ true
unfolding is_free
free_node disk c = rw (c.tmp, c.node_directory) refl

free_pipes : (disk : Disk DiskEntry) → IsClear disk → is_free [] pipes_dir disk.entries ≡ true
unfolding is_free
free_pipes disk c = rw (c.tmp, c.node_directory, c.pipes_dir) refl

free_chains :
    (disk : Disk DiskEntry) → IsClear disk → is_free [] chains_conf_dir disk.entries ≡ true
unfolding is_free
free_chains disk c = rw (c.tmp, c.node_directory, c.chains_conf_dir) refl

-- One of the directories is made, and the disk stays clear.
make-IsClear :
    (path : FilePath) (disk : Disk DiskEntry)
    → is_free [] path disk.entries ≡ true
    → lookup path disk.entries ≡ none
    → on_way [] path node_path ≡ false
    → on_way [] path fifo_path ≡ false
    → on_way [] path chain_path ≡ false
    → IsClear disk
    → (disk' : Disk DiskEntry) × (create_dir path disk ≡ ok disk')
      × IsMade path disk disk'
      × IsClear disk'
make-IsClear path disk free absent node piped chained c =
    let (disk', e, made) = create_dir-IsMade path disk free absent in
    (
      disk',
      e,
      made,
      record {
        tmp = ap (lookup _) made.entries ∙ c.tmp;
        node_directory = ap (lookup _) made.entries ∙ c.node_directory;
        pipes_dir = ap (lookup _) made.entries ∙ c.pipes_dir;
        chains_conf_dir = ap (lookup _) made.entries ∙ c.chains_conf_dir;
        node_path = made.others _ node c.node_path;
        fifo_path = made.others _ piped c.fifo_path;
        chain_path = made.others _ chained c.chain_path;
      },
    )

-- What the three calls of `create_dir` leave.
record IsPrepared (disk disk' : Disk DiskEntry) : Type 0 where
  clear : IsClear disk'
  entries : disk'.entries ≡ disk.entries
  noded : contains disk'.directories node_directory ≡ true
  piped : contains disk'.directories pipes_dir ≡ true
  chained : contains disk'.directories chains_conf_dir ≡ true

prepare :
    (disk : Disk DiskEntry)
    → IsClear disk
    → (a : Disk DiskEntry) × (b : Disk DiskEntry) × (disk' : Disk DiskEntry) × (create_dir
          node_directory disk
        ≡ ok a)
      × (create_dir pipes_dir a ≡ ok b)
      × (create_dir chains_conf_dir b ≡ ok disk')
      × IsPrepared disk disk'
unfolding on_way list_beq codes
prepare disk c =
    let (a, ea, ma, ca) =
      make-IsClear node_directory disk (free_node disk c) c.node_directory refl refl refl c in
    let (b, eb, mb, cb) =
      make-IsClear pipes_dir a (free_pipes a ca) ca.pipes_dir refl refl refl ca in
    let (d, ed, md, cd) =
      make-IsClear chains_conf_dir b (free_chains b cb) cb.chains_conf_dir refl refl refl cb in
    (
      a,
      b,
      d,
      ea,
      eb,
      ed,
      record {
        clear = cd;
        entries = md.entries ∙ (mb.entries ∙ ma.entries);
        noded = md.kept _ (mb.kept _ (ma.there refl));
        piped = md.kept _ (mb.there refl);
        chained = md.there refl;
      },
    )

init_configs-run :
    (disk a b start node piped chained : Disk DiskEntry)
    → create_dir node_directory disk ≡ ok a
    → create_dir pipes_dir a ≡ ok b
    → create_dir chains_conf_dir b ≡ ok start
    → write_file node_path (node_file default_node) start ≡ ok node
    → make_skale_fifo fifo_path node ≡ ok piped
    → write_file
        (path_in chains_conf_dir (codes "chain_1" ++ codes ".json"))
        (chain_file default_chain)
        piped
      ≡ ok chained
    → init_configs disk ≡ ok chained
unfolding init_configs write_chains
init_configs-run disk a b start node piped chained ea eb es en ep ec =
    rw (ea, eb, es, en, ep, ec) refl

-- On a disk where no file stands in the place of a directory that it needs, and no directory in the
-- place of a file, init_configs.py ends without an exception. It leaves its three directories, the
-- configuration of the node, the pipe of the chain and the configuration of the chain, whatever
-- files were there, and no other file changes.
pub lookup-init_configs :
    (path : FilePath) (disk : Disk DiskEntry)
    → IsClear disk
    → (disk' : Disk DiskEntry) × (init_configs disk ≡ ok disk')
      × (contains disk'.directories node_directory ≡ true)
      × (contains disk'.directories pipes_dir ≡ true)
      × (contains disk'.directories chains_conf_dir ≡ true)
      × (lookup path disk'.entries ≡ (
          if chain_path == path
          then some (chain_file default_chain)
          else if fifo_path == path
          then some fifo
          else if node_path == path
          then some (node_file default_node)
          else lookup path disk.entries))
unfolding init_configs write_chains write_file make_skale_fifo codes parent
lookup-init_configs path disk c =
    let (a, b, start, ea, eb, es, p) = prepare disk c in
    let (node, en, dn, ln) =
      replaced node_path (node_file default_node) start p.clear.node_path p.noded in
    let (piped, ep, dp, lp) =
      replaced fifo_path fifo node (ap (λ d. contains d fifo_path) dn ∙ p.clear.fifo_path)
        (ap (λ d. contains d pipes_dir) dn ∙ p.piped) in
    let same = dp ∙ dn in
    let (chained, ec, dc, lc) =
      replaced chain_path (chain_file default_chain) piped
        (ap (λ d. contains d chain_path) same ∙ p.clear.chain_path)
        (ap (λ d. contains d chains_conf_dir) same ∙ p.chained) in
    let all = dc ∙ same in
    (
      chained,
      init_configs-run disk a b start node piped chained ea eb es en ep ec,
      ap (λ d. contains d node_directory) all ∙ p.noded,
      ap (λ d. contains d pipes_dir) all ∙ p.piped,
      ap (λ d. contains d chains_conf_dir) all ∙ p.chained,
      lc path
          ∙ ap (λ r. if chain_path == path then some (chain_file default_chain) else r)
              (lp path
                ∙ ap (λ r. if fifo_path == path then some fifo else r)
                    (ln path
                      ∙ ap
                          (λ e.
                            if node_path == path
                            then some (node_file default_node)
                            else lookup path e)
                          p.entries)),
    )
