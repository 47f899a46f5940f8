-- ===== src/Configuration/Written.antt =====
-- The directories and the paths of the generator.
pub mod Parties
pub mod Loop
use reliable_broadcast.Prelude.{
  ℕ, ◌+◌, ◌<◌, ◌≡◌, refl, sym, ap, ◌∙◌, zero, suc, Eq, true, false, Option, none, some, List,
  get_elem?, [], ◌∷◌, arith, length, nat_eq, list_eq, list_beq_iff, beq_refl, if◌then◌else◌,
  if_false, if_true, Text, codes, ◌==◌, Bool-cases, inl, inr, contains, Distinct,
}
use reliable_broadcast.Dict.{lookup, insert, lookup-insert}
use reliable_broadcast.Result.{ok, ◌>>=◌}
use reliable_broadcast.Files.{FilePath, Disk, create_dir, write, parent}
use reliable_broadcast.Files.Made.{is_free, on_way, IsMade, create_dir-IsMade, write_lem}
use reliable_broadcast.Decimal.{decimal, read, read-decimal}
use reliable_broadcast.Configuration.{
  Content, chain_json, node_json, node_dir, chain_path, node_path, chain_conf, node_conf,
  write_node, write_nodes, generate_conf,
}

decimal-injective : (i j : ℕ) → decimal i ≡ decimal j → i ≡ j
decimal-injective i j h = sym (read-decimal i) ∙ ap (read 0) h ∙ read-decimal j

none-neq-some {ℓ} : {A : Type ℓ} {a : A} → ¬ (none ≡ some a)
none-neq-some h = cc

pub chain_path-injective : (i j : ℕ) → chain_path i ≡ chain_path j → i ≡ j
unfolding chain_path node_dir codes
chain_path-injective i j h = decimal-injective i j cc

pub node_path-injective : (i j : ℕ) → node_path i ≡ node_path j → i ≡ j
unfolding node_path node_dir codes
node_path-injective i j h = decimal-injective i j cc

pub paths_differ : (i j : ℕ) → ¬ (chain_path i ≡ node_path j)
unfolding chain_path node_path node_dir codes
paths_differ i j h = cc

pub beq_differs : (p q : FilePath) → ¬ (p ≡ q) → (p == q) ≡ false
beq_differs p q differs = elim (Bool-cases (p == q)) [
  | inl same ↦ elim (differs ((list_beq_iff p q).0 same)) [ ]
  | inr other ↦ other
]

abbrev pub nodes_dir : FilePath
nodes_dir = codes "nodes" ∷ []

-- No file stands where a directory is needed, and no directory where a file is.
pub record IsClear (disk : Disk Content) : Type 0 where
  pub above : lookup (codes "nodes" ∷ []) disk.entries ≡ none
  pub node_dir : (i : ℕ) → lookup (node_dir i) disk.entries ≡ none
  pub chain_path : (i : ℕ) → contains disk.directories (chain_path i) ≡ false
  pub node_path : (i : ℕ) → contains disk.directories (node_path i) ≡ false

pub shorter : (i : ℕ) → (¬ (nodes_dir ≡ chain_path i)) × (¬ (nodes_dir ≡ node_path i))
unfolding chain_path node_path node_dir
shorter i = (λ h. cc, λ h. cc)

pub short : (i j : ℕ) → (¬ (node_dir i ≡ chain_path j)) × (¬ (node_dir i ≡ node_path j))
unfolding chain_path node_path node_dir
short i j = (λ h. cc, λ h. cc)

pub way_nodes : (q : FilePath) → ¬ (nodes_dir ≡ q) → on_way [] nodes_dir q ≡ false
unfolding on_way
way_nodes q h = rw (beq_differs nodes_dir q h) refl

pub way_node :
    (i : ℕ) (q : FilePath)
    → ¬ (nodes_dir ≡ q)
    → ¬ (node_dir i ≡ q)
    → on_way [] (node_dir i) q ≡ false
unfolding on_way node_dir
way_node i q h g = rw (beq_differs nodes_dir q h, beq_differs (node_dir i) q g) refl

pub free_nodes : (disk : Disk Content) → IsClear disk → is_free [] nodes_dir disk.entries ≡ true
unfolding is_free
free_nodes disk c = rw c.above refl

pub free_node :
    (i : ℕ) (disk : Disk Content) → IsClear disk → is_free [] (node_dir i) disk.entries ≡ true
unfolding is_free node_dir
free_node i disk c = rw (c.above, c.node_dir i) refl

-- A directory is made, and the disk stays clear.
pub make-IsClear :
    (path : FilePath) (disk : Disk Content)
    → is_free [] path disk.entries ≡ true
    → lookup path disk.entries ≡ none
    → ((j : ℕ) → (on_way [] path (chain_path j) ≡ false) × (on_way [] path (node_path j) ≡ false))
    → IsClear disk
    → (disk' : Disk Content) × (create_dir path disk ≡ ok disk')
      × IsMade path disk disk'
      × IsClear disk'
make-IsClear path disk free absent apart c =
    let (disk', e, made) = create_dir-IsMade path disk free absent in
    (
      disk',
      e,
      made,
      record {
        above = ap (lookup _) made.entries ∙ c.above;
        node_dir = λ i. ap (lookup _) made.entries ∙ c.node_dir i;
        chain_path = λ i. made.others _ (apart i).0 (c.chain_path i);
        node_path = λ i. made.others _ (apart i).1 (c.node_path i);
      },
    )

-- A file written, of a path that no directory has, leaves the disk clear.
pub written-IsClear :
    (path : FilePath) (content : Content) (disk : Disk Content)
    → ¬ (path ≡ nodes_dir)
    → ((j : ℕ) → ¬ (path ≡ node_dir j))
    → IsClear disk
    → IsClear (record disk { entries = insert path content disk.entries })
written-IsClear path content disk other others c = record {
  above =
      lookup-insert path nodes_dir content disk.entries
      ∙ (if_false _ _ (beq_differs path nodes_dir other) ∙ c.above);
  node_dir = λ i.
      lookup-insert path (node_dir i) content disk.entries
      ∙ (if_false _ _ (beq_differs path (node_dir i) (others i)) ∙ c.node_dir i);
  chain_path = c.chain_path;
  node_path = c.node_path;
}
