-- ===== src/Configuration.antt =====
-- ops/tests/generate_configs.py: the configuration files of the nodes of a test. A failure to open a
-- file ends it.
pub mod Written
use reliable_broadcast.Prelude.{
  ℕ, ◌+◌, suc, Eq, List, [], ◌∷◌, ◌++◌, contains, nat_eq, list_eq, if◌then◌else◌, Text, codes, ◌==◌,
}
use reliable_broadcast.Result.{Result, ok, ◌>>=◌}
use reliable_broadcast.Files.{FilePath, Disk, create_dir, write}
use reliable_broadcast.Decimal.{decimal}

pub record Party : Type 0 where
  pub id : ℕ
  pub ip : Text
  pub port : ℕ

pub record ChainConf : Type 0 where
  pub m_chain_hash : ℕ
  pub nodes : List Party

pub record NodeConf : Type 0 where
  pub id : ℕ
  pub ip : Text
  pub port : ℕ
  pub local_port : ℕ
  pub chain_config_dir : Text
  pub pipes_dir : Text
  pub redis_host : Text
  pub redis_port : ℕ

-- What `json.dump` writes into a file.
pub data Content : Type 0 where
  chain_json : ChainConf → Content
  node_json : NodeConf → Content

unfoldable pub node_dir : ℕ → FilePath
node_dir i = codes "nodes" ∷ (codes "node_" ++ decimal i) ∷ []

unfoldable pub chain_path : ℕ → FilePath
chain_path i = node_dir i ++ codes "chain.json" ∷ []

unfoldable pub node_path : ℕ → FilePath
node_path i = node_dir i ++ codes "node.json" ∷ []

-- `Machine` is a dictionary that has an `ip`.
module _ {Machine : Type 0} ⦃e : Eq Machine⦄ (ip_of : Machine → Text) where
  unfoldable pub parties_from : ℕ → Machine → List Machine → List Party
  parties_from j n [] = []
  parties_from j n (nn ∷ nodes) =
      let rest = parties_from (suc j) n nodes in
      if n == nn then rest else record { id = j; ip = ip_of nn; port = 1400 } ∷ rest

  unfoldable pub chain_conf : Machine → List Machine → ChainConf
  unfolding parties_from
  chain_conf n nodes = record { m_chain_hash = 1234; nodes = parties_from 0 n nodes }

  unfoldable pub node_conf : ℕ → Machine → NodeConf
  node_conf i n = record {
    id = i;
    ip = ip_of n;
    port = 1400;
    local_port = 1122;
    chain_config_dir = codes "/tmp/node/m_chains";
    pipes_dir = codes "/tmp/node/pipes";
    redis_host = codes "localhost";
    redis_port = 6378;
  }

  -- One turn of the loop.
  unfoldable pub write_node : List Machine → ℕ → Machine → Disk Content → Result (Disk Content)
  unfolding create_dir write chain_conf node_conf
  write_node nodes i n disk = do
    above ← create_dir (codes "nodes" ∷ []) disk
    made ← create_dir (node_dir i) above
    chained ← write (chain_path i) (chain_json (chain_conf n nodes)) made
    write (node_path i) (node_json (node_conf i n)) chained

  unfoldable pub write_nodes :
      List Machine → ℕ → List Machine → Disk Content → Result (Disk Content)
  unfolding write_node
  write_nodes nodes i [] disk = ok disk
  write_nodes nodes i (n ∷ more) disk = do
    written ← write_node nodes i n disk
    write_nodes nodes (suc i) more written

  unfoldable pub generate_conf : List Machine → Disk Content → Result (Disk Content)
  unfolding write_nodes
  generate_conf nodes disk = write_nodes nodes 0 nodes disk
