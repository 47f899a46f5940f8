-- ===== src/ProcessManager.antt =====
-- process_manager/: the files and the pipes that its scripts make. Opening a file, or making a pipe,
-- fails where the directory is missing, and the scripts print that failure and go on; any other
-- failure ends them.
pub mod Made
use reliable_broadcast.Prelude.{
  ℕ, Bool, true, false, Option, none, some, List, [], ◌∷◌, ◌++◌, contains, list_eq, nat_eq, Eq,
  ◌==◌, if◌then◌else◌, Text, codes, is_some,
}
use reliable_broadcast.Result.{Result, ok, ◌>>=◌}
use reliable_broadcast.Files.{FilePath, Disk, create_dir, remove_old, write, or_printed}

-- A party of a chain, under the keys that the script writes.
pub record Peer : Type 0 where
  pub id : ℕ
  pub host : Text
  pub port : ℕ

pub record Chain : Type 0 where
  pub m_chain_hash : Text
  pub nodes : List Peer

pub record NodeFile : Type 0 where
  pub id : ℕ
  pub ip : Text
  pub port : ℕ
  pub local_port : ℕ
  pub chain_config_dir : Text
  pub pipes_dir : Text

pub data DiskEntry : Type 0 where
  node_file : NodeFile → DiskEntry
  chain_file : Chain → DiskEntry
  fifo : DiskEntry
  unknown : Text → DiskEntry

-- `os.path.join`, of a directory and a name
abbrev pub path_in : FilePath → Text → FilePath
path_in directory name = directory ++ name ∷ []

-- A failure to open the file is printed; one to remove what was there ends the script.
unfoldable pub write_file : FilePath → DiskEntry → Disk DiskEntry → Result (Disk DiskEntry)
unfolding remove_old write or_printed
write_file path content disk = do
  cleared ← remove_old path disk
  ok (or_printed (write path content cleared) cleared)

unfoldable pub make_skale_fifo : FilePath → Disk DiskEntry → Result (Disk DiskEntry)
unfolding remove_old write or_printed
make_skale_fifo path disk = do
  cleared ← remove_old path disk
  ok (or_printed (write path fifo cleared) cleared)

abbrev pub node_directory : FilePath
node_directory = codes "tmp" ∷ codes "node" ∷ []

abbrev pub chains_conf_dir : FilePath
chains_conf_dir = codes "tmp" ∷ codes "node" ∷ codes "m_chains" ∷ []

abbrev pub pipes_dir : FilePath
pipes_dir = codes "tmp" ∷ codes "node" ∷ codes "pipes" ∷ []

abbrev pub default_node : NodeFile
default_node = record {
  id = 1;
  ip = codes "127.0.0.1";
  port = 1401;
  local_port = 1122;
  chain_config_dir = codes "/tmp/node/m_chains";
  pipes_dir = codes "/tmp/node/pipes";
}

abbrev pub default_chain : Chain
default_chain = record {
  m_chain_hash = codes "1234";
  nodes =
      record { id = 0; host = codes "127.0.0.1"; port = 1400 }
      ∷ record { id = 1; host = codes "127.0.0.1"; port = 1401 }
      ∷ [];
}

-- `for f in CHAIN_CONF`
unfoldable pub write_chains : List (Text × Chain) → Disk DiskEntry → Result (Disk DiskEntry)
unfolding make_skale_fifo write_file
write_chains [] disk = ok disk
write_chains ((name, chain) ∷ chains) disk = do
  piped ← make_skale_fifo (path_in pipes_dir chain.m_chain_hash) disk
  written ← write_file (path_in chains_conf_dir (name ++ codes ".json")) (chain_file chain) piped
  write_chains chains written

-- process_manager/init_configs.py, run
unfoldable pub init_configs : Disk DiskEntry → Result (Disk DiskEntry)
unfolding create_dir write_file write_chains
init_configs disk = do
  noded ← create_dir node_directory disk
  piped ← create_dir pipes_dir noded
  chained ← create_dir chains_conf_dir piped
  configured ←
      write_file (path_in node_directory (codes "node_conf.json")) (node_file default_node) chained
  write_chains ((codes "chain_1", default_chain) ∷ []) configured

-- process_manager/pipe_controller.py, run with the two files that it reads
unfoldable pub pipe_controller : FilePath → Text → Disk DiskEntry → Result (Disk DiskEntry)
unfolding make_skale_fifo
pipe_controller node_pipes_dir m_chain_hash disk =
    make_skale_fifo (path_in node_pipes_dir m_chain_hash) disk

unfoldable pub make_fifos : FilePath → List Text → Disk DiskEntry → Result (Disk DiskEntry)
unfolding make_skale_fifo
make_fifos directory [] disk = ok disk
make_fifos directory (name ∷ names) disk = do
  made ← make_skale_fifo (path_in directory name) disk
  make_fifos directory names made

abbrev fifo_dir : FilePath
fifo_dir = codes "tmp" ∷ codes "skale_fifo" ∷ []

-- process_manager/manager.py, run
unfoldable pub manager : Disk DiskEntry → Result (Disk DiskEntry)
unfolding create_dir make_fifos
manager disk = do
  made ← create_dir fifo_dir disk
  make_fifos fifo_dir (codes "_test_fifo" ∷ codes "12345" ∷ []) made
