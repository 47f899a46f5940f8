-- ===== src/Witness/Configuration.antt =====
-- The generator of configurations at two machines, each a dictionary with its `ip` only.
use reliable_broadcast.Prelude.{
  ◌+◌, ◌≡◌, refl, some, List, [], ◌∷◌, length, get_elem?, nat_eq, list_eq, list_beq, contains, Text,
  codes,
}
use reliable_broadcast.Result.{ok}
use reliable_broadcast.Dict.{lookup}
use reliable_broadcast.Files.{Disk}
use reliable_broadcast.Configuration.{
  Content, ChainConf, chain_json, node_json, chain_path, node_path, chain_conf, generate_conf,
}
use reliable_broadcast.Configuration.Written.{IsClear}
use reliable_broadcast.Configuration.Written.Parties.{party_at, other_party, chain_conf-others}
use reliable_broadcast.Configuration.Written.Loop.{generate_conf-files}

abbrev machines : List Text
machines = codes "10.0.0.1" ∷ codes "10.0.0.2" ∷ []

abbrev blank : Disk Content
blank = record { directories = []; entries = [] }

blank-IsClear : IsClear blank
unfolding lookup contains
blank-IsClear = record {
  above = refl;
  node_dir = λ i. refl;
  chain_path = λ i. refl;
  node_path = λ i. refl;
}

ip_of : Text → Text
ip_of ip = ip

parties_test : length (chain_conf ip_of (codes "10.0.0.2") machines).nodes ≡ 1
unfolding chain_conf codes list_beq
parties_test = refl

generate_conf-files_example :
    (disk : Disk Content) × (conf : ChainConf) × (generate_conf ip_of machines blank ≡ ok disk)
    × (lookup (chain_path 1) disk.entries ≡ some (chain_json conf))
    × (conf.m_chain_hash ≡ 1234)
    × (party_at 0 conf.nodes ≡ other_party ip_of (codes "10.0.0.2") 0 (get_elem? machines 0))
    × (lookup (node_path 1) disk.entries
        ≡ some (
            node_json (record {
              id = 1;
              ip = ip_of (codes "10.0.0.2");
              port = 1400;
              local_port = 1122;
              chain_config_dir = codes "/tmp/node/m_chains";
              pipes_dir = codes "/tmp/node/pipes";
              redis_host = codes "localhost";
              redis_port = 6378;
            })))
unfolding get_elem?
generate_conf-files_example =
    generate_conf-files ip_of machines blank 1 0 (codes "10.0.0.2") blank-IsClear refl

chain_conf-others_example :
    (party_at 0 (chain_conf ip_of (codes "10.0.0.2") machines).nodes
      ≡ other_party ip_of (codes "10.0.0.2") 0 (get_elem? machines 0))
    × (length (chain_conf ip_of (codes "10.0.0.2") machines).nodes + 1 ≡ length machines)
unfolding contains codes list_beq
chain_conf-others_example =
    chain_conf-others ip_of machines (codes "10.0.0.2") 0 (refl, (refl, tt)) refl
