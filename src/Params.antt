-- ===== src/Params.antt =====
-- obsidion/params.py: the constants that define a network.
use Prim.Native.String.{String}
use obsidion.Prelude.{ℕ, ◌*◌, Option, some, List, [], ◌∷◌, Bytes}

abbrev pub coin : ℕ
coin = 100_000_000

pub record NetworkParams : Type 0 where
  pub name : String
  pub bech32_hrp : String
  pub magic : Bytes
  pub default_port : ℕ
  pub default_rpc_port : ℕ
  pub initial_subsidy : ℕ
  pub halving_interval : ℕ
  pub target_block_time : ℕ
  pub retarget_interval : ℕ
  pub max_retarget_factor : ℕ
  pub pow_limit_bits : ℕ
  pub pow_algorithm : String
  pub coinbase_maturity : ℕ
  pub max_block_weight : ℕ
  pub median_time_blocks : ℕ
  pub max_future_block_time : ℕ
  pub genesis_timestamp : ℕ
  pub genesis_message : Bytes
  pub seed_nodes : List String
  pub genesis_nonce : Option ℕ

pub max_supply : NetworkParams → ℕ
max_supply p = p.initial_subsidy * p.halving_interval * 2

abbrev pub mainnet : NetworkParams
mainnet = record {
  name = "mainnet";
  bech32_hrp = "obsd";
  magic = 0xb ∷ 0x5d ∷ 0x51 ∷ 0xc3 ∷ [];
  default_port = 9444;
  default_rpc_port = 9445;
  initial_subsidy = 50 * coin;
  halving_interval = 210000;
  target_block_time = 150;
  retarget_interval = 120;
  max_retarget_factor = 4;
  pow_limit_bits = 0x1F0FFFFF;
  pow_algorithm = "scrypt-2mb";
  coinbase_maturity = 100;
  max_block_weight = 1_000_000;
  median_time_blocks = 11;
  max_future_block_time = 600;
  genesis_timestamp = 1_785_628_800;
  genesis_message =
      79 ∷ 98 ∷ 115 ∷ 105 ∷ 100 ∷ 105 ∷ 111 ∷ 110 ∷ 32 ∷ 103 ∷ 101 ∷ 110 ∷ 101 ∷ 115 ∷ 105 ∷ 115
      ∷ 32 ∷ 45 ∷ 32 ∷ 102 ∷ 111 ∷ 114 ∷ 103 ∷ 101 ∷ 100 ∷ 32 ∷ 117 ∷ 110 ∷ 100 ∷ 101 ∷ 114 ∷ 32
      ∷ 112 ∷ 114 ∷ 101 ∷ 115 ∷ 115 ∷ 117 ∷ 114 ∷ 101 ∷ 44 ∷ 32 ∷ 48 ∷ 50 ∷ 32 ∷ 65 ∷ 117 ∷ 103 ∷ 32
      ∷ 50 ∷ 48 ∷ 50 ∷ 54 ∷ [];
  seed_nodes = "obsidioncoin.duckdns.org:9444" ∷ [];
  genesis_nonce = some 1451;
}

abbrev pub testnet : NetworkParams
testnet = record {
  name = "testnet";
  bech32_hrp = "tobsd";
  magic = 0x1a ∷ 0x3f ∷ 0x77 ∷ 0x9e ∷ [];
  default_port = 19444;
  default_rpc_port = 19445;
  initial_subsidy = 50 * coin;
  halving_interval = 1000;
  target_block_time = 30;
  retarget_interval = 60;
  max_retarget_factor = 4;
  pow_limit_bits = 0x1F0FFFFF;
  pow_algorithm = "scrypt-2mb";
  coinbase_maturity = 10;
  max_block_weight = 1_000_000;
  median_time_blocks = 11;
  max_future_block_time = 300;
  genesis_timestamp = 1_785_628_800;
  genesis_message =
      79 ∷ 98 ∷ 115 ∷ 105 ∷ 100 ∷ 105 ∷ 111 ∷ 110 ∷ 32 ∷ 116 ∷ 101 ∷ 115 ∷ 116 ∷ 110 ∷ 101 ∷ 116
      ∷ [];
  seed_nodes = [];
  genesis_nonce = some 1424;
}

abbrev pub regtest : NetworkParams
regtest = record {
  name = "regtest";
  bech32_hrp = "rtobsd";
  magic = 0xda ∷ 0xb5 ∷ 0xbf ∷ 0xfa ∷ [];
  default_port = 19555;
  default_rpc_port = 19556;
  initial_subsidy = 50 * coin;
  halving_interval = 10;
  target_block_time = 1;
  retarget_interval = 10000;
  max_retarget_factor = 4;
  pow_limit_bits = 0x207FFFFF;
  pow_algorithm = "sha256d";
  coinbase_maturity = 2;
  max_block_weight = 1_000_000;
  median_time_blocks = 11;
  max_future_block_time = 600;
  genesis_timestamp = 1_785_628_800;
  genesis_message =
      79 ∷ 98 ∷ 115 ∷ 105 ∷ 100 ∷ 105 ∷ 111 ∷ 110 ∷ 32 ∷ 114 ∷ 101 ∷ 103 ∷ 116 ∷ 101 ∷ 115 ∷ 116
      ∷ [];
  seed_nodes = [];
  genesis_nonce = some 6;
}
