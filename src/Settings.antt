-- ===== src/Settings.antt =====
-- pkg/core/config.go and main.go: the configuration, and what main makes of the environment variables.
-- A variable that is not set is the empty text.
use Prim.Native.Char.{Char, code}
use zkrollup_go.Base.{
  ℕ, ◌^◌, List, [], ◌∷◌, Option, none, some, String, Bool, true, false, not, ltb, nat_eqb,
  if◌then◌else◌, string_eq, ◌==◌,
}
use zkrollup_go.Base.Int.{ℤ, pos, negsuc, ◌+ℤ◌}
use zkrollup_go.Hashing.{parse_amount, to_int64}

pub record Config : Type 0 where
  pub ethereum_rpc : String
  pub chain_id : ℤ
  pub contract_address : String
  pub sequencer_port : ℤ
  pub sequencer_peer_key : String
  pub bootstrap_peers : List String
  pub batch_size : ℕ
  pub proof_generation : Bool
  pub state_db_path : String
  pub circuit_file : String
  pub proving_key_file : String
  pub verifying_key_file : String
  pub merkle_tree_depth : ℤ
  pub l1_enabled : Bool
  pub l1_private_key : String
  pub l1_batch_submit_period : ℤ
  pub l1_gas_limit : ℕ
  pub l1_gas_price : ℤ

-- `DefaultConfig`
unfoldable pub default_config : Config
default_config = record {
  ethereum_rpc = "http://localhost:8545";
  chain_id = pos 1337;
  contract_address = "";
  sequencer_port = pos 9000;
  sequencer_peer_key = "";
  bootstrap_peers = [];
  batch_size = 1;
  proof_generation = true;
  state_db_path = "./statedb";
  circuit_file = "";
  proving_key_file = "";
  verifying_key_file = "";
  merkle_tree_depth = pos 0;
  l1_enabled = false;
  l1_private_key = "";
  l1_batch_submit_period = pos 300;
  l1_gas_limit = 3000000;
  l1_gas_price = pos 20;
}

abbrev codes : String → List ℕ
codes String.[] = []
codes (String.◌∷◌ c s) = code c ∷ codes s

-- whether an int has room for the number
abbrev is_int : ℤ → Bool
is_int (pos n) = ltb n (2 ^ 63)
is_int (negsuc n) = ltb n (2 ^ 63)

abbrev in_range : Option ℤ → Option ℤ
in_range none = none
in_range (some n) = if is_int n then some n else none

-- `strconv.Atoi`, and `strconv.ParseInt` in base 10 for 64 bits
unfoldable pub atoi : String → Option ℤ
unfolding parse_amount
atoi text = in_range (parse_amount (codes text))

abbrev prepend : Char → List String → List String
prepend c [] = String.◌∷◌ c String.[] ∷ []
prepend c (word ∷ words) = String.◌∷◌ c word ∷ words

-- `strings.Split(text, ",")`
unfoldable pub split_commas : String → List String
split_commas String.[] = String.[] ∷ []
split_commas (String.◌∷◌ c s) =
    let rest = split_commas s in if nat_eqb (code c) b',' then String.[] ∷ rest else prepend c rest

abbrev pub is_set : String → Bool
is_set text = not (text == "")

-- a variable that is a number, or what stands for it
abbrev number_or : ℤ → Option ℤ → ℤ
number_or other none = other
number_or other (some n) = n

abbrev text_or : String → String → String
text_or other text = if is_set text then text else other

-- the block that reads the variables of the L1
unfoldable pub read_l1 : (String → String) → Config → Config
unfolding atoi
read_l1 getenv config = record config {
  l1_enabled = true;
  ethereum_rpc = text_or config.ethereum_rpc (getenv "ETHEREUM_RPC");
  chain_id =
      if is_set (getenv "CHAIN_ID")
      then number_or config.chain_id (atoi (getenv "CHAIN_ID"))
      else config.chain_id;
  contract_address = text_or config.contract_address (getenv "CONTRACT_ADDRESS");
  l1_private_key = text_or config.l1_private_key (getenv "L1_PRIVATE_KEY");
  l1_batch_submit_period =
      if is_set (getenv "L1_BATCH_SUBMIT_PERIOD")
      then number_or config.l1_batch_submit_period (atoi (getenv "L1_BATCH_SUBMIT_PERIOD"))
      else config.l1_batch_submit_period;
}

-- a sum of ints, which wraps around
abbrev wrapped : ℤ → ℤ
wrapped (pos n) = to_int64 n
wrapped (negsuc n) = negsuc n

-- what main starts the sequencer and the RPC server with
pub record Launch : Type 0 where
  pub config : Config
  pub port : ℤ
  pub rpc_port : ℤ
  pub bootstrap : List String
  pub is_leader : Bool

unfoldable pub launch : (String → String) → Launch
unfolding default_config atoi split_commas read_l1
launch getenv =
    let port = number_or default_config.sequencer_port (atoi (getenv "SEQUENCER_PORT")) in
    record {
      config =
          if getenv "L1_ENABLED" == "true" then read_l1 getenv default_config else default_config;
      port = port;
      rpc_port = wrapped (port +ℤ pos 1000);
      bootstrap =
          if is_set (getenv "BOOTSTRAP_PEERS") then split_commas (getenv "BOOTSTRAP_PEERS") else [];
      is_leader = getenv "IS_LEADER" == "true";
    }
