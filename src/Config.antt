-- ===== src/Config.antt =====
-- config/config.go: the configuration that is read from the environment. The environment, `strconv.Atoi`,
-- the parser of coins and viper are parameters.
use mantlemint.Prelude.{
  ℕ, zero, ℤ, pos, negsuc, ◌≡◌, Bool, Option, none, some, List, [], ◌∷◌, Result, ok, err, bind,
  panic, ◌==◌, if◌then◌else◌, arith,
}
use mantlemint.Bytes.{Bytes, bytes_eq}

-- the names of the variables
pub data Variable : Type 0 where
  env_genesis_path env_mantlemint_home env_chain_id env_rpc_endpoints env_ws_endpoints : Variable
  env_mantlemint_db env_indexer_db env_disable_sync env_enable_export_module env_richlist_length
        env_richlist_threshold :
      Variable

pub record Config (Coin : Type 0) : Type 0 where
  pub genesis_path : Bytes
  pub home : Bytes
  pub chain_id : Bytes
  pub rpc_endpoints : List Bytes
  pub ws_endpoints : List Bytes
  pub mantlemint_db : Bytes
  pub indexer_db : Bytes
  pub disable_sync : Bool
  pub enable_export_module : Bool
  pub richlist_length : ℕ
  pub richlist_threshold : Option Coin

-- What the libraries give: `env` is empty for a variable that is not set, and `merge_in_config` is what
-- viper does with the flags and the configuration file.
pub record Environment : Type 1 where
  pub Coin : Type 0
  pub env : Variable → Bytes
  pub atoi : Bytes → Result ℤ
  pub parse_coin : Bytes → Result Coin
  pub default_node_home : Bytes
  pub merge_in_config : Bytes → Result (Unit {0})

-- `strings.Split(_, ",")`
add_byte : ℕ → List Bytes → List Bytes
add_byte b [] = (b ∷ []) ∷ []
add_byte b (part ∷ parts) = (b ∷ part) ∷ parts

unfoldable pub split : Bytes → List Bytes
unfolding add_byte
split [] = [] ∷ []
split (b ∷ bs) = let parts = split bs in if b == 44 then [] ∷ parts else add_byte b parts

-- "true"
abbrev true_text : Bytes
true_text = 116 ∷ 114 ∷ 117 ∷ 101 ∷ []

or_panic : {A : Type 0} → Result A → Result A
or_panic (ok a) = ok a
or_panic (err _) = err panic

-- the length of the rich list, which must not be negative
length_of : Result ℤ → Result ℕ
length_of (ok (pos n)) = ok n
length_of (ok (negsuc n)) = err panic
length_of (err _) = err panic

module _ (e : Environment) where
  -- getValidEnv
  unfoldable pub get_valid_env : Variable → Result Bytes
  get_valid_env tag = elim (e.env tag) [ [] ↦ err panic | b ∷ bs ↦ ok (b ∷ bs) ]

  -- the function for MantlemintDB
  unfoldable pub mantlemint_db_of : Bytes → Bytes
  mantlemint_db_of name = elim name [ [] ↦ e.default_node_home | b ∷ bs ↦ b ∷ bs ]

  -- the function for RichlistThreshold, of the text of the length, which is a number by then
  unfoldable pub richlist_threshold_of : Bytes → Result (Option e.Coin)
  unfolding get_valid_env or_panic
  richlist_threshold_of length_text = elim (e.atoi length_text) [
    | err _ ↦ ok none
    | ok (pos zero) ↦ ok none
    | ok _ ↦
        bind (get_valid_env env_richlist_threshold)
          λ text. bind (or_panic (e.parse_coin text)) λ coin. ok (some coin)
  ]

  -- newConfig
  unfoldable pub new_config : Result (Config e.Coin)
  unfolding get_valid_env split or_panic length_of mantlemint_db_of richlist_threshold_of
  new_config = bind (get_valid_env env_genesis_path) λ genesis.
      bind (get_valid_env env_mantlemint_home) λ home. bind (get_valid_env env_chain_id) λ chain.
        bind (get_valid_env env_rpc_endpoints) λ rpc. bind (get_valid_env env_ws_endpoints) λ ws.
          bind (get_valid_env env_mantlemint_db) λ db.
            bind (get_valid_env env_indexer_db) λ indexer.
              bind (get_valid_env env_disable_sync) λ no_sync.
                bind (get_valid_env env_enable_export_module) λ exports.
                  bind (get_valid_env env_richlist_length) λ length_text.
                    bind (length_of (e.atoi length_text)) λ length.
                      bind (richlist_threshold_of length_text) λ threshold.
                        bind (or_panic (e.merge_in_config home)) λ _. ok (record {
                          genesis_path = genesis;
                          home = home;
                          chain_id = chain;
                          rpc_endpoints = split rpc;
                          ws_endpoints = split ws;
                          mantlemint_db = mantlemint_db_of db;
                          indexer_db = indexer;
                          disable_sync = bytes_eq no_sync true_text;
                          enable_export_module = bytes_eq exports true_text;
                          richlist_length = length;
                          richlist_threshold = threshold;
                        })

  -- MantlemintDB is the value of its variable: the default of the source is never used.
  mantlemint_db_set :
      (name : Bytes)
      → get_valid_env env_mantlemint_db ≡ ok name
      → mantlemint_db_of name ≡ e.env env_mantlemint_db
  unfolding get_valid_env mantlemint_db_of
  mantlemint_db_set name h = ground arith
