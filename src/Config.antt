-- ===== src/Config.antt =====
-- internal/config/config.go: the configuration from the environment. `os.Getenv` and the address
-- functions of go-ethereum are parameters; `log.Fatal`, which ends the program, is `panic`. Texts
-- are ASCII.
pub mod Urls
pub mod Nodes
use aave_v3_flash_liquidator.Prelude.{
  ℕ, ◌+◌, ◌-◌, ◌*◌, ◌^◌, Bool, true, false, ◌&&◌, ◌||◌, not, List, [], ◌∷◌, Option, none, some, ltb,
  leb, ◌==◌, if◌then◌else◌, ℤ, pos, neg_ℕ,
}
use aave_v3_flash_liquidator.Text.{Text, codes, text_beq, to_lower, set_string, digit, max_uint64}
use aave_v3_flash_liquidator.Run.{Run, ok, panic, ◌>>=◌}

pub record AppConfig : Type 0 where
  pub chain_name : Text
  pub chain_id : ℤ
  pub bot_private_key : Text
  pub liquidator_contract : Text
  pub aave_v3_pool : Text
  pub aave_v3_oracle : Text
  pub rpc_urls : List Text
  pub ws_url : Text
  pub graph_endpoint : Text
  pub graph_api_key : Text
  pub log_dir : Text
  pub log_max_size : ℤ
  pub log_max_age : ℤ
  pub log_level : Text
  pub worker_count : ℤ
  pub uniswap_v3_factory : Text
  pub multicall3 : Text
  pub state_snapshot_enabled : Bool
  pub state_snapshot_dir : Text

-- `strings.Split(s, sep)` for a separator of one byte.
unfoldable pub split_on : ℕ → Text → List Text
split_on sep [] = [] ∷ []
split_on sep (c ∷ s) =
    let rest = split_on sep s in
    if c == sep
    then [] ∷ rest
    else elim rest [ [] ↦ (c ∷ []) ∷ [] | first ∷ others ↦ (c ∷ first) ∷ others ]

-- Tab, line feed, vertical tab, form feed, carriage return and space.
abbrev pub is_space : ℕ → Bool
is_space c = (leb 9 c && leb c 13) || c == 32

unfoldable pub trim_left : Text → Text
trim_left [] = []
trim_left (c ∷ s) = if is_space c then trim_left s else c ∷ s

unfoldable pub trim_right : Text → Text
trim_right [] = []
trim_right (c ∷ s) = elim (trim_right s) [
  | [] ↦ if is_space c then [] else c ∷ []
  | d ∷ t ↦ c ∷ d ∷ t
]

-- `strings.TrimSpace`
abbrev pub trim_space : Text → Text
trim_space s = trim_right (trim_left s)

-- The loop over the pieces of RPC_URLS.
unfoldable pub clean_urls : List Text → List Text
clean_urls [] = []
clean_urls (url ∷ urls) =
    let rest = clean_urls urls in
    let cleaned = trim_space url in if text_beq cleaned [] then rest else cleaned ∷ rest

unfoldable pub split_urls : Text → List Text
split_urls raw = clean_urls (split_on b',' raw)

-- `strconv.ParseUint(s, 10, 64)`: a number that does not fit ends it with the largest value, a byte
-- that is no digit with `none`.
unfoldable pub parse_decimal : ℕ → Text → Option ℕ
parse_decimal n [] = some n
parse_decimal n (c ∷ s) = elim (digit 10 c) [
  | none ↦ none
  | some d ↦ if ltb max_uint64 (n * 10 + d) then some max_uint64 else parse_decimal (n * 10 + d) s
]

-- `strconv.Atoi` of the standard library, whose error the callers ignore: 0 for what is no number, and the
-- nearest 64-bit number for what does not fit.
unfoldable pub atoi_unsigned : Bool → Text → ℤ
atoi_unsigned negative [] = pos 0
atoi_unsigned negative (c ∷ s) = elim (parse_decimal 0 (c ∷ s)) [
  | none ↦ pos 0
  | some n ↦
      if negative
      then (if ltb (2 ^ 63) n then neg_ℕ (2 ^ 63) else neg_ℕ n)
      else if leb (2 ^ 63) n
      then pos (2 ^ 63 - 1)
      else pos n
]

unfoldable pub atoi : Text → ℤ
atoi [] = pos 0
atoi (c ∷ s) =
    if c == b'-'
    then atoi_unsigned true s
    else if c == b'+'
    then atoi_unsigned false s
    else atoi_unsigned false (c ∷ s)

-- A text that passes a test.
abbrev pub checked : Bool → Text → Run Text
checked passes val = if passes then ok val else panic

abbrev pub chain_id_of : Option ℤ → Run ℤ
chain_id_of none = panic
chain_id_of (some id) = ok id

abbrev pub some_urls : List Text → Run (List Text)
some_urls [] = panic
some_urls (url ∷ urls) = ok (url ∷ urls)

module _ (getenv : Text → Text) where
  unfoldable pub require_env : Text → Run Text
  require_env key = let val = getenv key in if text_beq val [] then panic else ok val

  unfoldable pub get_env_or_default : Text → Text → Text
  get_env_or_default key default_val =
      let val = getenv key in if text_beq val [] then default_val else val

  unfoldable pub load_config : (Text → Bool) → (Text → Text) → Run AppConfig
  load_config is_hex_address hex_to_address = do
    chain_id_raw ← require_env (codes "CHAIN_ID")
    chain_id ← chain_id_of (set_string 10 chain_id_raw)
    rpc_urls_raw ← require_env (codes "RPC_URLS")
    rpc_urls ← some_urls (split_urls rpc_urls_raw)
    factory_raw ← require_env (codes "UNISWAP_V3_FACTORY")
    factory ← checked (is_hex_address factory_raw) factory_raw
    multicall_raw ← require_env (codes "MULTICALL3")
    multicall ← checked (is_hex_address multicall_raw) multicall_raw
    chain_name ← require_env (codes "CHAIN_NAME")
    bot_private_key ← require_env (codes "BOT_PRIVATE_KEY")
    liquidator_contract ← require_env (codes "LIQUIDATOR_CONTRACT")
    aave_v3_pool ← require_env (codes "AAVE_V3_POOL")
    aave_v3_oracle ← require_env (codes "AAVE_V3_ORACLE")
    ws_url ← require_env (codes "WS_URL")
    graph_endpoint ← require_env (codes "GRAPH_ENDPOINT")
    graph_api_key ← require_env (codes "GRAPH_API_KEY")
    ok (record {
      chain_name = chain_name;
      chain_id = chain_id;
      bot_private_key = bot_private_key;
      liquidator_contract = hex_to_address liquidator_contract;
      aave_v3_pool = aave_v3_pool;
      aave_v3_oracle = aave_v3_oracle;
      rpc_urls = rpc_urls;
      ws_url = ws_url;
      graph_endpoint = graph_endpoint;
      graph_api_key = graph_api_key;
      log_dir = get_env_or_default (codes "LOG_DIR") (codes "logs");
      log_max_size = atoi (get_env_or_default (codes "LOG_MAX_SIZE") (codes "100"));
      log_max_age = atoi (get_env_or_default (codes "LOG_MAX_AGE") (codes "7"));
      log_level = get_env_or_default (codes "LOG_LEVEL") (codes "info");
      worker_count = atoi (get_env_or_default (codes "WORKER_COUNT") (codes "8"));
      uniswap_v3_factory = hex_to_address factory;
      multicall3 = hex_to_address multicall;
      state_snapshot_enabled =
          text_beq (to_lower (get_env_or_default (codes "STATE_SNAPSHOT_ENABLED") (codes "true")))
            (codes "true");
      state_snapshot_dir =
          get_env_or_default (codes "STATE_SNAPSHOT_DIR") (codes "state_snapshots");
    })
