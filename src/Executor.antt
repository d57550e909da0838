-- ===== src/Executor.antt =====
-- internal/engine/tx_executor.go: the transaction of a liquidation. The ABI coder, the signer and
-- the nodes are parameters: what a node answers in one attempt, and the hash of a signed transaction.
pub mod Attempts
pub mod Refused
use aave_v3_flash_liquidator.Prelude.{
  ℕ, zero, suc, ◌+◌, ◌%◌, ◌^◌, Bool, true, false, ◌||◌, List, [], ◌∷◌, Option, none, some,
  if◌then◌else◌, ℤ, pos,
}
use aave_v3_flash_liquidator.Text.{Text, codes, to_lower, has_prefix}
use aave_v3_flash_liquidator.Dex.{FeeCache, get_optimal_fee}
use aave_v3_flash_liquidator.Rpc.{RpcClient, get_next_url}
use aave_v3_flash_liquidator.Strategy.{LiquidationRecipe}

abbrev pub gas_limit_buffer : ℕ
gas_limit_buffer = 20000

abbrev pub max_rpc_retries : ℕ
max_rpc_retries = 3

abbrev pub min_profit_amount : ℤ
min_profit_amount = pos 0

abbrev pub fallback_pool_fee : ℕ
fallback_pool_fee = 3000

pub record TxExecutor : Type 0 where
  pub contract : Text
  pub wallet_addr : Text
  pub chain_id : ℤ
  pub fee_cache : FeeCache

pub record ContractLiquidationParams : Type 0 where
  pub collateral_asset : Text
  pub debt_asset : Text
  pub user_address : Text
  pub debt_to_cover : ℤ
  pub min_profit_amount : ℤ
  pub pool_fee : ℤ

pub record CallMsg : Type 0 where
  pub from : Text
  pub to : Text
  pub value : ℤ
  pub payload : Text

pub record DynamicFeeTx : Type 0 where
  pub chain_id : ℤ
  pub nonce : ℕ
  pub gas_tip_cap : ℤ
  pub gas_fee_cap : ℤ
  pub gas : ℕ
  pub to : Text
  pub value : ℤ
  pub payload : Text

-- `EstimateGas`: the limit, or the text of the error.
pub data GasReply : Type 0 where
  estimated : ℕ → GasReply
  refused : Text → GasReply

-- What becomes of a transaction that is sent: whether the node takes it into its pool, and whether
-- `SendTransaction` returns no error. If the reply is lost, a transaction that was taken is an error.
pub record Broadcast : Type 0 where
  pub is_taken : Bool
  pub no_error : Bool

-- What a node answers in one attempt; `none` is an error.
pub record Node : Type 0 where
  pub dials : Bool
  pub estimate_gas : CallMsg → GasReply
  pub pending_nonce : Option ℕ
  pub suggest_gas_tip_cap : Option ℤ
  pub suggest_gas_price : Option ℤ
  pub send_transaction : DynamicFeeTx → Broadcast

-- `strings.Contains(s, p)`
unfoldable pub contains : Text → Text → Bool
contains [] p = has_prefix p []
contains (c ∷ s) p = has_prefix p (c ∷ s) || contains s p

unfoldable pub is_revert : Text → Bool
is_revert message =
    let err_str = to_lower message in
    contains err_str (codes "revert") || contains err_str (codes "execution reverted")

unfoldable pub target_pool_fee : FeeCache → LiquidationRecipe → ℕ
target_pool_fee cache recipe =
    elim (get_optimal_fee cache recipe.collateral_asset recipe.debt_asset) [
      | none ↦ fallback_pool_fee
      | some fee ↦ fee
    ]

-- One round of the loop: on to the next node, an error at once, or a transaction that was sent, with
-- an error of `SendTransaction`, or with none and this hash.
pub data Round : Type 0 where
  next : Round
  abort : Round
  unconfirmed : DynamicFeeTx → Broadcast → Round
  confirmed : DynamicFeeTx → Broadcast → Text → Round

-- The transactions that were sent, in order, and what became of each.
abbrev pub Submissions : Type 0
Submissions = List (DynamicFeeTx × Broadcast)

-- `none` is an error at once; a text is the hash, which is empty if no attempt succeeded.
pub record Sending : Type 0 where
  pub tx_hash : Option Text
  pub submitted : Submissions
  pub client : RpcClient

module _ (hex_to_address : Text → Text) (pack : ContractLiquidationParams → Option Text)
    (sign : DynamicFeeTx → Option Text) (ex : TxExecutor) where
  unfoldable pub params_of : LiquidationRecipe → ContractLiquidationParams
  params_of recipe = record {
    collateral_asset = hex_to_address recipe.collateral_asset;
    debt_asset = hex_to_address recipe.debt_asset;
    user_address = hex_to_address recipe.user_address;
    debt_to_cover = recipe.debt_to_cover;
    min_profit_amount = min_profit_amount;
    pool_fee = pos (target_pool_fee ex.fee_cache recipe);
  }

  unfoldable pub call_msg : Text → CallMsg
  call_msg calldata = record {
    from = ex.wallet_addr;
    to = ex.contract;
    value = pos 0;
    payload = calldata;
  }

  unfoldable pub new_tx : Text → ℕ → ℕ → ℤ → ℤ → DynamicFeeTx
  new_tx calldata gas_limit nonce tip_cap fee_cap = record {
    chain_id = ex.chain_id;
    nonce = nonce;
    gas_tip_cap = tip_cap;
    gas_fee_cap = fee_cap;
    gas = (gas_limit + gas_limit_buffer) % 2 ^ 64;
    to = ex.contract;
    value = pos 0;
    payload = calldata;
  }

  -- The signature and the broadcast.
  unfoldable pub submit : Node → DynamicFeeTx → Round
  submit node tx = elim (sign tx) [
    | none ↦ abort
    | some hash ↦
        let reply = node.send_transaction tx in
        if reply.no_error then confirmed tx reply hash else unconfirmed tx reply
  ]

  unfoldable pub with_gas : Node → Text → ℕ → Round
  with_gas node calldata gas_limit = elim node.pending_nonce [
    | none ↦ next
    | some nonce ↦ elim node.suggest_gas_tip_cap [
      | none ↦ next
      | some tip_cap ↦ elim node.suggest_gas_price [
        | none ↦ next
        | some fee_cap ↦ submit node (new_tx calldata gas_limit nonce tip_cap fee_cap)
      ]
    ]
  ]

  unfoldable pub send_round : Text → Node → Round
  send_round calldata node =
      if node.dials
      then (elim (node.estimate_gas (call_msg calldata)) [
        | refused message ↦ if is_revert message then abort else next
        | estimated gas_limit ↦ with_gas node calldata gas_limit
      ])
      else next

  -- The loop, with the number of attempts that are left.
  unfoldable pub send_loop : (ℕ → Text → Node) → Text → ℕ → ℕ → RpcClient → Sending
  send_loop nodes calldata zero attempt r = record { tx_hash = some []; submitted = []; client = r }
  send_loop nodes calldata (suc left) attempt r =
      let (rpc_url, r') = get_next_url r in
      let rest = send_loop nodes calldata left (suc attempt) r' in
      elim (send_round calldata (nodes attempt rpc_url)) [
        | next ↦ rest
        | abort ↦ record { tx_hash = none; submitted = []; client = r' }
        | unconfirmed tx reply ↦ record rest { submitted = (tx, reply) ∷ rest.submitted }
        | confirmed tx reply hash ↦ record {
          tx_hash = some hash;
          submitted = (tx, reply) ∷ [];
          client = r';
        }
      ]

  -- `none` if the call data cannot be packed.
  unfoldable pub send_liquidation : (ℕ → Text → Node) → LiquidationRecipe → RpcClient → Sending
  send_liquidation nodes recipe r = elim (pack (params_of recipe)) [
    | none ↦ record { tx_hash = none; submitted = []; client = r }
    | some calldata ↦ send_loop nodes calldata max_rpc_retries 1 r
  ]

-- Whether `SendLiquidation` returns no error.
unfoldable pub is_sent : Sending → Bool
is_sent result = elim result.tx_hash [ none ↦ false | some [] ↦ false | some (c ∷ hash) ↦ true ]
