-- ===== src/Executor/Attempts.antt =====
-- The attempts of `SendLiquidation`.
use mathlib.Core.Path.{subst}
use aave_v3_flash_liquidator.Prelude.{
  ◌⊎◌, ℕ, zero, suc, ◌+◌, ◌%◌, ◌^◌, ◌≤◌, ◌≡◌, ◌≢◌, refl, sym, ◌∙◌, Bool, true, false, Bool-cases,
  Option-cases, inl, inr, [], ◌∷◌, Option, none, some, if◌then◌else◌, pos, All, length, arith,
}
use aave_v3_flash_liquidator.Text.{Text}
use aave_v3_flash_liquidator.Rpc.{RpcClient, get_next_url}
use aave_v3_flash_liquidator.Strategy.{LiquidationRecipe}
use aave_v3_flash_liquidator.Executor.{
  gas_limit_buffer, TxExecutor, ContractLiquidationParams, DynamicFeeTx, GasReply, estimated,
  refused, Broadcast, Node, is_revert, Round, next, abort, unconfirmed, confirmed, Submissions,
  Sending, params_of, call_msg, new_tx, submit, with_gas, send_round, send_loop, send_liquidation,
  is_sent,
}

-- How many transactions the nodes took.
unfoldable pub count_taken : Submissions → ℕ
count_taken [] = 0
count_taken (t ∷ l) = (if t.1.is_taken then 1 else 0) + count_taken l

-- All but the last transaction came back with an error, and the last one without, if the executor
-- reports success; if not, all came back with an error.
pub IsEnded : Bool → Submissions → Type 0
IsEnded sent [] = sent ≡ false
IsEnded sent (t ∷ []) = t.1.no_error ≡ sent
IsEnded sent (t ∷ u ∷ l) = (t.1.no_error ≡ false) × IsEnded sent (u ∷ l)

IsEnded-error :
    (sent : Bool) (t : DynamicFeeTx × Broadcast) (l : Submissions)
    → t.1.no_error ≡ false
    → IsEnded sent l
    → IsEnded sent (t ∷ l)
unfolding IsEnded
IsEnded-error sent t [] e h = e ∙ sym h
IsEnded-error sent t (u ∷ l) e h = (e, h)

module _ (hex_to_address : Text → Text) (pack : ContractLiquidationParams → Option Text)
    (sign : DynamicFeeTx → Option Text) (ex : TxExecutor) (nodes : ℕ → Text → Node) where
  -- The transaction pays for the gas that a node estimated for this call, calls the contract, and
  -- goes to the node that estimated.
  pub record IsSimulated (calldata : Text) (tx : DynamicFeeTx) (reply : Broadcast) : Type 0 where
    pub attempt : ℕ
    pub url : Text
    pub estimate : ℕ
    pub passed :
        (nodes attempt url).estimate_gas (call_msg hex_to_address pack sign ex calldata)
        ≡ estimated estimate
    pub gas : tx.gas ≡ (estimate + gas_limit_buffer) % 2 ^ 64
    pub payload : tx.payload ≡ calldata
    pub to : tx.to ≡ ex.contract
    pub value : tx.value ≡ pos 0
    pub chain : tx.chain_id ≡ ex.chain_id
    pub sent : reply ≡ (nodes attempt url).send_transaction tx

  -- A transaction at a time, each for a simulation that passed, and none after one that came back
  -- without an error; a success means that a node took one.
  pub record IsCareful (calldata : Text) (left : ℕ) (result : Sending) : Type 0 where
    pub few : length result.submitted ≤ left
    pub simulated : All (λ t. IsSimulated calldata t.0 t.1) result.submitted
    pub ended : IsEnded (is_sent result) result.submitted
    pub taken : (if is_sent result then 1 else 0) ≤ count_taken result.submitted

  data IsRound (calldata : Text) : Round → Type 0 where
    on_next : IsRound calldata next
    on_abort : IsRound calldata abort
    on_unconfirmed :
        {tx : DynamicFeeTx} {reply : Broadcast}
        → IsSimulated calldata tx reply
        → reply.no_error ≡ false
        → IsRound calldata (unconfirmed tx reply)
    on_confirmed :
        {tx : DynamicFeeTx} {reply : Broadcast} {hash : Text}
        → IsSimulated calldata tx reply
        → reply.no_error ≡ true
        → reply.is_taken ≡ true
        → hash ≢ []
        → IsRound calldata (confirmed tx reply hash)

  module _ (named : (tx : DynamicFeeTx) (hash : Text) → sign tx ≡ some hash → hash ≢ [])
      (honest : (attempt : ℕ) (url : Text) (tx : DynamicFeeTx)
        → ((nodes attempt url).send_transaction tx).no_error ≡ true
        → ((nodes attempt url).send_transaction tx).is_taken ≡ true)
      (calldata : Text) where
    submit-IsRound :
        (attempt : ℕ) (url : Text) (tx : DynamicFeeTx)
        → IsSimulated calldata tx ((nodes attempt url).send_transaction tx)
        → IsRound calldata (submit hex_to_address pack sign ex (nodes attempt url) tx)
    unfolding submit
    submit-IsRound attempt url tx h = elim (Option-cases (sign tx)) [
      | inl e ↦ rw (submit, e) on_abort
      | inr (hash, e) ↦
          let reply = (nodes attempt url).send_transaction tx in
          let by_error : Bool → Type 0 =
            λ b. IsRound calldata (if b then confirmed tx reply hash else unconfirmed tx reply) in
          rw (submit, e)
            (elim (Bool-cases reply.no_error) [
              | inl d ↦
                  subst by_error (sym d)
                    (on_confirmed h d (honest attempt url tx d) (named tx hash e))
              | inr d ↦ subst by_error (sym d) (on_unconfirmed h d)
            ])
    ]

    with_gas-IsRound :
        (attempt : ℕ) (url : Text) (gas : ℕ)
        → (nodes attempt url).estimate_gas (call_msg hex_to_address pack sign ex calldata)
          ≡ estimated gas
        → IsRound calldata (with_gas hex_to_address pack sign ex (nodes attempt url) calldata gas)
    unfolding with_gas new_tx
    with_gas-IsRound attempt url gas e =
        let node = nodes attempt url in
        elim (Option-cases node.pending_nonce) [
          | inl d ↦ rw (with_gas, d) on_next
          | inr (nonce, d) ↦ elim (Option-cases node.suggest_gas_tip_cap) [
            | inl f ↦ rw (with_gas, d, f) on_next
            | inr (tip, f) ↦ elim (Option-cases node.suggest_gas_price) [
              | inl g ↦ rw (with_gas, d, f, g) on_next
              | inr (cap, g) ↦
                  rw (with_gas, d, f, g)
                    (submit-IsRound attempt url
                      (new_tx hex_to_address pack sign ex calldata gas nonce tip cap)
                      (record {
                        attempt = attempt;
                        url = url;
                        estimate = gas;
                        passed = e;
                        gas = refl;
                        payload = refl;
                        to = refl;
                        value = refl;
                        chain = refl;
                        sent = refl;
                      }))
            ]
          ]
        ]

    GasReply-cases : (g : GasReply) → ((m : Text) × (g ≡ refused m)) ⊎ ((n : ℕ) × (g ≡ estimated n))
    GasReply-cases (refused m) = inl (m, refl)
    GasReply-cases (estimated n) = inr (n, refl)

    send_round-IsRound :
        (attempt : ℕ) (url : Text)
        → IsRound calldata (send_round hex_to_address pack sign ex calldata (nodes attempt url))
    unfolding send_round
    send_round-IsRound attempt url =
        let node = nodes attempt url in
        elim (Bool-cases node.dials) [
          | inr d ↦ rw (send_round, d) on_next
          | inl d ↦
              elim (GasReply-cases
                (node.estimate_gas (call_msg hex_to_address pack sign ex calldata))) [
                  | inr (n, e) ↦ rw (send_round, d, e) (with_gas-IsRound attempt url n e)
                  | inl (m, e) ↦ elim (Bool-cases (is_revert m)) [
                    | inl f ↦ rw (send_round, d, e, f) on_abort
                    | inr f ↦ rw (send_round, d, e, f) on_next
                  ]
                ]
        ]

    is_sent-hash :
        (hash : Text) (l : Submissions) (r : RpcClient)
        → hash ≢ []
        → is_sent (record { tx_hash = some hash; submitted = l; client = r }) ≡ true
    unfolding is_sent
    is_sent-hash [] l r h = absurd (h refl)
    is_sent-hash (c ∷ hash) l r h = refl

    -- What follows a round.
    after_round : Round → Sending → RpcClient → Sending
    after_round round rest r = elim round [
      | next ↦ rest
      | abort ↦ record { tx_hash = none; submitted = []; client = r }
      | unconfirmed tx reply ↦ record rest { submitted = (tx, reply) ∷ rest.submitted }
      | confirmed tx reply hash ↦ record {
        tx_hash = some hash;
        submitted = (tx, reply) ∷ [];
        client = r;
      }
    ]

    after_round-IsCareful :
        {round : Round} (left : ℕ) (rest : Sending) (r : RpcClient)
        → IsRound calldata round
        → IsCareful calldata left rest
        → IsCareful calldata (suc left) (after_round round rest r)
    unfolding after_round is_sent count_taken IsEnded
    after_round-IsCareful left rest r on_next h = record {
      few = omega (arith, h.few);
      simulated = h.simulated;
      ended = h.ended;
      taken = h.taken;
    }
    after_round-IsCareful left rest r on_abort h = record {
      few = omega arith;
      simulated = tt;
      ended = refl;
      taken = omega arith;
    }
    after_round-IsCareful left rest r (on_unconfirmed {tx} {reply} s e) h = record {
      few = ground (arith, h.few);
      simulated = (s, h.simulated);
      ended = IsEnded-error (is_sent rest) (tx, reply) rest.submitted e h.ended;
      taken = omega (arith, h.taken);
    }
    after_round-IsCareful left rest r (on_confirmed s e d n) h = record {
      few = omega arith;
      simulated = (s, tt);
      ended = rw (is_sent-hash _ _ r n) e;
      taken = rw (is_sent-hash _ _ r n, d) (omega arith);
    }

    send_loop-IsCareful :
        (left attempt : ℕ) (r : RpcClient)
        → IsCareful calldata left
            (send_loop hex_to_address pack sign ex nodes calldata left attempt r)
    unfolding send_loop after_round is_sent count_taken IsEnded
    send_loop-IsCareful zero attempt r = record {
      few = omega arith;
      simulated = tt;
      ended = refl;
      taken = omega arith;
    }
    send_loop-IsCareful (suc left) attempt r =
        after_round-IsCareful left _ (get_next_url r).1
          (send_round-IsRound attempt (get_next_url r).0)
          (send_loop-IsCareful left (suc attempt) (get_next_url r).1)

  -- With hashes that are not empty, and nodes that return no error only if they take the
  -- transaction, the executor sends at most three transactions, each with the call data, the
  -- contract, the chain and the gas that the node it goes to estimated for this call plus the
  -- margin; it goes on only after an error of SendTransaction and reports success exactly if the
  -- last one came back without an error, and then a node has taken at least one.
  pub send_liquidation-IsCareful :
      ((tx : DynamicFeeTx) (hash : Text) → sign tx ≡ some hash → hash ≢ [])
      → ((attempt : ℕ) (url : Text) (tx : DynamicFeeTx)
          → ((nodes attempt url).send_transaction tx).no_error ≡ true
          → ((nodes attempt url).send_transaction tx).is_taken ≡ true)
      → (recipe : LiquidationRecipe) (calldata : Text) (r : RpcClient)
      → pack (params_of hex_to_address pack sign ex recipe) ≡ some calldata
      → IsCareful calldata 3 (send_liquidation hex_to_address pack sign ex nodes recipe r)
  unfolding send_liquidation
  send_liquidation-IsCareful named honest recipe calldata r e =
      rw (send_liquidation, e) (send_loop-IsCareful named honest calldata 3 1 r)
