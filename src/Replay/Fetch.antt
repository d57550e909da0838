-- ===== src/Replay/Fetch.antt =====
-- `fetchHistoricLogs` of log_replay_engine.go: the history in chunks of ten blocks. The node is a
-- parameter: `eth_getLogs` for a first and a last block, `none` for an error.
use native.Mathlib.Nat.{zero-add, add-zero}
use mathlib.Core.List.{append_assoc, append-nil}
use aave_v3_flash_liquidator.Prelude.{
  ℕ, zero, suc, ◌+◌, ◌-◌, ◌%◌, ◌^◌, ◌≤◌, ◌<◌, ◌≡◌, refl, ap, sym, ◌∙◌, List, [], ◌++◌, Option, none,
  some, ltb, if◌then◌else◌, arith, Bool-cases, inl, inr,
}
use aave_v3_flash_liquidator.Models.{RpcLog}

abbrev pub chunk_size : ℕ
chunk_size = 10

-- The last block of the chunk that starts at `current_from`; the sums wrap at 64 bits.
unfoldable pub chunk_end : ℕ → ℕ → ℕ
chunk_end current_from to_block =
    let current_to = (current_from + chunk_size - 1) % 2 ^ 64 in
    if ltb to_block current_to then to_block else current_to

-- The loop, on fuel; `none` is an error of the node, or that the fuel ran out.
unfoldable pub fetch_loop : (ℕ → ℕ → Option (List RpcLog)) → ℕ → ℕ → ℕ → Option (List RpcLog)
fetch_loop get_logs zero current_from to_block = none
fetch_loop get_logs (suc fuel) current_from to_block =
    let rest = fetch_loop get_logs fuel ((current_from + chunk_size) % 2 ^ 64) to_block in
    if ltb to_block current_from
    then some []
    else elim (get_logs current_from (chunk_end current_from to_block)) [
      | none ↦ none
      | some logs ↦ elim rest [ none ↦ none | some later ↦ some (logs ++ later) ]
    ]

-- Each chunk moves on by at least one block.
unfoldable pub fetch_historic_logs : (ℕ → ℕ → Option (List RpcLog)) → ℕ → ℕ → Option (List RpcLog)
fetch_historic_logs get_logs from_block to_block =
    fetch_loop get_logs (suc (to_block + 1 - from_block)) from_block to_block

-- The logs of `n` blocks from `from_block` on.
abbrev pub logs_of : (ℕ → List RpcLog) → ℕ → ℕ → List RpcLog
logs_of chain zero from_block = []
logs_of chain (suc n) from_block = chain from_block ++ logs_of chain n (suc from_block)

logs_of-+ :
    (chain : ℕ → List RpcLog) (n m b : ℕ)
    → logs_of chain (n + m) b ≡ logs_of chain n b ++ logs_of chain m (b + n)
logs_of-+ chain zero m b = cc (zero-add m, add-zero b)
logs_of-+ chain (suc n) m b =
    let e1 : suc n + m ≡ suc (n + m) = omega arith in
    let e2 : b + suc n ≡ suc b + n = omega arith in
    rw (e1, e2)
      (ap (λ l. chain b ++ l) (logs_of-+ chain n m (suc b))
        ∙ sym (append_assoc (chain b) (logs_of chain n (suc b)) (logs_of chain m (suc b + n))))

chunk_end_eq :
    (from_block to_block : ℕ)
    → to_block + chunk_size < 2 ^ 64
    → from_block ≤ to_block
    → chunk_end from_block to_block
      ≡ (if ltb to_block (from_block + 9) then to_block else from_block + 9)
unfolding chunk_end
chunk_end_eq from_block to_block small here =
    let e : (from_block + chunk_size - 1) % 2 ^ 64 ≡ from_block + 9 = omega arith in
    rw (chunk_end, e) refl

module _ (chain : ℕ → List RpcLog) (get_logs : ℕ → ℕ → Option (List RpcLog))
    (answers : (a b : ℕ) → a ≤ b → get_logs a b ≡ some (logs_of chain (b + 1 - a) a)) where
  -- The first chunk, and the blocks that are left.
  chunk_split :
      (from_block to_block : ℕ)
      → to_block + chunk_size < 2 ^ 64
      → from_block ≤ to_block
      → logs_of chain (chunk_end from_block to_block + 1 - from_block) from_block
          ++ logs_of chain (to_block + 1 - (from_block + chunk_size)) (from_block + chunk_size)
        ≡ logs_of chain (to_block + 1 - from_block) from_block
  chunk_split from_block to_block small here =
      let m = to_block + 1 - (from_block + chunk_size) in
      elim (Bool-cases (ltb to_block (from_block + 9))) [
        | inl short ↦
            let e1 : chunk_end from_block to_block ≡ to_block =
              rw (chunk_end_eq from_block to_block small here, short) refl in
            let e2 : m ≡ 0 = ground arith in rw (e1, e2) (append-nil _)
        | inr full ↦
            let e1 : chunk_end from_block to_block + 1 - from_block ≡ 10 =
              rw (chunk_end_eq from_block to_block small here, full) (omega arith) in
            let e2 : to_block + 1 - from_block ≡ 10 + m = ground arith in
            rw (e1, e2) (sym (logs_of-+ chain 10 m from_block))
      ]

  fetch_loop_lem :
      (fuel from_block to_block : ℕ)
      → to_block + chunk_size < 2 ^ 64
      → to_block + 1 - from_block < fuel
      → fetch_loop get_logs fuel from_block to_block
        ≡ some (logs_of chain (to_block + 1 - from_block) from_block)
  unfolding fetch_loop
  fetch_loop_lem zero from_block to_block small enough = absurd (omega arith)
  fetch_loop_lem (suc fuel) from_block to_block small enough =
      elim (Bool-cases (ltb to_block from_block)) [
        | inl over ↦
            let none_left : to_block + 1 - from_block ≡ 0 = ground arith in
            rw (fetch_loop, over, none_left) refl
        | inr go ↦
            let here : from_block ≤ to_block = ground arith in
            let next : (from_block + chunk_size) % 2 ^ 64 ≡ from_block + chunk_size = omega arith in
            let last = chunk_end from_block to_block in
            let within : from_block ≤ last =
              ground (arith, chunk_end_eq from_block to_block small here) in
            let later =
              fetch_loop_lem fuel (from_block + chunk_size) to_block small (omega arith) in
            rw (fetch_loop, go, answers from_block last within, next, later)
              (ap some (chunk_split from_block to_block small here))
      ]

  -- With a node that answers every range of blocks with the logs of these blocks in order, and
  -- unless the sums overflow 64 bits, the fetch in chunks ends and gives the logs of the whole
  -- range.
  pub fetch_historic_logs_lem :
      (from_block to_block : ℕ)
      → to_block + chunk_size < 2 ^ 64
      → fetch_historic_logs get_logs from_block to_block
        ≡ some (logs_of chain (to_block + 1 - from_block) from_block)
  unfolding fetch_historic_logs
  fetch_historic_logs_lem from_block to_block small =
      fetch_loop_lem _ from_block to_block small (omega arith)
