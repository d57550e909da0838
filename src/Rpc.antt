-- ===== src/Rpc.antt =====
-- internal/rpc/rpc.go: the choice of the node and the retries. The HTTP exchange is a parameter:
-- what an attempt at a node gives. `json.Unmarshal` keeps a field whose member is missing.
pub mod Retry
use aave_v3_flash_liquidator.Prelude.{
  ℕ, zero, suc, ◌+◌, ◌%◌, ◌^◌, ◌&&◌, Bool, true, false, List, [], ◌∷◌, Option, none, some, length,
  get_or, if◌then◌else◌,
}
use aave_v3_flash_liquidator.Text.{Text}
use aave_v3_flash_liquidator.Run.{Run, ok, panic}

pub record RpcClient : Type 0 where
  pub rpc_urls : List Text
  pub current_index : ℕ

-- Whether the two embedded ABIs can be read is given.
unfoldable pub new_rpc_client : Bool → Bool → List Text → Run RpcClient
new_rpc_client pool_abi_reads e_mode_abi_reads [] = panic
new_rpc_client pool_abi_reads e_mode_abi_reads (url ∷ urls) =
    if pool_abi_reads && e_mode_abi_reads
    then ok (record { rpc_urls = url ∷ urls; current_index = 0 })
    else panic

-- The URL, and the client with its counter moved on.
unfoldable pub get_next_url : RpcClient → Text × RpcClient
get_next_url r =
    let idx = (r.current_index + 1) % 2 ^ 64 in
    (get_or r.rpc_urls (idx % length r.rpc_urls) [], record r { current_index = idx })

-- The member "error" of a reply.
pub data ErrorMember : Type 0 where
  absent : ErrorMember
  null : ErrorMember
  object : Option Text → ErrorMember

-- An attempt: no request, no reply, or HTTP 429 or 5xx; or a body, whether it decodes, and its
-- members "result" and "error".
pub data Attempt : Type 0 where
  unreachable : Attempt
  body : Bool → Option Text → ErrorMember → Attempt

-- The variable `result` of the call, which all attempts share.
pub record ResultSlot : Type 0 where
  pub value : Text
  pub error : Option Text

unfoldable pub decode_error : ErrorMember → Option Text → Option Text
decode_error absent old = old
decode_error null old = none
decode_error (object (some message)) old = some message
decode_error (object none) (some message) = some message
decode_error (object none) none = some []

unfoldable pub decode : Option Text → ErrorMember → ResultSlot → ResultSlot
decode value error slot = record {
  value = elim value [ none ↦ slot.value | some v ↦ v ];
  error = decode_error error slot.error;
}

-- The loop, with the number of attempts that are left; `none` is the error of the call.
unfoldable pub attempt_loop :
    (ℕ → Text → Attempt) → ℕ → ℕ → ResultSlot → RpcClient → Option Text × RpcClient
attempt_loop post zero attempt slot r = (none, r)
attempt_loop post (suc left) attempt slot r =
    let (current_url, r') = get_next_url r in
    elim (post attempt current_url) [
      | unreachable ↦ attempt_loop post left (suc attempt) slot r'
      | body valid value error ↦
          let slot' = decode value error slot in
          let retry = attempt_loop post left (suc attempt) slot' r' in
          if valid
          then (elim slot'.error [ some _ ↦ retry | none ↦ (some slot'.value, r') ])
          else retry
    ]

abbrev pub max_retries : ℕ
max_retries = 5

unfoldable pub call_with_retry : (ℕ → Text → Attempt) → RpcClient → Option Text × RpcClient
call_with_retry post r =
    attempt_loop post (suc max_retries) 0 (record { value = []; error = none }) r
