-- ===== src/Tests/Starts.antt =====
-- An example on the first filling of the store.
use aave_v3_flash_liquidator.Prelude.{ℕ, ◌≢◌, true, List, [], ◌∷◌, Option, some, arith}
use aave_v3_flash_liquidator.Text.{codes}
use aave_v3_flash_liquidator.Run.{Run, ok, panic, Ends}
use aave_v3_flash_liquidator.Models.{EModeCategory}
use aave_v3_flash_liquidator.Store.Methods.{IsValid}
use aave_v3_flash_liquidator.Prelude.{Assoc}
use aave_v3_flash_liquidator.Bootstrap.{GraphUser, Loaded, bootstrap}
use aave_v3_flash_liquidator.Bootstrap.Loading.{bootstrap-IsValid}
use aave_v3_flash_liquidator.Tests.{ann, weth, quiet}
use aave_v3_flash_liquidator.Tests.Accounts.{quiet-IsValid}

abbrev graph_ann : GraphUser
graph_ann = record {
  id = ann;
  e_mode_category_id = some (codes "2");
  reserves =
      record {
        underlying_asset = weth;
        scaled_a_token_balance = codes "5000";
        scaled_variable_debt = codes "0";
        usage_as_collateral_enabled_on_user = true;
      }
      ∷ [];
}

abbrev no_categories : ℕ → List ℕ → Run (Option (Assoc ℕ EModeCategory))
no_categories block ids = ok (some [])

answers : (block : ℕ) (ids : List ℕ) → no_categories block ids ≢ panic
answers block ids e = absurd (ground (arith, e))

bootstrap-IsValid_example :
    Ends
      (λ (t : Loaded). IsValid t.1)
      (bootstrap (some 7) (λ b. some ([], [])) (λ b. some (graph_ann ∷ [])) no_categories quiet)
bootstrap-IsValid_example =
    bootstrap-IsValid (some 7) (λ b. some ([], [])) (λ b. some (graph_ann ∷ [])) no_categories quiet
      answers quiet-IsValid
