-- ===== src/Tests/Numbers.antt =====
-- Examples on numbers and texts.
use aave_v3_flash_liquidator.Prelude.{◌+◌, ◌≡◌, [], ◌∷◌, pos, arith, take}
use aave_v3_flash_liquidator.Text.{Text, codes}
use aave_v3_flash_liquidator.Hex.{parse_hex_big_int}
use aave_v3_flash_liquidator.Hex.Digits.{hex_word, parse_hex_big_int-hex_word}
use aave_v3_flash_liquidator.Ray.{ray, ray_mul, ray_div}
use aave_v3_flash_liquidator.Ray.Rounding.{ray_div-ray_mul}
use aave_v3_flash_liquidator.Risk.Queue.{task_queue_size, enqueue_all, enqueue_all-take}

ray_div-ray_mul_example : ray_div (ray_mul (pos 7) (pos (ray + 5))) (pos (ray + 5)) ≡ pos 7
ray_div-ray_mul_example = ray_div-ray_mul 7 (ray + 5) (omega arith)

parse_hex_big_int-hex_word_example : parse_hex_big_int (hex_word 4 4660) ≡ pos 4660
parse_hex_big_int-hex_word_example = parse_hex_big_int-hex_word 4 4660 (omega arith)

abbrev forty : Text
forty = codes "AAaaBBbbCCccDDddEEeeFFff0011223344556677"

enqueue_all-take_example :
    enqueue_all (codes "a" ∷ codes "b" ∷ []) (codes "c" ∷ [])
    ≡ take task_queue_size (codes "c" ∷ codes "a" ∷ codes "b" ∷ [])
enqueue_all-take_example =
    enqueue_all-take (codes "a" ∷ codes "b" ∷ []) (codes "c" ∷ []) (omega arith)
