-- ===== src/Tests/Settings.antt =====
-- Examples on the configuration: an environment with two nodes.
use aave_v3_flash_liquidator.Prelude.{◌≡◌, refl, true, [], ◌∷◌, pos, if◌then◌else◌}
use aave_v3_flash_liquidator.Text.{
  Text, codes, text_beq, text_eq, set_string, parse_magnitude, parse_digits,
}
use aave_v3_flash_liquidator.Run.{Ends, OnOk}
use aave_v3_flash_liquidator.Config.{
  AppConfig, atoi, atoi_unsigned, parse_decimal, get_env_or_default, load_config, trim_left,
  trim_right,
}
use aave_v3_flash_liquidator.Config.Urls.{Padded, IsPadded}
use aave_v3_flash_liquidator.Config.Nodes.{GivesUrls, load_config-GivesUrls, load_config-Ends}

abbrev first_node : Padded
first_node = record { before = []; url = codes "http://a"; after = codes " " }

abbrev second_node : Padded
second_node = record { before = codes " "; url = codes "http://b"; after = [] }

abbrev pub getenv : Text → Text
getenv key =
    if text_beq key (codes "RPC_URLS")
    then codes "http://a , http://b"
    else if text_beq key (codes "CHAIN_ID")
    then codes "8453"
    else if text_beq key (codes "WORKER_COUNT")
    then codes "12"
    else codes "0x1"

first-IsPadded : IsPadded first_node
unfolding trim_left trim_right
first-IsPadded = record {
  before = tt;
  url = record {
    nonempty = refl;
    left = refl;
    right = refl;
    no_comma = (refl, (refl, (refl, (refl, (refl, (refl, (refl, (refl, tt))))))));
  };
  after = (refl, tt);
}

second-IsPadded : IsPadded second_node
unfolding trim_left trim_right
second-IsPadded = record {
  before = (refl, tt);
  url = record {
    nonempty = refl;
    left = refl;
    right = refl;
    no_comma = (refl, (refl, (refl, (refl, (refl, (refl, (refl, (refl, tt))))))));
  };
  after = tt;
}

load_config-GivesUrls_example :
    OnOk GivesUrls (load_config getenv (λ address. true) (λ address. address))
load_config-GivesUrls_example = load_config-GivesUrls getenv (λ address. true) (λ address. address)

-- A number of workers that is no number counts as zero.
no_workers : atoi (codes "many") ≡ pos 0
unfolding atoi atoi_unsigned parse_decimal
no_workers = refl

load_config-Ends_example :
    Ends
      (λ (cfg : AppConfig).
        (cfg.rpc_urls ≡ codes "http://a" ∷ codes "http://b" ∷ [])
        × (cfg.chain_id ≡ pos 8453)
        × (cfg.worker_count ≡ pos 12))
      (load_config getenv (λ address. true) (λ address. address))
unfolding get_env_or_default set_string parse_magnitude parse_digits atoi atoi_unsigned
    parse_decimal
load_config-Ends_example =
    load_config-Ends getenv (λ address. true) (λ address. address) first_node (second_node ∷ [])
      (pos 8453)
      (refl, (refl, (refl, (refl, (refl, (refl, (refl, (refl, (refl, (refl, (refl, tt)))))))))))
      refl (first-IsPadded, (second-IsPadded, tt)) refl refl refl
