-- ===== src/Config/Nodes.antt =====
-- The configuration that an environment gives, and the nodes that the RPC client turns to.
use mathlib.Core.Path.{subst}
use mathlib.Core.List.{Memᴰ}
use aave_v3_flash_liquidator.Prelude.{
  ◌≡◌, ◌≢◌, refl, sym, ap, ◌∙◌, ℕ, zero, suc, ◌+◌, ◌<◌, ◌%◌, ◌^◌, Bool, true, false, List, [], ◌∷◌,
  ◌++◌, map, All, length, get_or, some, arith, ℤ,
}
use aave_v3_flash_liquidator.Text.{Text, codes, text_beq, set_string}
use aave_v3_flash_liquidator.Run.{ok, Ends, ends, OnOk, on_ok, OnOk->>=}
use aave_v3_flash_liquidator.Rpc.{RpcClient, new_rpc_client, get_next_url}
use aave_v3_flash_liquidator.Config.{
  AppConfig, split_urls, atoi, require_env, get_env_or_default, checked, chain_id_of, some_urls,
  load_config,
}
use aave_v3_flash_liquidator.Config.Urls.{
  IsUrl, split_urls-IsUrl, Padded, IsPadded, padded_text, join_commas, split_urls-join_commas,
}

get_or-Memᴰ : {A : Type 0} (xs : List A) (i : ℕ) (d : A) → i < length xs → Memᴰ (get_or xs i d) xs
get_or-Memᴰ [] i d h = absurd (omega arith)
get_or-Memᴰ (x ∷ xs) zero d h = Memᴰ.head refl
get_or-Memᴰ (x ∷ xs) (suc i) d h = Memᴰ.tail (get_or-Memᴰ xs i d (omega arith))

All-get_or :
    {A : Type 0} (P : A → Type 0) (xs : List A) (i : ℕ) (d : A)
    → All P xs
    → i < length xs
    → P (get_or xs i d)
All-get_or P [] i d a h = absurd (omega arith)
All-get_or P (x ∷ xs) zero d a h = a.0
All-get_or P (x ∷ xs) (suc i) d a h = All-get_or P xs i d a.1 (omega arith)

-- The URL that a client gives, whatever its counter.
abbrev pub TurnsTo : List Text → RpcClient → Type 0
TurnsTo urls r =
    (count : ℕ)
    → Memᴰ (get_next_url (record r { current_index = count })).0 urls
      × IsUrl (get_next_url (record r { current_index = count })).0

new_rpc_client-TurnsTo :
    (urls : List Text)
    → urls ≢ []
    → All IsUrl urls
    → Ends (TurnsTo urls) (new_rpc_client true true urls)
unfolding new_rpc_client get_next_url
new_rpc_client-TurnsTo [] h a = absurd (h refl)
new_rpc_client-TurnsTo (url ∷ urls) h a = ends (λ count.
    let i = ((count + 1) % 2 ^ 64) % suc (length urls) in
    let within : i < suc (length urls) = omega arith in
    (get_or-Memᴰ (url ∷ urls) i [] within, All-get_or IsUrl (url ∷ urls) i [] a within))

some_urls-ok : (urls kept : List Text) → some_urls urls ≡ ok kept → (kept ≡ urls) × (kept ≢ [])
some_urls-ok [] kept h = absurd (ground (arith, h))
some_urls-ok (url ∷ urls) kept h =
    let same : kept ≡ url ∷ urls = ground (arith, h) in (same, λ e. ground (arith, same, e))

-- The client that is made for a configuration gives its URLs.
abbrev pub GivesUrls : AppConfig → Type 0
GivesUrls cfg = Ends (TurnsTo cfg.rpc_urls) (new_rpc_client true true cfg.rpc_urls)

-- If the configuration is loaded, then a client can be made from its nodes, and whatever the
-- counter of the client is, the next URL is one of the nodes, not empty, with no comma, and with no
-- space at its ends.
pub load_config-GivesUrls :
    (getenv : Text → Text) (is_hex_address : Text → Bool) (hex_to_address : Text → Text)
    → OnOk GivesUrls (load_config getenv is_hex_address hex_to_address)
unfolding load_config
load_config-GivesUrls getenv is_hex_address hex_to_address =
    OnOk->>= (require_env getenv (codes "CHAIN_ID")) _ λ a ea.
      OnOk->>= (chain_id_of (set_string 10 a)) _ λ id eid.
        OnOk->>= (require_env getenv (codes "RPC_URLS")) _ λ raw eraw.
          OnOk->>= (some_urls (split_urls raw)) _ λ urls eurls.
            OnOk->>= (require_env getenv (codes "UNISWAP_V3_FACTORY")) _ λ b eb.
              OnOk->>= (checked (is_hex_address b) b) _ λ c ec.
                OnOk->>= (require_env getenv (codes "MULTICALL3")) _ λ d ed.
                  OnOk->>= (checked (is_hex_address d) d) _ λ f ef.
                    OnOk->>= (require_env getenv (codes "CHAIN_NAME")) _ λ g eg.
                      OnOk->>= (require_env getenv (codes "BOT_PRIVATE_KEY")) _ λ h eh.
                        OnOk->>= (require_env getenv (codes "LIQUIDATOR_CONTRACT")) _ λ i ei.
                          OnOk->>= (require_env getenv (codes "AAVE_V3_POOL")) _ λ j ej.
                            OnOk->>= (require_env getenv (codes "AAVE_V3_ORACLE")) _ λ k ek.
                              OnOk->>= (require_env getenv (codes "WS_URL")) _ λ l el.
                                OnOk->>= (require_env getenv (codes "GRAPH_ENDPOINT")) _ λ m em.
                                  OnOk->>= (require_env getenv (codes "GRAPH_API_KEY")) _ λ n en.
                                    on_ok (
                                      let (same, nonempty) =
                                        some_urls-ok (split_urls raw) urls eurls in
                                      new_rpc_client-TurnsTo urls nonempty
                                        (subst (All IsUrl) (sym same) (split_urls-IsUrl raw)))

-- The variables that are required besides RPC_URLS.
abbrev pub required_keys : List Text
required_keys =
    codes "CHAIN_ID"
    ∷ codes "UNISWAP_V3_FACTORY"
    ∷ codes "MULTICALL3"
    ∷ codes "CHAIN_NAME"
    ∷ codes "BOT_PRIVATE_KEY"
    ∷ codes "LIQUIDATOR_CONTRACT"
    ∷ codes "AAVE_V3_POOL"
    ∷ codes "AAVE_V3_ORACLE"
    ∷ codes "WS_URL"
    ∷ codes "GRAPH_ENDPOINT"
    ∷ codes "GRAPH_API_KEY"
    ∷ []

require_env-ok :
    (getenv : Text → Text) (key : Text)
    → text_beq (getenv key) [] ≡ false
    → require_env getenv key ≡ ok (getenv key)
unfolding require_env
require_env-ok getenv key h = rw (require_env, h) refl

nonempty-append_left : (s t : Text) → text_beq s [] ≡ false → text_beq (s ++ t) [] ≡ false
nonempty-append_left [] t h = absurd (ground (arith, h))
nonempty-append_left (c ∷ s) t h = refl

nonempty-append_right : (s t : Text) → text_beq t [] ≡ false → text_beq (s ++ t) [] ≡ false
nonempty-append_right [] t h = h
nonempty-append_right (c ∷ s) t h = refl

join_commas-nonempty :
    (p : Padded) (ps : List Padded)
    → IsPadded p
    → text_beq (join_commas (map padded_text (p ∷ ps))) [] ≡ false
join_commas-nonempty p [] h =
    nonempty-append_right p.before _ (nonempty-append_left p.url p.after h.url.nonempty)
join_commas-nonempty p (q ∷ ps) h =
    nonempty-append_left (padded_text p) _
      (nonempty-append_right p.before _ (nonempty-append_left p.url p.after h.url.nonempty))

-- If all required variables are set, the chain identifier is a decimal number, both checked
-- addresses are accepted, and RPC_URLS is a list of URLs with spaces around them and commas between
-- them, then the configuration is loaded, with exactly these URLs, the chain identifier and, as
-- number of workers, what Atoi gives for WORKER_COUNT or its default.
pub load_config-Ends :
    (getenv : Text → Text) (is_hex_address : Text → Bool) (hex_to_address : Text → Text)
    (p : Padded) (ps : List Padded) (id : ℤ)
    → All (λ key. text_beq (getenv key) [] ≡ false) required_keys
    → getenv (codes "RPC_URLS") ≡ join_commas (map padded_text (p ∷ ps))
    → All IsPadded (p ∷ ps)
    → set_string 10 (getenv (codes "CHAIN_ID")) ≡ some id
    → is_hex_address (getenv (codes "UNISWAP_V3_FACTORY")) ≡ true
    → is_hex_address (getenv (codes "MULTICALL3")) ≡ true
    → Ends
        (λ (cfg : AppConfig).
          (cfg.rpc_urls ≡ map (λ (q : Padded). q.url) (p ∷ ps))
          × (cfg.chain_id ≡ id)
          × (cfg.worker_count
              ≡ atoi (get_env_or_default getenv (codes "WORKER_COUNT") (codes "8"))))
        (load_config getenv is_hex_address hex_to_address)
unfolding load_config
load_config-Ends getenv is_hex_address hex_to_address p ps id given joined padded chain factory
      multi =
    let raw_set : text_beq (getenv (codes "RPC_URLS")) [] ≡ false =
      rw (joined) (join_commas-nonempty p ps padded.0) in
    let urls : split_urls (getenv (codes "RPC_URLS")) ≡ map (λ (q : Padded). q.url) (p ∷ ps) =
      ap split_urls joined ∙ split_urls-join_commas p ps padded in
    let set = require_env-ok getenv in
    rw
      (
        load_config,
        set (codes "CHAIN_ID") given.0,
        chain,
        set (codes "RPC_URLS") raw_set,
        urls,
        set (codes "UNISWAP_V3_FACTORY") given.1.0,
        factory,
        set (codes "MULTICALL3") given.1.1.0,
        multi,
        set (codes "CHAIN_NAME") given.1.1.1.0,
        set (codes "BOT_PRIVATE_KEY") given.1.1.1.1.0,
        set (codes "LIQUIDATOR_CONTRACT") given.1.1.1.1.1.0,
        set (codes "AAVE_V3_POOL") given.1.1.1.1.1.1.0,
        set (codes "AAVE_V3_ORACLE") given.1.1.1.1.1.1.1.0,
        set (codes "WS_URL") given.1.1.1.1.1.1.1.1.0,
        set (codes "GRAPH_ENDPOINT") given.1.1.1.1.1.1.1.1.1.0,
        set (codes "GRAPH_API_KEY") given.1.1.1.1.1.1.1.1.1.1.0,
      )
      (ends (refl, refl, refl))
