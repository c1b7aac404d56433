-- ===== src/Inference/Models.antt =====
-- The model registry: `model_key`.
use keryx_api_shim.Base.{Option, none, some, List, [], ◌∷◌, Bytes, if◌then◌else◌, ascii}
use keryx_api_shim.Base.Ascii.{eq_ignore_ascii_case}

abbrev pub models : List (Bytes × Bytes)
models =
    (
      ascii "bd34568cd89f5f19c6c3a6e1a61b929bc868709409eaad8e672d85f3c1eb5710",
      ascii "qwen3.5-9b-abliterated",
    )
    ∷ (
      ascii "d42fa6ee00e07d49b046090a56af0e7bd61025937c502e2c574a72874c350d24",
      ascii "qwen3-8b-abliterated",
    )
    ∷ (
      ascii "300a99b3a85b0ab45d1d930bb7b1d4b0f35983d521e79ff21193a6908dc4b810",
      ascii "exaone-4.0-1.2b",
    )
    ∷ (
      ascii "8c2fea600f0eefe7048741a5119cb7be303037f59fc026e48382658f23581e0a",
      ascii "mistral-7b-v0.3",
    )
    ∷ (
      ascii "fa2f13be0850e26c5ce86c7ac79da85e300c1da8b3290f9a18d47105f1f2140a",
      ascii "glm-4-9b-0414",
    )
    ∷ (
      ascii "399984045600f7d58d1b2cf01e6a4bf466fa15c7ac31bd0dd1a71e003b617cc6",
      ascii "gemma-4-12b-abliterated",
    )
    ∷ (
      ascii "73740b443bdc00afda5fa34eb9999d3fea77dcc3f6de238fab701394cdc96fb3",
      ascii "qwen3.8-27b",
    )
    ∷ (
      ascii "b8bdc01fa407eab943e4fefc807483b39f8142785256049e1f559698a5284746",
      ascii "qwen3.6-27b",
    )
    ∷ (
      ascii "3dc09358ad75c6ef0c9c86ee4f47c4d6acda961fecbd0e4f9cf55e8f0fdffddb",
      ascii "kimi-linear-48b",
    )
    ∷ []

-- `iter().find(...)`
unfoldable pub find_model : Bytes → List (Bytes × Bytes) → Option Bytes
find_model model_id_hex [] = none
find_model model_id_hex ((id, key) ∷ l) =
    if eq_ignore_ascii_case id model_id_hex then some key else find_model model_id_hex l

unfoldable pub model_key : Bytes → Option Bytes
model_key model_id_hex = find_model model_id_hex models
