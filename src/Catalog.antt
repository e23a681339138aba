-- ===== src/Catalog.antt =====
-- internal/catalog/catalog.go: the catalogue of models and its lookups.
use yllmd.Base.{
  ℕ, Bool, ◌||◌, String, Option, none, some, List, [], ◌∷◌, ◌==◌, string_eq, if◌then◌else◌,
}

pub record License : Type 0 where
  pub name : String
  pub spdx_id : String
  pub category : String
  pub commercial_use : Bool
  pub acceptance_required : Bool
  pub terms_url : String

pub record Artifact : Type 0 where
  pub format : String
  pub quantization : String
  pub repository : String
  pub revision : String
  pub url : String
  pub filename : String
  pub size_bytes : ℕ
  pub sha256 : String
  pub minimum_runner : String
  pub prompt_template : String

pub record Variant : Type 0 where
  pub id : String
  pub name : String
  pub model_type : String
  pub level : String
  pub parameter_count : String
  pub capabilities : List String
  pub status : String
  pub recommended_ram : ℕ
  pub expected_storage : ℕ
  pub artifact : Option Artifact

pub record Family : Type 0 where
  pub id : String
  pub name : String
  pub publisher : String
  pub countries : List String
  pub description : String
  pub license : License
  pub variants : List Variant

pub record Catalog : Type 0 where
  pub schema_version : ℕ
  pub catalog_version : String
  pub families : List Family

unfoldable pub supported_prompt_template : String → Bool
supported_prompt_template t =
    (t == "qwen2.5-chatml")
    || (t == "phi4-chat")
    || (t == "gemma3-chat")
    || (t == "llama3-instruct")
    || (t == "granite3-chat")
    || (t == "mistral-nemo-instruct")
    || (t == "qwen3-nonthinking-chatml")

-- The inner loop of `Catalog.Variant`.
unfoldable pub find_variant : String → List Variant → Option Variant
find_variant id [] = none
find_variant id (v ∷ vs) = if v.id == id then some v else find_variant id vs

abbrev with_family : Family → Option Variant → Option (Family × Variant) → Option (Family × Variant)
with_family f none rest = rest
with_family f (some v) rest = some (f, v)

find_in_families : String → List Family → Option (Family × Variant)
find_in_families id [] = none
find_in_families id (f ∷ fs) = with_family f (find_variant id f.variants) (find_in_families id fs)

-- `Catalog.Variant`
unfoldable pub variant : Catalog → String → Option (Family × Variant)
unfolding find_variant find_in_families
variant c id = find_in_families id c.families

find_family : String → List Family → Option Family
find_family id [] = none
find_family id (f ∷ fs) = if f.id == id then some f else find_family id fs

-- `Catalog.Family`
unfoldable pub family : Catalog → String → Option Family
unfolding find_family
family c id = find_family id c.families
