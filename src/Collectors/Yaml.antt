-- ===== src/Collectors/Yaml.antt =====
-- What `yaml.safe_load` makes of a document, as far as the collector tells values apart. A value that
-- a document refers to twice stands twice.
use cloudops_guard.Prelude.{Bool, true, false, Option, none, some, ite, is_some}
use cloudops_guard.Prelude.Text.{Text, ◌≟◌, text_eq}

-- A key of a `dict`: a `str`, or another hashable value.
pub data YamlKey : Type 0 where
  text_key : Text → YamlKey
  other_key : YamlKey

mutual
  pub data Yaml : Type 0 where
    nothing : Yaml
    boolean : Bool → Yaml
    string : Text → Yaml
    -- a number, a date, `bytes` or a `set`
    scalar : Yaml
    sequence : Sequence → Yaml
    mapping : Mapping → Yaml

  pub data Sequence : Type 0 where
    no_values : Sequence
    element : Yaml → Sequence → Sequence

  -- with its keys in order, none of them twice
  pub data Mapping : Type 0 where
    no_entries : Mapping
    entry : YamlKey → Yaml → Mapping → Mapping

-- `config.get(name)`, which tells a missing key apart
unfoldable pub lookup_entry : Text → Mapping → Option Yaml
lookup_entry name no_entries = none
lookup_entry name (entry (text_key k) v es) = ite (k ≟ name) (some v) (lookup_entry name es)
lookup_entry name (entry other_key v es) = lookup_entry name es

-- `name in config`
abbrev pub has_entry : Text → Mapping → Bool
has_entry name es = is_some (lookup_entry name es)

-- `name in values`
unfoldable pub has_string : Text → Sequence → Bool
has_string name no_values = false
has_string name (element (Yaml.string t) vs) = ite (t ≟ name) true (has_string name vs)
has_string name (element v vs) = has_string name vs
