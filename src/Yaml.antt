-- ===== src/Yaml.antt =====
-- What the loaders use of yaml-cpp and of the file system. Neither is code of the repository, so both
-- are parameters.
use torrent_builder.Common.{
  ℕ, Bytes, List, [], ◌∷◌, ◌++◌, Bool, Option, none, some, Result, ok, ◌>>=◌, is_empty, codes,
  if◌then◌else◌,
}
use torrent_builder.Text.{starts_with, ends_with}

-- `int`.
pub data ℤ : Type 0 where
  pos : ℕ → ℤ
  negsuc : ℕ → ℤ

-- Documents and their conversions. An error is the text of an exception.
pub record Yaml : Type 1 where
  pub Node : Type 0
  -- `node[key]`, where a key that is not there gives an undefined node, and a scalar throws.
  pub get : Node → Bytes → Result Bytes (Option Node)
  -- The entries of a sequence.
  pub items : Node → List Node
  -- The keys and values of a map.
  pub entries : Node → List (Node × Node)
  pub as_string : Node → Result Bytes Bytes
  pub as_bool : Node → Result Bytes Bool
  pub as_int : Node → Result Bytes ℤ
  pub as_int64 : Node → Result Bytes ℤ
  pub load_file : Bytes → Result Bytes Node

pub record FileSystem : Type 0 where
  pub exists : Bytes → Bool
  pub file_size : Bytes → Result Bytes ℕ
  pub current_path : Bytes
  pub getenv : Bytes → Option Bytes

-- `path / name`, on POSIX.
unfoldable pub join_path : Bytes → Bytes → Bytes
join_path path name =
    if starts_with name (codes "/")
    then name
    else if is_empty path
    then name
    else if ends_with path (codes "/")
    then path ++ name
    else path ++ (b'/' ∷ name)

module _ (yaml : Yaml) where
  -- `if (node[key]) … = node[key].as<A>();`
  unfoldable pub optional_field :
      {A : Type 0} → (yaml.Node → Result Bytes A) → yaml.Node → Bytes → Result Bytes (Option A)
  optional_field as_value node key = do
    found ← yaml.get node key
    elim found [ none ↦ ok none | some value ↦ as_value value >>= λ a. ok (some a) ]

  -- `for (const auto& p : node) patterns.push_back(p.as<std::string>());`
  unfoldable pub strings : List yaml.Node → Result Bytes (List Bytes)
  strings [] = ok []
  strings (node ∷ nodes) = do s ← yaml.as_string node; rest ← strings nodes; ok (s ∷ rest)
